-- ===== src/Timers.antt =====
-- api/src/api_timer.c: timers that wait in lists, one list for each period, with the lists kept in
-- a red-black tree. A list is given by the addresses of its timers in order, which is what the
-- operations of `NodeList` are shown to work on; the tree is the store of `Rbtree`.
pub mod Process
pub mod Expire
pub mod Idle
pub mod Due
pub mod Versions
pub mod Set
pub mod Start
pub mod Timeout
mod Tests
use libapi.Base.{
  ℕ, zero, suc, ◌+◌, ◌≡◌, List, [], ◌∷◌, ◌++◌, Bool, true, false, not, ◌&&◌, Option, none, some,
  ◌==◌, ltb, leb, if◌then◌else◌, add64, sub64, u64_max,
}
use libapi.Base.Fallible.{◌>>=◌}
use libapi.Memory.{Ptr, null, Store, write}
use libapi.Rbtree
use libapi.Rbtree.{RbNode, rb, black, Sign, negative, zero_sign, positive, Compare}
use libapi.Rbtree.Insert.{insert}
use libapi.Rbtree.Remove

-- `api_timer_type_t`
pub data TimerType : Type 0 where
  sleep_timer idle_timer timeout_timer : TimerType

-- `api_timer_t`; its links are in the list that it waits in.
pub record Timer : Type 0 where
  pub list : Ptr
  pub task : Ptr
  pub issued : ℕ
  pub version : ℕ
  pub elapsed : Bool

-- `api_timer_list_t`; its node is in the tree.
pub record TimerList : Type 0 where
  pub value : ℕ
  pub timers : List Ptr

-- `api_timers_t`, with the objects that it reaches.
pub record Timers : Type 0 where
  pub root : Ptr
  pub nodes : Store RbNode
  pub lists : Store TimerList
  pub timers : Store Timer
  pub version : ℕ
  pub processing : Bool

abbrev pub get : {N : Type 0} → Store N → Ptr → Option N
get s p = if p == null then none else s p

abbrev pub value_or_none : Option TimerList → ℕ
value_or_none none = 0
value_or_none (some l) = l.value

abbrev pub value_of : Store TimerList → Ptr → ℕ
value_of lists p = value_or_none (lists p)

unfoldable pub timer_compare : Store TimerList → Compare
timer_compare lists a b =
    if ltb (value_of lists a) (value_of lists b)
    then negative
    else if ltb (value_of lists b) (value_of lists a)
    then positive
    else zero_sign

-- `api_list_remove` for a timer that is in the list.
abbrev pub without : Ptr → List Ptr → List Ptr
without p [] = []
without p (q ∷ qs) = let rest = q ∷ without p qs in if p == q then qs else rest

-- `api_timer_add` at the time `now`.
unfoldable pub add : ℕ → TimerType → Timers → Ptr → Ptr → Option Timers
add now type t l p = do
  m ← get t.timers p
  tl ← get t.lists l
  let v = add64 t.version 1
  some (record t {
    version = v;
    timers = write t.timers p (record m {
      list = l;
      issued = elim type [ idle_timer ↦ m.issued | _ ↦ now ];
      version = v;
    });
    lists = write t.lists l (record tl { timers = tl.timers ++ p ∷ [] });
  })

-- A list with no timers leaves the tree and is freed. `depth` is fuel for the walks in the tree,
-- and `phantom` the address of the local node of `api_rbtree_remove`.
unfoldable pub drop_list : ℕ → Ptr → Timers → Ptr → Option Timers
drop_list depth phantom t l = do
  r ← Rbtree.Remove.remove depth phantom t.root l t.nodes
  some (record t { root = r.0; nodes = r.1; lists = λ a. if a == l then none else t.lists a })

abbrev pub no_timers : TimerList → Bool
no_timers tl = elim (tl.timers) [ [] ↦ true | _ ∷ _ ↦ false ]

unfoldable pub drop_empty : ℕ → Ptr → Timers → Ptr → Option Timers
unfolding drop_list
drop_empty depth phantom t l = do
  tl ← get t.lists l
  if no_timers tl then drop_list depth phantom t l else some t

-- The list for a period, found in the tree or made at the address `fresh`. `key` is the address
-- of the local list that the search compares with.
unfoldable pub list_for : ℕ → Ptr → Ptr → Timers → ℕ → Option (Ptr × Timers)
list_for depth key fresh t value = do
  let searched = write t.lists key (record { value = value; timers = [] })
  found ← Rbtree.search depth (timer_compare searched) t.root key t.nodes
  if found.0 == null
      then (do
        let lists = write t.lists fresh (record { value = value; timers = [] })
        let nodes = write t.nodes fresh (rb null null null black)
        r ← insert depth (timer_compare lists) t.root fresh nodes
        some (fresh, record t { root = r.0; nodes = r.1; lists = lists }))
      else some (found.0, t)

abbrev pub detach : Timers → Ptr → TimerList → Ptr → Timers
detach t l tl p = record t { lists = write t.lists l (record tl { timers = without p tl.timers }) }

abbrev pub forget_list : Timers → Ptr → Timer → Timers
forget_list t p m = record t { timers = write t.timers p (record m { list = null }) }

-- The part of `api_timer_set` for a timer in no list; a period of 0 leaves it in none.
unfoldable pub schedule : ℕ → Ptr → Ptr → ℕ → TimerType → Timers → Ptr → ℕ → Option Timers
schedule depth key fresh now type t p value =
    if value == 0
    then some t
    else (list_for depth key fresh t value >>= λ r. add now type (r.1) (r.0) p)

-- The part for a timer in the list `l`.
unfoldable pub reschedule : ℕ → Ptr → Ptr → ℕ → TimerType → Timers → Ptr → Timer → ℕ → Option Timers
reschedule depth key fresh now type t p m value = do
  tl ← get t.lists m.list
  let t1 = detach t m.list tl p
  if tl.value == value then add now type t1 m.list p else (do
    t2 ← (if t.processing then some t1 else drop_empty depth key t1 m.list)
    schedule depth key fresh now type (forget_list t2 p m) p value)

-- `api_timer_set` at the time `now`. `key` is the address of its local list, and of the local node
-- of `api_rbtree_remove`, which do not live at the same time; `fresh` is what the pool gives.
unfoldable pub set : ℕ → Ptr → Ptr → ℕ → TimerType → Timers → Ptr → ℕ → Option Timers
set depth key fresh now type t p value = do
  m ← get t.timers p
  if m.list == null
      then schedule depth key fresh now type t p value
      else reschedule depth key fresh now type t p m value
