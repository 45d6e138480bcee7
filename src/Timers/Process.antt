-- ===== src/Timers/Process.antt =====
-- api/src/api_timer.c: what the loop does with timers, `api_timer_process`, `api_timer_terminate`
-- and `api_timers_nearest_event`, and what a task does that waits on one.
use libapi.Base.{
  ℕ, zero, suc, List, [], ◌∷◌, Bool, true, false, Option, none, some, ◌==◌, ltb, leb, if◌then◌else◌,
  sub64, u64_max,
}
use libapi.Base.Fallible.{◌>>=◌}
use libapi.Memory.{Ptr, null, write}
use libapi.Rbtree
use libapi.Rbtree.{RbNode, rb, black, Sign, negative, zero_sign, positive, Compare}
use libapi.Timers.{
  TimerType, sleep_timer, Timer, TimerList, Timers, get, without, detach, forget_list, drop_empty,
  set,
}

-- Whether a timer has been waiting for the period of its list. For `sleep_timer` `value` is the
-- time now, for the others it is the time since the last activity.
unfoldable pub due : TimerType → ℕ → ℕ → ℕ → Bool
due sleep_timer value issued period = leb period (sub64 value issued)
due _ value issued period = leb period value

-- `timer->next`; `none` is a read from a timer that has left the list.
unfoldable pub after : Ptr → List Ptr → Option Ptr
after p [] = none
after p (q ∷ qs) =
    let rest = after p qs in if p == q then (elim qs [ [] ↦ some null | r ∷ _ ↦ some r ]) else rest

abbrev pub head_of : TimerList → Ptr
head_of tl = elim (tl.timers) [ [] ↦ null | p ∷ _ ↦ p ]

-- A timer leaves its list, and its task is to be woken.
abbrev pub expire : Timers → Ptr → TimerList → Ptr → Timer → Timers
expire t l tl p m = record t {
  lists = write t.lists l (record tl { timers = without p tl.timers });
  timers = write t.timers p (record m { list = null; elapsed = true });
}

-- `wakeup` is what the rest of the program does with the timers before it waits again.
module _ (wakeup : Ptr → Timers → Timers) where
  -- The inner loop of `api_timer_process`, on fuel: one round for each timer.
  unfoldable pub expire_loop : ℕ → TimerType → ℕ → ℕ → Ptr → Timers → Ptr → ℕ → Option (Timers × ℕ)
  unfolding due after
  expire_loop zero type value version l t p count = none
  expire_loop (suc fuel) type value version l t p count = elim (p == null) [
    | true ↦ some (t, count)
    | false ↦ get t.timers p >>= λ m. get t.lists l >>= λ tl. after p tl.timers >>= λ temp.
        elim (ltb version m.version) [
          | true ↦ expire_loop fuel type value version l t temp count
          | false ↦ elim (due type value m.issued tl.value) [
            | true ↦
                expire_loop fuel type value version l (wakeup m.task (expire t l tl p m)) temp
                  (suc count)
            | false ↦ some (t, count)
          ]
        ]
  ]

  -- The inner loop of `api_timer_terminate`.
  unfoldable pub cancel_loop : ℕ → Ptr → Timers → Ptr → Option Timers
  unfolding after
  cancel_loop zero l t p = none
  cancel_loop (suc fuel) l t p = elim (p == null) [
    | true ↦ some t
    | false ↦ get t.timers p >>= λ m. get t.lists l >>= λ tl. after p tl.timers >>= λ temp.
        cancel_loop fuel l (wakeup m.task (forget_list (detach t l tl p) p m)) temp
  ]

  unfoldable pub cancel_lists : ℕ → ℕ → Ptr → Timers → Ptr → Option Timers
  unfolding cancel_loop drop_empty
  cancel_lists zero depth phantom t l = none
  cancel_lists (suc fuel) depth phantom t l = elim (l == null) [
    | true ↦ some t
    | false ↦ Rbtree.next depth l t.nodes >>= λ next. get t.lists l >>= λ tl.
        cancel_loop depth l t (head_of tl) >>= λ t1.
        drop_empty depth phantom t1 l >>= λ t2. cancel_lists fuel depth phantom t2 (next.0)
  ]

  -- `api_timer_terminate`
  unfoldable pub terminate : ℕ → Ptr → Timers → Option Timers
  unfolding cancel_lists
  terminate depth phantom t = do
    l ← Rbtree.first depth t.root t.nodes
    t' ← cancel_lists depth depth phantom (record t { processing = true }) (l.0)
    some (record t' { processing = false })

  -- The outer loop, on fuel: one round for each list.
  unfoldable pub process_lists :
      ℕ → ℕ → Ptr → TimerType → ℕ → ℕ → Timers → Ptr → ℕ → Option (Timers × ℕ)
  unfolding expire_loop drop_empty
  process_lists zero depth phantom type value version t l count = none
  process_lists (suc fuel) depth phantom type value version t l count = elim (l == null) [
    | true ↦ some (t, count)
    | false ↦ Rbtree.next depth l t.nodes >>= λ next. get t.lists l >>= λ tl.
        expire_loop depth type value version l t (head_of tl) count >>= λ r.
        drop_empty depth phantom (r.0) l >>= λ t'.
        process_lists fuel depth phantom type value version t' (next.0) (r.1)
  ]

  -- `api_timer_process`
  unfoldable pub process : ℕ → Ptr → Timers → TimerType → ℕ → Option (Timers × ℕ)
  unfolding process_lists
  process depth phantom t type value = do
    l ← Rbtree.first depth t.root t.nodes
    r ←
        process_lists depth depth phantom type value t.version (record t { processing = true })
          (l.0) 0
    some (record (r.0) { processing = false }, r.1)

-- `api_timers_nearest_event`
unfoldable pub nearest_event : ℕ → Timers → ℕ → Option ℕ
nearest_event depth t now = do
  l ← Rbtree.first depth t.root t.nodes
  if l.0 == null
      then some u64_max
      else (do tl ← get t.lists (l.0); m ← get t.timers (head_of tl); some (sub64 now m.issued))

-- `API__OK` and `API__TERMINATE`
pub data Outcome : Type 0 where
  ok terminated : Outcome

-- A local timer of a task, cleared.
abbrev pub new_timer : Ptr → Timer
new_timer task = record { list = null; task = task; issued = 0; version = 0; elapsed = false }

-- `api_sleep_exec` and `api_idle_exec` of a task at the time `now`: `p` is the address of the local
-- timer, and `wait` is what happens to the timers until the task goes on.
unfoldable pub wait_exec :
    (wait : Timers → Option Timers)
    → ℕ
    → Ptr
    → Ptr
    → ℕ
    → TimerType
    → Timers
    → Ptr
    → Ptr
    → ℕ
    → Option (Outcome × Timers)
unfolding set
wait_exec wait depth key fresh now type t p task value = if value == 0 then some (ok, t) else (do
  t1 ←
      set depth key fresh now type (record t { timers = write t.timers p (new_timer task) }) p value
  t2 ← wait t1
  m ← get t2.timers p
  some (if m.elapsed then ok else terminated, t2))
