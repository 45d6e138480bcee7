-- ===== src/Timers/Idle.antt =====
-- A call of `api_timer_process` of api/src/api_timer.c in which no timer is due.
use libapi.Base.{
  ℕ, zero, suc, ◌<◌, ◌≡◌, ◌≢◌, refl, ap, ◌∙◌, List, [], ◌∷◌, Bool, true, false, not, ◌&&◌, some,
  ltb, arith, has, length, ne→not_==, All,
}
use libapi.Memory.{Ptr, null, Store}
use libapi.Rbtree
use libapi.Rbtree.{RbNode}
use libapi.Timers.{TimerType, Timer, Timers}
use libapi.Timers.Process.{due, expire_loop, process_lists, process}
use libapi.Timers.Expire.{Distinct, list_of, loop_idle}

-- The nodes that a walk by `api_rbtree_next` meets from some node on.
pub data Walk (depth : ℕ) (nodes : Store RbNode) : Ptr → List Ptr → Type 0 where
  end_of_walk : Walk depth nodes null []
  then_next :
      (l l' : Ptr) (ls : List Ptr)
      → l ≢ null
      → Rbtree.next depth l nodes ≡ some (l', nodes)
      → Walk depth nodes l' ls
      → Walk depth nodes l (l ∷ ls)

-- A list with timers, of a period that is some time.
pub record Filled (depth : ℕ) (t : Timers) (l : Ptr) : Type 0 where
  pub period : ℕ
  pub oldest : Ptr
  pub others : List Ptr
  pub contents : Ptr → Timer
  pub list : t.lists l ≡ some (list_of period (oldest ∷ others))
  pub some_time : 0 < period
  pub timers : (q : Ptr) → has q (oldest ∷ others) ≡ true → t.timers q ≡ some (contents q)
  pub distinct : Distinct (oldest ∷ others)
  pub few : suc (length others) < depth

-- The lists that a call comes to; `depth` is enough fuel for them.
pub record Reached (depth : ℕ) (t : Timers) : Type 0 where
  pub first : Ptr
  pub lists : List Ptr
  pub found : Rbtree.first depth t.root t.nodes ≡ some (first, t.nodes)
  pub walk : Walk depth t.nodes first lists
  pub filled : All (Filled depth t) lists
  pub few : length lists < depth

not_both : (b : Bool) → (not b && false) ≡ false
not_both true = refl
not_both false = refl

module _ (wakeup : Ptr → Timers → Timers) (depth : ℕ) (phantom : Ptr) (type : TimerType) (value : ℕ)
    (never : (issued period : ℕ) → 0 < period → due type value issued period ≡ false) where
  idle_list :
      (version : ℕ) (t : Timers) (l : Ptr) (count : ℕ)
      → l ≢ null
      → (n : Filled depth t l)
      → expire_loop wakeup depth type value version l t n.oldest count ≡ some (t, count)
  idle_list version t l count l_null n =
      loop_idle wakeup type value version l l_null n.period n.contents depth t []
        (n.oldest ∷ n.others) count n.list n.timers
        (λ q i.
          ap (λ x. not (ltb version (n.contents q).version) && x)
            (never (n.contents q).issued n.period n.some_time)
          ∙ not_both (ltb version (n.contents q).version))
        n.distinct n.few

  idle_lists :
      (version fuel : ℕ) (t : Timers) (l : Ptr) (ls : List Ptr) (count : ℕ)
      → Walk depth t.nodes l ls
      → All (Filled depth t) ls
      → length ls < fuel
      → process_lists wakeup fuel depth phantom type value version t l count ≡ some (t, count)
  unfolding process_lists
  idle_lists version zero t l ls count w a few = absurd (omega arith)
  idle_lists version (suc fuel) t l [] count end_of_walk a few = refl
  idle_lists version (suc fuel) t l (_ ∷ ls) count (then_next _ l' _ l_null e w) a few =
      rw
        (
          process_lists,
          ne→not_== l null l_null,
          ne→not_== l null l_null,
          e,
          a.0.list,
          idle_list version t l count l_null a.0,
          a.0.list,
        )
        (idle_lists version fuel t l' ls count w a.1 (omega arith))

  marked :
      (t : Timers) (ls : List Ptr)
      → All (Filled depth t) ls
      → All (Filled depth (record t { processing = true })) ls
  marked t [] n = tt
  marked t (l ∷ ls) (n, ns) = (
    record {
      period = n.period;
      oldest = n.oldest;
      others = n.others;
      contents = n.contents;
      list = n.list;
      some_time = n.some_time;
      timers = n.timers;
      distinct = n.distinct;
      few = n.few;
    },
    marked t ls ns,
  )

  -- Where no timer can be due, `api_timer_process` counts none, and only the mark that it is under way is reset.
  pub process-idle :
      (t : Timers)
      → Reached depth t
      → process wakeup depth phantom t type value ≡ some (record t { processing = false }, 0)
  unfolding process
  process-idle t a =
      rw
        (
          a.found,
          idle_lists t.version depth (record t { processing = true }) a.first a.lists 0 a.walk
              (marked t a.lists a.filled) a.few,
        )
        refl
