-- ===== src/Timers/Tests.antt =====
-- Timers in a small tree of lists.
use libapi.Base.{
  ℕ, suc, ◌≡◌, ◌≢◌, refl, arith, [], ◌∷◌, true, false, Option, none, some, ◌==◌, if◌then◌else◌, has,
}
use libapi.Memory.{Ptr, null, Store, write, write_same}
use libapi.Rbtree.{RbNode, rb, black, red}
use libapi.Rbtree.Shape.{RbTree, leaf, branch, inorder, height}
use libapi.Timers.{sleep_timer, Timer, TimerList, Timers, set}
use libapi.Timers.Process.{process, new_timer}
use libapi.Timers.Expire.{Distinct, list_of}
use libapi.Timers.Due.{InOrder}
use libapi.Timers.Versions.{timer_at, Waits, Inv, Free, per_list}
use libapi.Timers.Set.{Added}
use libapi.Timers.Start.{set_again}
use libapi.Timers.Timeout.{calculate_wait_timeout, wait_timeout-sleep}

some_node : (n : ℕ) → suc n ≢ null
some_node n = λ e. absurd (omega arith)

-- A list of sleeps of 100 ms at address 10, with the timers 1 and 2, which began at 1000 and 1050.
abbrev first_timer : Timer
first_timer = record { list = 10; task = 71; issued = 1000; version = 1; elapsed = false }

abbrev second_timer : Timer
second_timer = record { list = 10; task = 72; issued = 1050; version = 2; elapsed = false }

abbrev timer_store : Store Timer
timer_store p =
    if p == 1
    then some first_timer
    else if p == 2
    then some second_timer
    else if p == 3
    then some (new_timer 73)
    else none

abbrev list_store : Store TimerList
list_store = write (λ p. none) 10 (list_of 100 (1 ∷ 2 ∷ []))

abbrev node_store : Store RbNode
node_store p = if p == 10 then some (rb null null null black) else none

abbrev two_sleeps : Timers
two_sleeps = record {
  root = 10;
  nodes = node_store;
  lists = list_store;
  timers = timer_store;
  version = 2;
  processing = false;
}

abbrev no_timers : Timers
no_timers = record {
  root = null;
  nodes = λ p. none;
  lists = λ p. none;
  timers = λ p. none;
  version = 0;
  processing = false;
}

abbrev timer_of : Ptr → Timer
timer_of q = if q == 1 then first_timer else second_timer

abbrev leave_alone : Ptr → Timers → Timers
leave_alone task t = t

abbrev outcome : Option (Timers × ℕ) → Option ℕ
outcome none = none
outcome (some (t, n)) = some n

-- At 1120 the first sleep is over, and the second one is not.
process-one : outcome (process leave_alone 5 20 two_sleeps sleep_timer 1120) ≡ some 1
unfolding process write libapi.Rbtree.first libapi.Rbtree.next libapi.Memory.load
process-one = refl

process-both : outcome (process leave_alone 5 20 two_sleeps sleep_timer 1160) ≡ some 2
unfolding process write libapi.Rbtree.first libapi.Rbtree.next libapi.Rbtree.Remove.remove
    libapi.Memory.load libapi.Memory.modify libapi.Rbtree.color_of
process-both = refl

two_timers : (q : Ptr) → has q (1 ∷ 2 ∷ []) ≡ true → timer_store q ≡ some (timer_of q)
two_timers q h = ground arith

two_sleeps-Waits : (q : Ptr) → has q (1 ∷ 2 ∷ []) ≡ true → Waits sleep_timer 1100 timer_store 2 10 q
two_sleeps-Waits q h = record {
  timer = timer_of q;
  here = two_timers q h;
  list = ground arith;
  version = ground arith;
  issued = ground arith;
}

two_sleeps-Inv : Inv sleep_timer 1100 two_sleeps
two_sleeps-Inv = record {
  member = λ a al q e.
      per_list (λ x xl. has q xl.timers ≡ true → Waits sleep_timer 1100 timer_store 2 x q)
        (λ p. none) 10 _ (two_sleeps-Waits q) (λ x xl ne ex. cc ex) a al e;
  distinct =
      per_list (λ x xl. Distinct xl.timers) (λ p. none) 10 _
        (some_node 0, refl, (some_node 1, refl, tt)) (λ x xl ne ex. cc ex);
  order =
      per_list (λ x xl. InOrder sleep_timer (timer_at timer_store) xl.timers) (λ p. none) 10 _
        (((omega arith, omega arith), tt), (tt, tt)) (λ x xl ne ex. cc ex);
}

set_again_example :
    (t' : Timers) × (set 5 20 30 1100 sleep_timer two_sleeps 1 100 ≡ some t')
    × Inv sleep_timer 1100 t'
    × Added sleep_timer 1100 10 100 (2 ∷ []) 1 first_timer two_sleeps t'
set_again_example =
    set_again 5 20 30 sleep_timer 1100 1100 (omega arith) two_sleeps 1 first_timer
      (list_of 100 (1 ∷ 2 ∷ [])) two_sleeps-Inv (some_node 0) (some_node 9) refl
      (write_same (λ p. none) 10 _) (omega arith)

three-Free : Free two_sleeps 3
three-Free = per_list (λ x xl. has 3 xl.timers ≡ false) (λ p. none) 10 _ refl (λ x xl ne ex. cc ex)

abbrev one_list : RbTree
one_list = branch 10 black leaf leaf

-- A sleep of 100 ms that began at 1000: at 1010 the loop waits for 10 ms, and not for 90.
wait_timeout-sleep_example : calculate_wait_timeout 5 two_sleeps no_timers no_timers 1010 ≡ some 10
unfolding height inorder
wait_timeout-sleep_example =
    wait_timeout-sleep 5 two_sleeps no_timers no_timers 1010 one_list 10 1 first_timer 100 90
      (2 ∷ []) refl refl (some_node 9, refl, tt, tt) refl (omega arith) refl (some_node 9)
      (write_same (λ p. none) 10 _) (some_node 0) refl (omega arith) (omega arith) (omega arith)
