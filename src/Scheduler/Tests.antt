-- ===== src/Scheduler/Tests.antt =====
-- Tasks of api/src/api_task.c that run.
use libapi.Base.{ℕ, ◌≡◌, ◌≢◌, refl, true, false, Option, none, some, arith, ◌==◌, if◌then◌else◌}
use libapi.Base.Fallible.{◌>>=◌}
use libapi.Memory.{Ptr, null}
use libapi.Scheduler.{Task, Scheduler, exec, post, yield, sleep, finish}
use libapi.Scheduler.Switch.{Live}
use libapi.Scheduler.Turns.{exec-yield, post-finish}
use libapi.Scheduler.Event.{Event, signal, end_wait, signal-no_current}

abbrev main_task : Task
main_task = record {
  parent = null;
  stack_size = 0;
  is_done = false;
  is_post = false;
  started = true;
}

abbrev new_task : Task
new_task = record {
  parent = null;
  stack_size = 8;
  is_done = false;
  is_post = false;
  started = false;
}

abbrev waiting_task : Task
waiting_task = record {
  parent = 1;
  stack_size = 8;
  is_done = false;
  is_post = true;
  started = true;
}

-- The main task is at 1, a new one at 2, one that waits at 3.
abbrev tasks : Ptr → Option Task
tasks a =
    if a == 1
    then some main_task
    else if a == 2
    then some new_task
    else if a == 3
    then some waiting_task
    else none

abbrev scheduler : Scheduler
scheduler = record { current = 1; prev = null; main = 1; value = 0; tasks = tasks }

main-Live : Live scheduler 1 main_task
main-Live = record { some_task = omega arith; found = refl; going = refl }

new-Live : Live scheduler 2 new_task
new-Live = record { some_task = omega arith; found = refl; going = refl }

apart : ◌≢◌ {A = ℕ} 2 1
apart = omega arith

three-one : ◌≢◌ {A = ℕ} 3 1
three-one = omega arith

two-three : ◌≢◌ {A = ℕ} 2 3
two-three = omega arith

exec-yield_example :
    (s' : Scheduler) × ((exec 2 scheduler >>= λ s1. yield 2 9 s1) ≡ some s')
    × (s'.current ≡ 1)
    × (s'.value ≡ 9)
    × (s'.tasks 2
        ≡ some (record {
          parent = 1;
          stack_size = 8;
          is_done = false;
          is_post = false;
          started = true;
        }))
exec-yield_example = exec-yield 2 main_task new_task 9 scheduler apart apart main-Live new-Live

post-finish_example :
    (s' : Scheduler) × ((post 2 scheduler >>= λ s1. finish 2 s1) ≡ some s')
    × (s'.current ≡ 1)
    × (s'.prev ≡ null)
    × (s'.tasks 2 ≡ none)
    × ((a : Ptr) → a ≢ 2 → s'.tasks a ≡ tasks a)
post-finish_example = post-finish 2 main_task new_task scheduler apart refl main-Live refl new-Live

abbrev event : Event
event = record { value = 0; reserved = 3 }

waiting-Live : Live scheduler 3 waiting_task
waiting-Live = record { some_task = omega arith; found = refl; going = refl }

signal-no_current_example :
    (s' : Scheduler) × (signal event scheduler ≡ some (record { value = 1; reserved = null }, s'))
    × (s'.current ≡ 3)
    × (sleep ((end_wait 0 false s').1.current) ((end_wait 0 false s').1) ≡ none)
signal-no_current_example =
    signal-no_current event main_task waiting_task scheduler 0 main-Live waiting-Live

-- The task at 2 runs.
abbrev second_runs : Scheduler
second_runs = record { current = 2; prev = null; main = 1; value = 0; tasks = tasks }
