-- ===== src/Scheduler.antt =====
-- api/src/api_task.c: the tasks of a loop, of which one runs. A swap of contexts is what the system's
-- `swapcontext` does: the other task goes on behind its own swap, or starts.
pub mod Switch
pub mod Turns
pub mod Event
mod Tests
use libapi.Base.{
  ℕ, ◌*◌, ◌≡◌, Bool, true, false, not, ◌&&◌, Option, none, some, ◌==◌, if◌then◌else◌, sub64,
}
use libapi.Base.Fallible.{◌>>=◌}
use libapi.Memory.{Ptr, null, Store, write}

-- `api_task_t`; `started` tells whether its context has been entered.
pub record Task : Type 0 where
  pub parent : Ptr
  pub stack_size : ℕ
  pub is_done : Bool
  pub is_post : Bool
  pub started : Bool

-- `api_scheduler_t`, with the tasks that exist. `main` is the address of the main task, which is part of
-- the scheduler.
pub record Scheduler : Type 0 where
  pub current : Ptr
  pub prev : Ptr
  pub main : Ptr
  pub value : ℕ
  pub tasks : Store Task

abbrev pub task_at : Scheduler → Ptr → Option Task
task_at s p = if p == null then none else s.tasks p

-- `api_scheduler_init`; the main task runs already.
unfoldable pub init : Ptr → Scheduler → Scheduler
init main s = record s {
  current = main;
  prev = null;
  main = main;
  tasks =
      write s.tasks main (record {
        parent = null;
        stack_size = 0;
        is_done = false;
        is_post = false;
        started = true;
      });
}

-- `api_task_create` at the address `fresh`; `size` is that of `api_task_t`.
unfoldable pub create : (size fresh stack_size : ℕ) → Scheduler → Scheduler
create size fresh stack_size s =
    let asked = if stack_size == 0 then 8 * 1024 else stack_size in
    record s {
      tasks = write s.tasks fresh (record {
        parent = null;
        stack_size = sub64 asked size;
        is_done = false;
        is_post = false;
        started = false;
      });
    }

-- `api_task_delete`: a task does not delete itself.
unfoldable pub delete : Ptr → Scheduler → Option Scheduler
delete p s = task_at s p >>= λ t.
    if s.current == p
    then some s
    else some (record s { tasks = λ a. if a == p then none else s.tasks a })

-- What a task does behind its swap when it goes on: the one before is deleted if it was posted and is
-- done.
unfoldable pub land : Ptr → Scheduler → Option Scheduler
unfolding delete
land me s =
    let s' = record s { current = me } in
    if s.prev == null
    then some s'
    else (task_at s' s.prev >>= λ p.
        if p.is_post && p.is_done
        then (delete s.prev s' >>= λ s''. some (record s'' { prev = null }))
        else some s')

-- Into the context of a task: one that is done has none that it could go on in.
unfoldable pub enter : Ptr → Task → Scheduler → Option Scheduler
unfolding land
enter other o s =
    if o.is_done
    then none
    else if o.started
    then land other s
    else some (record s { tasks = write s.tasks other (record o { started = true }) })

-- `api_task_swapcontext`
unfoldable pub swap : (me other : Ptr) → Scheduler → Option Scheduler
unfolding enter
swap me other s = task_at s me >>= λ m.
    task_at s other >>= λ o. enter other o (record s { prev = me; current = other })

-- `api_task_yield` of the task that runs.
unfoldable pub yield : Ptr → ℕ → Scheduler → Option Scheduler
unfolding swap
yield me value s = task_at s me >>= λ m.
    let s' = record s { value = value } in if me == s.main then some s' else swap me m.parent s'

abbrev pub set_parent : Ptr → Task → Ptr → Bool → Scheduler → Scheduler
set_parent p t parent post s = record s {
  tasks = write s.tasks p (record t { parent = parent; is_post = post });
}

-- `api_task_exec` up to where the task that calls it goes on, with `value` for the answer.
unfoldable pub exec : Ptr → Scheduler → Option Scheduler
unfolding swap
exec p s = task_at s p >>= λ t.
    if t.is_done
    then some s
    else if p == s.main
    then some s
    else swap s.current p (set_parent p t s.current false s)

-- `api_task_post`
unfoldable pub post : Ptr → Scheduler → Option Scheduler
unfolding swap
post p s = task_at s p >>= λ t.
    if t.is_done
    then some s
    else if p == s.main
    then some s
    else swap s.current p (set_parent p t s.main true s)

-- `api_task_sleep`
unfoldable pub sleep : Ptr → Scheduler → Option Scheduler
unfolding swap
sleep me s = swap me s.main s

-- `api_task_wakeup`
unfoldable pub wakeup : Ptr → Scheduler → Option Scheduler
unfolding swap
wakeup p s = task_at s p >>= λ t. swap s.current p s

-- The end of `api_task_entry_point`, after the callback of a task has returned.
unfoldable pub finish : Ptr → Scheduler → Option Scheduler
unfolding swap
finish me s = task_at s me >>= λ t.
    swap me t.parent (record s { tasks = write s.tasks me (record t { is_done = true }) })
