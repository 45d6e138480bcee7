-- ===== src/Loop/Async.antt =====
-- api/src/unix/api_async.c: messages to a loop, and what the loop does with them.
pub mod Exec
pub mod Ended
use libapi.Base.{
  ℕ, zero, suc, List, [], ◌∷◌, Bool, true, false, Option, none, some, ◌==◌, if◌then◌else◌,
}
use libapi.Base.Fallible.{◌>>=◌}
use libapi.Memory.{Ptr, null, Store}
use libapi.Errno.{api_ok, api_terminate, translate}
use libapi.Loop.{
  Handler, post_handler, wakeup_handler, exec_handler, exec_completed_handler, wait_handler,
  Message, Fleet, push, leave, message_at, put, discard,
}

-- What a handler asks of the scheduler: to post a new task of a loop for the message at an address, to
-- execute one, or to wake a task.
pub data Action : Type 0 where
  posts execs : (loop message : Ptr) → Action
  wakes : Ptr → Action

abbrev pub no_memory : ℕ
no_memory = 12

-- What `eventfd_write` answers, 0 or an error, as a result of the library.
abbrev pub written : ℕ → ℕ
written e = if e == 0 then api_ok else translate e

-- `malloc` gives an address or null, and the memory there holds `junk`.
module _ (malloc : Fleet → Ptr) (junk : Message) where
  -- `api_async_post`; `e` is what `eventfd_write` answers.
  unfoldable pub post : ℕ → (loop callback arg : Ptr) → ℕ → Fleet → ℕ × Fleet
  unfolding push
  post e loop callback arg stack_size w =
      let p = malloc w in
      let m = record junk {
        loop = loop;
        handler = post_handler;
        callback = callback;
        arg = arg;
        stack_size = stack_size;
      } in
      if p == null
      then (no_memory, w)
      else (written e, record (put p m w) { queues = push w.queues loop p })

  -- `api_async_wakeup`
  unfoldable pub wakeup : ℕ → (loop task : Ptr) → Fleet → ℕ × Fleet
  unfolding push
  wakeup e loop task w =
      let p = malloc w in
      let m = record junk { loop = loop; handler = wakeup_handler; arg = task } in
      if p == null
      then (no_memory, w)
      else (written e, record (put p m w) { queues = push w.queues loop p })

  -- `api_async_exec` by the task `task` of the loop `current` up to where the task sleeps; the message
  -- is the local at `p`.
  unfoldable pub begin_exec : (p current task loop callback arg : Ptr) → ℕ → Fleet → Fleet
  unfolding push
  begin_exec p current task loop callback arg stack_size w =
      record (put p
        (record {
          loop = loop;
          handler = exec_handler;
          callback = callback;
          arg = arg;
          stack_size = stack_size;
          caller = current;
          task = task;
          result = 0;
        })
        w) { queues = push w.queues loop p }

  -- The rest of it.
  unfoldable pub end_exec : Ptr → Fleet → Option (ℕ × Fleet)
  end_exec p w = message_at w p >>= λ m. some (m.result, discard p w)

  -- `perform` is what the tasks do from when one of them is called or woken until the loop goes on, and
  -- `write` what `eventfd_write` answers.
  module _ (perform : Action → Fleet → Fleet) (write : ℕ) where
    -- The end of `api_async_exec_handler`.
    unfoldable pub answer_exec : Ptr → ℕ → Fleet → Option Fleet
    unfolding post
    answer_exec p result w = message_at w p >>= λ m.
        let done = put p (record m { result = result; handler = exec_completed_handler }) w in
        some ((post write m.caller null null 0 done).1)

    -- A handler, called with its loop `l`, and with the events -1 where that `ends`.
    unfoldable pub handle : (ends : Bool) → Ptr → Handler → Ptr → Message → Fleet → Option Fleet
    unfolding answer_exec
    handle ends l post_handler p m w =
        if ends then some (discard p w) else some (perform (posts l p) w)
    handle ends l wakeup_handler p m w = some (perform (wakes m.arg) w)
    handle ends l exec_handler p m w =
        if ends then answer_exec p api_terminate w else answer_exec p api_ok (perform (execs l p) w)
    handle ends l exec_completed_handler p m w = some (perform (wakes m.task) w)
    handle ends l wait_handler p m w = some (perform (wakes m.task) w)

    -- The loop of `api_async_processor`, on fuel: one round for each message that is popped.
    unfoldable pub drain : ℕ → Bool → Ptr → Fleet → Option Fleet
    unfolding handle leave
    drain zero ends l w = none
    drain (suc fuel) ends l w = elim (w.queues l) [
      | [] ↦ some w
      | p ∷ ps ↦
          let w' = record w { queues = leave w.queues l ps } in
          message_at w' p >>= λ m. handle ends l m.handler p m w' >>= λ v. drain fuel ends l v
    ]

    -- `api_async_terminate`; `e` is the error of `epoll_ctl` or 0.
    unfoldable pub terminate : ℕ → ℕ → Ptr → Fleet → Option (ℕ × Fleet)
    unfolding drain
    terminate fuel e l w = drain fuel true l w >>= λ v. some (translate e, v)

-- `run` is what a callback does, called with its loop and argument.
module _ (run : (callback loop arg : Ptr) → Fleet → Fleet) where
  -- `api_async_task_fn`, the function of a posted task.
  unfoldable pub async_task_fn : Ptr → Fleet → Option Fleet
  async_task_fn p w = message_at w p >>= λ m.
      if m.callback == null then none else some (discard p (run m.callback m.loop m.arg w))

  -- `api_exec_task_fn`
  unfoldable pub exec_task_fn : Ptr → Fleet → Option Fleet
  exec_task_fn p w = message_at w p >>= λ m.
      if m.callback == null then none else some (run m.callback m.loop m.arg w)
