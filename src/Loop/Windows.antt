-- ===== src/Loop/Windows.antt =====
-- api/src/win/api_async.c and api/src/win/api_wait.c: messages to a loop of the port to Windows, each of
-- them a packet in the completion port of the loop, with the key of its processor.
pub mod Alike
pub mod Rounds
use libapi.Base.{ℕ, List, [], ◌∷◌, ◌++◌, Bool, true, false, Option, none, some, ◌==◌, if◌then◌else◌}
use libapi.Base.Fallible.{◌>>=◌}
use libapi.Memory.{Ptr, null, Store, write}
use libapi.Errno.{api_ok}
use libapi.Loop.{
  Handler, post_handler, wakeup_handler, exec_handler, exec_completed_handler, wait_handler,
  Message, leave,
}
use libapi.Loop.Async.{Action, posts, execs, wakes, no_memory}

-- `g_api_async_processor`, `g_api_wait_processor` and `g_api_wait_notifier`
pub data Key : Type 0 where
  async_key wait_key notifier_key : Key

pub record Packet : Type 0 where
  pub key : Key
  pub overlapped : Ptr

-- All loops, each with the packets of its port and its list of waiters, and the messages.
pub record Ports : Type 0 where
  pub packets : Ptr → List Packet
  pub waiters : Ptr → List Ptr
  pub messages : Store Message

abbrev pub message_in : Ports → Ptr → Option Message
message_in v p = if p == null then none else v.messages p

abbrev pub put_in : Ptr → Message → Ports → Ports
put_in p m v = record v { messages = write v.messages p m }

abbrev pub discard_in : Ptr → Ports → Ports
discard_in p v = record v { messages = λ a. if a == p then none else v.messages a }

-- `PostQueuedCompletionStatus` that succeeds.
unfoldable pub queue : Ptr → Key → Ptr → Ports → Ports
queue l key p v = record v {
  packets =
      λ a. if a == l then v.packets a ++ record { key = key; overlapped = p } ∷ [] else v.packets a;
}

-- `malloc` gives an address or null, and the memory there holds `junk`. `e` is the error of
-- `PostQueuedCompletionStatus`, 0 if it succeeds; `api_error_translate` keeps it.
module _ (malloc : Ports → Ptr) (junk : Message) where
  -- The end of `api_async_post` and of `api_async_wakeup`.
  unfoldable pub send : ℕ → Ptr → Ptr → Message → Ports → ℕ × Ports
  unfolding queue
  send e loop p m v =
      if p == null
      then (no_memory, v)
      else if e == 0
      then (api_ok, queue loop async_key p (put_in p m v))
      else (e, discard_in p (put_in p m v))

  unfoldable pub post : ℕ → (loop callback arg : Ptr) → ℕ → Ports → ℕ × Ports
  unfolding send
  post e loop callback arg stack_size v =
      send e loop (malloc v)
        (record junk {
          loop = loop;
          callback = callback;
          arg = arg;
          stack_size = stack_size;
          handler = post_handler;
        })
        v

  unfoldable pub wakeup : ℕ → (loop task : Ptr) → Ports → ℕ × Ports
  unfolding send
  wakeup e loop task v =
      send e loop (malloc v)
        (record junk { loop = loop; arg = task; stack_size = 0; handler = wakeup_handler }) v

  -- `api_async_exec` up to where its task sleeps, or with the error that it returns.
  unfoldable pub begin_exec :
      ℕ → (p current task loop callback arg : Ptr) → ℕ → Ports → Option ℕ × Ports
  unfolding queue
  begin_exec e p current task loop callback arg stack_size v =
      let m : Message = record {
        handler = exec_handler;
        loop = loop;
        callback = callback;
        arg = arg;
        stack_size = stack_size;
        caller = current;
        task = task;
        result = 0;
      } in
      if e == 0 then (none, queue loop async_key p (put_in p m v)) else (some e, v)

  -- `perform` is what the tasks do from when one of them is called or woken until the loop goes on.
  module _ (perform : Action → Ports → Ports) (e : ℕ) where
    unfoldable pub answer_exec : Ptr → Ports → Option Ports
    unfolding post
    answer_exec p v = message_in v p >>= λ m.
        let done = put_in p (record m { result = api_ok; handler = exec_completed_handler }) v in
        some ((post e m.caller null null 0 done).1)

    -- The handlers; there is none for waits.
    unfoldable pub handle : Handler → Ptr → Message → Ports → Option Ports
    unfolding answer_exec
    handle post_handler p m v = some (perform (posts m.loop p) v)
    handle wakeup_handler p m v = some (perform (wakes m.arg) v)
    handle exec_handler p m v = answer_exec p (perform (execs m.loop p) v)
    handle exec_completed_handler p m v = some (perform (wakes m.task) v)
    handle wait_handler p m v = none

    -- `api_async_processor`, `api_wait_processor` and `api_wait_notifier` for the loop `l`.
    unfoldable pub processor : Ptr → Key → Ptr → Ports → Option Ports
    unfolding handle leave
    processor l async_key p v = message_in v p >>= λ m. handle m.handler p m v
    processor l wait_key p v = some (record v { waiters = leave v.waiters l (p ∷ v.waiters l) })
    processor l notifier_key p v = message_in v p >>= λ m. some (perform (wakes m.task) v)

-- `api_wait_exec` up to where its task sleeps or, where it does not, up to its return; the wait is the
-- local at `p`.
unfoldable pub wait_exec :
    Message → ℕ → (p current task loop : Ptr) → (sleep : Bool) → Ports → ℕ × Ports
unfolding queue
wait_exec junk e p current task loop sleep v =
    let v' = put_in p (record junk { caller = current; task = task }) v in
    if e == 0
    then (
      api_ok,
      if sleep then queue loop wait_key p v' else discard_in p (queue loop wait_key p v'),
    )
    else (e, discard_in p v')

-- The loop of `api_wait_notify` over the list of waiters.
unfoldable pub notify_list : List Ptr → Ports → Option Ports
unfolding queue
notify_list [] v = some v
notify_list (p ∷ ps) v = message_in v p >>= λ m. notify_list ps (queue m.caller notifier_key p v)

-- `api_wait_notify`
unfoldable pub notify : Ptr → Ports → Option Ports
unfolding notify_list
notify l v = notify_list (v.waiters l) v
