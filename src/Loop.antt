-- ===== src/Loop.antt =====
-- The loops of api/src/unix/api_loop.c and the messages by which they reach each other,
-- api/src/unix/api_async.c and api/src/unix/api_wait.c. A queue is the list of its nodes, which is what
-- Mpscq shows its pops to give; how a loop hears of a message is in Signals.
pub mod Signals
mod Queues
pub mod Async
pub mod Wait
pub mod Start
pub mod Round
pub mod Windows
mod Tests
use libapi.Base.{ℕ, List, [], ◌∷◌, ◌++◌, Option, none, some, ◌==◌, if◌then◌else◌}
use libapi.Memory.{Ptr, null, Store, write}

-- The functions that a message's `handler` may point to.
pub data Handler : Type 0 where
  post_handler wakeup_handler exec_handler exec_completed_handler wait_handler : Handler

-- `api_async_t` and, with the last three fields, `api_exec_t` and `api_wait_t`: `caller` is the loop
-- that waits for the answer and `task` its task.
pub record Message : Type 0 where
  pub handler : Handler
  pub loop : Ptr
  pub callback : Ptr
  pub arg : Ptr
  pub stack_size : ℕ
  pub caller : Ptr
  pub task : Ptr
  pub result : ℕ

-- All loops, each with its `asyncs.queue` and its `waiters`, and the messages that exist.
pub record Fleet : Type 0 where
  pub queues : Ptr → List Ptr
  pub waiters : Ptr → List Ptr
  pub messages : Store Message

-- `api_mpscq_push` to the queue of a loop.
unfoldable pub push : (Ptr → List Ptr) → Ptr → Ptr → Ptr → List Ptr
push queues l p a = if a == l then queues a ++ p ∷ [] else queues a

-- What a pop leaves.
unfoldable pub leave : (Ptr → List Ptr) → Ptr → List Ptr → Ptr → List Ptr
leave queues l ps a = if a == l then ps else queues a

abbrev pub message_at : Fleet → Ptr → Option Message
message_at w p = if p == null then none else w.messages p

abbrev pub put : Ptr → Message → Fleet → Fleet
put p m w = record w { messages = write w.messages p m }

-- `api_free`, and the end of a local's life.
abbrev pub discard : Ptr → Fleet → Fleet
discard p w = record w { messages = λ a. if a == p then none else w.messages a }
