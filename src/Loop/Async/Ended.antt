-- ===== src/Loop/Async/Ended.antt =====
-- What `api_async_terminate` of api/src/unix/api_async.c does with the messages that a loop has not got
-- to.
use libapi.Base.{ℕ, ◌≡◌, ◌≢◌, List, [], true, false, Option, none, some, has}
use libapi.Memory.{Ptr}
use libapi.Loop.{post_handler, Message, Fleet}
use libapi.Loop.Async.{Action, drain}

-- What is left of a message: that of a post is freed.
abbrev pub after_end : Message → Option Message
after_end m = elim (m.handler) [ post_handler ↦ none | _ ↦ some m ]

-- `w'` is `w` after the loop `l` has ended, with the messages `ms` in its queue `ps`.
pub record Ended (ms : Ptr → Message) (ps : List Ptr) (l : Ptr) (w w' : Fleet) : Type 0 where
  pub empty : w'.queues l ≡ []
  pub queues : (a : Ptr) → a ≢ l → w'.queues a ≡ w.queues a
  pub waiters : w'.waiters ≡ w.waiters
  pub ended : (p : Ptr) → has p ps ≡ true → w'.messages p ≡ after_end (ms p)
  pub others : (p : Ptr) → has p ps ≡ false → w'.messages p ≡ w.messages p

module _ (malloc : Fleet → Ptr) (junk : Message) (perform : Action → Fleet → Fleet)
    (quiet : (a : Action) (w : Fleet) → perform a w ≡ w) (error : ℕ) where
  -- What the handler of a message leaves.
  record Handled (p : Ptr) (m : Message) (w w' : Fleet) : Type 0 where
    queues : w'.queues ≡ w.queues
    waiters : w'.waiters ≡ w.waiters
    message : w'.messages p ≡ after_end m
    others : (a : Ptr) → a ≢ p → w'.messages a ≡ w.messages a

  abbrev drains : ℕ → Ptr → Fleet → Option Fleet
  drains fuel l w = drain malloc junk perform error fuel true l w
