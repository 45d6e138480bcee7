-- ===== src/Device.antt =====
-- api/src/unix/api_stream.c and api/src/unix/api_loop.h: a stream on a descriptor of linux. The events
-- that the loop waits for, the requests of the tasks that wait, and what an event does to them.
pub mod Socket
pub mod File
pub mod FileWrites
pub mod Life
pub mod Tasks
pub mod Sync
pub mod Interest
pub mod Runs
pub mod Promises
mod Tests
use libapi.Base.{
  ℕ, zero, suc, ◌+◌, ◌≡◌, List, [], ◌∷◌, ◌++◌, Bool, true, false, not, ◌&&◌, ◌||◌, Option, none,
  some, ◌==◌, ltb, leb, if◌then◌else◌, length, take, drop, add64, sub64,
}
use libapi.Base.Fallible.{◌>>=◌}
use libapi.Memory.{Ptr, null}
use libapi.Stream.{Bytes, Status}
use libapi.Errno.{eagain, api_ok, translate}

-- A set of events: `EPOLLERR`, `EPOLLHUP`, `EPOLLRDHUP`, `EPOLLIN`, `EPOLLPRI` and `EPOLLOUT`.
pub record EventSet : Type 0 where
  pub error : Bool
  pub hangup : Bool
  pub peer_hangup : Bool
  pub input : Bool
  pub priority : Bool
  pub output : Bool

-- `api_stream_read_t`: `got` is the part of the buffer that is filled, `done` bytes.
pub record ReadRequest : Type 0 where
  pub length : ℕ
  pub got : Bytes
  pub task : Ptr

-- `api_stream_write_t`
pub record WriteRequest : Type 0 where
  pub buffer : Bytes
  pub length : ℕ
  pub offset : ℕ
  pub task : Ptr

-- The calls of the filters' handlers other than reads and writes.
pub data Notice : Type 0 where
  on_error : ℕ → Notice
  on_closed on_peerclosed on_terminate on_read_timeout on_write_timeout : Notice

-- `api_stream_t`: `reading` and `writing` are its `reserved` requests, and `interest` its `e.events`.
-- `sent` is what the descriptor has taken.
pub record Device : Type 0 where
  pub status : Status
  pub reading : Option ReadRequest
  pub writing : Option WriteRequest
  pub interest : EventSet
  pub loop_terminated : Bool
  pub read_timeout : ℕ
  pub write_timeout : ℕ
  pub read_bandwidth : ℕ
  pub write_bandwidth : ℕ
  pub notices : List Notice
  pub sent : Bytes

-- `api_loop_update`; the answer of `epoll_ctl` is not used by its callers.
unfoldable pub update : (read write : Bool) → EventSet → EventSet
update read write e = record e {
  error = true;
  hangup = true;
  peer_hangup = true;
  input = read;
  priority = read;
  output = write;
}

unfoldable pub read_add : EventSet → EventSet
unfolding update
read_add e = if e.output then update true true e else update true false e

unfoldable pub read_del : EventSet → EventSet
unfolding update
read_del e = if e.output then update false true e else update false false e

unfoldable pub write_add : EventSet → EventSet
unfolding update
write_add e = if e.input then update true true e else update false true e

unfoldable pub write_del : EventSet → EventSet
unfolding update
write_del e = if e.input then update true false e else update false false e

abbrev pub notice : Notice → Device → Device
notice n d = record d { notices = d.notices ++ n ∷ [] }

abbrev pub fail : ℕ → Device → Device
fail e d =
    notice (on_error (translate e))
      (record d { status = record (d.status) { error = translate e } })

-- What `read` on the descriptor answers, and for an error `errno`.
pub data ReadAnswer : Type 0 where
  gave : Bytes → ReadAnswer
  read_failed : ℕ → ReadAnswer

-- What `write` answers: a number of bytes, or 0 for none and for an error, and `errno`.
pub record WriteAnswer : Type 0 where
  pub count : ℕ
  pub errno : ℕ

-- `api_stream_read_try` with the request that waits.
unfoldable pub read_answer : ReadAnswer → ReadRequest → Device → Device
read_answer (read_failed e) r d = if e == eagain then d else fail e d
read_answer (gave []) r d = record d { status = record (d.status) { eof = true } }
read_answer (gave (b ∷ bs)) r d = record d { reading = some (record r { got = b ∷ bs }) }

-- Without a request it reads through a null pointer.
unfoldable pub read_try : ReadAnswer → Device → Option Device
read_try a d = d.reading >>= λ r. some (read_answer a r d)

-- `api_stream_write_try` with the request that waits; `EWOULDBLOCK` is `EAGAIN`.
unfoldable pub write_answer : WriteAnswer → WriteRequest → Device → Device
write_answer a w d =
    if ltb 0 a.count
    then record d {
      writing = some (record w { offset = add64 w.offset a.count });
      sent = d.sent ++ take a.count (drop w.offset w.buffer);
    }
    else if a.errno == eagain
    then d
    else fail a.errno d

unfoldable pub write_try : WriteAnswer → Device → Option Device
write_try a d = d.writing >>= λ w. some (write_answer a w d)

-- The task of a request, or null where there is none.
abbrev pub reader_of : Device → Ptr
reader_of d = elim (d.reading) [ none ↦ null | some r ↦ r.task ]

abbrev pub writer_of : Device → Ptr
writer_of d = elim (d.writing) [ none ↦ null | some w ↦ w.task ]

-- An event, or -1 when the loop ends.
pub data Event : Type 0 where
  ready : EventSet → Event
  ending : Event

-- What the descriptor answers when it is asked.
pub record Answers : Type 0 where
  pub to_read : ReadAnswer
  pub to_write : WriteAnswer
  pub errno : ℕ

-- The first part of `api_stream_processor`, with the task that it chooses: the first that is set of
-- an error, a hangup, a hangup of the peer, input and output.
unfoldable pub handle_first :
    (error hangup peer_hangup input output : Bool) → Answers → Device → Option (Ptr × Device)
unfolding read_try write_try
handle_first true h p i o a d = some (null, fail a.errno d)
handle_first false true p i o a d =
    some (null, notice on_closed (record d { status = record (d.status) { closed = true } }))
handle_first false false true i o a d =
    some
      (null, notice on_peerclosed (record d { status = record (d.status) { peer_closed = true } }))
handle_first false false false true o a d = read_try a.to_read d >>= λ d'. some (reader_of d', d')
handle_first false false false false true a d =
    write_try a.to_write d >>= λ d'. some (writer_of d', d')
handle_first false false false false false a d = some (null, fail a.errno d)

unfoldable pub handle : Event → Answers → Device → Option (Ptr × Device)
unfolding handle_first
handle ending a d =
    some (null, notice on_terminate (record d { status = record (d.status) { terminated = true } }))
handle (ready e) a d =
    handle_first e.error e.hangup e.peer_hangup (e.input || e.priority) e.output a d

-- The task to wake or null: the one chosen, or the reader, or the writer.
unfoldable pub to_wake : Ptr → Device → Ptr
to_wake t d =
    let t' = if t == null then reader_of d else t in if t' == null then writer_of d else t'

-- `api_stream_processor` up to the wakeup.
unfoldable pub processor : Event → Answers → Device → Option (Ptr × Device)
unfolding handle to_wake
processor e a d = handle e a d >>= λ r. some (to_wake (r.0) (r.1), r.1)
