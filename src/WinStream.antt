-- ===== src/WinStream.antt =====
-- api/src/win/api_stream.c: a stream of the port to Windows, whose reads and writes either complete at once
-- or sleep until a packet tells of their end. What the system calls answer is an argument.
pub mod Writes
mod Tests
use libapi.Base.{
  ℕ, ◌+◌, ◌-◌, List, [], ◌∷◌, ◌++◌, Bool, true, false, not, ◌&&◌, ◌||◌, Option, none, some, ◌==◌,
  ltb, if◌then◌else◌, length, take, drop, add64,
}
use libapi.Base.Fallible.{◌>>=◌}
use libapi.Memory.{Ptr, null}
use libapi.Errno.{api_ok, api_terminate}
use libapi.Stream.{Bytes, Status, Unread, failed}
use libapi.Device.{Notice, on_error, on_read_timeout, on_write_timeout, on_closed}
use libapi.Device.Socket.{write_failed}
use libapi.Device.Life.{StreamType, file_stream, tcp_stream}

-- `api_stream_req_t`
pub record Request : Type 0 where
  pub done : ℕ
  pub task : Ptr

-- `api_stream_t`: `reading` and `writing` are its `reserved` requests. `sent` is what the system has taken of
-- the buffers of writes, piece by piece.
pub record WinStream : Type 0 where
  pub type : StreamType
  pub status : Status
  pub reading : Option Request
  pub writing : Option Request
  pub read_offset : ℕ
  pub write_offset : ℕ
  pub read_timeout : ℕ
  pub write_timeout : ℕ
  pub read_bandwidth : ℕ
  pub write_bandwidth : ℕ
  pub loop : Ptr
  pub refs : ℕ
  pub loop_terminated : Bool
  pub is_open : Bool
  pub unread : Unread
  pub notices : List Notice
  pub sent : Bytes

-- What `ReadFile`, `WSARecv`, `WriteFile` and `WSASend` answer: that so many bytes are done, an error, or
-- that a packet will come.
pub data Answer : Type 0 where
  took io_failed : ℕ → Answer
  pending : Answer

abbrev pub is_file : StreamType → Bool
is_file file_stream = true
is_file _ = false

abbrev pub is_tcp : StreamType → Bool
is_tcp tcp_stream = true
is_tcp _ = false

abbrev pub tell : Notice → WinStream → WinStream
tell n s = record s { notices = s.notices ++ n ∷ [] }

-- `api_error_translate` of this port keeps the code.
abbrev pub fail : ℕ → WinStream → WinStream
fail e s = tell (on_error e) (record s { status = record (s.status) { error = e } })

-- An operation that has returned a number of bytes, or whose task sleeps.
pub data Begun : Type 0 where
  returns : ℕ → WinStream → Begun
  waits : WinStream → Begun

-- What follows the sleep of `api_stream_on_read`; `elapsed` is that of its timer.
unfoldable pub end_read : Bool → Request → WinStream → ℕ × WinStream
end_read elapsed r s =
    let s' = record s {
      reading = none;
      read_bandwidth = add64 s.read_bandwidth r.done;
      read_offset = if is_file s.type then add64 s.read_offset r.done else s.read_offset;
    } in
    if ltb 0 s.read_timeout && elapsed
    then (
      0,
      tell on_read_timeout (record s' { status = record (s'.status) { read_timeout = true } }),
    )
    else (r.done, s')

-- A read that has not slept.
abbrev pub read_at_once : Request → WinStream → Begun
read_at_once r s = let e = end_read false r s in returns e.0 e.1

-- The answer to the system call of a read.
unfoldable pub issue_read : Answer → Ptr → WinStream → Begun
unfolding end_read
issue_read (took n) task s = read_at_once (record { done = n; task = task }) s
issue_read (io_failed e) task s = read_at_once (record { done = 0; task = task }) (fail e s)
issue_read pending task s = waits (record s { reading = some (record { done = 0; task = task }) })

-- `api_stream_on_read` of `n` bytes, up to where its task sleeps.
unfoldable pub begin_read : ℕ → Ptr → Answer → WinStream → Begun
unfolding failed issue_read
begin_read n task a s =
    if n == 0 then returns 0 s else if failed s.status then returns 0 s else issue_read a task s

-- The bytes that a round of a write gives to the system: those from the offset on for a file, and the whole
-- buffer for a socket.
unfoldable pub piece : StreamType → Bytes → ℕ → Bytes
piece type bs offset = if is_file type then drop offset bs else bs

-- What follows the loop of `api_stream_on_write`.
unfoldable pub end_write : Bool → (offset : ℕ) → Request → WinStream → ℕ × WinStream
end_write elapsed offset w s =
    let s' = record s { writing = none; write_bandwidth = add64 s.write_bandwidth w.done } in
    if ltb 0 s.write_timeout && elapsed
    then (
      offset,
      tell on_write_timeout (record s' { status = record (s'.status) { write_timeout = true } }),
    )
    else (offset, s')

-- The end of a round, and whether there is another one; the offset then is the last component.
unfoldable pub end_round : Bool → Bytes → (offset : ℕ) → Request → WinStream → Bool × WinStream × ℕ
unfolding write_failed
end_round elapsed bs offset w s =
    let s' = record s {
      write_offset = if is_file s.type then add64 s.write_offset w.done else s.write_offset;
    } in
    if write_failed s'.status
    then (false, s', offset)
    else if ltb 0 s.write_timeout && elapsed
    then (false, s', offset)
    else (ltb (offset + w.done) (length bs) && ltb 0 w.done, s', offset + w.done)

abbrev pub accept : Bytes → (offset n : ℕ) → WinStream → WinStream
accept bs offset n s = record s { sent = s.sent ++ take n (piece s.type bs offset) }

-- The rounds of `api_stream_on_write` up to one whose task sleeps, where the answers end too. `WriteFile`
-- that fails sets the number of bytes to 0.
unfoldable pub rounds : List Answer → Bytes → (offset : ℕ) → Request → WinStream → Begun
unfolding end_round end_write piece
rounds [] bs offset w s = waits (record s { writing = some w })
rounds (pending ∷ answers) bs offset w s = waits (record s { writing = some w })
rounds (took n ∷ answers) bs offset w s =
    let w' = record w { done = n } in
    let r = end_round false bs offset w' (accept bs offset n s) in
    let rest = rounds answers bs r.2 w' r.1 in
    let e = end_write false r.2 w' r.1 in if r.0 then rest else returns e.0 e.1
rounds (io_failed e ∷ answers) bs offset w s =
    let w' = if is_file s.type then record w { done = 0 } else w in
    let r = end_round false bs offset w' (fail e s) in
    let rest = rounds answers bs r.2 w' r.1 in
    let e' = end_write false r.2 w' r.1 in if r.0 then rest else returns e'.0 e'.1

-- `api_stream_on_write` up to where its task sleeps.
unfoldable pub begin_write : Bytes → Ptr → List Answer → WinStream → Begun
unfolding write_failed rounds
begin_write bs task answers s =
    if length bs == 0
    then returns 0 s
    else if write_failed s.status
    then returns 0 s
    else if s.loop_terminated
    then returns 0 s
    else rounds answers bs 0 (record { done = 0; task = task }) s

-- What it does when its task goes on with the request `w`.
unfoldable pub resume_write :
    Bool → List Answer → Bytes → (offset : ℕ) → Request → WinStream → Begun
unfolding rounds end_round end_write
resume_write elapsed answers bs offset w s =
    let r = end_round elapsed bs offset w s in
    let rest = rounds answers bs r.2 w r.1 in
    let e = end_write elapsed r.2 w r.1 in if r.0 then rest else returns e.0 e.1

-- `ERROR_HANDLE_EOF`
abbrev handle_eof : ℕ
handle_eof = 38

-- A packet without bytes.
unfoldable pub no_bytes : ℕ → WinStream → WinStream
no_bytes error s =
    if error == handle_eof
    then record s { status = record (s.status) { eof = true } }
    else record s { status = record (s.status) { error = error } }

-- `api_stream_processor` for a request: the stream, and the task that it wakes.
unfoldable pub complete_request : Bool → ℕ → ℕ → Request → WinStream → WinStream × Option Ptr
unfolding no_bytes
complete_request is_read transferred error r s =
    if (if is_read then s.status.read_timeout else s.status.write_timeout)
    then (s, none)
    else (let r' = record r { done = transferred } in
        let s1 =
          if is_read then record s { reading = some r' } else record s { writing = some r' } in
        (if transferred == 0 then no_bytes error s1 else s1, some r.task))

-- `api_stream_processor`
unfoldable pub processor : Bool → ℕ → ℕ → WinStream → WinStream × Option Ptr
unfolding complete_request
processor is_read transferred error s = elim (if is_read then s.reading else s.writing) [
  | none ↦ (s, none)
  | some r ↦ complete_request is_read transferred error r s
]

-- `api_stream_attach`; `error` is that of `CreateIoCompletionPort`, 0 if it succeeds.
unfoldable pub attach : Ptr → ℕ → WinStream → ℕ × WinStream
attach loop error s =
    if s.loop_terminated
    then (api_terminate, record s { status = record (s.status) { terminated = true } })
    else if (is_file s.type || is_tcp s.type) && not (error == 0)
    then (error, s)
    else (api_ok, record s { loop = loop; refs = s.refs + 1 })

-- `api_stream_write`: `on_write` is that of the first filter.
unfoldable pub write : (on_write : Bytes → WinStream → Begun) → Bytes → WinStream → Begun
unfolding write_failed
write on_write bs s =
    if length bs == 0
    then returns 0 s
    else if write_failed s.status
    then returns 0 s
    else if s.loop_terminated
    then returns 0 s
    else on_write bs s

-- `api_stream_close`; the filters are told, what was put back is freed, and the loop is left.
unfoldable pub close : WinStream → WinStream
close s =
    if s.status.closed
    then s
    else (let shut =
          if is_file s.type || is_tcp s.type
          then record s { status = record (s.status) { closed = true }; is_open = false }
          else s in
        let told = tell on_closed shut in
        let freed = record told { unread = record (told.unread) { length = 0 } } in
        if freed.loop == null then freed else record freed { loop = null; refs = freed.refs - 1 })
