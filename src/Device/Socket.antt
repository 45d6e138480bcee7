-- ===== src/Device/Socket.antt =====
-- api/src/unix/api_stream.c: `api_stream_on_read` and `api_stream_on_write`, each in two parts, before and
-- after the task sleeps. The timer of an operation is one of Timers; whether it has elapsed is an
-- argument.
use libapi.Base.{
  ℕ, ◌+◌, ◌-◌, ◌*◌, ◌/◌, [], Bool, true, not, ◌&&◌, ◌||◌, none, some, ◌==◌, ltb, if◌then◌else◌,
  length, add64, u64_max,
}
use libapi.Memory.{Ptr}
use libapi.Stream.{Bytes, Status, failed}
use libapi.Device.{
  ReadRequest, WriteRequest, on_read_timeout, on_write_timeout, Device, read_add, read_del,
  write_add, write_del, notice,
}

-- `struct timespec`
pub record Time : Type 0 where
  pub sec : ℕ
  pub nsec : ℕ

-- The microseconds between two times, as both operations count them for the bandwidth.
unfoldable pub period : Time → Time → ℕ
period start end =
    if ltb end.nsec start.nsec
    then (end.sec - start.sec - 1) * 1000000 + (1000000000 + end.nsec - start.nsec) / 1000
    else (end.sec - start.sec) * 1000000 + (end.nsec - start.nsec) / 1000

-- An operation that has returned, or whose task sleeps.
pub data Begun (A : Type 0) : Type 0 where
  returns : A → Device → Begun A
  waits : Device → Begun A

unfoldable pub begin_read : ℕ → Ptr → Device → Begun Bytes
unfolding failed read_add
begin_read n task d =
    if n == 0
    then returns [] d
    else if failed d.status
    then returns [] d
    else waits (record d {
      reading = some (record { length = n; got = []; task = task });
      interest = read_add d.interest;
    })

-- What the caller finds in its buffer, `read.done` bytes, and nothing after a timeout.
unfoldable pub end_read : Bool → ReadRequest → Device → Bytes × Device
unfolding read_del
end_read elapsed r d =
    let d' = record d {
      reading = none;
      interest = read_del d.interest;
      read_bandwidth = add64 d.read_bandwidth (length r.got);
    } in
    if ltb 0 d.read_timeout && elapsed
    then (
      [],
      notice on_read_timeout (record d' { status = record (d'.status) { read_timeout = true } }),
    )
    else (r.got, d')

-- No write is tried on a stream in one of these states.
unfoldable pub write_failed : Status → Bool
write_failed s = s.write_timeout || not (s.error == 0) || s.closed || s.peer_closed || s.terminated

unfoldable pub begin_write : Bytes → Ptr → Device → Begun ℕ
unfolding write_failed write_add
begin_write bs task d =
    if length bs == 0
    then returns 0 d
    else if write_failed d.status
    then returns u64_max d
    else if d.loop_terminated
    then returns u64_max d
    else waits (record d {
      writing = some (record { buffer = bs; length = length bs; offset = 0; task = task });
      interest = write_add d.interest;
    })

-- Whether the loop of `api_stream_on_write` sleeps again.
unfoldable pub goes_on : Bool → WriteRequest → Device → Bool
unfolding write_failed
goes_on elapsed w d =
    not (write_failed d.status) && not (ltb 0 d.write_timeout && elapsed) && ltb w.offset w.length

-- What follows the loop.
unfoldable pub end_write : Bool → WriteRequest → Device → ℕ × Device
unfolding write_del
end_write elapsed w d =
    let d' = record d {
      writing = none;
      interest = write_del d.interest;
      write_bandwidth = add64 d.write_bandwidth w.offset;
    } in
    if ltb 0 d.write_timeout && elapsed
    then (
      w.offset,
      notice on_write_timeout (record d' { status = record (d'.status) { write_timeout = true } }),
    )
    else (w.offset, d')

-- A task of the stream has been woken.
unfoldable pub resume_write : Bool → WriteRequest → Device → Begun ℕ
unfolding goes_on end_write
resume_write elapsed w d =
    if goes_on elapsed w d
    then waits d
    else returns ((end_write elapsed w d).0) ((end_write elapsed w d).1)
