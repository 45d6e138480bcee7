-- ===== src/Device/File.antt =====
-- api/src/unix/api_stream.c: reads and writes of a file, which the system does in the background. Each is
-- given in parts, before and after its task sleeps.
use libapi.Base.{
  ℕ, ◌+◌, List, [], ◌∷◌, ◌++◌, Bool, true, false, not, ◌&&◌, Option, none, some, ◌==◌, ltb,
  if◌then◌else◌, length, take, drop, add64,
}
use libapi.Stream.{Bytes, Status, failed}
use libapi.Errno.{translate, minus_one}
use libapi.Device.{Device, on_read_timeout, on_write_timeout, notice, fail}
use libapi.Device.Socket.{write_failed}

-- A stream of a file: `impl.file` of `api_stream_t`, and what the file holds.
pub record File : Type 0 where
  pub device : Device
  pub read_offset : ℕ
  pub write_offset : ℕ
  pub content : Bytes

-- What the system says of an operation that is over: `aio_error`, and what `aio_return` gives,
-- `none` for -1.
pub record Aio (A : Type 0) : Type 0 where
  pub error : ℕ
  pub result : Option A

-- `api_stream_file_read_t`: the bytes in the buffer, and an error.
pub record FileRead : Type 0 where
  pub got : Bytes
  pub error : ℕ

-- `aio_read_completion_handler`
unfoldable pub read_completed : Aio Bytes → FileRead → FileRead
read_completed a r =
    if a.error == 0
    then (elim (a.result) [
      | none ↦ record { got = []; error = translate minus_one }
      | some bs ↦ record r { got = bs }
    ])
    else record r { error = translate a.error }

-- Why a read does not start: no bytes are asked for, or the stream has failed, or `aio_read` answers
-- with an error.
pub data FileBegun : Type 0 where
  answered : File → FileBegun
  asked : FileRead → FileBegun

unfoldable pub begin_file_read : ℕ → Option ℕ → File → FileBegun
unfolding failed
begin_file_read n refused f =
    if n == 0 then answered f else if failed f.device.status then answered f else elim refused [
      | some e ↦ answered (record f { device = fail e f.device })
      | none ↦ asked (record { got = []; error = 0 })
    ]

abbrev pub set_status : Status → File → File
set_status s f = record f { device = record (f.device) { status = s } }

-- `api_stream_file_on_read` after its task was woken.
unfoldable pub end_file_read : Bool → FileRead → File → Bytes × File
end_file_read elapsed r f =
    let f1 = record f {
      device = record (f.device) { read_bandwidth = add64 f.device.read_bandwidth (length r.got) };
    } in
    if ltb 0 f.device.read_timeout && elapsed
    then (
      [],
      record f1 {
        device =
            notice on_read_timeout
              (record (f1.device) { status = record (f1.device.status) { read_timeout = true } });
      },
    )
    else (let f2 = record f1 { read_offset = add64 f.read_offset (length r.got) } in
        let f3 =
          if length r.got == 0
          then set_status (record (f2.device.status) { eof = true }) f2
          else f2 in
        let f4 =
          if r.error == 0
          then f3
          else set_status (record (f3.device.status) { error = r.error }) f3 in
        (r.got, f4))

-- A write to the file.
abbrev pub put : ℕ → Bytes → Bytes → Bytes
put offset bs content = take offset content ++ (bs ++ drop (offset + length bs) content)

-- What happens in a round of `api_stream_file_on_write`: `aio_write` answers with an error; or a task
-- sleeps, and when it is woken the loop may have been terminated, the status is as given, its timer
-- may have elapsed, and the system has written so many bytes. `error` and `count` are what
-- `aio_write_completion_handler` leaves.
pub data Round : Type 0 where
  refused : ℕ → Round
  woken : (terminated : Bool) → Status → (elapsed : Bool) (error count : ℕ) → Round

-- `aio_write_completion_handler`: `done` and `error`.
unfoldable pub write_completed : Aio ℕ → ℕ × ℕ
write_completed a =
    if a.error == 0
    then (elim (a.result) [ none ↦ (0, translate minus_one) | some n ↦ (n, 0) ])
    else (0, translate a.error)

-- The loop of `api_stream_file_on_write`; `none` while its task sleeps. The answer is `done` and whether
-- the timer has elapsed.
unfoldable pub file_write_loop : List Round → Bytes → ℕ → File → Option (ℕ × Bool × File)
unfolding write_failed
file_write_loop [] bs done f = none
file_write_loop (refused e ∷ rounds) bs done f =
    some (done, false, record f { device = fail e f.device })
file_write_loop (woken terminated s elapsed error count ∷ rounds) bs done f =
    let f1 =
      set_status s
        (record f { content = put f.write_offset (take count (drop done bs)) f.content }) in
    let f2 = record f1 { write_offset = add64 f.write_offset count } in
    let rest = file_write_loop rounds bs (add64 done count) f2 in
    if terminated
    then some (done, elapsed, f1)
    else if write_failed s
    then some (done, elapsed, f1)
    else if ltb 0 f.device.write_timeout && elapsed
    then some (done, elapsed, f1)
    else if not (error == 0)
    then some (done, elapsed, set_status (record s { error = error }) f1)
    else if ltb (add64 done count) (length bs)
    then rest
    else some (add64 done count, elapsed, f2)

-- What follows the loop.
unfoldable pub end_file_write : ℕ → Bool → File → ℕ × File
end_file_write done elapsed f =
    let d = record (f.device) { write_bandwidth = add64 f.device.write_bandwidth done } in
    if ltb 0 f.device.write_timeout && elapsed
    then (
      0,
      record f {
        device =
            notice on_write_timeout
              (record d { status = record (d.status) { write_timeout = true } });
      },
    )
    else (done, record f { device = d })

-- `api_stream_file_on_write`; `none` while its task sleeps.
unfoldable pub file_write : List Round → Bytes → File → Option (ℕ × File)
unfolding file_write_loop end_file_write write_failed
file_write rounds bs f =
    if length bs == 0
    then some (0, f)
    else if write_failed f.device.status
    then some (0, f)
    else if f.device.loop_terminated
    then some (0, f)
    else (elim (file_write_loop rounds bs 0 f) [
      | none ↦ none
      | some r ↦ some (end_file_write (r.0) (r.1) (r.2))
    ])
