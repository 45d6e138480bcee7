-- ===== src/Device/Life.antt =====
-- api/src/unix/api_stream.c: a stream is attached to a loop, written to, and closed.
use libapi.Base.{
  ℕ, ◌+◌, sub64, Bool, true, false, Option, none, some, ◌==◌, ltb, if◌then◌else◌, length,
}
use libapi.Memory.{Ptr, null}
use libapi.Stream.{Bytes, Unread}
use libapi.Errno.{api_ok, api_terminate, translate}
use libapi.Device.{on_closed, Device, notice}
use libapi.Device.Socket.{Begun, returns, write_failed}

-- `api_stream_type_t`
pub data StreamType : Type 0 where
  memory_stream file_stream tcp_stream udp_stream tty_stream pipe_stream : StreamType

-- A stream with its type, its loop, whether its descriptor is open, and the references to that loop.
pub record Attached : Type 0 where
  pub device : Device
  pub type : StreamType
  pub loop : Ptr
  pub refs : ℕ
  pub is_open : Bool
  pub unread : Unread

abbrev is_tcp : StreamType → Bool
is_tcp tcp_stream = true
is_tcp _ = false

abbrev is_file : StreamType → Bool
is_file file_stream = true
is_file _ = false

-- `api_stream_attach`; `added` is what `epoll_ctl` answers, and `errno` what it leaves.
unfoldable pub attach : Ptr → (added : Bool) (errno : ℕ) → Attached → ℕ × Attached
attach loop added errno s =
    if s.device.loop_terminated
    then (
      api_terminate,
      record s {
        device = record (s.device) { status = record (s.device.status) { terminated = true } };
      },
    )
    else (let watched = record s {
      device = record (s.device) {
        interest = record {
          error = true;
          hangup = true;
          peer_hangup = true;
          input = false;
          priority = false;
          output = false;
        };
      };
    } in
        if is_tcp s.type
        then (if added
            then (api_ok, record watched { loop = loop; refs = s.refs + 1 })
            else (translate errno, watched))
        else (api_ok, record s { loop = loop; refs = s.refs + 1 }))

-- `api_stream_write`: `on_write` is that of the first filter.
unfoldable pub write : (on_write : Bytes → Device → Begun ℕ) → Bytes → Device → Begun ℕ
unfolding write_failed
write on_write bs d =
    if length bs == 0
    then returns 0 d
    else if write_failed d.status
    then returns 0 d
    else if d.loop_terminated
    then returns 0 d
    else on_write bs d

abbrev shut : Attached → Attached
shut s = record s {
  device = record (s.device) { status = record (s.device.status) { closed = true } };
  is_open = false;
}

-- The descriptor is closed; `removed` is what `epoll_ctl` answers. A stream that is not of a file has to have
-- a loop: it is asked for its `epoll`.
unfoldable pub close_descriptor : (removed : Bool) → Attached → Option Attached
close_descriptor removed s =
    if is_file s.type
    then some (shut s)
    else if s.loop == null
    then none
    else some (if removed then shut s else s)

-- What follows: the filters are told, what was put back is freed, and the loop is left.
unfoldable pub leave : (errno : ℕ) → Attached → ℕ × Attached
leave errno s =
    let told = record s { device = notice on_closed s.device } in
    let dropped =
      if ltb 0 s.unread.length
      then record told { unread = record (told.unread) { length = 0 } }
      else told in
    if s.loop == null
    then (translate errno, dropped)
    else (api_ok, record dropped { loop = null; refs = sub64 s.refs 1 })

-- `api_stream_close`
unfoldable pub close : (removed : Bool) (errno : ℕ) → Attached → Option (ℕ × Attached)
unfolding close_descriptor leave
close removed errno s = elim (close_descriptor removed s) [
  | none ↦ none
  | some s' ↦ some (leave errno s')
]
