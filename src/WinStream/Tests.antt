-- ===== src/WinStream/Tests.antt =====
-- A stream of Windows that takes 2 and then 3 bytes.
use libapi.Base.{ℕ, ◌≡◌, ◌≢◌, refl, [], ◌∷◌, true, false, none, arith}
use libapi.Device.Socket.{write_failed}
use libapi.Device.Life.{StreamType, file_stream, tcp_stream}
use libapi.WinStream.{WinStream, took, returns, begin_write}
use libapi.WinStream.Writes.{file_write-whole, tcp_write-from_start}

abbrev stream : StreamType → WinStream
stream type = record {
  type = type;
  status = record {
    read_timeout = false;
    write_timeout = false;
    eof = false;
    error = 0;
    closed = false;
    peer_closed = false;
    terminated = false;
  };
  reading = none;
  writing = none;
  read_offset = 0;
  write_offset = 0;
  read_timeout = 0;
  write_timeout = 0;
  read_bandwidth = 0;
  write_bandwidth = 0;
  loop = 4;
  refs = 1;
  loop_terminated = false;
  is_open = true;
  unread = record { buffer = []; offset = 0; length = 0 };
  notices = [];
  sent = [];
}

five : ◌≢◌ {A = ℕ} 5 0
five e = absurd (omega arith)

file_write-whole_example :
    (s' : WinStream) × (begin_write
        (1 ∷ 2 ∷ 3 ∷ 4 ∷ 5 ∷ [])
        9
        (took 2 ∷ took 3 ∷ [])
        (stream file_stream)
      ≡ returns 5 s')
    × (s'.sent ≡ 1 ∷ 2 ∷ 3 ∷ 4 ∷ 5 ∷ [])
unfolding write_failed
file_write-whole_example =
    file_write-whole (2 ∷ 3 ∷ []) (1 ∷ 2 ∷ 3 ∷ 4 ∷ 5 ∷ []) 9 (stream file_stream) refl five refl
      refl (omega arith, omega arith, (omega arith, omega arith)) refl

tcp_write-from_start_example :
    (s' : WinStream) × (begin_write
        (1 ∷ 2 ∷ 3 ∷ 4 ∷ 5 ∷ [])
        9
        (took 2 ∷ took 3 ∷ [])
        (stream tcp_stream)
      ≡ returns 5 s')
    × (s'.sent ≡ 1 ∷ 2 ∷ 1 ∷ 2 ∷ 3 ∷ [])
unfolding write_failed
tcp_write-from_start_example =
    tcp_write-from_start (2 ∷ 3 ∷ []) (1 ∷ 2 ∷ 3 ∷ 4 ∷ 5 ∷ []) 9 (stream tcp_stream) refl five refl
      refl (omega arith, omega arith, (omega arith, omega arith))
