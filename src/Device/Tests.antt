-- ===== src/Device/Tests.antt =====
-- Runs of the streams of api/src/unix/api_stream.c.
use libapi.Base.{
  ℕ, ◌≡◌, ◌≢◌, refl, ◌⊎◌, List, [], ◌∷◌, ◌++◌, true, false, Bool, Option, none, some, length, arith,
}
use libapi.Memory.{Ptr, null}
use libapi.Stream.{Bytes}
use libapi.Device.{
  EventSet, ReadRequest, WriteRequest, Device, update, write_add, write_del, gave, write_answer,
  write_try, ready, Answers, handle_first, handle, to_wake, processor,
}
use libapi.Device.Socket.{
  returns, waits, period, begin_read, end_read, write_failed, begin_write, goes_on, end_write,
  resume_write,
}
use libapi.Device.File.{File, Round, woken, file_write_loop, end_file_write, file_write}
use libapi.Device.Tasks.{may_arrive, deliver, Run, here, then_step, starts_write, arrives}
use libapi.Device.Sync.{progress}
use libapi.Device.Runs.{taken_of}
use libapi.Device.Life.{Attached, tcp_stream, attach, close, close_descriptor, leave}
use libapi.Device.Promises.{attached, Run-sent, resume_write-whole, peer_closed-lost}

abbrev text : Bytes
text = 1 ∷ 2 ∷ 3 ∷ []

abbrev writer : Ptr
writer = 5

abbrev reader : Ptr
reader = 6

abbrev output : EventSet
output = record {
  error = false;
  hangup = false;
  peer_hangup = false;
  input = false;
  priority = false;
  output = true;
}

abbrev takes : ℕ → Answers
takes n = record { to_read = gave []; to_write = record { count = n; errno = 0 }; errno = 0 }

-- A write of three bytes waits.
abbrev started : Device
started = record ((attached 0 0).device) {
  writing = some (record { buffer = text; length = 3; offset = 0; task = writer });
  interest = record {
    error = true;
    hangup = true;
    peer_hangup = true;
    input = false;
    priority = false;
    output = true;
  };
}

write-starts : begin_write text writer ((attached 0 0).device) ≡ waits started
unfolding begin_write write_failed write_add update
write-starts = refl

started-Run : Run (attached 0 0) (record { device = started; written = [] })
started-Run = then_step here (starts_write text writer started (omega arith) refl write-starts)

-- The descriptor takes all of it.
abbrev written : Device
written = record started {
  writing = some (record { buffer = text; length = 3; offset = 3; task = writer });
  sent = text;
}

write-goes : processor (ready output) (takes 3) started ≡ some (writer, written)
unfolding processor handle handle_first write_try write_answer to_wake
write-goes = refl

output-arrives : may_arrive started (ready output) ≡ true
unfolding may_arrive
output-arrives = refl

written-Run : Run (attached 0 0) (deliver writer (record { device = written; written = [] }))
written-Run =
    then_step started-Run
      (arrives (ready output) (takes 3) writer written output-arrives (omega arith) write-goes)

Run-sent_example :
    (deliver writer (record { device = written; written = [] })).device.sent
    ≡ taken_of ((deliver writer (record { device = written; written = [] })).written)
      ++ progress ((deliver writer (record { device = written; written = [] })).device.writing)
Run-sent_example = Run-sent written-Run

abbrev whole : WriteRequest
whole = record { buffer = text; length = 3; offset = 3; task = writer }

abbrev closed : EventSet
closed = record {
  error = true;
  hangup = true;
  peer_hangup = true;
  input = false;
  priority = false;
  output = false;
}

abbrev over : Device
over = record written { writing = none; interest = closed; write_bandwidth = 3 }

write-ends : resume_write false whole written ≡ returns 3 over
unfolding resume_write goes_on write_failed end_write write_del update
write-ends = refl

resume_write-whole_example : (3 ≡ length text) ⊎ (write_failed over.status ≡ true)
resume_write-whole_example =
    resume_write-whole false whole written 3 over
      (record { whole = refl; inside = omega arith; small = omega arith }) write-ends

abbrev last_bytes : EventSet
last_bytes = record {
  error = false;
  hangup = false;
  peer_hangup = true;
  input = true;
  priority = false;
  output = false;
}

abbrev waiting : ReadRequest
waiting = record { length = 10; got = []; task = reader }

abbrev listening : Device
listening = record ((attached 0 0).device) { reading = some waiting }

abbrev gives : Answers
gives = record { to_read = gave text; to_write = record { count = 0; errno = 0 }; errno = 0 }

reader-some : reader ≢ null
reader-some = omega arith

peer_closed-lost_example :
    (d' : Device) × (processor (ready last_bytes) gives listening ≡ some (reader, d'))
    × ((end_read false waiting d').0 ≡ [])
    × (begin_read 10 reader ((end_read false waiting d').1)
        ≡ returns [] ((end_read false waiting d').1))
peer_closed-lost_example =
    peer_closed-lost listening waiting last_bytes gives 10 reader refl refl reader-some refl refl
      refl

-- A file, written in two rounds.
abbrev file : File
file = record {
  device = (attached 0 0).device;
  read_offset = 0;
  write_offset = 2;
  content = 8 ∷ 9 ∷ [];
}

abbrev rounds : List Round
rounds =
    woken false ((attached 0 0).device.status) false 0 2
    ∷ woken false ((attached 0 0).device.status) false 0 1
    ∷ []

abbrev grown : File
grown = record file {
  device = record (file.device) { write_bandwidth = 3 };
  write_offset = 5;
  content = 8 ∷ 9 ∷ 1 ∷ 2 ∷ 3 ∷ [];
}

file-written : file_write rounds text file ≡ some (3, grown)
unfolding file_write file_write_loop end_file_write write_failed
file-written = refl

text-some : text ≢ []
text-some e = cc e

-- Half a second and a bit, over the turn of a second.
period-turns :
    period (record { sec = 7; nsec = 800000000 }) (record { sec = 8; nsec = 300001999 }) ≡ 500001
unfolding period
period-turns = refl

-- A stream of a socket at 3 references to its loop, attached and closed.
abbrev socket : Attached
socket = record {
  device = (attached 0 0).device;
  type = tcp_stream;
  loop = null;
  refs = 3;
  is_open = true;
  unread = record { buffer = []; offset = 0; length = 0 };
}

abbrev closing : Option (ℕ × Attached) → ℕ × Ptr × ℕ × Bool
closing none = (1, null, 0, true)
closing (some r) = (r.0, r.1.loop, r.1.refs, r.1.is_open)

socket-closed : closing (close true 0 ((attach 8 true 0 socket).1)) ≡ (0, null, 3, false)
unfolding close close_descriptor leave attach
socket-closed = refl

-- Where `epoll` does not forget it, the descriptor stays open though the answer is API__OK.
socket-leaked : closing (close false 2 ((attach 8 true 0 socket).1)) ≡ (0, null, 3, true)
unfolding close close_descriptor leave attach
socket-leaked = refl
