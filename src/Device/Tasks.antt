-- ===== src/Device/Tasks.antt =====
-- The tasks that read and write one stream of api/src/unix/api_stream.c, and the loop that wakes them. A
-- step is what happens between two waits.
use libapi.Base.{
  ℕ, ◌-◌, ◌≤◌, ◌<◌, ◌≡◌, List, [], ◌∷◌, ◌++◌, Bool, true, false, not, ◌&&◌, ◌||◌, Option, none,
  some, ◌==◌, if◌then◌else◌, length, u64_mod,
}
use libapi.Memory.{Ptr, null}
use libapi.Stream.{Bytes}
use libapi.Device.{
  ReadRequest, WriteRequest, Device, Event, ready, ending, Answers, reader_of, processor,
}
use libapi.Device.Socket.{Begun, returns, waits, begin_read, end_read, begin_write, resume_write}

-- Whether `epoll_wait` can report these events for a descriptor: errors and hangups are reported
-- without being asked for, the others if they are in `interest`, and some event is.
unfoldable pub may_arrive : Device → Event → Bool
may_arrive d ending = true
may_arrive d (ready e) =
    (e.error || e.hangup || e.peer_hangup || e.input || e.priority || e.output)
    && ((not e.input || d.interest.input)
        && ((not e.priority || d.interest.priority) && (not e.output || d.interest.output)))

-- `written` lists the writes that have slept and returned, each with what it returned.
pub record World : Type 0 where
  pub device : Device
  pub written : List (Bytes × ℕ)

abbrev pub finish_write : Bytes → Begun ℕ → World → World
finish_write bs (returns n d) w = record { device = d; written = w.written ++ (bs, n) ∷ [] }
finish_write bs (waits d) w = record w { device = d }

-- The task that waits in a read, or in a write, goes on.
abbrev pub resume_reader : Bool → Option ReadRequest → World → World
resume_reader elapsed none w = w
resume_reader elapsed (some r) w = record w { device = (end_read elapsed r w.device).1 }

abbrev pub resume_writer : Bool → Option WriteRequest → World → World
resume_writer elapsed none w = w
resume_writer elapsed (some r) w = finish_write r.buffer (resume_write elapsed r w.device) w

-- The wakeup at the end of `api_stream_processor`.
unfoldable pub deliver : Ptr → World → World
deliver t w =
    if t == null
    then w
    else if t == reader_of w.device
    then resume_reader false w.device.reading w
    else resume_writer false w.device.writing w

-- What a write asks for that has not been taken.
abbrev pub left : Option WriteRequest → ℕ
left none = 0
left (some r) = r.length - r.offset

-- An operation starts where none of its kind waits; a timeout, or another part of the program, may
-- wake a task that waits.
pub data Step : World → World → Type 0 where
  starts_read :
      {w : World} (n : ℕ) (task : Ptr) (d : Device)
      → w.device.reading ≡ none
      → begin_read n task w.device ≡ waits d
      → Step w (record w { device = d })
  starts_write :
      {w : World} (bs : Bytes) (task : Ptr) (d : Device)
      → length bs < u64_mod
      → w.device.writing ≡ none
      → begin_write bs task w.device ≡ waits d
      → Step w (record w { device = d })
  arrives :
      {w : World} (e : Event) (a : Answers) (t : Ptr) (d : Device)
      → may_arrive w.device e ≡ true
      → a.to_write.count ≤ left w.device.writing
      → processor e a w.device ≡ some (t, d)
      → Step w (deliver t (record w { device = d }))
  resumes_reader : {w : World} (elapsed : Bool) → Step w (resume_reader elapsed w.device.reading w)
  resumes_writer : {w : World} (elapsed : Bool) → Step w (resume_writer elapsed w.device.writing w)
  ends_loop :
      {w : World} → Step w (record w { device = record (w.device) { loop_terminated = true } })

pub data Run (v : World) : World → Type 0 where
  here : Run v v
  then_step : {w u : World} → Run v w → Step w u → Run v u
