-- ===== src/Device/Promises.antt =====
-- What the users of a stream of api/src/unix/api_stream.c can rely on, and what they can not.
use libapi.Base.{
  ℕ, ◌≤◌, ◌≡◌, ◌≢◌, refl, ap, ◌∙◌, ◌⊎◌, inl, inr, [], ◌++◌, Bool, true, false, not, ◌&&◌, none,
  some, ◌==◌, ltb, length, arith, Bool-cases, ne→not_==, not_ltb→le,
}
use mathlib.Core.Path.{subst}
use libapi.Base.Fallible.{◌>>=◌}
use libapi.Memory.{Ptr, null}
use libapi.Stream.{Status, failed}
use libapi.Device.{
  EventSet, ReadRequest, WriteRequest, Device, ready, Answers, notice, on_peerclosed, to_wake,
  handle_first, handle, processor,
}
use libapi.Device.Socket.{
  Begun, returns, waits, begin_read, end_read, write_failed, goes_on, end_write, resume_write,
}
use libapi.Device.Tasks.{World, Run, here, then_step}
use libapi.Device.Sync.{progress, Fits}
use libapi.Device.Runs.{taken_of, WorldGood, Step-Good, device_of, end_write-count}

-- A stream that has been initialised and attached to a loop: `epoll_ctl` is asked for errors and
-- hangups only.
abbrev pub attached : (read_timeout write_timeout : ℕ) → World
attached rt wt = record {
  device = record {
    status = record {
      read_timeout = false;
      write_timeout = false;
      eof = false;
      error = 0;
      closed = false;
      peer_closed = false;
      terminated = false;
    };
    reading = none;
    writing = none;
    interest = record {
      error = true;
      hangup = true;
      peer_hangup = true;
      input = false;
      priority = false;
      output = false;
    };
    loop_terminated = false;
    read_timeout = rt;
    write_timeout = wt;
    read_bandwidth = 0;
    write_bandwidth = 0;
    notices = [];
    sent = [];
  };
  written = [];
}

attached-Good : (rt wt : ℕ) → WorldGood (attached rt wt)
attached-Good rt wt = record {
  input = refl;
  priority = refl;
  output = refl;
  sent = refl;
  fits = tt;
}

Run-Good : {rt wt : ℕ} {w : World} → Run (attached rt wt) w → WorldGood w
Run-Good {rt = rt} {wt = wt} here = attached-Good rt wt
Run-Good (then_step r s) = Step-Good s (Run-Good r)

-- In every state that a stream reaches, what its descriptor has taken is, write after write in their
-- order, the part of each buffer that the write reported, and then the part of the one that waits.
pub Run-sent :
    {rt wt : ℕ} {w : World}
    → Run (attached rt wt) w
    → w.device.sent ≡ taken_of w.written ++ progress w.device.writing
Run-sent r = (Run-Good r).sent

-- What stops the loop of a write: a state, a timeout, or the end.
stopped_by : (f t l : Bool) → not f && not t && l ≡ false → (f ≡ true) ⊎ ((t ≡ true) ⊎ (l ≡ false))
stopped_by true t l h = inl refl
stopped_by false true l h = inr (inl refl)
stopped_by false false l h = inr (inr h)

abbrev count_of : Begun ℕ → ℕ
count_of (returns n d) = n
count_of (waits d) = 0

same_end : (o l b : ℕ) → o ≤ l → l ≤ o → l ≡ b → o ≡ b
same_end o l b h k e = omega arith

-- A state that stops writes stays, and a timeout is one.
end_write-failed :
    (elapsed : Bool) (r : WriteRequest) (d : Device)
    → (write_failed d.status ≡ true) ⊎ (ltb 0 d.write_timeout && elapsed ≡ true)
    → write_failed (((end_write elapsed r d).1).status) ≡ true
unfolding end_write write_failed
end_write-failed elapsed r d (inr t) = rw t refl
end_write-failed elapsed r d (inl f) = elim (Bool-cases (ltb 0 d.write_timeout && elapsed)) [
  | inl t ↦ rw t refl
  | inr t ↦ rw t f
]

ended :
    (elapsed : Bool) (r : WriteRequest) (d : Device)
    → Fits r
    → goes_on elapsed r d ≡ false
    → ((end_write elapsed r d).0 ≡ length r.buffer)
      ⊎ (write_failed (((end_write elapsed r d).1).status) ≡ true)
unfolding goes_on
ended elapsed r d f g =
    elim (stopped_by (write_failed d.status) (ltb 0 d.write_timeout && elapsed)
      (ltb r.offset r.length) g) [
        | inl s ↦ inr (end_write-failed elapsed r d (inl s))
        | inr (inl t) ↦ inr (end_write-failed elapsed r d (inr t))
        | inr (inr l) ↦
            let inside = f.inside in
            let whole = f.whole in
            let over = not_ltb→le r.offset r.length l in
            inl (
              end_write-count elapsed r d
              ∙ same_end r.offset r.length (length r.buffer) inside over whole)
      ]

-- A write that goes on after a wakeup, with an offset inside its buffer, and then returns has written its
-- whole buffer, or leaves the stream in a state in which every later write fails.
pub resume_write-whole :
    (elapsed : Bool) (r : WriteRequest) (d : Device) (n : ℕ) (d' : Device)
    → Fits r
    → resume_write elapsed r d ≡ returns n d'
    → (n ≡ length r.buffer) ⊎ (write_failed d'.status ≡ true)
unfolding resume_write
resume_write-whole elapsed r d n d' f h = elim (Bool-cases (goes_on elapsed r d)) [
  | inl g ↦ cc (rw g at h)
  | inr g ↦
      let h' = rw g at h in
      subst (λ (x : ℕ × Device). (x.0 ≡ length r.buffer) ⊎ (write_failed ((x.1).status) ≡ true))
        (ap (λ b. (count_of b, device_of b)) h') (ended elapsed r d f g)
]

abbrev closed_by_peer : Device → Device
closed_by_peer d =
    notice on_peerclosed (record d { status = record (d.status) { peer_closed = true } })

handle-peer_closed :
    (d : Device) (e : EventSet) (a : Answers)
    → e.error ≡ false
    → e.hangup ≡ false
    → e.peer_hangup ≡ true
    → handle (ready e) a d ≡ some (null, closed_by_peer d)
unfolding handle handle_first
handle-peer_closed d e a no_error no_hangup hangup = rw (no_error, no_hangup, hangup) refl

to_wake-reader :
    (d : Device) (r : ReadRequest) → d.reading ≡ some r → r.task ≢ null → to_wake null d ≡ r.task
unfolding to_wake
to_wake-reader d r e h = rw (e, ne→not_== r.task null h) refl

processor-peer_closed :
    (d : Device) (r : ReadRequest) (e : EventSet) (a : Answers)
    → d.reading ≡ some r
    → r.task ≢ null
    → e.error ≡ false
    → e.hangup ≡ false
    → e.peer_hangup ≡ true
    → processor (ready e) a d ≡ some (r.task, closed_by_peer d)
unfolding processor
processor-peer_closed d r e a reading some_task no_error no_hangup hangup =
    ap (λ h. h >>= λ r. some (to_wake (r.0) (r.1), r.1))
      (handle-peer_closed d e a no_error no_hangup hangup)
    ∙ ap (λ t. some (t, closed_by_peer d)) (to_wake-reader (closed_by_peer d) r reading some_task)

and_false : (b : Bool) → b && false ≡ false
and_false true = refl
and_false false = refl

failed-peer_closed : (s : Status) → s.peer_closed ≡ true → failed s ≡ true
unfolding failed
failed-peer_closed s h = ground arith

begin_read-failed :
    (n : ℕ) (task : Ptr) (d : Device) → failed d.status ≡ true → begin_read n task d ≡ returns [] d
unfolding begin_read
begin_read-failed n task d h = elim (Bool-cases (n == 0)) [
  | inl z ↦ rw z refl
  | inr z ↦ rw (z, h) refl
]

end_read-on_time :
    (r : ReadRequest) (d : Device)
    → ((end_read false r d).0 ≡ r.got) × (((end_read false r d).1).status ≡ d.status)
unfolding end_read
end_read-on_time r d = rw (and_false (ltb 0 d.read_timeout)) (refl, refl)

-- Where the peer has closed its side, input that has arrived with that is not read: whatever the
-- descriptor would give, the read that waits returns nothing, and so does every later read.
pub peer_closed-lost :
    (d : Device) (r : ReadRequest) (e : EventSet) (a : Answers) (n : ℕ) (task : Ptr)
    → d.reading ≡ some r
    → r.got ≡ []
    → r.task ≢ null
    → e.error ≡ false
    → e.hangup ≡ false
    → e.peer_hangup ≡ true
    → (d' : Device) × (processor (ready e) a d ≡ some (r.task, d'))
      × ((end_read false r d').0 ≡ [])
      × (begin_read n task ((end_read false r d').1) ≡ returns [] ((end_read false r d').1))
peer_closed-lost d r e a n task reading empty some_task no_error no_hangup hangup =
    let (got, status) = end_read-on_time r (closed_by_peer d) in
    (
      closed_by_peer d,
      processor-peer_closed d r e a reading some_task no_error no_hangup hangup,
      got ∙ empty,
      begin_read-failed n task _ (failed-peer_closed _ (ap (λ s. s.peer_closed) status)),
    )
