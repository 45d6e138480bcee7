-- ===== src/Device/Runs.antt =====
-- Whatever the tasks of a stream of api/src/unix/api_stream.c, its descriptor and its loop do.
use libapi.Base.{
  ℕ, ◌<◌, ◌≡◌, refl, sym, ap, ◌∙◌, inl, inr, List, [], ◌∷◌, ◌++◌, append_assoc, append-nil, Bool,
  true, false, ◌&&◌, Option, none, some, ◌==◌, ltb, if◌then◌else◌, length, take, u64_mod, u64_max,
  arith, Bool-cases,
}
use mathlib.Core.Path.{subst}
use libapi.Memory.{Ptr, null}
use libapi.Stream.{Bytes, failed}
use libapi.Device.{ReadRequest, WriteRequest, Device, read_add, write_add, write_del, reader_of}
use libapi.Device.Socket.{
  Begun, returns, waits, begin_read, end_read, write_failed, begin_write, goes_on, end_write,
  resume_write,
}
use libapi.Device.Tasks.{
  World, resume_reader, resume_writer, deliver, Step, starts_read, starts_write, arrives,
  resumes_reader, resumes_writer, ends_loop,
}
use libapi.Device.Sync.{progress, Good, processor-Fine}
use libapi.Device.Interest.{add_input, del_input, add_output, del_output}

-- What the descriptor has taken of the writes that have returned.
abbrev pub taken_of : List (Bytes × ℕ) → Bytes
taken_of [] = []
taken_of (p ∷ ps) = take p.1 p.0 ++ taken_of ps

taken_of-append :
    (ps : List (Bytes × ℕ)) (bs : Bytes) (n : ℕ)
    → taken_of (ps ++ (bs, n) ∷ []) ≡ taken_of ps ++ take n bs
taken_of-append [] bs n = append-nil (take n bs)
taken_of-append (p ∷ ps) bs n =
    ap (λ t. take p.1 p.0 ++ t) (taken_of-append ps bs n)
    ∙ sym (append_assoc (take p.1 p.0) (taken_of ps) (take n bs))

-- The device that an operation leaves, asleep or not.
abbrev pub device_of : {A : Type 0} → Begun A → Device
device_of (returns a d) = d
device_of (waits d) = d

pick-Good :
    {A : Type 0} {done : Bytes} (t : Bool) (x y : Begun A)
    → Good done (device_of x)
    → Good done (device_of y)
    → Good done (device_of (if t then x else y))
pick-Good true x y g h = g
pick-Good false x y g h = h

reads-Good :
    {done : Bytes} (n : ℕ) (task : Ptr) (d : Device)
    → Good done d
    → Good done (record d {
      reading = some (record { length = n; got = []; task = task });
      interest = read_add d.interest;
    })
reads-Good n task d g =
    let (i, p, o) = add_input d.interest.output d.interest refl in
    record { input = i; priority = p; output = o ∙ g.output; sent = g.sent; fits = g.fits }

begin_read-Good :
    {done : Bytes} (n : ℕ) (task : Ptr) (d : Device)
    → Good done d
    → Good done (device_of (begin_read n task d))
unfolding begin_read
begin_read-Good n task d g =
    pick-Good (n == 0) (returns [] d) _ g
      (pick-Good (failed d.status) (returns [] d) (waits _) g (reads-Good n task d g))

end_read-Good :
    {done : Bytes} (elapsed : Bool) (r : ReadRequest) (d : Device)
    → Good done d
    → Good done ((end_read elapsed r d).1)
unfolding end_read
end_read-Good elapsed r d g =
    let (i, p, o) = del_input d.interest.output d.interest refl in
    elim (Bool-cases (ltb 0 d.read_timeout && elapsed)) [
      | inl e ↦
          rw e (record {
            input = i;
            priority = p;
            output = o ∙ g.output;
            sent = g.sent;
            fits = g.fits;
          })
      | inr e ↦
          rw e (record {
            input = i;
            priority = p;
            output = o ∙ g.output;
            sent = g.sent;
            fits = g.fits;
          })
    ]

writes-Good :
    {done : Bytes} (bs : Bytes) (task : Ptr) (d : Device)
    → length bs < u64_mod
    → d.writing ≡ none
    → Good done d
    → Good done (record d {
      writing = some (record { buffer = bs; length = length bs; offset = 0; task = task });
      interest = write_add d.interest;
    })
writes-Good {done = done} bs task d small e g =
    let (i, p, o) = add_output d.interest.input d.interest refl in
    record {
      input = i ∙ g.input;
      priority = p ∙ g.input;
      output = o;
      sent = g.sent ∙ ap (λ w. done ++ progress w) e;
      fits = record { whole = refl; inside = omega arith; small = small };
    }

begin_write-Good :
    {done : Bytes} (bs : Bytes) (task : Ptr) (d : Device)
    → length bs < u64_mod
    → d.writing ≡ none
    → Good done d
    → Good done (device_of (begin_write bs task d))
unfolding begin_write
begin_write-Good bs task d small e g = pick-Good (length bs == 0) (returns 0 d) _ g (
    pick-Good (write_failed d.status) (returns u64_max d) _ g (
      pick-Good d.loop_terminated (returns u64_max d) (waits _) g
        (writes-Good bs task d small e g)))

wrote-Good :
    {done : Bytes} (w : WriteRequest) (d : Device)
    → d.writing ≡ some w
    → Good done d
    → Good
        (done ++ take w.offset w.buffer)
        (record d { writing = none; interest = write_del d.interest })
wrote-Good {done = done} w d e g =
    let (i, p, o) = del_output d.interest.input d.interest refl in
    record {
      input = i ∙ g.input;
      priority = p ∙ g.input;
      output = o;
      sent =
          g.sent
          ∙ ap (λ w. done ++ progress w) e
          ∙ sym (append-nil (done ++ take w.offset w.buffer));
      fits = tt;
    }

pub end_write-count :
    (elapsed : Bool) (w : WriteRequest) (d : Device) → (end_write elapsed w d).0 ≡ w.offset
unfolding end_write
end_write-count elapsed w d = elim (Bool-cases (ltb 0 d.write_timeout && elapsed)) [
  | inl e ↦ rw e refl
  | inr e ↦ rw e refl
]

end_write-Good :
    {done : Bytes} (elapsed : Bool) (w : WriteRequest) (d : Device)
    → d.writing ≡ some w
    → Good done d
    → Good (done ++ take w.offset w.buffer) ((end_write elapsed w d).1)
unfolding end_write
end_write-Good elapsed w d e g =
    let h = wrote-Good w d e g in
    elim (Bool-cases (ltb 0 d.write_timeout && elapsed)) [
      | inl t ↦ rw t (record {
        input = h.input;
        priority = h.priority;
        output = h.output;
        sent = h.sent;
        fits = h.fits;
      })
      | inr t ↦ rw t (record {
        input = h.input;
        priority = h.priority;
        output = h.output;
        sent = h.sent;
        fits = h.fits;
      })
    ]

abbrev pub WorldGood : World → Type 0
WorldGood w = Good (taken_of w.written) w.device

-- A write that returns is listed with what was taken of it.
finished-Good :
    (elapsed : Bool) (r : WriteRequest) (w : World)
    → w.device.writing ≡ some r
    → WorldGood w
    → WorldGood (record {
      device = (end_write elapsed r w.device).1;
      written = w.written ++ (r.buffer, (end_write elapsed r w.device).0) ∷ [];
    })
finished-Good elapsed r w e g =
    subst (λ t. Good t ((end_write elapsed r w.device).1))
      (ap (λ n. taken_of w.written ++ take n r.buffer) (sym (end_write-count elapsed r w.device))
        ∙ sym (taken_of-append w.written r.buffer ((end_write elapsed r w.device).0)))
      (end_write-Good elapsed r w.device e g)

resume_writer-Good :
    (elapsed : Bool) (o : Option WriteRequest) (w : World)
    → w.device.writing ≡ o
    → WorldGood w
    → WorldGood (resume_writer elapsed o w)
unfolding resume_write
resume_writer-Good elapsed none w e g = g
resume_writer-Good elapsed (some r) w e g = elim (Bool-cases (goes_on elapsed r w.device)) [
  | inl t ↦ rw t g
  | inr t ↦ rw t (finished-Good elapsed r w e g)
]

resume_reader-Good :
    (elapsed : Bool) (o : Option ReadRequest) (w : World)
    → WorldGood w
    → WorldGood (resume_reader elapsed o w)
resume_reader-Good elapsed none w g = g
resume_reader-Good elapsed (some r) w g = end_read-Good elapsed r w.device g

deliver-Good : (t : Ptr) (w : World) → WorldGood w → WorldGood (deliver t w)
unfolding deliver
deliver-Good t w g = elim (Bool-cases (t == null)) [
  | inl z ↦ rw z g
  | inr z ↦ elim (Bool-cases (t == reader_of w.device)) [
    | inl r ↦ rw (z, r) (resume_reader-Good false w.device.reading w g)
    | inr r ↦ rw (z, r) (resume_writer-Good false w.device.writing w refl g)
  ]
]

abbrev device_or : Device → Option (Ptr × Device) → Device
device_or d none = d
device_or d (some r) = r.1

pub Step-Good : {w v : World} → Step w v → WorldGood w → WorldGood v
Step-Good {w = w} (starts_read n task d e b) g =
    subst (Good (taken_of w.written)) (ap device_of b) (begin_read-Good n task w.device g)
Step-Good {w = w} (starts_write bs task d small e b) g =
    subst (Good (taken_of w.written)) (ap device_of b) (begin_write-Good bs task w.device small e g)
Step-Good {w = w} (arrives e a t d m n p) g =
    let (t', d', p', g') = processor-Fine e a w.device m n g in
    deliver-Good t (record w { device = d })
      (subst (Good (taken_of w.written)) (ap (λ r. device_or d (r)) (sym p' ∙ p)) g')
Step-Good {w = w} (resumes_reader elapsed) g = resume_reader-Good elapsed w.device.reading w g
Step-Good {w = w} (resumes_writer elapsed) g = resume_writer-Good elapsed w.device.writing w refl g
Step-Good ends_loop g = record {
  input = g.input;
  priority = g.priority;
  output = g.output;
  sent = g.sent;
  fits = g.fits;
}
