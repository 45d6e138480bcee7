-- ===== src/Device/Sync.antt =====
-- `api_stream_processor` of api/src/unix/api_stream.c keeps the descriptor's interest and what it has taken in
-- step with the requests of the waiting tasks.
use libapi.Base.{
  ℕ, ◌+◌, ◌-◌, ◌≤◌, ◌<◌, ◌≡◌, refl, sym, ap, ◌∙◌, inl, inr, List, [], ◌∷◌, ◌++◌, append_assoc, Bool,
  true, false, not, ◌&&◌, ◌||◌, Option, none, some, ◌==◌, ltb, length, take, drop, add64, u64_mod,
  arith, Bool-cases,
}
use libapi.Base.Fallible.{◌>>=◌}
use libapi.Memory.{Ptr}
use libapi.Stream.{Bytes, Status}
use libapi.Stream.Content.{take_two}
use libapi.Errno.{eagain}
use libapi.Device.{
  ReadRequest, WriteRequest, Notice, Device, ReadAnswer, gave, read_failed, WriteAnswer,
  read_answer, read_try, write_answer, write_try, Event, ready, ending, Answers, reader_of,
  writer_of, handle_first, handle, to_wake, processor,
}
use libapi.Device.Tasks.{may_arrive, left}

abbrev pub is_some : {A : Type 0} → Option A → Bool
is_some none = false
is_some (some a) = true

-- What the descriptor has taken of a write that waits.
abbrev pub progress : Option WriteRequest → Bytes
progress none = []
progress (some r) = take r.offset r.buffer

pub record Fits (r : WriteRequest) : Type 0 where
  pub whole : r.length ≡ length r.buffer
  pub inside : r.offset ≤ r.length
  pub small : r.length < u64_mod

abbrev pub AllFit : Option WriteRequest → Type 0
AllFit none = Unit {0}
AllFit (some r) = Fits r

-- The interest is in what tasks wait for, and the descriptor has taken `done` of earlier writes.
pub record Good (done : Bytes) (d : Device) : Type 0 where
  pub input : d.interest.input ≡ is_some d.reading
  pub priority : d.interest.priority ≡ is_some d.reading
  pub output : d.interest.output ≡ is_some d.writing
  pub sent : d.sent ≡ done ++ progress d.writing
  pub fits : AllFit d.writing

-- Handlers and states do not matter.
pub status-Good :
    {done : Bytes} {d : Device} (s : Status) (n : List Notice)
    → Good done d
    → Good done (record d { status = s; notices = n })
status-Good s n g = record {
  input = g.input;
  priority = g.priority;
  output = g.output;
  sent = g.sent;
  fits = g.fits;
}

read_answer-Good :
    {done : Bytes} (a : ReadAnswer) (r : ReadRequest) (d : Device)
    → d.reading ≡ some r
    → Good done d
    → Good done (read_answer a r d)
unfolding read_answer
read_answer-Good (gave []) r d e g = status-Good _ d.notices g
read_answer-Good (gave (b ∷ bs)) r d e g = record {
  input = g.input ∙ ap is_some e;
  priority = g.priority ∙ ap is_some e;
  output = g.output;
  sent = g.sent;
  fits = g.fits;
}
read_answer-Good (read_failed n) r d e g = elim (Bool-cases (n == eagain)) [
  | inl h ↦ rw h g
  | inr h ↦ rw h (status-Good _ _ g)
]

-- A write of the descriptor.
abbrev taken : WriteAnswer → WriteRequest → Device → Device
taken a w d = record d {
  writing = some (record w { offset = add64 w.offset a.count });
  sent = d.sent ++ take a.count (drop w.offset w.buffer);
}

write-Fits :
    (w : WriteRequest) (n : ℕ) → Fits w → n ≤ w.length - w.offset → add64 w.offset n ≡ w.offset + n
write-Fits w n f h = let i = f.inside in let s = f.small in omega arith

taken-Good :
    {done : Bytes} (a : WriteAnswer) (w : WriteRequest) (d : Device)
    → d.writing ≡ some w
    → Fits w
    → a.count ≤ w.length - w.offset
    → Good done d
    → Good done (taken a w d)
taken-Good {done = done} a w d e f h g =
    let moved : add64 w.offset a.count ≡ w.offset + a.count = write-Fits w a.count f h in
    record {
      input = g.input;
      priority = g.priority;
      output = g.output ∙ ap is_some e;
      sent =
          ap (λ s. s ++ take a.count (drop w.offset w.buffer))
            (g.sent ∙ ap (λ r. done ++ progress r) e)
          ∙ append_assoc done (take w.offset w.buffer) (take a.count (drop w.offset w.buffer))
          ∙ ap (λ s. done ++ s) (take_two w.offset a.count w.buffer)
          ∙ ap (λ n. done ++ take n w.buffer) (sym moved);
      fits = record {
        whole = f.whole;
        inside = let i = f.inside in let s = f.small in omega arith;
        small = f.small;
      };
    }

write_answer-Good :
    {done : Bytes} (a : WriteAnswer) (w : WriteRequest) (d : Device)
    → d.writing ≡ some w
    → Fits w
    → a.count ≤ w.length - w.offset
    → Good done d
    → Good done (write_answer a w d)
unfolding write_answer
write_answer-Good a w d e f h g = elim (Bool-cases (ltb 0 a.count)) [
  | inl p ↦ rw p (taken-Good a w d e f h g)
  | inr p ↦ elim (Bool-cases (a.errno == eagain)) [
    | inl q ↦ rw (p, q) g
    | inr q ↦ rw (p, q) (status-Good _ _ g)
  ]
]

-- The answer of a step that does not fault and keeps what is good.
abbrev pub Fine : Bytes → Option (Ptr × Device) → Type 0
Fine done r = (t : Ptr) × (d : Device) × (r ≡ some (t, d)) × Good done d

read_try-Fine :
    {done : Bytes} (a : ReadAnswer) (o : Option ReadRequest) (d : Device)
    → d.reading ≡ o
    → is_some o ≡ true
    → Good done d
    → Fine done (read_try a d >>= λ d'. some (reader_of d', d'))
unfolding read_try
read_try-Fine a none d e h g = cc h
read_try-Fine a (some r) d e h g = (
  _,
  _,
  ap (λ o. o >>= (λ r. some (read_answer a r d)) >>= λ d'. some (reader_of d', d')) e,
  read_answer-Good a r d e g,
)

write_try-Fine :
    {done : Bytes} (a : WriteAnswer) (o : Option WriteRequest) (d : Device)
    → d.writing ≡ o
    → is_some o ≡ true
    → a.count ≤ left o
    → AllFit o
    → Good done d
    → Fine done (write_try a d >>= λ d'. some (writer_of d', d'))
unfolding write_try
write_try-Fine a none d e h n f g = cc h
write_try-Fine a (some w) d e h n f g = (
  _,
  _,
  ap (λ o. o >>= (λ w. some (write_answer a w d)) >>= λ d'. some (writer_of d', d')) e,
  write_answer-Good a w d e f n g,
)

both : (a b : Bool) → a && b ≡ true → (a ≡ true) × (b ≡ true)
both true b h = (refl, h)
both false b h = cc h

-- What is reported and not an error or a hangup is waited for.
asked :
    (o : Option ReadRequest) (i p ii pp out : Bool)
    → ii ≡ is_some o
    → pp ≡ is_some o
    → (not i || ii) && ((not p || pp) && out) ≡ true
    → i || p ≡ true
    → is_some o ≡ true
asked none true p ii pp out e f h k = sym e ∙ (both ii _ h).0
asked none false true ii pp out e f h k = sym f ∙ (both pp out h).0
asked none false false ii pp out e f h k = k
asked (some r) i p ii pp out e f h k = refl

asked_output : (a b c : Bool) → a && (b && (not true || c)) ≡ true → c ≡ true
asked_output true true c h = h
asked_output true false c h = cc h
asked_output false b c h = cc h

first-Fine :
    {done : Bytes} (e h p i o : Bool) (a : Answers) (d : Device)
    → (i ≡ true → is_some d.reading ≡ true)
    → (o ≡ true → is_some d.writing ≡ true)
    → a.to_write.count ≤ left d.writing
    → Good done d
    → Fine done (handle_first e h p i o a d)
unfolding handle_first
first-Fine true h p i o a d r w n g = (_, _, refl, status-Good _ _ g)
first-Fine false true p i o a d r w n g = (_, _, refl, status-Good _ _ g)
first-Fine false false true i o a d r w n g = (_, _, refl, status-Good _ _ g)
first-Fine false false false true o a d r w n g =
    read_try-Fine a.to_read d.reading d refl (r refl) g
first-Fine false false false false true a d r w n g =
    write_try-Fine a.to_write d.writing d refl (w refl) n g.fits g
first-Fine false false false false false a d r w n g = (_, _, refl, status-Good _ _ g)

handle-Fine :
    {done : Bytes} (e : Event) (a : Answers) (d : Device)
    → may_arrive d e ≡ true
    → a.to_write.count ≤ left d.writing
    → Good done d
    → Fine done (handle e a d)
unfolding handle may_arrive
handle-Fine ending a d m n g = (_, _, refl, status-Good _ _ g)
handle-Fine (ready e) a d m n g =
    let k =
      (both (e.error || e.hangup || e.peer_hangup || e.input || e.priority || e.output) _ m).1 in
    first-Fine e.error e.hangup e.peer_hangup (e.input || e.priority) e.output a d
      (asked d.reading e.input e.priority d.interest.input d.interest.priority _ g.input g.priority
        k)
      (λ o. sym g.output ∙ asked_output _ _ d.interest.output (rw o at k)) n g

-- Whoever is chosen to be woken, the stream stays the same.
chosen-Fine :
    {done : Bytes} (r : Option (Ptr × Device))
    → Fine done r
    → Fine done (r >>= λ r. some (to_wake (r.0) (r.1), r.1))
chosen-Fine r (t, d, e, g) = (_, d, ap (λ r. r >>= λ r. some (to_wake (r.0) (r.1), r.1)) e, g)

pub processor-Fine :
    {done : Bytes} (e : Event) (a : Answers) (d : Device)
    → may_arrive d e ≡ true
    → a.to_write.count ≤ left d.writing
    → Good done d
    → Fine done (processor e a d)
unfolding processor
processor-Fine e a d m n g = chosen-Fine (handle e a d) (handle-Fine e a d m n g)
