-- ===== src/Transfer/Disturbed.antt =====
-- What becomes of a wakeup that reaches the writer of `api_stream_transfer` in a write, as
-- api/src/api_stream_common.c allows.
use libapi.Base.{
  ℕ, suc, ◌-◌, ◌⊎◌, inl, inr, List, Bool-cases, ==→eq, ◌<◌, ◌≡◌, ◌≢◌, refl, sym, ap, ◌∙◌, [], ◌∷◌,
  Bool, true, false, ◌==◌, if◌then◌else◌, length, arith,
}
use mathlib.Core.Path.{subst}
use libapi.Transfer.{
  Bytes, asleep, writing, World, wake_writer, has_read, has_ended, end_round, next_of, next_buffer,
  has_woken, has_written, Move, reads, ends, wakes, writes, Step, moves, disturbs, disturbed,
  initial, Star, here, then_step,
}
use libapi.Transfer.Stuck.{written_whole}

-- The reader reads `b`, the writer takes it to a write, and while it waits there the reader reads `c`.
abbrev pub both_read : Bytes → Bytes → World
both_read b c = has_read c (has_woken (has_read b initial))

pub both_read-steps : (b c : Bytes) → b ≢ [] → c ≢ [] → Star Move initial (both_read b c)
unfolding has_read wake_writer has_woken next_buffer next_of
both_read-steps b c hb hc =
    then_step (then_step (then_step here (reads b hb refl (λ e. cc e))) (wakes refl (omega arith)))
      (reads c hc refl (λ e. cc e))

pub both_read-writer : (b c : Bytes) → (both_read b c).writer ≡ writing b
unfolding has_read wake_writer has_woken next_buffer next_of
both_read-writer b c = refl

pub both_read-posted : (b c : Bytes) → (both_read b c).posted ≡ 1
unfolding has_read wake_writer has_woken next_buffer next_of
both_read-posted b c = refl

-- The wakeup that the reader sent after `c` reaches the writer in its write of `b`.
abbrev pub disturbed_run : Bytes → Bytes → World
disturbed_run b c = has_written c (length c) (has_written b (length b) (disturbed (both_read b c)))

disturbed_writer : (b c : Bytes) → (disturbed (both_read b c)).writer ≡ writing b
unfolding disturbed
disturbed_writer b c = both_read-writer b c

-- The write of `b` is over, and the one of `c` goes on.
second_write :
    (b c : Bytes) → (has_written b (length b) (disturbed (both_read b c))).writer ≡ writing c
unfolding has_read wake_writer has_woken next_buffer next_of disturbed
second_write b c = ap (λ w. w.writer) (written_whole b (disturbed (both_read b c)))

pub disturbed_run-steps : (b c : Bytes) → Star Step (disturbed (both_read b c)) (disturbed_run b c)
disturbed_run-steps b c =
    then_step (then_step here (moves (writes b (length b) (disturbed_writer b c))))
      (moves (writes c (length c) (second_write b c)))

pick {κ} : (P : World → Type κ) (t : Bool) {v w : World} → P v → P w → P (if t then v else w)
pick P true p q = p
pick P false p q = q

-- The writer sleeps, no wakeup is on its way, and the reader takes one to be.
record Stuck (w : World) : Type 0 where
  sleeps : w.writer ≡ asleep
  none_posted : w.posted ≡ 0
  waits : (w.transfer.num_wakeup_done == w.transfer.num_wakeup_req) ≡ false

wake-Stuck : (w : World) → Stuck w → Stuck (wake_writer w)
unfolding wake_writer
wake-Stuck w s = rw s.waits s

none_left : {A : Type 0} {p : ℕ} → 0 < p → p ≡ 0 → A
none_left h e = absurd (omega arith)

Step-Stuck : {w v : World} → Step w v → Stuck w → Stuck v
unfolding has_read has_ended
Step-Stuck {w = w} (moves (reads b ne r h)) s =
    pick Stuck w.transfer.write_done
      (wake-Stuck _ (record { sleeps = s.sleeps; none_posted = s.none_posted; waits = s.waits }))
      (wake-Stuck _ (record { sleeps = s.sleeps; none_posted = s.none_posted; waits = s.waits }))
Step-Stuck (moves (ends r h)) s =
    wake-Stuck _ (record { sleeps = s.sleeps; none_posted = s.none_posted; waits = s.waits })
Step-Stuck (moves (wakes a p)) s = none_left p s.none_posted
Step-Stuck (moves (writes b n e)) s = cc (sym e ∙ s.sleeps)
Step-Stuck (disturbs b e p) s = cc (sym e ∙ s.sleeps)

stays : {w v : World} → Star Step w v → Stuck w → Stuck v
stays here s = s
stays (then_step r m) s = Step-Stuck m (stays r s)

-- At most one wakeup is on its way, and then it is the one that was asked for last.
abbrev OneWakeup : World → Type 0
OneWakeup w =
    (w.posted ≡ 0) ⊎ ((w.posted ≡ 1) × (suc w.transfer.num_wakeup_done ≡ w.transfer.num_wakeup_req))

-- No wakeup is on its way, and the reader takes one to be.
record Lost (w : World) : Type 0 where
  none_posted : w.posted ≡ 0
  waits : (w.transfer.num_wakeup_done == w.transfer.num_wakeup_req) ≡ false

wake-OneWakeup : (w : World) → OneWakeup w → OneWakeup (wake_writer w)
unfolding wake_writer
wake-OneWakeup w o = elim (Bool-cases (w.transfer.num_wakeup_done == w.transfer.num_wakeup_req)) [
  | inl h ↦ rw h (inr (by_count o (==→eq _ _ h), ap suc (==→eq _ _ h)))
  | inr h ↦ rw h o
]
  where
    by_count :
        OneWakeup w → w.transfer.num_wakeup_done ≡ w.transfer.num_wakeup_req → suc w.posted ≡ 1
    by_count (inl e) h = ap suc e
    by_count (inr (e, f)) h = absurd (omega arith)

wake-Lost : (w : World) → Lost w → Lost (wake_writer w)
unfolding wake_writer
wake-Lost w l = rw l.waits l

-- What the writer does with its chunks concerns neither the wakeups nor their numbers.
record SameWakeups (w v : World) : Type 0 where
  posted : v.posted ≡ w.posted
  asked : v.transfer.num_wakeup_req ≡ w.transfer.num_wakeup_req
  answered : v.transfer.num_wakeup_done ≡ w.transfer.num_wakeup_done

next-SameWakeups : (bs : List Bytes) (w : World) → SameWakeups w (next_of bs w)
unfolding next_of end_round
next-SameWakeups [] w = record { posted = refl; asked = refl; answered = refl }
next-SameWakeups (b ∷ bs) w = record { posted = refl; asked = refl; answered = refl }

has_written-SameWakeups : (b : Bytes) (n : ℕ) (w : World) → SameWakeups w (has_written b n w)
unfolding has_written next_buffer
has_written-SameWakeups b n w = elim (Bool-cases (length b == n)) [
  | inl h ↦ rw h (again (next-SameWakeups w.transfer.buffers (record w { wrote = n })))
  | inr h ↦ rw h (record { posted = refl; asked = refl; answered = refl })
]
  where
    again : {v : World} → SameWakeups (record w { wrote = n }) v → SameWakeups w v
    again s = record { posted = s.posted; asked = s.asked; answered = s.answered }

same-OneWakeup : {w v : World} → SameWakeups w v → OneWakeup w → OneWakeup v
same-OneWakeup s (inl e) = inl (s.posted ∙ e)
same-OneWakeup s (inr (e, f)) = inr (s.posted ∙ e, ap suc s.answered ∙ f ∙ sym s.asked)

same-Lost : {w v : World} → SameWakeups w v → Lost w → Lost v
same-Lost {w} {v} s l = record {
  none_posted = s.posted ∙ l.none_posted;
  waits =
      ap (λ d. d == v.transfer.num_wakeup_req) s.answered
      ∙ ap (λ r. w.transfer.num_wakeup_done == r) s.asked
      ∙ l.waits;
}

one_less : (w : World) → OneWakeup w → w.posted - 1 ≡ 0
one_less w (inl e) = omega arith
one_less w (inr (e, f)) = omega arith

Step-OneWakeup : {w v : World} → Step w v → OneWakeup w → OneWakeup v
unfolding has_read has_ended has_woken next_buffer disturbed
Step-OneWakeup {w = w} (moves (reads b ne r h)) o =
    pick OneWakeup w.transfer.write_done (wake-OneWakeup _ o) (wake-OneWakeup _ o)
Step-OneWakeup (moves (ends r h)) o = wake-OneWakeup _ o
Step-OneWakeup {w = w} (moves (wakes a p)) o =
    same-OneWakeup (next-SameWakeups w.transfer.buffers _) (inl (one_less w o))
Step-OneWakeup {w = w} (moves (writes b n e)) o = same-OneWakeup (has_written-SameWakeups b n w) o
Step-OneWakeup {w = w} (disturbs b e p) o = inl (one_less w o)

run-OneWakeup : {w : World} → Star Step initial w → OneWakeup w
run-OneWakeup here = inl refl
run-OneWakeup (then_step r m) = Step-OneWakeup m (run-OneWakeup r)

disturbed-Lost : (w : World) → OneWakeup w → 0 < w.posted → Lost (disturbed w)
unfolding disturbed
disturbed-Lost w (inl e) p = none_left p e
disturbed-Lost w (inr (e, f)) p = record { none_posted = omega arith; waits = ground arith }

Step-Lost : {w v : World} → Step w v → Lost w → Lost v
unfolding has_read has_ended
Step-Lost {w = w} (moves (reads b ne r h)) l =
    pick Lost w.transfer.write_done
      (wake-Lost _ (record { none_posted = l.none_posted; waits = l.waits }))
      (wake-Lost _ (record { none_posted = l.none_posted; waits = l.waits }))
Step-Lost (moves (ends r h)) l =
    wake-Lost _ (record { none_posted = l.none_posted; waits = l.waits })
Step-Lost (moves (wakes a p)) l = none_left p l.none_posted
Step-Lost {w = w} (moves (writes b n e)) l = same-Lost (has_written-SameWakeups b n w) l
Step-Lost (disturbs b e p) l = none_left p l.none_posted

run-Lost : {w v : World} → Star Step w v → Lost w → Lost v
run-Lost here l = l
run-Lost (then_step r m) l = Step-Lost m (run-Lost r l)

-- Once a wakeup has reached the writer of api_stream_transfer in a write, and after that the writer is asleep,
-- it is asleep in every later state, with no wakeup on its way, whatever is read and written.
pub disturbed-asleep :
    {w v u : World} (b : Bytes)
    → Star Step initial w
    → w.writer ≡ writing b
    → 0 < w.posted
    → Star Step (disturbed w) v
    → v.writer ≡ asleep
    → Star Step v u
    → (u.writer ≡ asleep) × (u.posted ≡ 0)
disturbed-asleep {w = w} b run e p r s later =
    let l = run-Lost r (disturbed-Lost w (run-OneWakeup run) p) in
    let k = stays later (record { sleeps = s; none_posted = l.none_posted; waits = l.waits }) in
    (k.sleeps, k.none_posted)

-- Such a run, in which the writer does fall asleep.
pub disturbed_run-asleep : (b c : Bytes) → (disturbed_run b c).writer ≡ asleep
unfolding has_read wake_writer has_woken next_buffer next_of end_round disturbed
disturbed_run-asleep b c =
    subst (λ w. w.writer ≡ asleep)
      (sym (
        written_whole c _
        ∙ ap (λ w. next_buffer (record w { wrote = length c })) (written_whole b _)))
      refl
