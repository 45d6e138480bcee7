-- ===== src/Transfer/Order.antt =====
-- The chunks of `api_stream_transfer` of api/src/api_stream_common.c stay in their order.
use libapi.Base.{
  ℕ, suc, ◌≡◌, ◌≢◌, refl, sym, ap, ◌∙◌, inl, inr, List, [], ◌∷◌, ◌++◌, Bool, true, false, ◌-◌, ◌&&◌,
  ◌==◌, if◌then◌else◌, length, Bool-cases, append_assoc,
}
use libapi.Transfer.{
  Bytes, Reader, stopped, asleep, writing, returned, World, wake_writer, has_read, has_ended,
  end_round, next_of, next_buffer, has_woken, has_written, Move, reads, ends, wakes, writes, Step,
  moves, disturbs, disturbed, initial, Star, here, then_step,
}

-- `rest` was read and not handed to a write.
pub record Ord (w : World) : Type 0 where
  pub rest : List Bytes
  pub split : w.taken ≡ w.given ++ rest
  pub kept : w.transfer.write_done ≡ false → rest ≡ w.transfer.buffers
  pub complete :
      w.writer ≡ returned
      → w.transfer.write_done ≡ false
      → (w.transfer.buffers ≡ []) × (w.transfer.read_done ≡ true)
  pub failed : w.transfer.write_done ≡ true → w.writer ≡ returned

wake-Ord : (w : World) → Ord w → Ord (wake_writer w)
unfolding wake_writer
wake-Ord w o = elim (Bool-cases (w.transfer.num_wakeup_done == w.transfer.num_wakeup_req)) [
  | inl e ↦ rw e (record {
    rest = o.rest;
    split = o.split;
    kept = o.kept;
    complete = o.complete;
    failed = o.failed;
  })
  | inr e ↦ rw e o
]

-- A writer that has not returned has not failed.
going : (w : World) → Ord w → w.writer ≢ returned → w.transfer.write_done ≡ false
going w o h = elim (Bool-cases w.transfer.write_done) [
  | inl e ↦ absurd (h (o.failed e))
  | inr e ↦ e
]

pick-Ord : (b : Bool) {v w : World} → Ord v → Ord w → Ord (if b then v else w)
pick-Ord true p q = p
pick-Ord false p q = q

-- The fields that the reader changes at the end of its loop do not matter.
stop-Ord : {w : World} (r : Reader) → Ord w → Ord (record w { reader = r })
stop-Ord r o = record {
  rest = o.rest;
  split = o.split;
  kept = o.kept;
  complete = o.complete;
  failed = o.failed;
}

abbrev grown : Bytes → World → World
grown b w = record w {
  transfer = record (w.transfer) { buffers = w.transfer.buffers ++ b ∷ [] };
  taken = w.taken ++ b ∷ [];
}

grown-Ord : (b : Bytes) (w : World) → w.writer ≢ returned → Ord w → Ord (grown b w)
grown-Ord b w h o = record {
  rest = o.rest ++ b ∷ [];
  split = ap (λ bs. bs ++ b ∷ []) o.split ∙ append_assoc w.given o.rest (b ∷ []);
  kept = λ e. ap (λ bs. bs ++ b ∷ []) (o.kept e);
  complete = λ r e. absurd (h r);
  failed = o.failed;
}

has_read-Ord : (b : Bytes) (w : World) → w.writer ≢ returned → Ord w → Ord (has_read b w)
unfolding has_read
has_read-Ord b w h o =
    let o' : Ord (grown b w) = grown-Ord b w h o in
    pick-Ord w.transfer.write_done (wake-Ord _ (stop-Ord stopped o')) (wake-Ord _ o')

has_ended-Ord : (w : World) → w.writer ≢ returned → Ord w → Ord (has_ended w)
unfolding has_ended
has_ended-Ord w h o =
    wake-Ord (record w { reader = stopped; transfer = record (w.transfer) { read_done = true } })
      (record {
        rest = o.rest;
        split = o.split;
        kept = o.kept;
        complete = λ r e. absurd (h r);
        failed = o.failed;
      })

false≢true : {b : Bool} → b ≡ false → b ≢ true
false≢true e h = cc (sym e ∙ h)

writing≢returned : {b : Bytes} → writing b ≢ returned
writing≢returned e = cc e

asleep≢returned : asleep ≢ returned
asleep≢returned e = cc e

asleep-or-returned : (b : Bool) → (if b then returned else asleep) ≡ returned → b ≡ true
asleep-or-returned true e = refl
asleep-or-returned false e = absurd (asleep≢returned e)

left-true : (a b : Bool) → a && b ≡ true → a ≡ true
left-true true b e = refl
left-true false b e = e

end-Ord :
    (w : World)
    → w.transfer.buffers ≡ []
    → w.transfer.write_done ≡ false
    → Ord w
    → Ord (end_round w)
unfolding end_round
end-Ord w e on o = record {
  rest = o.rest;
  split = o.split;
  kept = o.kept;
  complete = λ r h. (e, left-true w.transfer.read_done _ (asleep-or-returned _ r));
  failed = λ h. absurd (false≢true on h);
}

-- What the writer does next, where `bs` are the chunks that wait.
next-Ord :
    (bs : List Bytes) (w : World)
    → w.transfer.buffers ≡ bs
    → w.transfer.write_done ≡ false
    → Ord w
    → Ord (next_of bs w)
unfolding next_of
next-Ord [] w e on o = end-Ord w e on o
next-Ord (b ∷ bs) w e on o = record {
  rest = bs;
  split = o.split ∙ ap (λ r. w.given ++ r) (o.kept on ∙ e) ∙ sym (append_assoc w.given (b ∷ []) bs);
  kept = λ h. refl;
  complete = λ r h. absurd (writing≢returned r);
  failed = λ h. absurd (false≢true on h);
}

next_buffer-Ord : (w : World) → w.transfer.write_done ≡ false → Ord w → Ord (next_buffer w)
unfolding next_buffer
next_buffer-Ord w on o = next-Ord w.transfer.buffers w refl on o

-- `w` but for what neither the chunks nor the answer depend on.
same-Ord :
    {w : World} (n p d : ℕ)
    → Ord w
    → Ord
        (record w { wrote = n; posted = p; transfer = record (w.transfer) { num_wakeup_done = d } })
same-Ord n p d o = record {
  rest = o.rest;
  split = o.split;
  kept = o.kept;
  complete = o.complete;
  failed = o.failed;
}

has_written-Ord :
    (b : Bytes) (n : ℕ) (w : World) → w.writer ≡ writing b → Ord w → Ord (has_written b n w)
unfolding has_written
has_written-Ord b n w e o =
    let on = going w o (λ r. writing≢returned (sym e ∙ r)) in
    pick-Ord (length b == n)
      (next_buffer-Ord (record w { wrote = n }) on
        (same-Ord n w.posted w.transfer.num_wakeup_done o))
      (record {
        rest = o.rest;
        split = o.split;
        kept = λ h. absurd (cc h);
        complete = λ r h. absurd (cc h);
        failed = λ h. refl;
      })

Move-Ord : {w v : World} → Move w v → Ord w → Ord v
unfolding has_woken
Move-Ord (reads b ne r h) o = has_read-Ord b _ h o
Move-Ord (ends r h) o = has_ended-Ord _ h o
Move-Ord {w = w} (wakes a p) o =
    next_buffer-Ord _ (going w o (λ r. asleep≢returned (sym a ∙ r)))
      (same-Ord w.wrote (w.posted - 1) (suc w.transfer.num_wakeup_done) o)
Move-Ord (writes b n e) o = has_written-Ord b n _ e o

Step-Ord : {w v : World} → Step w v → Ord w → Ord v
unfolding disturbed
Step-Ord (moves m) o = Move-Ord m o
Step-Ord {w = w} (disturbs b e p) o = same-Ord w.wrote (w.posted - 1) w.transfer.num_wakeup_done o

initial-Ord : Ord initial
initial-Ord = record {
  rest = [];
  split = refl;
  kept = λ e. refl;
  complete = λ r e. absurd (asleep≢returned r);
  failed = λ e. absurd (cc e);
}

-- What is read is handed on in its order: in every state that api_stream_transfer reaches, whatever
-- the streams and the loop do, the chunks that were read are those that were handed to a write and
-- then, as long as no write has failed, those that wait; and when it returns without a failed write
-- all of them were handed over.
pub run-Ord : {w : World} → Star Step initial w → Ord w
run-Ord here = initial-Ord
run-Ord (then_step s m) = Step-Ord m (run-Ord s)
