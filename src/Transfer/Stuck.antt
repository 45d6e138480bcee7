-- ===== src/Transfer/Stuck.antt =====
-- Runs in which `api_stream_transfer` of api/src/api_stream_common.c counts wrong.
use libapi.Base.{ℕ, ◌+◌, ◌≡◌, ◌≢◌, refl, sym, ap, ◌∙◌, [], ◌∷◌, length, arith, ==_refl}
use mathlib.Core.Path.{subst}
use libapi.Transfer.{
  Bytes, writing, returned, World, wake_writer, has_read, has_ended, end_round, next_of,
  next_buffer, has_woken, has_written, Move, reads, ends, wakes, writes, Step, moves, initial, Star,
  here, then_step,
}

-- A write that takes the whole chunk.
pub written_whole :
    (b : Bytes) (w : World)
    → has_written b (length b) w ≡ next_buffer (record w { wrote = length b })
unfolding has_written
written_whole b w = rw (==_refl (length b)) refl

pub any-Step : {w : World} → Star Move initial w → Star Step initial w
any-Step here = here
any-Step (then_step s m) = then_step (any-Step s) (moves m)

-- The reader meets the end right after its second chunk, and then the writer writes both.
abbrev pub two_chunks : Bytes → Bytes → World
two_chunks b c =
    has_written c (length c)
      (has_written b (length b) (has_woken (has_ended (has_read c (has_read b initial)))))

two_chunks-writes :
    (b c : Bytes)
    → (has_written b (length b) (has_woken (has_ended (has_read c (has_read b initial))))).writer
      ≡ writing c
unfolding has_read has_ended wake_writer has_woken next_buffer next_of
two_chunks-writes b c = ap (λ w. w.writer) (written_whole b _)

pub two_chunks-steps : (b c : Bytes) → b ≢ [] → c ≢ [] → Star Move initial (two_chunks b c)
unfolding has_read has_ended wake_writer has_woken next_buffer next_of
two_chunks-steps b c hb hc =
    then_step
      (then_step
        (then_step
          (then_step
            (then_step (then_step here (reads b hb refl (λ e. cc e))) (reads c hc refl (λ e. cc e)))
            (ends refl (λ e. cc e)))
          (wakes refl (omega arith)))
        (writes b (length b) refl))
      (writes c (length c) (two_chunks-writes b c))

add_zero_left : (n : ℕ) → 0 + n ≡ n
add_zero_left n = omega arith

two_chunks_lem :
    (b c : Bytes)
    → (two_chunks b c).given ≡ b ∷ c ∷ []
      × (two_chunks b c).writer ≡ returned
      × (two_chunks b c).total ≡ length c
unfolding has_read has_ended wake_writer has_woken next_buffer next_of end_round
two_chunks_lem b c =
    subst (λ w. w.given ≡ b ∷ c ∷ [] × w.writer ≡ returned × w.total ≡ length c)
      (sym (
        written_whole c _
        ∙ ap (λ w. next_buffer (record w { wrote = length c })) (written_whole b _)))
      (refl, refl, add_zero_left (length c))

-- api_stream_transfer counts the last chunk of a round only: for any two chunks there is a run in
-- which both are read and written and the call returns with the length of the second one as the
-- number of bytes transferred.
pub two_chunks-total :
    (b c : Bytes)
    → b ≢ []
    → c ≢ []
    → Star Step initial (two_chunks b c)
      × (two_chunks b c).given ≡ b ∷ c ∷ []
      × (two_chunks b c).writer ≡ returned
      × (two_chunks b c).total ≡ length c
two_chunks-total b c hb hc =
    let l = two_chunks_lem b c in (any-Step (two_chunks-steps b c hb hc), l.0, l.1, l.2)
