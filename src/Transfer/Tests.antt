-- ===== src/Transfer/Tests.antt =====
-- Runs of `api_stream_transfer` of api/src/api_stream_common.c.
use libapi.Base.{arith, ◌≡◌, ◌≢◌, [], ◌∷◌}
use libapi.Transfer.{Bytes, asleep, returned, Step, initial, Star, here}
use libapi.Transfer.Order.{Ord, run-Ord}
use libapi.Transfer.Stuck.{any-Step, two_chunks, two_chunks-steps, two_chunks-total}
use libapi.Transfer.Disturbed.{
  both_read-steps, both_read-writer, both_read-posted, disturbed_run, disturbed_run-steps,
  disturbed_run-asleep, disturbed-asleep,
}

abbrev one : Bytes
one = 7 ∷ 8 ∷ []

abbrev other : Bytes
other = 9 ∷ []

one-some : one ≢ []
one-some e = cc e

other-some : other ≢ []
other-some e = cc e

run-Ord_example : Ord (two_chunks one other)
run-Ord_example = run-Ord (any-Step (two_chunks-steps one other one-some other-some))

disturbed-asleep_example :
    ((disturbed_run one other).writer ≡ asleep) × ((disturbed_run one other).posted ≡ 0)
disturbed-asleep_example =
    disturbed-asleep one (any-Step (both_read-steps one other one-some other-some))
      (both_read-writer one other) (omega (arith, both_read-posted one other))
      (disturbed_run-steps one other) (disturbed_run-asleep one other) here

two_chunks-total_example :
    Star Step initial (two_chunks one other)
    × (two_chunks one other).given ≡ one ∷ other ∷ []
    × (two_chunks one other).writer ≡ returned
    × (two_chunks one other).total ≡ 1
two_chunks-total_example = two_chunks-total one other one-some other-some
