-- ===== src/Stream/Tests.antt =====
-- Reads from a stream whose filters give two bytes at a time.
use libapi.Base.{
  ℕ, ◌≡◌, refl, [], ◌∷◌, some, false, arith, take, drop, min, length-take, take-append-drop,
}
use libapi.Stream.{
  Bytes, Status, Stream, read, read_exact, failed, take_unread, copy_of, read_filters,
}
use libapi.Stream.Content.{InBlock, Delivers, ReadFrom, read_lem}
use libapi.Stream.Exact.{Exactly, read_exact_lem}

abbrev two_at_most : Bytes → Status → ℕ → Bytes × Status × Bytes
two_at_most src st n = (take (min 2 n) src, st, drop (min 2 n) src)

two_at_most-Delivers : Delivers two_at_most (λ src. src)
two_at_most-Delivers src st n =
    (rw (length-take (min 2 n) src) (omega arith), take-append-drop (min 2 n) src)

abbrev fine : Status
fine = record {
  read_timeout = false;
  write_timeout = false;
  eof = false;
  error = 0;
  closed = false;
  peer_closed = false;
  terminated = false;
}

-- Of 1, 2, 3 the last two are still put back; the source has 4, 5 and 6.
abbrev s : Stream Bytes
s = record {
  status = fine;
  unread = record { buffer = 1 ∷ 2 ∷ 3 ∷ []; offset = 1; length = 2 };
  loop_terminated = false;
  source = 4 ∷ 5 ∷ 6 ∷ [];
}

s-InBlock : InBlock s.unread
s-InBlock = (omega arith, omega arith)

read_exact-three : (s' : Stream Bytes) × (read_exact two_at_most s 3 ≡ some (3, 2 ∷ 3 ∷ 4 ∷ [], s'))
unfolding read_exact failed take_unread copy_of read_filters
read_exact-three = (_, refl)

read_lem_example :
    (d : Bytes) × (s' : Stream Bytes) × (read two_at_most s 1 ≡ some (d, s'))
    × ReadFrom two_at_most (λ src. src) s 1 d s'
read_lem_example = read_lem two_at_most (λ src. src) two_at_most-Delivers s 1 s-InBlock

read_exact_lem_example :
    (r : ℕ × Bytes × Stream Bytes) × (read_exact two_at_most s 4 ≡ some r)
    × Exactly two_at_most (λ src. src) s 4 [] r
read_exact_lem_example =
    read_exact_lem two_at_most (λ src. src) two_at_most-Delivers s 4 s-InBlock (omega arith)
