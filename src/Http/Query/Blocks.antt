-- ===== src/Http/Query/Blocks.antt =====
-- The block that `decode_query` returns.
use libapi.Base.{
  ℕ, ◌+◌, ◌<◌, ◌≤◌, ◌≡◌, refl, ap, [], ◌∷◌, ◌++◌, some, length, take, drop, arith, length-append,
  length-take, length-drop, take-append-drop, add64, u64_mod, Bool-cases, inl, inr, ◌==◌,
}
use libapi.Http.Buffer.{Bytes, Malloc, write_at, c_string}
use libapi.Http.Buffer.Write.{write_at-seam}
use libapi.Http.Buffer.Concat.{Succeeds}
use libapi.Http.Query.{decode, decode_query}
use libapi.Http.Query.Decode.{length-decode-le}

c_string-terminated : (t r : Bytes) → c_string ((t ++ 0 ∷ []) ++ r) ≡ c_string t
unfolding c_string
c_string-terminated [] r = refl
c_string-terminated (c ∷ t) r = elim (Bool-cases (c == 0)) [
  | inl e ↦ rw e
  | inr e ↦ rw e (ap (◌∷◌ c) (c_string-terminated t r))
]

-- `decode_query` stays inside the `n + 1` characters that it asks for, and returns the C string
-- of what its loop computes, if the allocation succeeds.
pub decode_query_lem :
    (malloc : Malloc) (limit : ℕ) (s : Bytes) (n : ℕ)
    → Succeeds malloc limit
    → limit ≤ u64_mod
    → n + 1 < limit
    → (d : Bytes) × (decode_query malloc s n ≡ some d)
      × (length d ≡ n + 1)
      × (c_string d ≡ c_string (decode n s))
unfolding decode_query
decode_query_lem malloc limit s n ok wide h =
    let (d, got, len) = ok (n + 1) h in
    let out = decode n s ++ 0 ∷ [] in
    let k = length out in
    let ek : k ≡ length (decode n s) + 1 = length-append (decode n s) (0 ∷ []) in
    let lf : length (take k d) ≡ k = ground (arith, length-take k d, length-decode-le n s) in
    let e : add64 n 1 ≡ n + 1 = omega arith in
    let step : write_at (take k d ++ drop k d) 0 out ≡ some (out ++ drop k d) =
      write_at-seam [] (take k d) (drop k d) out lf in
    (
      out ++ drop k d,
      rw (e, got) (rw (take-append-drop k d) at step),
      omega (arith, length-append out (drop k d), length-drop k d, length-decode-le n s),
      c_string-terminated (decode n s) (drop k d),
    )
