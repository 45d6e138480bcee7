-- ===== src/Http/Buffer/Copy.antt =====
-- `str_ndup` of http/src/http_parse.c.
use libapi.Base.{
  ℕ, zero, suc, ◌+◌, ◌<◌, ◌≤◌, ◌≡◌, refl, ap, inl, inr, [], ◌∷◌, ◌++◌, some, length, take,
  Bool-cases, ◌==◌, arith, add64, u64_mod, not_==→ne, length-append,
}
use libapi.Base.Fallible.{◌>>=◌}
use libapi.Http.Buffer.{
  Bytes, Malloc, write_at, strncpy_bytes, c_string, str_ndup_length, copy_text, str_ndup,
}
use libapi.Http.Buffer.Write.{NulFree, fill, c_string-append}
use libapi.Http.Buffer.Concat.{Succeeds}

-- The text that is copied: the C string in the first `n` bytes.
abbrev pub copied : Bytes → ℕ → Bytes
copied s n = c_string (take n s)

copied-NulFree : (s : Bytes) (n : ℕ) → NulFree (copied s n)
unfolding c_string
copied-NulFree s zero = tt
copied-NulFree [] (suc n) = tt
copied-NulFree (c ∷ s) (suc n) = elim (Bool-cases (c == 0)) [
  | inl e ↦ rw e tt
  | inr e ↦ rw e (not_==→ne c 0 e, copied-NulFree s n)
]

length-copied : (s : Bytes) (n : ℕ) → str_ndup_length s n ≡ length (copied s n)
unfolding c_string str_ndup_length
length-copied s zero = refl
length-copied [] (suc n) = refl
length-copied (c ∷ s) (suc n) = elim (Bool-cases (c == 0)) [
  | inl e ↦ rw e refl
  | inr e ↦ rw e (ap suc (length-copied s n))
]

strncpy-copied : (s : Bytes) (n : ℕ) → strncpy_bytes s (length (copied s n)) ≡ copied s n
unfolding c_string strncpy_bytes
strncpy-copied s zero = refl
strncpy-copied [] (suc n) = refl
strncpy-copied (c ∷ s) (suc n) = elim (Bool-cases (c == 0)) [
  | inl e ↦ rw e refl
  | inr e ↦ rw (e, e) (ap (◌∷◌ c) (strncpy-copied s n))
]

copy_text_lem :
    (d s : Bytes) (n : ℕ) (r : Bytes)
    → (write_at d 0 (copied s n) >>= λ d. write_at d (length (copied s n)) (0 ∷ []))
      ≡ some (copied s n ++ 0 ∷ r)
    → copy_text d s (length (copied s n)) ≡ some (copied s n ++ 0 ∷ r)
unfolding copy_text
copy_text_lem d s n r eq = rw (strncpy-copied s n) eq

str_ndup_copies :
    (malloc : Malloc) (s : Bytes) (n : ℕ) (d d' : Bytes)
    → malloc (add64 1 (length (copied s n))) ≡ some d
    → copy_text d s (length (copied s n)) ≡ some d'
    → str_ndup malloc (some s) n ≡ some (some d')
unfolding str_ndup
str_ndup_copies malloc s n d d' got eq =
    rw (str_ndup, length-copied s n, got)
      (rw (length-copied s n) (ap (λ o. o >>= λ d. some (some d)) eq))

-- Whatever is in the string, the copy is a block of its own with the C string of the first `n`
-- bytes and a terminator, written inside the block, if the allocation succeeds.
pub str_ndup_lem :
    (malloc : Malloc) (limit : ℕ) (s : Bytes) (n : ℕ)
    → Succeeds malloc limit
    → limit ≤ u64_mod
    → length (copied s n) + 1 < limit
    → (d : Bytes) × (str_ndup malloc (some s) n ≡ some (some d))
      × (length d ≡ length (copied s n) + 1)
      × (c_string d ≡ copied s n)
str_ndup_lem malloc limit s n ok wide h =
    let (d, got, len) = ok (length (copied s n) + 1) h in
    let (r, lr, eq) = fill [] d (copied s n) (omega arith) in
    let size : add64 1 (length (copied s n)) ≡ length (copied s n) + 1 = omega arith in
    let at_end : 0 + length (copied s n) ≡ length (copied s n) = omega arith in
    (
      copied s n ++ 0 ∷ r,
      str_ndup_copies malloc s n d (copied s n ++ 0 ∷ r) (rw size got)
          (copy_text_lem d s n r (rw at_end at eq)),
      omega (arith, length-append (copied s n) (0 ∷ r)),
      c_string-append (copied s n) r (copied-NulFree s n),
    )
