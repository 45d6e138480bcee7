-- ===== src/Http/Buffer/Concat.antt =====
-- `concat` appends its text, whichever of its three cases it takes, and stays in bounds.
use libapi.Base.{
  ℕ, ◌+◌, ◌*◌, ◌%◌, ◌<◌, ◌≤◌, ◌≡◌, refl, ap, sym, ◌∙◌, [], ◌∷◌, ◌++◌, Option, none, some, leb,
  length, arith, length-append, append_assoc, add64, sub64, u64_mod, Bool-cases, All-append, drop,
  take, take-append-drop, length-take, length-drop, inl, inr,
}
use libapi.Base.Fallible.{bind_two}
use libapi.Http.Buffer.{
  Bytes, Buffer, Malloc, write_at, c_string, concat, concat_text, concat_new, concat_in_place,
  concat_grow,
}
use libapi.Http.Buffer.Write.{
  NulFree, Filled, fill, write_at-seam, strncpy_exact, strcpy_exact, c_string-append,
}

-- The block holds `text` and its terminator, and the counters are its lengths.
pub record Stores (b : Buffer) (text : Bytes) : Type 0 where
  pub spare : Bytes
  pub block : b.text ≡ some (text ++ 0 ∷ spare)
  pub plain : NulFree text
  pub used : b.used ≡ length text
  pub alloc : b.alloc ≡ length (text ++ 0 ∷ spare)
  pub small : b.alloc < u64_mod

-- What a buffer holds: nothing yet, or a text.
abbrev pub Holds : Buffer → Option Bytes → Type 0
Holds b none = b.text ≡ none
Holds b (some t) = Stores b t

abbrev pub appended : Option Bytes → Bytes → Bytes
appended none at = at
appended (some t) at = t ++ at

-- `malloc` finds room for every block of fewer than `limit` bytes.
abbrev pub Succeeds : Malloc → ℕ → Type 0
Succeeds malloc limit = (n : ℕ) → n < limit → (d : Bytes) × (malloc n ≡ some d) × (length d ≡ n)

-- A result that holds a text and has a given size.
abbrev Gives : Option Buffer → Bytes → Type 0
Gives o t = (b : Buffer) × (o ≡ some b) × Stores b t

stores :
    (t r : Bytes)
    → NulFree t
    → (n k : ℕ) → n ≡ length t
    → k ≡ length r + length t + 1
    → k < u64_mod
    → Stores (record { text = some (t ++ 0 ∷ r); used = n; alloc = k }) t
stores t r f n k en ek small = record {
  spare = r;
  block = refl;
  plain = f;
  used = en;
  alloc = omega (arith, length-append t (0 ∷ r));
  small = small;
}

concat_new-Filled :
    (malloc : Malloc) (at d : Bytes)
    → malloc (length at + 1) ≡ some d
    → length d ≡ length at + 1
    → length at + 1 < u64_mod
    → NulFree at
    → Filled [] d at
    → Gives (concat_new malloc at (length at)) at
unfolding concat_new
concat_new-Filled malloc at d got len small f (r, lr, eq) =
    let e : add64 (length at) 1 ≡ length at + 1 = omega arith in
    let e0 : 0 + length at ≡ length at = omega arith in
    (
      record { text = some (at ++ 0 ∷ r); used = length at; alloc = length at + 1 },
      rw (e, got, strncpy_exact at f)
          (bind_two (write_at d 0 at) (λ d. write_at d (length at) (0 ∷ [])) _ (at ++ 0 ∷ r)
            (rw e0 at eq)),
      stores at r f _ _ refl (omega arith) small,
    )

-- In place: the terminator and what is behind it are overwritten.
concat_in_place-Filled :
    (t spare : Bytes) (alloc : ℕ) (at : Bytes)
    → alloc ≡ length (t ++ 0 ∷ spare)
    → alloc < u64_mod
    → length t + length at < u64_mod
    → NulFree t
    → NulFree at
    → Filled t (0 ∷ spare) at
    → Gives (concat_in_place (t ++ 0 ∷ spare) (length t) alloc at (length at)) (t ++ at)
unfolding concat_in_place
concat_in_place-Filled t spare alloc at ea fits small ft f (r, lr, eq) =
    let e : add64 (length t) (length at) ≡ length t + length at = omega arith in
    (
      record { text = some ((t ++ at) ++ 0 ∷ r); used = length t + length at; alloc = alloc },
      rw (strncpy_exact at f, e)
          (bind_two (write_at (t ++ 0 ∷ spare) (length t) at) _ _ ((t ++ at) ++ 0 ∷ r) eq),
      stores (t ++ at) r (All-append _ t at ft f) _ _ (sym (length-append t at))
          (omega (arith, length-append t (0 ∷ spare), length-append t at)) fits,
    )

-- A new block: `old` is what stands behind the copied text.
concat_grow-Filled :
    (malloc : Malloc) (t spare at d old : Bytes)
    → malloc (length t + 2 * length at) ≡ some d
    → write_at d 0 (t ++ 0 ∷ []) ≡ some (t ++ 0 ∷ old)
    → length (t ++ 0 ∷ old) ≡ length t + 2 * length at
    → length t + 2 * length at < u64_mod
    → NulFree t
    → NulFree at
    → Filled t (0 ∷ old) at
    → Gives (concat_grow malloc (t ++ 0 ∷ spare) (length t) at (length at)) (t ++ at)
unfolding concat_grow
concat_grow-Filled malloc t spare at d old got copied len small ft f (r, lr, eq) =
    let e : add64 (length t) (length at) ≡ length t + length at = omega arith in
    let e' : add64 (length t) (2 * length at % u64_mod) ≡ length t + 2 * length at = omega arith in
    (
      record {
        text = some ((t ++ at) ++ 0 ∷ r);
        used = length t + length at;
        alloc = length t + 2 * length at;
      },
      rw (e', got, strcpy_exact t spare ft, copied, strncpy_exact at f, e)
          (bind_two (write_at (t ++ 0 ∷ old) (length t) at) _ _ ((t ++ at) ++ 0 ∷ r) eq),
      stores (t ++ at) r (All-append _ t at ft f) _ _ (sym (length-append t at))
          (omega (arith, length-append t (0 ∷ old), length-append t at)) small,
    )

-- `strcpy` at the start of a block that is large enough.
copy_front :
    (t d : Bytes) (n : ℕ)
    → length d ≡ length t + n
    → 0 < n
    → (old : Bytes) × (write_at d 0 (t ++ 0 ∷ []) ≡ some (t ++ 0 ∷ old)) × (length old + 1 ≡ n)
copy_front t d n len pos =
    let k = length (t ++ 0 ∷ []) in
    let ek : k ≡ length t + 1 = length-append t (0 ∷ []) in
    let old = drop k d in
    let lf : length (take k d) ≡ k = ground (arith, length-take k d) in
    let step : write_at (take k d ++ old) 0 (t ++ 0 ∷ []) ≡ some ((t ++ 0 ∷ []) ++ old) =
      write_at-seam [] (take k d) old (t ++ 0 ∷ []) lf in
    (
      old,
      (rw (take-append-drop k d) at step) ∙ ap some (append_assoc t (0 ∷ []) old),
      omega (arith, length-drop k d),
    )

-- A buffer with a text, in place or in a new block.
concat_text_lem :
    (malloc : Malloc) (limit : ℕ) (t spare : Bytes) (alloc : ℕ) (at : Bytes)
    → Succeeds malloc limit
    → limit ≤ u64_mod
    → length t + 2 * length at + 1 < limit
    → alloc ≡ length (t ++ 0 ∷ spare)
    → alloc < u64_mod
    → NulFree t
    → NulFree at
    → Gives (concat_text malloc (some (t ++ 0 ∷ spare)) (length t) alloc at (length at)) (t ++ at)
unfolding concat_text
concat_text_lem malloc limit t spare alloc at ok wide h ea fits ft f =
    let room : sub64 (sub64 alloc (length t)) 1 ≡ length spare =
      omega (arith, length-append t (0 ∷ spare)) in
    rw room (elim (Bool-cases (leb (length at) (length spare))) [
      | inl e ↦ rw e (
          concat_in_place-Filled t spare alloc at ea fits (omega arith) ft f
            (fill t (0 ∷ spare) at (ground arith)))
      | inr e ↦
          let (d, got, len) = ok (length t + 2 * length at) (omega arith) in
          let pos : 0 < length at = ground arith in
          let (old, copied, lo) = copy_front t d (2 * length at) len (omega arith) in
          rw e (
            concat_grow-Filled malloc t spare at d old got copied
              (omega (arith, length-append t (0 ∷ old))) (omega arith) ft f
              (fill t (0 ∷ old) at (omega arith)))
    ])

abbrev pub size : Option Bytes → ℕ
size none = 0
size (some t) = length t

-- Whatever the buffer holds, `concat` appends the text, stays inside its blocks and keeps the
-- terminator and both counters right. The text has no zero byte, and an allocation of twice what
-- is stored then succeeds.
pub concat_lem :
    (malloc : Malloc) (limit : ℕ) (b : Buffer) (t : Option Bytes) (at : Bytes)
    → Succeeds malloc limit
    → limit ≤ u64_mod
    → size t + 2 * length at + 1 < limit
    → NulFree at
    → Holds b t
    → (b' : Buffer) × (concat malloc b at (length at) ≡ some b') × Stores b' (appended t at)
unfolding concat concat_text
concat_lem malloc limit b none at ok wide h f holds =
    let (d, got, len) = ok (length at + 1) (omega arith) in
    rw holds (concat_new-Filled malloc at d got len (omega arith) f (fill [] d at (omega arith)))
concat_lem malloc limit b (some t) at ok wide h f holds =
    rw (holds.block, holds.used)
      (concat_text_lem malloc limit t holds.spare b.alloc at ok wide h holds.alloc holds.small
        holds.plain f)

-- So the finished text is what a C function reads from the buffer.
pub c_string-Stores : (b : Buffer) (t d : Bytes) → Stores b t → b.text ≡ some d → c_string d ≡ t
c_string-Stores b t d st e =
    let e' : some d ≡ some (t ++ 0 ∷ st.spare) = sym e ∙ st.block in
    let e'' : d ≡ t ++ 0 ∷ st.spare = cc e' in rw e'' (c_string-append t st.spare st.plain)
