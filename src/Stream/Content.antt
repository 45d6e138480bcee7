-- ===== src/Stream/Content.antt =====
-- What a stream still has to give, and `api_stream_read` and `api_stream_unread` as operations on
-- it.
use libapi.Base.{
  ℕ, zero, suc, ◌+◌, ◌-◌, ◌≤◌, ◌<◌, ◌≡◌, ◌≢◌, refl, sym, ap, ◌∙◌, inl, inr, [], ◌∷◌, ◌++◌, true,
  false, some, ◌==◌, ltb, leb, arith, length, take, drop, add64, sub64, u64_mod, add64_exact,
  sub64_exact, length-take, Bool-cases, append-nil, append_assoc, leb→le, not_leb→lt, take_all,
}
use libapi.Stream.{
  Bytes, Status, Unread, Stream, copy_of, failed, take_unread, unread, read_filters, read,
}

take_nil : (n : ℕ) → take {A = ℕ} n [] ≡ []
take_nil zero = refl
take_nil (suc n) = refl

drop_nil : (n : ℕ) → drop {A = ℕ} n [] ≡ []
drop_nil zero = refl
drop_nil (suc n) = refl

pub take_two : (n m : ℕ) (xs : Bytes) → take n xs ++ take m (drop n xs) ≡ take (n + m) xs
take_two zero m xs = ap (λ k. take k xs) (omega arith)
take_two (suc n) m [] = take_nil m ∙ sym (take_nil (suc n + m))
take_two (suc n) m (x ∷ xs) =
    let e : suc (n + m) ≡ suc n + m = omega arith in
    ap (◌∷◌ x) (take_two n m xs) ∙ ap (λ k. take k (x ∷ xs)) e

pub drop_two : (a b : ℕ) (xs : Bytes) → drop b (drop a xs) ≡ drop (a + b) xs
drop_two zero b xs = ap (λ k. drop k xs) (omega arith)
drop_two (suc a) b [] = drop_nil b ∙ sym (drop_nil (suc a + b))
drop_two (suc a) b (x ∷ xs) =
    let e : suc (a + b) ≡ suc a + b = omega arith in drop_two a b xs ∙ ap (λ k. drop k (x ∷ xs)) e

pub copy_of_lem :
    (b : Bytes) (off n : ℕ) → off + n ≤ length b → copy_of b off n ≡ some (take n (drop off b))
unfolding copy_of
copy_of_lem b off n h = ground arith

-- The bytes that were put back and not read again.
abbrev pub rest : Unread → Bytes
rest u = take u.length (drop u.offset u.buffer)

-- They lie inside their block.
abbrev pub InBlock : Unread → Type 0
InBlock u = (u.offset + u.length ≤ length u.buffer) × (length u.buffer < u64_mod)

-- `r` are bytes of which at most `n` were read, `d`, and `l` is left.
abbrev pub Splits : Bytes → Bytes → Bytes → ℕ → Type 0
Splits r d l n = (length d ≤ n) × (d ++ l ≡ r)

take_unread_lem :
    (u : Unread) (n : ℕ)
    → InBlock u
    → (d : Bytes) × (u' : Unread) × (take_unread u n ≡ some (d, u'))
      × InBlock u'
      × Splits (rest u) d (rest u') n
unfolding take_unread
take_unread_lem u n (inside, small) = elim (Bool-cases (leb u.length n)) [
  | inl e ↦ (
    rest u,
    record u { length = 0 },
    rw (e, copy_of_lem u.buffer u.offset u.length inside) refl,
    (omega arith, small),
    (
      rw (length-take u.length (drop u.offset u.buffer)) (omega (arith, leb→le u.length n e)),
      append-nil (rest u),
    ),
  )
  | inr e ↦
      let more : n < u.length = not_leb→lt u.length n e in
      let room : u.offset + n ≤ length u.buffer = omega arith in
      let end : add64 u.offset n ≡ u.offset + n = add64_exact u.offset n (omega arith) in
      let less : sub64 u.length n ≡ u.length - n =
        sub64_exact u.length n (omega arith) (omega arith) in
      (
        take n (drop u.offset u.buffer),
        record u { offset = u.offset + n; length = u.length - n },
        rw (e, copy_of_lem u.buffer u.offset n room, end, less) refl,
        (omega arith, small),
        (
          rw (length-take n (drop u.offset u.buffer)) (omega arith),
          ap (λ xs. take n (drop u.offset u.buffer) ++ take (u.length - n) xs)
                (sym (drop_two u.offset n u.buffer))
              ∙ take_two n (u.length - n) (drop u.offset u.buffer)
              ∙ ap (λ k. take k (drop u.offset u.buffer)) (omega arith),
        ),
      )
]

rest_none : (u : Unread) → ltb 0 u.length ≡ false → rest u ≡ []
rest_none u e =
    let e' : u.length ≡ 0 = ground (arith, e) in ap (λ k. take k (drop u.offset u.buffer)) e'

-- What the filters of a stream do: they give at most what is asked for, from the bytes that their
-- source has `left`, in order.
abbrev pub Delivers :
    {Source : Type 0} → (Source → Status → ℕ → Bytes × Status × Source) → (Source → Bytes) → Type 0
Delivers {Source} on_read left =
    (src : Source) (st : Status) (n : ℕ)
    → Splits (left src) (on_read src st n).0 (left (on_read src st n).2) n

module _ {Source : Type 0} (on_read : Source → Status → ℕ → Bytes × Status × Source)
    (left : Source → Bytes) where
  abbrev pub content : Stream Source → Bytes
  content s = rest s.unread ++ left s.source

  -- A result of a read of at most `n` bytes from `s`.
  abbrev pub ReadFrom : Stream Source → ℕ → Bytes → Stream Source → Type 0
  ReadFrom s n d s' = InBlock s'.unread × Splits (content s) d (content s') n

  -- A read gives at most what was asked for, and what it gives and then what is left is what there
  -- was: what was put back comes first, and no byte is lost or comes twice. It never reads outside
  -- the block of the bytes that were put back. The filters are taken to do the same.
  pub read_lem :
      Delivers on_read left
      → (s : Stream Source) (n : ℕ) → InBlock s.unread
      → (d : Bytes) × (s' : Stream Source) × (read on_read s n ≡ some (d, s')) × ReadFrom s n d s'
  unfolding read read_filters
  read_lem gives s n inside = elim (Bool-cases (n == 0)) [
    | inl e ↦ ([], s, rw e refl, (inside, (omega arith, refl)))
    | inr some_bytes ↦ elim (Bool-cases (failed s.status)) [
      | inl e ↦ ([], s, rw (some_bytes, e) refl, (inside, (omega arith, refl)))
      | inr fine ↦ elim (Bool-cases s.loop_terminated) [
        | inl e ↦ (
          [],
          record s { status = record (s.status) { terminated = true } },
          rw (some_bytes, fine, e) refl,
          (inside, (omega arith, refl)),
        )
        | inr runs ↦ elim (Bool-cases (ltb 0 s.unread.length)) [
          | inl e ↦
              let (d, u, took, inside', (short, split)) = take_unread_lem s.unread n inside in
              (
                d,
                record s { unread = u },
                rw (some_bytes, fine, runs, e, took) refl,
                (
                  inside',
                  (
                    short,
                    sym (append_assoc d (rest u) (left s.source))
                        ∙ ap (λ xs. xs ++ left s.source) split,
                  ),
                ),
              )
          | inr e ↦
              let (short, split) = gives s.source s.status n in
              (
                (on_read s.source s.status n).0,
                (read_filters on_read s n).1,
                rw (some_bytes, fine, runs, e) refl,
                (inside, (short, rw (rest_none s.unread e) split)),
              )
        ]
      ]
    ]
  ]

  -- What the stream has after bytes were put back: those, and then what its source has. Bytes that
  -- were put back earlier and not read again are gone.
  pub unread_lem :
      (s : Stream Source) (bs : Bytes)
      → length bs < u64_mod
      → bs ≢ []
      → (s' : Stream Source) × (unread s bs (length bs) ≡ some s')
        × InBlock s'.unread
        × (content s' ≡ bs ++ left s.source)
  unfolding unread
  unread_lem s [] small some_bytes = absurd (some_bytes refl)
  unread_lem s (b ∷ bs) small some_bytes =
      let more : (suc (length bs) == 0) ≡ false = ground arith in
      let kept : take (length (b ∷ bs)) (b ∷ bs) ≡ b ∷ bs =
        take_all (length (b ∷ bs)) (b ∷ bs) (omega arith) in
      (
        record s { unread = record { buffer = b ∷ bs; offset = 0; length = length (b ∷ bs) } },
        rw (more, copy_of_lem (b ∷ bs) 0 (length (b ∷ bs)) (omega arith), kept) refl,
        (omega arith, small),
        ap (λ xs. xs ++ left s.source) kept,
      )
