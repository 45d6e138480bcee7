-- ===== src/Stream/Exact.antt =====
-- `api_stream_read_exact` of api/src/api_stream_common.c.
use libapi.Base.{
  ℕ, zero, suc, ◌+◌, ◌-◌, ◌≤◌, ◌<◌, ◌≡◌, ◌≢◌, refl, sym, ap, ◌∙◌, ◌⊎◌, inl, inr, [], ◌∷◌, ◌++◌,
  true, false, some, ltb, arith, length, add64, sub64, u64_mod, add64_exact, sub64_exact,
  Bool-cases, append-nil, append_assoc, length-append, ltb→lt,
}
use libapi.Stream.{Bytes, Status, Stream, read, read_loop, read_exact}
use libapi.Stream.Content.{InBlock, Delivers, content, ReadFrom, read_lem}

module _ {Source : Type 0} (on_read : Source → Status → ℕ → Bytes × Status × Source)
    (left : Source → Bytes) where
  -- The last read gave nothing, though bytes were still asked for.
  abbrev pub GaveUp : ℕ → Stream Source → Type 0
  GaveUp n s' = (n ≢ 0) × ((s : Stream Source) × (read on_read s n ≡ some ([], s')))

  -- The result of the loop with `got` already read: everything that was asked for, or as much as
  -- came before a read gave nothing.
  abbrev pub Exactly : Stream Source → ℕ → Bytes → ℕ × Bytes × Stream Source → Type 0
  Exactly s n got r =
      (d : Bytes) × (r.0 ≡ length (got ++ d))
      × (r.1 ≡ got ++ d)
      × InBlock (r.2).unread
      × (d ++ content on_read left r.2 ≡ content on_read left s)
      × (r.0 ≤ n)
      × ((r.0 ≡ n) ⊎ GaveUp (n - r.0) r.2)

  abbrev Runs : ℕ → Stream Source → ℕ → ℕ → Bytes → Type 0
  Runs fuel s n offset got =
      (r : ℕ × Bytes × Stream Source) × (read_loop on_read fuel s n offset got ≡ some r)
      × Exactly s n got r

  -- A round whose read gave some bytes, and one whose read gave none.
  gave_some :
      (fuel : ℕ) (s s' : Stream Source) (n offset offset' : ℕ) (got : Bytes) (c : ℕ) (d : Bytes)
      → ltb offset n ≡ true
      → read on_read s (sub64 n offset) ≡ some (c ∷ d, s')
      → add64 offset (length (c ∷ d)) ≡ offset'
      → (c ∷ d) ++ content on_read left s' ≡ content on_read left s
      → Runs fuel s' n offset' (got ++ c ∷ d)
      → Runs (suc fuel) s n offset got
  unfolding read_loop
  gave_some fuel s s' n offset offset' got c d wants e sum split
        (r, er, (d', e0, e1, inside, split', le, end)) =
      (
        r,
        rw (wants, e, sum) er,
        (
          (c ∷ d) ++ d',
          e0 ∙ ap length (append_assoc got (c ∷ d) d'),
          e1 ∙ append_assoc got (c ∷ d) d',
          inside,
          append_assoc (c ∷ d) d' (content on_read left (r.2))
              ∙ ap (λ xs. (c ∷ d) ++ xs) split'
              ∙ split,
          le,
          end,
        ),
      )

  gave_none :
      (fuel : ℕ) (s s' : Stream Source) (n offset : ℕ) (got : Bytes)
      → ltb offset n ≡ true
      → n < u64_mod
      → offset ≡ length got
      → read on_read s (sub64 n offset) ≡ some ([], s')
      → InBlock s'.unread
      → content on_read left s' ≡ content on_read left s
      → Runs (suc fuel) s n offset got
  unfolding read_loop
  gave_none fuel s s' n offset got wants small start e inside same =
      let less : offset < n = ltb→lt offset n wants in
      let asked : sub64 n offset ≡ n - offset = sub64_exact n offset small (omega arith) in
      (
        (offset, got, s'),
        rw (wants, e) refl,
        (
          [],
          rw (append-nil got) start,
          sym (append-nil got),
          inside,
          same,
          omega arith,
          inr ((λ z. absurd (omega arith)), (s, rw (← asked) e)),
        ),
      )

  -- Either kind of round, where the rounds behind it are right.
  round :
      (fuel : ℕ) (s s' : Stream Source) (n offset : ℕ) (got d : Bytes)
      → ltb offset n ≡ true
      → n < u64_mod
      → offset ≡ length got
      → n - offset < suc fuel
      → read on_read s (sub64 n offset) ≡ some (d, s')
      → ReadFrom on_read left s (sub64 n offset) d s'
      → ((offset' : ℕ) (got' : Bytes)
          → offset' ≡ length got'
          → offset' ≤ n
          → n - offset' < fuel
          → Runs fuel s' n offset' got')
      → Runs (suc fuel) s n offset got
  round fuel s s' n offset got [] wants small start more e (inside, (short, same)) again =
      gave_none fuel s s' n offset got wants small start e inside same
  round fuel s s' n offset got (c ∷ d) wants small start more e (inside, (short, same)) again =
      let less : offset < n = ltb→lt offset n wants in
      let asked : sub64 n offset ≡ n - offset = sub64_exact n offset small (omega arith) in
      let short' : suc (length d) ≤ n - offset = omega (arith, short, asked) in
      let sum : add64 offset (suc (length d)) ≡ offset + suc (length d) =
        add64_exact offset (suc (length d)) (omega arith) in
      gave_some fuel s s' n offset (offset + suc (length d)) got c d wants e sum same (
        again (offset + suc (length d)) (got ++ c ∷ d)
          (rw (length-append got (c ∷ d)) (omega arith)) (omega arith) (omega arith))

  read_loop_lem :
      Delivers on_read left
      → (fuel : ℕ) (s : Stream Source) (n offset : ℕ) (got : Bytes) → InBlock s.unread
      → n < u64_mod
      → offset ≡ length got
      → offset ≤ n
      → n - offset < fuel
      → Runs fuel s n offset got
  unfolding read_loop
  read_loop_lem gives zero s n offset got inside small e le more = absurd (omega arith)
  read_loop_lem gives (suc fuel) s n offset got inside small e le more =
      elim (Bool-cases (ltb offset n)) [
        | inr full ↦ (
          (offset, got, s),
          rw full refl,
          (
            [],
            rw (append-nil got) e,
            sym (append-nil got),
            inside,
            refl,
            le,
            inl (not_less offset n le full),
          ),
        )
        | inl wants ↦
            let (d, s', er, from) = read_lem on_read left gives s (sub64 n offset) inside in
            round fuel s s' n offset got d wants small e more er from (λ offset' got' e' le' more'.
              read_loop_lem gives fuel s' n offset' got' (from.0) small e' le' more')
      ]
    where
      not_less : (a b : ℕ) → a ≤ b → ltb a b ≡ false → a ≡ b
      not_less a b h k = ground arith

  -- It reads what was asked for, or everything up to a read that gives nothing though bytes are
  -- still asked for. Bytes come in order, what was put back first; what is read and then what is
  -- left is what there was; and one round for each byte and one more are enough. The filters are
  -- taken to give at most what they are asked for, in order, and nobody else reads meanwhile.
  pub read_exact_lem :
      Delivers on_read left
      → (s : Stream Source) (n : ℕ) → InBlock s.unread
      → n < u64_mod
      → (r : ℕ × Bytes × Stream Source) × (read_exact on_read s n ≡ some r) × Exactly s n [] r
  unfolding read_exact
  read_exact_lem gives s n inside small =
      read_loop_lem gives (suc n) s n 0 [] inside small refl (omega arith) (omega arith)
