-- ===== src/Http/Parse/Feed.antt =====
-- The loop of `http_request_parse` of http/src/http_parse.c: what it takes from the stream and what http_parser
-- sees of it.
use libapi.Base.{
  ℕ, zero, suc, ◌≤◌, ◌<◌, ◌≡◌, ◌≢◌, refl, sym, ap, ◌∙◌, inl, inr, [], ◌∷◌, ◌++◌, append_assoc, Bool,
  true, false, Option, none, some, ltb, if◌then◌else◌, length, length-append, length-drop, take,
  drop, take-append-drop, drop_all, sub64, u64_mod, arith, Bool-cases, ltb→lt, not_ltb→le,
}
use mathlib.Core.Path.{subst}
use libapi.Stream.{Status, Stream, unread, read}
use libapi.Stream.Content.{InBlock, Delivers, content, read_lem, unread_lem}
use libapi.Http.Buffer.{Bytes, Malloc}
use libapi.Http.Request.{Context, run}
use libapi.Http.Parse.{
  Executed, Feeding, faulted, put_back, headers_end, executed, with_piece, feed,
}
use libapi.Http.Parse.Outcome.{last, erred, ended_early, more, now, later, Ends}
use libapi.Http.Parse.Drain.{no_more, drains}

cons_some : {b : ℕ} {bs : Bytes} → b ∷ bs ≢ []
cons_some e = cc e

no_round : (n : ℕ) → n < 0 → ⊥
no_round n h = omega arith

none_there : (n : ℕ) → n ≡ 0 → n ≤ 1024
none_there n e = omega arith

fewer :
    (d l r t : Bytes) (fuel : ℕ)
    → d ≢ []
    → d ++ l ≡ r
    → t ≡ l
    → length r < suc fuel
    → length t < fuel
fewer [] l r t fuel n e s h = absurd (n refl)
fewer (b ∷ bs) l r t fuel n e s h =
    let all = ap length e in let sum = length-append bs l in let same = ap length s in omega arith

nothing_left : (n : ℕ) → 0 < n → n ≢ 0
nothing_left n h e = omega arith

some_left : (xs : Bytes) → 0 < length xs → xs ≢ []
some_left xs h e = absurd (nothing_left (length xs) h (ap length e))

module _ {Parser Source : Type 0} (on_read : Source → Status → ℕ → Bytes × Status × Source)
    (left : Source → Bytes) (malloc : Malloc) (execute : Parser → Bytes → Executed Parser) where
  abbrev Next : Type 0
  Next = Parser → Context → Stream Source → Feeding Parser Source

  -- What a round may use of the next one.
  abbrev Promise : Next → Bytes → Type 0
  Promise next there =
      (p : Parser) (c : Context) (s : Stream Source)
      → InBlock s.unread
      → s.unread.length ≡ 0
      → content on_read left s ≡ there
      → Ends on_read left malloc execute s p c (next p c s)

  drained-content :
      (s : Stream Source) → s.unread.length ≡ 0 → content on_read left s ≡ left s.source
  drained-content s e = ap (λ n. take n (drop s.unread.offset s.unread.buffer) ++ left s.source) e

  put_back-content :
      (d : Bytes) (size : ℕ) (s : Stream Source)
      → length d < u64_mod
      → size ≤ length d
      → s.unread.length ≡ 0
      → (s' : Stream Source) × (put_back on_read malloc execute d size s ≡ some s')
        × (content on_read left s' ≡ drop size d ++ content on_read left s)
  unfolding put_back
  put_back-content d size s small fits drained =
      let len = length-drop size d in
      elim (Bool-cases (ltb size (length d))) [
        | inl t ↦
            let less = ltb→lt size (length d) t in
            let n : sub64 (length d) size ≡ length (drop size d) = omega arith in
            let (s', e, inside', c) =
              unread_lem on_read left s (drop size d) (omega arith)
                (some_left (drop size d) (omega arith)) in
            (
              s',
              ap (λ b. if b then unread s (drop size d) (sub64 (length d) size) else some s) t
                  ∙ ap (λ n. unread s (drop size d) n) n
                  ∙ e,
              c ∙ ap (λ l. drop size d ++ l) (sym (drained-content s drained)),
            )
        | inr t ↦
            let over = not_ltb→le size (length d) t in
            (s, rw t refl, ap (λ l. l ++ content on_read left s) (sym (drop_all size d over)))
      ]

  ended :
      (p : Parser) (c c' : Context) (d : Bytes) (s s' : Stream Source)
      → d ≢ []
      → run malloc c (execute p d).events ≡ some c'
      → (execute p d).errno ≡ 0
      → c'.headers_done ≡ true
      → length d < u64_mod
      → (execute p d).size ≤ length d
      → s'.unread.length ≡ 0
      → d ++ content on_read left s' ≡ content on_read left s
      → Ends on_read left malloc execute s p c (
          headers_end on_read malloc execute
            (execute p d)
            c'
            (put_back on_read malloc execute d (execute p d).size s'))
  unfolding headers_end
  ended p c c' d s s' full r errno h small size drained split =
      let x = execute p d in
      let (s2, e, c2) = put_back-content d x.size s' small size drained in
      rw e (
        inr (
          _,
          refl,
          record {
            used = take x.size d;
            split =
                ap (λ l. take x.size d ++ l) c2
                ∙ sym (append_assoc (take x.size d) (drop x.size d) (content on_read left s'))
                ∙ ap (λ l. l ++ content on_read left s') (take-append-drop x.size d)
                ∙ split;
            seen = last p c c' d full errno r h;
            unreadable = λ n. cc n;
          },
        ))

  went_on :
      (next : Next) (p : Parser) (c c' : Context) (d : Bytes) (s s' : Stream Source)
      → d ≢ []
      → run malloc c (execute p d).events ≡ some c'
      → (execute p d).errno ≡ 0
      → c'.headers_done ≡ false
      → d ++ content on_read left s' ≡ content on_read left s
      → Ends on_read left malloc execute s'
          (execute p d).parser
          c'
          (next (execute p d).parser c' s')
      → Ends on_read left malloc execute s p c (next (execute p d).parser c' s')
  went_on next p c c' d s s' full r errno h split (inl (e, g)) = inl (
    e,
    record {
      used = d ++ g.used;
      rest = g.rest;
      split = append_assoc d g.used g.rest ∙ ap (λ l. d ++ l) g.split ∙ split;
      broken = later p c c' d g.used full errno r h g.broken;
    },
  )
  went_on next p c c' d s s' full r errno h split (inr (f, e, g)) = inr (
    f,
    e,
    record {
      used = d ++ g.used;
      split =
          append_assoc d g.used (content on_read left f.stream) ∙ ap (λ l. d ++ l) g.split ∙ split;
      seen = more f.failure p c c' d g.used f.parser f.context full errno r h g.seen;
      unreadable = g.unreadable;
    },
  )

  pick-Ends :
      {p : Parser} {c : Context} {s : Stream Source} (t : Bool) (x y : Feeding Parser Source)
      → (t ≡ true → Ends on_read left malloc execute s p c x)
      → (t ≡ false → Ends on_read left malloc execute s p c y)
      → Ends on_read left malloc execute s p c (if t then x else y)
  pick-Ends true x y f g = f refl
  pick-Ends false x y f g = g refl

  executed-Ends :
      (next : Next) (p : Parser) (c : Context) (d : Bytes) (s s' : Stream Source)
      (o : Option Context)
      → d ≢ []
      → run malloc c (execute p d).events ≡ o
      → length d < u64_mod
      → (execute p d).size ≤ length d
      → s'.unread.length ≡ 0
      → InBlock s'.unread
      → d ++ content on_read left s' ≡ content on_read left s
      → Promise next (content on_read left s')
      → Ends on_read left malloc execute s p c
          (executed on_read malloc execute next (execute p d) d o s')
  unfolding executed
  executed-Ends next p c d s s' none full r small size drained inside split promise = inl (
    refl,
    record { used = d; rest = content on_read left s'; split = split; broken = now p c d full r },
  )
  executed-Ends next p c d s s' (some c') full r small size drained inside split promise =
      pick-Ends (ltb 0 (execute p d).errno) _ _
        (λ t. inr (
          _,
          refl,
          record {
            used = d;
            split = split;
            seen = erred p c c' d full (ltb→lt 0 _ t) r;
            unreadable = λ e. cc e;
          },
        ))
        (λ t.
          pick-Ends c'.headers_done _ _
            (λ h.
              ended p c c' d s s' full r (no_more _ (not_ltb→le 0 _ t)) h small size drained split)
            (λ h.
              went_on next p c c' d s s' full r (no_more _ (not_ltb→le 0 _ t)) h split
                (promise _ c' s' inside drained refl)))

  -- Any piece: the next rounds are to see less than there was.
  piece-Ends :
      (next : Next) (p : Parser) (c : Context) (d : Bytes) (s s' : Stream Source)
      → ((q : Parser) (e : Bytes) → (execute q e).size ≤ length e)
      → length d < u64_mod
      → (t : Stream Source) × (read on_read t 1024 ≡ some (d, s'))
      → (d ≢ [] → s'.unread.length ≡ 0)
      → InBlock s'.unread
      → d ++ content on_read left s' ≡ content on_read left s
      → (d ≢ [] → Promise next (content on_read left s'))
      → Ends on_read left malloc execute s p c (with_piece on_read malloc execute next p c d s')
  unfolding with_piece
  piece-Ends next p c [] s s' size small from drained inside split promise =
      inr (
        _,
        refl,
        record { used = []; split = split; seen = ended_early p c; unreadable = λ e. from },
      )
  piece-Ends next p c (b ∷ bs) s s' size small from drained inside split promise =
      executed-Ends next p c (b ∷ bs) s s' _ cons_some refl small (size p (b ∷ bs))
        (drained cons_some) inside split (promise cons_some)

  -- The loop of http_request_parse ends, with a round for each byte that the stream has. It ends in a fault
  -- only where the calls that http_parser makes for a piece fault, after consecutive pieces from the start of what the
  -- stream had, in which there was no error. Otherwise it has an answer, and what it has taken from the
  -- stream was there first: on success the pieces without an error up to the one in which the headers ended, of
  -- that one what http_parser took, with the rest put back; on an error of http_parser the pieces up to the
  -- one with that error; and "not readable" only where a read gave nothing. The filters give at most what
  -- they are asked for, in order, http_parser takes at most what it is given, and at most 1024 bytes had
  -- been put back before.
  pub feed-Ends :
      Delivers on_read left
      → ((q : Parser) (e : Bytes) → (execute q e).size ≤ length e)
      → (fuel : ℕ) (p : Parser) (c : Context) (s : Stream Source) → InBlock s.unread
      → s.unread.length ≤ 1024
      → length (content on_read left s) < fuel
      → Ends on_read left malloc execute s p c (feed on_read malloc execute fuel p c s)
  unfolding feed
  feed-Ends gives size zero p c s inside small enough = absurd (no_round _ enough)
  feed-Ends gives size (suc fuel) p c s inside small enough =
      let (d, s', e, (inside', (fits, split))) = read_lem on_read left gives s 1024 inside in
      subst
        (λ (o : Option (Bytes × Stream Source)). Ends on_read left malloc execute s p c (elim o [
          | none ↦ faulted
          | some r ↦
              with_piece on_read malloc execute (feed on_read malloc execute fuel) p c (r.0) (r.1)
        ]))
        (sym e)
        (piece-Ends (feed on_read malloc execute fuel) p c d s s' size (omega arith) (s, e)
          (λ n. drains on_read s 1024 d s' small n e) inside' split
          (λ n q c' t i z same. feed-Ends gives size fuel q c' t i (none_there _ z) (
            fewer d (content on_read left s') (content on_read left s) (content on_read left t) fuel
              n split same enough)))
