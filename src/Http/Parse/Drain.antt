-- ===== src/Http/Parse/Drain.antt =====
-- A read of api/src/unix/api_stream.c empties what was put back, as `http_request_parse` of
-- http/src/http_parse.c relies on.
use libapi.Base.{
  ℕ, ◌≤◌, ◌≡◌, ◌≢◌, refl, sym, ap, ◌∙◌, ◌⊎◌, inl, inr, [], Bool, true, false, Option, none, some,
  ◌==◌, ltb, if◌then◌else◌, arith, not_ltb→le, le→leb,
}
use libapi.Base.Fallible.{◌>>=◌}
use libapi.Stream.{Status, Unread, Stream, failed, take_unread, copy_of, read_filters, read}
use libapi.Http.Buffer.{Bytes}

-- The outcomes of a read.
read_cases :
    {X : Type 0} (a b c t : Bool) (none_read ended taken filtered r : Option X)
    → (if a
        then none_read
        else if b
        then none_read
        else if c
        then ended
        else if t
        then taken
        else filtered)
      ≡ r
    → (none_read ≡ r)
      ⊎ ((ended ≡ r) ⊎ (((t ≡ true) × (taken ≡ r)) ⊎ ((t ≡ false) × (filtered ≡ r))))
read_cases true b c t n e k f r h = inl h
read_cases false true c t n e k f r h = inl h
read_cases false false true t n e k f r h = inr (inl h)
read_cases false false false true n e k f r h = inr (inr (inl (refl, h)))
read_cases false false false false n e k f r h = inr (inr (inr (refl, h)))

abbrev all_of : Unread → Bytes → Bytes × Unread
all_of u d = (d, record u { length = 0 })

all_taken :
    (u : Unread) (n : ℕ)
    → u.length ≤ n
    → take_unread u n ≡ (copy_of u.buffer u.offset u.length >>= λ d. some (all_of u d))
unfolding take_unread
all_taken u n h = rw (le→leb u.length n h) refl

pub no_more : (n : ℕ) → n ≤ 0 → n ≡ 0
no_more n h = omega arith

module _ {Source : Type 0} where
  abbrev bytes_of : Option (Bytes × Stream Source) → Bytes
  bytes_of none = []
  bytes_of (some r) = r.0

  abbrev kept_length : ℕ → Option (Bytes × Stream Source) → ℕ
  kept_length n none = n
  kept_length n (some r) = (r.1).unread.length

  abbrev with_unread : Stream Source → Bytes × Unread → Bytes × Stream Source
  with_unread s r = (r.0, record s { unread = r.1 })

  emptied :
      (o : Option Bytes) (u : Unread) (s : Stream Source) (d : Bytes) (s' : Stream Source)
      → (o >>= (λ d. some (all_of u d)) >>= λ r. some (with_unread s r)) ≡ some (d, s')
      → s'.unread.length ≡ 0
  emptied none u s d s' h = cc h
  emptied (some x) u s d s' h = sym (ap (kept_length 0) h)

  -- A read that gives something empties what was put back, if that was no more than is asked for.
  pub drains :
      (on_read : Source → Status → ℕ → Bytes × Status × Source) (s : Stream Source) (n : ℕ)
      (d : Bytes) (s' : Stream Source)
      → s.unread.length ≤ n
      → d ≢ []
      → read on_read s n ≡ some (d, s')
      → s'.unread.length ≡ 0
  unfolding read read_filters
  drains on_read s n d s' small some_bytes h =
      elim (read_cases (n == 0) (failed s.status) s.loop_terminated (ltb 0 s.unread.length) _ _ _ _
        _ h) [
          | inl e ↦ absurd (some_bytes (sym (ap bytes_of e)))
          | inr (inl e) ↦ absurd (some_bytes (sym (ap bytes_of e)))
          | inr (inr (inl (t, e))) ↦
              emptied (copy_of s.unread.buffer s.unread.offset s.unread.length) s.unread s d s' (
                sym (
                  ap (λ (o : Option (Bytes × Unread)). o >>= λ r. some (with_unread s r))
                    (all_taken s.unread n small))
                ∙ e)
          | inr (inr (inr (t, e))) ↦
              let none_left = not_ltb→le 0 s.unread.length t in
              sym (ap (kept_length 0) e) ∙ no_more s.unread.length none_left
        ]
