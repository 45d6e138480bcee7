-- ===== src/Http/Query/Decode.antt =====
-- What `decode_query` computes, against percent-encoding, and how far it reads.
use libapi.Base.{
  ℕ, zero, suc, ◌+◌, ◌*◌, ◌/◌, ◌%◌, ◌<◌, ◌≤◌, ◌≡◌, ◌≢◌, refl, ap, ◌∙◌, append-nil, Bool, false, [],
  ◌∷◌, ◌++◌, some, ltb, if◌then◌else◌, length, All, arith, Bool-cases, inl, inr,
}
use libapi.Http.Buffer.{Bytes}
use libapi.Http.Query.{digit, hex_value, unplus, decode}

-- The loop writes at most as many characters as its length allows.
pub length-decode-le : (n : ℕ) (s : Bytes) → length (decode n s) ≤ n
unfolding decode
length-decode-le zero s = omega arith
length-decode-le (suc n) [] = omega arith
length-decode-le (suc n) (c ∷ []) = omega arith
length-decode-le (suc n) (c ∷ a ∷ []) = omega (arith, length-decode-le n (a ∷ []))
length-decode-le (suc n) (c ∷ a ∷ b ∷ s) =
    ground (arith, length-decode-le n s, length-decode-le n (a ∷ b ∷ s))

-- Percent-encoding: characters that are not kept become three.
unfoldable pub hex_digit : ℕ → ℕ
hex_digit n = if ltb n 10 then n + 48 else n + 87

module _ (keep : ℕ → Bool) where
  unfoldable pub encode : Bytes → Bytes
  encode [] = []
  encode (c ∷ t) =
      if keep c then c ∷ encode t else b'%' ∷ hex_digit (c / 16) ∷ hex_digit (c % 16) ∷ encode t

  -- How many characters are not kept.
  unfoldable pub escapes : Bytes → ℕ
  escapes [] = 0
  escapes (c ∷ t) = if keep c then escapes t else suc (escapes t)

digit-hex_digit : (n : ℕ) → n < 16 → digit (hex_digit n) ≡ some n
unfolding digit hex_digit
digit-hex_digit n h = ground arith

hex_value_of : (a b x y : ℕ) → digit a ≡ some x → digit b ≡ some y → hex_value a b ≡ 16 * x + y
unfolding hex_value
hex_value_of a b x y e f = rw (e, f, hex_value)

hex_value-hex_digit : (c : ℕ) → c < 256 → hex_value (hex_digit (c / 16)) (hex_digit (c % 16)) ≡ c
unfolding hex_value
hex_value-hex_digit c h =
    hex_value_of (hex_digit (c / 16)) (hex_digit (c % 16)) (c / 16) (c % 16)
      (digit-hex_digit (c / 16) (omega arith)) (digit-hex_digit (c % 16) (omega arith))
    ∙ omega arith

-- One kept character, with anything behind it.
pub decode_kept :
    (n c : ℕ) (s : Bytes) → c ≢ b'%' → c ≢ b'+' → decode (suc n) (c ∷ s) ≡ c ∷ decode n s
unfolding decode unplus
decode_kept zero c [] h k = ground arith
decode_kept (suc n) c [] h k = ground arith
decode_kept n c (a ∷ []) h k = ground arith
decode_kept n c (a ∷ b ∷ s) h k = ground arith

-- Decoding an encoded text, with `rest` behind it, when `k` characters more may be read. Each
-- escape leaves two characters of the length unused, and they are spent on `rest`.
pub decode-encode :
    (keep : ℕ → Bool)
    → keep b'%' ≡ false
    → keep b'+' ≡ false
    → (t rest : Bytes) (k : ℕ) → All (λ c. c < 256) t
    → decode (length (encode keep t) + k) (encode keep t ++ rest)
      ≡ t ++ decode (k + 2 * escapes keep t) rest
unfolding decode encode escapes
decode-encode keep kp ks [] rest k h = ap (λ m. decode m rest) (omega arith)
decode-encode keep kp ks (c ∷ t) rest k h = elim (Bool-cases (keep c)) [
  | inl e ↦
      let one : suc (length (encode keep t)) + k ≡ suc (length (encode keep t) + k) = omega arith in
      rw (e, one)
        (decode_kept (length (encode keep t) + k) c (encode keep t ++ rest) (λ q. cc) (λ q. cc)
          ∙ ap (◌∷◌ c) (decode-encode keep kp ks t rest k h.1))
  | inr e ↦
      let one : suc (suc (suc (length (encode keep t)))) + k
          ≡ suc (length (encode keep t) + (k + 2)) =
        omega arith in
      let left : k + 2 * suc (escapes keep t) ≡ k + 2 + 2 * escapes keep t = omega arith in
      rw (e, one, left, hex_value-hex_digit c h.0)
        (ap (◌∷◌ c) (decode-encode keep kp ks t rest (k + 2) h.1))
]

decode-nil : (n : ℕ) → decode n [] ≡ []
unfolding decode
decode-nil zero = refl
decode-nil (suc n) = refl

-- A text encoded with a set of characters that stay as they are, neither % nor +, at the end of
-- its string comes back as it was.
pub decode-encode_end :
    (keep : ℕ → Bool)
    → keep b'%' ≡ false
    → keep b'+' ≡ false
    → (t : Bytes) → All (λ c. c < 256) t
    → decode (length (encode keep t)) (encode keep t) ≡ t
decode-encode_end keep kp ks t h =
    let all : length (encode keep t) + 0 ≡ length (encode keep t) = omega arith in
    (rw (all, append-nil (encode keep t)) at (decode-encode keep kp ks t [] 0 h))
    ∙ rw decode-nil (append-nil t)

-- A text encoded with a set of characters that stay as they are, neither % nor +, and followed by
-- anything else: the result is the text, and then what decoding two characters more for each
-- escape gives.
pub decode-encode_overrun :
    (keep : ℕ → Bool)
    → keep b'%' ≡ false
    → keep b'+' ≡ false
    → (t rest : Bytes) → All (λ c. c < 256) t
    → decode (length (encode keep t)) (encode keep t ++ rest)
      ≡ t ++ decode (2 * escapes keep t) rest
decode-encode_overrun keep kp ks t rest h =
    let all : length (encode keep t) + 0 ≡ length (encode keep t) = omega arith in
    let more : 0 + 2 * escapes keep t ≡ 2 * escapes keep t = omega arith in
    rw (all, more) at (decode-encode keep kp ks t rest 0 h)
