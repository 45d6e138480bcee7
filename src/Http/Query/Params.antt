-- ===== src/Http/Query/Params.antt =====
-- The parameters that `parse_query` finds, as texts.
use libapi.Base.{
  ℕ, zero, suc, ◌+◌, ◌-◌, ◌<◌, ◌≤◌, ◌≡◌, refl, true, false, List, [], ◌∷◌, Option, none, some,
  length, drop, arith, ltb, ◌==◌, if◌then◌else◌, u64_mod, Bool-cases, inl, inr, length-drop, ap,
  ◌∙◌, ◌⊎◌,
}
use libapi.Http.Buffer.{Bytes, Malloc, c_string}
use libapi.Http.Buffer.Concat.{Succeeds}
use libapi.Http.Request.{Param}
use libapi.Http.Query.{until, decode, param_of, parse_from, parse_query}
use libapi.Http.Query.Blocks.{decode_query_lem}

abbrev pub TextParams : Type 0
TextParams = List (Bytes × Option Bytes)

unfoldable pub text_param : Bytes → ℕ → ℕ → TextParams → TextParams
text_param s n k ps =
    if ltb k n
    then (if ltb 0 k
        then (
          decode k s,
          (if ltb (k + 1) n then some (decode (n - k - 1) (drop (k + 1) s)) else none),
        )
          ∷ ps
        else ps)
    else (decode n s, none) ∷ ps

unfoldable pub text_from : ℕ → Bytes → TextParams → TextParams
text_from zero s ps = ps
text_from (suc fuel) s ps =
    let n = length (until b'&' s) in
    let k = length (until b'=' (until b'&' s)) in
    let qs = text_param s n k ps in
    let rest = drop n s in
    elim (n == 0) [ true ↦ ps | false ↦ elim rest [ [] ↦ qs | c ∷ t ↦ text_from fuel t qs ] ]

-- The lengths of the first segment and of the part of it before an equals sign.
abbrev pub segment_length : Bytes → ℕ
segment_length s = length (until b'&' s)

abbrev pub name_length : Bytes → ℕ
name_length s = length (until b'=' (until b'&' s))

-- One round of each loop: it stops, ends with the last segment, or goes on.
module _ (fuel : ℕ) (s : Bytes) (ts : TextParams) where
  pub text_stops : (segment_length s == 0) ≡ true → text_from (suc fuel) s ts ≡ ts
  unfolding text_from
  text_stops e = rw (e, text_from)

  pub text_ends :
      (segment_length s == 0) ≡ false
      → drop (segment_length s) s ≡ []
      → text_from (suc fuel) s ts ≡ text_param s (segment_length s) (name_length s) ts
  unfolding text_from
  text_ends e d = rw (e, d, text_from)

  pub text_goes_on :
      (c : ℕ) (t : Bytes)
      → (segment_length s == 0) ≡ false
      → drop (segment_length s) s ≡ c ∷ t
      → text_from (suc fuel) s ts
        ≡ text_from fuel t (text_param s (segment_length s) (name_length s) ts)
  unfolding text_from
  text_goes_on c t e d = rw (e, d, text_from)

module _ (fuel : ℕ) (malloc : Malloc) (s : Bytes) (ps : List Param) where
  parse_stops : (segment_length s == 0) ≡ true → parse_from (suc fuel) malloc s ps ≡ some ps
  unfolding parse_from
  parse_stops e = rw (e, parse_from)

  parse_ends :
      (qs : List Param)
      → (segment_length s == 0) ≡ false
      → drop (segment_length s) s ≡ []
      → param_of malloc s (segment_length s) (name_length s) ps ≡ some qs
      → parse_from (suc fuel) malloc s ps ≡ some qs
  unfolding parse_from
  parse_ends qs e d p = rw (e, p, d, parse_from)

  parse_goes_on :
      (qs : List Param) (c : ℕ) (t : Bytes)
      → (segment_length s == 0) ≡ false
      → drop (segment_length s) s ≡ c ∷ t
      → param_of malloc s (segment_length s) (name_length s) ps ≡ some qs
      → parse_from (suc fuel) malloc s ps ≡ parse_from fuel malloc t qs
  unfolding parse_from
  parse_goes_on qs c t e d p = rw (e, p, d, parse_from)

-- The blocks of a parameter list are the C strings of the texts.
abbrev pub ValueStands : Option Bytes → Option Bytes → Type 0
ValueStands none none = Unit {0}
ValueStands (some d) (some v) = c_string d ≡ c_string v
ValueStands _ _ = ⊥

abbrev pub ParamsStand : List Param → TextParams → Type 0
ParamsStand [] [] = Unit {0}
ParamsStand (p ∷ ps) ((n, v) ∷ ts) =
    (c_string p.name ≡ c_string n) × ValueStands p.value v × ParamsStand ps ts
ParamsStand _ _ = ⊥

abbrev Parses : Option (List Param) → TextParams → Type 0
Parses o ts = (ps : List Param) × (o ≡ some ps) × ParamsStand ps ts

module _ (malloc : Malloc) (limit : ℕ) (ok : Succeeds malloc limit) (wide : limit ≤ u64_mod) where
  param_of-text_param :
      (s : Bytes) (n k : ℕ) (ps : List Param) (ts : TextParams)
      → n + 1 < limit
      → ParamsStand ps ts
      → Parses (param_of malloc s n k ps) (text_param s n k ts)
  unfolding param_of text_param
  param_of-text_param s n k ps ts h st = elim (Bool-cases (ltb k n)) [
    | inr e ↦
        let (d, ed, ld, cd) = decode_query_lem malloc limit s n ok wide h in
        (record { name = d; value = none } ∷ ps, rw (e, ed), rw e (cd, tt, st))
    | inl e ↦ elim (Bool-cases (ltb 0 k)) [
      | inr z ↦ (ps, rw (e, z), rw (e, z) st)
      | inl z ↦
          let (d, ed, ld, cd) = decode_query_lem malloc limit s k ok wide (ground arith) in
          elim (Bool-cases (ltb (k + 1) n)) [
            | inr w ↦ (
              record { name = d; value = none } ∷ ps,
              rw (e, z, ed, w),
              rw (e, z, w) (cd, tt, st),
            )
            | inl w ↦
                let (v, ev, lv, cv) =
                  decode_query_lem malloc limit (drop (k + 1) s) (n - k - 1) ok wide
                    (omega arith) in
                (
                  record { name = d; value = some v } ∷ ps,
                  rw (e, z, ed, w, ev),
                  rw (e, z, w) (cd, cv, st),
                )
          ]
    ]
  ]

length-until-le : (stop : ℕ) (s : Bytes) → length (until stop s) ≤ length s
unfolding until
length-until-le stop [] = omega arith
length-until-le stop (c ∷ s) = ground (arith, length-until-le stop s)

List-cases : (s : Bytes) → (s ≡ []) ⊎ ((c : ℕ) × (t : Bytes) × (s ≡ c ∷ t))
List-cases [] = inl refl
List-cases (c ∷ t) = inr (c, t, refl)

module _ (malloc : Malloc) (limit : ℕ) (ok : Succeeds malloc limit) (wide : limit ≤ u64_mod) where
  parse_from-text_from :
      (fuel : ℕ) (s : Bytes) (ps : List Param) (ts : TextParams)
      → length s + 1 < limit
      → length s < fuel
      → ParamsStand ps ts
      → Parses (parse_from fuel malloc s ps) (text_from fuel s ts)
  unfolding parse_from text_from
  parse_from-text_from zero s ps ts h more st = absurd (omega arith)
  parse_from-text_from (suc fuel) s ps ts h more st = elim (Bool-cases (segment_length s == 0)) [
    | inl e ↦ (ps, parse_stops fuel malloc s ps e, rw (text_stops fuel s ts e) st)
    | inr e ↦
        let (qs, eq, sq) =
          param_of-text_param malloc limit ok wide s (segment_length s) (name_length s) ps ts
            (omega (arith, length-until-le b'&' s)) st in
        elim (List-cases (drop (segment_length s) s)) [
          | inl d ↦ (qs, parse_ends fuel malloc s ps qs e d eq, rw (text_ends fuel s ts e d) sq)
          | inr (c, t, d) ↦
              let (rs, er, sr) =
                parse_from-text_from fuel t qs _
                  (omega (arith, ap length d, length-drop (segment_length s) s))
                  (omega (arith, ap length d, length-drop (segment_length s) s)) sq in
              (
                rs,
                parse_goes_on fuel malloc s ps qs c t e d eq ∙ er,
                rw (text_goes_on fuel s ts c t e d) sr,
              )
        ]
  ]

  -- `parse_query` adds to the parameters the ones of its text, as C strings, and never leaves its
  -- blocks.
  pub parse_query_lem :
      (q : Bytes)
      → length q + 1 < limit
      → (ps : List Param) × (parse_query malloc q [] ≡ some ps)
        × ParamsStand ps (text_from (suc (length q)) q [])
  unfolding parse_query
  parse_query_lem q h = parse_from-text_from (suc (length q)) q [] [] h (omega arith) tt
