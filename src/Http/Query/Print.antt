-- ===== src/Http/Query/Print.antt =====
-- Query strings printed and read back.
use libapi.Base.{
  ℕ, zero, suc, ◌+◌, ◌-◌, ◌<◌, ◌≤◌, ◌≡◌, ◌≢◌, refl, ap, sym, ◌∙◌, true, false, List, [], ◌∷◌, ◌++◌,
  Option, none, some, length, drop, All, arith, ltb, ◌==◌, append_assoc, length-append, drop-append,
  drop_all, append-nil, ne→not_==, lt→ltb, u64_mod,
}
use libapi.Http.Buffer.{Bytes, Malloc}
use libapi.Http.Buffer.Concat.{Succeeds}
use libapi.Http.Request.{Param}
use libapi.Http.Query.{until, decode, parse_query}
use libapi.Http.Query.Decode.{decode_kept}
use libapi.Http.Query.Params.{
  TextParams, text_param, text_from, segment_length, text_ends, text_goes_on, ParamsStand,
  parse_query_lem,
}

-- A character that stands for itself wherever it is in a query.
abbrev pub IsPlain : ℕ → Type 0
IsPlain c = (c ≢ b'%') × (c ≢ b'+') × (c ≢ b'&') × (c ≢ b'=')

abbrev pub Plain : Bytes → Type 0
Plain = All IsPlain

-- A name and a value that are not empty, of plain characters.
abbrev pub GoodParam : Bytes × Option Bytes → Type 0
GoodParam (n, none) = Plain n × (0 < length n)
GoodParam (n, some v) = Plain n × (0 < length n) × Plain v × (0 < length v)

unfoldable pub print_param : Bytes × Option Bytes → Bytes
print_param (n, none) = n
print_param (n, some v) = n ++ b'=' ∷ v

unfoldable pub print : TextParams → Bytes
print [] = []
print (p ∷ []) = print_param p
print (p ∷ q ∷ ps) = print_param p ++ b'&' ∷ print (q ∷ ps)

decode-Plain : (t rest : Bytes) → Plain t → decode (length t) (t ++ rest) ≡ t
unfolding decode
decode-Plain [] rest f = refl
decode-Plain (c ∷ t) rest f =
    decode_kept (length t) c (t ++ rest) f.0.0 f.0.1 ∙ ap (◌∷◌ c) (decode-Plain t rest f.1)

abbrev Avoids : ℕ → Bytes → Type 0
Avoids stop = All (λ c. c ≢ stop)

until_seam : (stop : ℕ) (t rest : Bytes) → Avoids stop t → until stop (t ++ stop ∷ rest) ≡ t
unfolding until
until_seam stop [] rest f = ground arith
until_seam stop (c ∷ t) rest f = rw (ne→not_== c stop f.0) (ap (◌∷◌ c) (until_seam stop t rest f.1))

until_end : (stop : ℕ) (t : Bytes) → Avoids stop t → until stop t ≡ t
unfolding until
until_end stop [] f = refl
until_end stop (c ∷ t) f = rw (ne→not_== c stop f.0) (ap (◌∷◌ c) (until_end stop t f.1))

no_amp : (t : Bytes) → Plain t → Avoids b'&' t
no_amp [] f = tt
no_amp (c ∷ t) f = (f.0.2, no_amp t f.1)

no_eq : (t : Bytes) → Plain t → Avoids b'=' t
no_eq [] f = tt
no_eq (c ∷ t) f = (f.0.3, no_eq t f.1)

Avoids-append : (stop : ℕ) (s t : Bytes) → Avoids stop s → Avoids stop t → Avoids stop (s ++ t)
Avoids-append stop [] t f g = g
Avoids-append stop (c ∷ s) t f g = (f.0, Avoids-append stop s t f.1 g)

print_param-Avoids : (p : Bytes × Option Bytes) → GoodParam p → Avoids b'&' (print_param p)
unfolding print_param
print_param-Avoids (n, none) g = no_amp n g.0
print_param-Avoids (n, some v) g =
    Avoids-append b'&' n (b'=' ∷ v) (no_amp n g.0) (omega arith, no_amp v g.2)

drop_past : (n : Bytes) (c : ℕ) (w : Bytes) → drop (length n + 1) (n ++ c ∷ w) ≡ w
drop_past n c w =
    let e : length n + 1 ≡ length (n ++ c ∷ []) = sym (length-append n (c ∷ [])) in
    rw (e, sym (append_assoc n (c ∷ []) w)) (drop-append (n ++ c ∷ []) w)

-- A printed parameter is read back, whatever is behind its segment.
text_param-print :
    (p : Bytes × Option Bytes) (rest : Bytes) (ts : TextParams)
    → GoodParam p
    → text_param
        (print_param p ++ rest)
        (length (print_param p))
        (length (until b'=' (print_param p)))
        ts
      ≡ p ∷ ts
unfolding text_param print_param
text_param-print (n, none) rest ts g =
    let whole : until b'=' n ≡ n = until_end b'=' n (no_eq n g.0) in
    let e : ltb (length n) (length n) ≡ false = ground arith in
    rw (whole, e, decode-Plain n rest g.0)
text_param-print (n, some v) rest ts g =
    let stop : until b'=' (n ++ b'=' ∷ v) ≡ n = until_seam b'=' n v (no_eq n g.0) in
    let l : length (n ++ b'=' ∷ v) ≡ length n + suc (length v) = length-append n (b'=' ∷ v) in
    let e1 : ltb (length n) (length n + suc (length v)) ≡ true = lt→ltb _ _ (omega arith) in
    let e2 : ltb 0 (length n) ≡ true = lt→ltb _ _ g.1 in
    let e3 : ltb (length n + 1) (length n + suc (length v)) ≡ true =
      lt→ltb _ _ (omega (arith, g.3)) in
    let e4 : length n + suc (length v) - length n - 1 ≡ length v = omega arith in
    let e5 : drop (length n + 1) ((n ++ b'=' ∷ v) ++ rest) ≡ v ++ rest =
      rw (append_assoc n (b'=' ∷ v) rest) (drop_past n b'=' (v ++ rest)) in
    let e6 : decode (length n) ((n ++ b'=' ∷ v) ++ rest) ≡ n =
      rw (append_assoc n (b'=' ∷ v) rest) (decode-Plain n (b'=' ∷ v ++ rest) g.0) in
    rw (stop, l, e1, e2, e3, e4, e5, e6, decode-Plain v rest g.2)

print_param_pos : (p : Bytes × Option Bytes) → GoodParam p → 0 < length (print_param p)
unfolding print_param
print_param_pos (n, none) g = g.1
print_param_pos (n, some v) g = omega (arith, length-append n (b'=' ∷ v), g.1)

-- The parameters in front of those that were there, newest first.
unfoldable pub onto : TextParams → TextParams → TextParams
onto [] ts = ts
onto (p ∷ ps) ts = onto ps (p ∷ ts)

abbrev pub AllGood : TextParams → Type 0
AllGood = All GoodParam

-- The round for the last parameter, and the one for a parameter with others behind it.
round_last :
    (fuel : ℕ) (p : Bytes × Option Bytes) (ts : TextParams)
    → GoodParam p
    → text_from (suc fuel) (print_param p) ts ≡ p ∷ ts
round_last fuel p ts g =
    let s = print_param p in
    let seg : until b'&' s ≡ s = until_end b'&' s (print_param-Avoids p g) in
    let ne : (segment_length s == 0) ≡ false =
      rw seg (ne→not_== _ 0 (omega (arith, print_param_pos p g))) in
    let end : drop (segment_length s) s ≡ [] = rw seg (drop_all (length s) s (omega arith)) in
    text_ends fuel s ts ne end ∙ rw seg (rw (append-nil s) at (text_param-print p [] ts g))

round_more :
    (fuel : ℕ) (p : Bytes × Option Bytes) (t : Bytes) (ts : TextParams)
    → GoodParam p
    → text_from (suc fuel) (print_param p ++ b'&' ∷ t) ts ≡ text_from fuel t (p ∷ ts)
round_more fuel p t ts g =
    let s = print_param p ++ b'&' ∷ t in
    let seg : until b'&' s ≡ print_param p =
      until_seam b'&' (print_param p) t (print_param-Avoids p g) in
    let ne : (segment_length s == 0) ≡ false =
      rw seg (ne→not_== _ 0 (omega (arith, print_param_pos p g))) in
    let rest : drop (segment_length s) s ≡ b'&' ∷ t =
      rw seg (drop-append (print_param p) (b'&' ∷ t)) in
    text_goes_on fuel s ts b'&' t ne rest
    ∙ ap (text_from fuel t) (rw seg (text_param-print p (b'&' ∷ t) ts g))

-- A printed query is read back: every parameter once, newest first.
pub text_from-print :
    (fuel : ℕ) (ps : TextParams) (ts : TextParams)
    → AllGood ps
    → length ps < fuel
    → text_from fuel (print ps) ts ≡ onto ps ts
unfolding print onto text_from until
text_from-print zero ps ts g h = absurd (omega arith)
text_from-print (suc fuel) [] ts g h = refl
text_from-print (suc fuel) (p ∷ []) ts g h = round_last fuel p ts g.0
text_from-print (suc fuel) (p ∷ q ∷ ps) ts g h =
    round_more fuel p (print (q ∷ ps)) ts g.0
    ∙ text_from-print fuel (q ∷ ps) (p ∷ ts) g.1 (omega arith)

length-print-le : (ps : TextParams) → AllGood ps → length ps ≤ length (print ps)
unfolding print
length-print-le [] g = omega arith
length-print-le (p ∷ []) g = omega (arith, print_param_pos p g.0)
length-print-le (p ∷ q ∷ ps) g =
    omega
      (arith, length-append (print_param p) (b'&' ∷ print (q ∷ ps)), length-print-le (q ∷ ps) g.1)

-- `parse_query` on a printed query of plain names and values, with the allocations it asks for
-- granted: the parameters, newest first, as C strings.
pub parse_query-print :
    (malloc : Malloc) (limit : ℕ) (ps : TextParams)
    → Succeeds malloc limit
    → limit ≤ u64_mod
    → length (print ps) + 1 < limit
    → AllGood ps
    → (qs : List Param) × (parse_query malloc (print ps) [] ≡ some qs) × ParamsStand qs (onto ps [])
parse_query-print malloc limit ps ok wide h g =
    let (qs, e, st) = parse_query_lem malloc limit ok wide (print ps) h in
    (
      qs,
      e,
      rw (text_from-print (suc (length (print ps))) ps [] g (omega (arith, length-print-le ps g)))
          at st,
    )
