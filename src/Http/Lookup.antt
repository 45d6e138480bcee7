-- ===== src/Http/Lookup.antt =====
-- `http_request_get_header` of http/src/http_parse.c: a header by its name, in any case.
use libapi.Base.{
  ℕ, ◌+◌, ◌≡◌, refl, Bool, true, false, ◌&&◌, List, [], ◌∷◌, Option, none, some, leb, ◌==◌,
  if◌then◌else◌, arith, Bool-cases, inl, inr, sym, ◌∙◌,
}
use libapi.Http.Buffer.{Bytes, c_string}
use libapi.Http.Request.{Header}
use libapi.Http.Request.Phase.{Pairs}
use libapi.Http.Request.Refine.{Stands, HeadersStand}

-- `tolower` of the C locale
unfoldable pub lower : ℕ → ℕ
lower c = if leb b'A' c && leb c b'Z' then c + 32 else c

-- `strcasecmp(s, t) == 0`
pub same_nocase : Bytes → Bytes → Bool
same_nocase [] [] = true
same_nocase [] (b ∷ t) = b == 0
same_nocase (a ∷ s) [] = a == 0
same_nocase (a ∷ s) (b ∷ t) =
    let rest = same_nocase s t in
    if lower a == lower b then (if a == 0 then true else rest) else false

-- The outer `none` is a comparison with a null name; the inner one is the null result.
pub get_header : List Header → Bytes → Option (Option Bytes)
get_header [] name = some none
get_header (h ∷ hs) name =
    let rest = get_header hs name in
    elim h.name [ none ↦ none | some n ↦ if same_nocase n name then some h.value else rest ]

-- The specification: texts, equal up to the case of their letters.
unfoldable pub same_texts : Bytes → Bytes → Bool
same_texts [] [] = true
same_texts [] (b ∷ t) = false
same_texts (a ∷ s) [] = false
same_texts (a ∷ s) (b ∷ t) = (lower a == lower b) && same_texts s t

unfoldable pub find_text : Bytes → Pairs → Option Bytes
find_text name [] = none
find_text name ((n, v) ∷ ps) = if same_texts n name then some v else find_text name ps

lower_zero : (a b : ℕ) → (lower a == lower b) ≡ true → (a == 0) ≡ (b == 0)
unfolding lower
lower_zero a b h = ground arith

lower_differs : (a b : ℕ) → (lower a == lower b) ≡ false → (a == 0) ≡ true → (b == 0) ≡ false
unfolding lower
lower_differs a b h e = ground arith

-- `strcasecmp` compares the texts of two C strings.
same_nocase-c_string : (s t : Bytes) → same_nocase s t ≡ same_texts (c_string s) (c_string t)
unfolding same_nocase same_texts c_string
same_nocase-c_string [] [] = refl
same_nocase-c_string [] (b ∷ t) = ground arith
same_nocase-c_string (a ∷ s) [] = ground arith
same_nocase-c_string (a ∷ s) (b ∷ t) = elim (Bool-cases (lower a == lower b)) [
  | inl e ↦ elim (Bool-cases (a == 0)) [
    | inl z ↦ rw (e, z, sym (lower_zero a b e) ∙ z)
    | inr z ↦ rw (e, z, sym (lower_zero a b e) ∙ z, e) (same_nocase-c_string s t)
  ]
  | inr e ↦ elim (Bool-cases (a == 0)) [
    | inl z ↦ rw (e, z, lower_differs a b e z)
    | inr z ↦ elim (Bool-cases (b == 0)) [ inl w ↦ rw (e, z, w) | inr w ↦ rw (e, z, w, e) ]
  ]
]

-- A value that was found stands for the text that was found.
abbrev pub Finds : Option Bytes → Option Bytes → Type 0
Finds o none = o ≡ none
Finds o (some v) = Stands o v

-- The value of the first header in the list with the name, or null: since a request lists its
-- headers newest first, the last one that was sent wins.
pub get_header-find_text :
    (hs : List Header) (ps : Pairs) (name : Bytes)
    → HeadersStand hs ps
    → (o : Option Bytes) × (get_header hs name ≡ some o) × Finds o (find_text (c_string name) ps)
unfolding get_header find_text
get_header-find_text [] [] name hp = (none, refl, refl)
get_header-find_text (h ∷ hs) ((n, v) ∷ ps) name ((d, en, ec), ev, rest) =
    let same : same_nocase d name ≡ same_texts n (c_string name) =
      rw (← ec) (same_nocase-c_string d name) in
    let (o, eo, fo) = get_header-find_text hs ps name rest in
    elim (Bool-cases (same_texts n (c_string name))) [
      | inl e ↦ (h.value, rw (en, same, e), rw e ev)
      | inr e ↦ (o, rw (en, same, e) eo, rw e fo)
    ]
get_header-find_text [] (p ∷ ps) name hp = absurd hp
get_header-find_text (h ∷ hs) [] name hp = absurd hp
