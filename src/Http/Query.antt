-- ===== src/Http/Query.antt =====
-- `decode_query` and `parse_query` of http/src/http_parse.c. A C string that they walk is given
-- by the bytes up to its terminator: a read at the end gives the null character.
pub mod Decode
pub mod Blocks
pub mod Params
pub mod Print
use libapi.Base.{
  ℕ, zero, suc, ◌+◌, ◌-◌, ◌*◌, ◌≡◌, Bool, true, false, ◌&&◌, List, [], ◌∷◌, ◌++◌, Option, none,
  some, leb, ltb, ◌==◌, if◌then◌else◌, length, drop, add64,
}
use libapi.Base.Fallible.{◌>>=◌}
use libapi.Http.Buffer.{Bytes, Malloc, write_at}
use libapi.Http.Request.{Param}

-- The value of a hexadecimal digit.
pub digit : ℕ → Option ℕ
digit c =
    if leb b'0' c && leb c b'9'
    then some (c - 48)
    else if leb b'a' c && leb c b'f'
    then some (c - 87)
    else if leb b'A' c && leb c b'F'
    then some (c - 55)
    else none

-- `strtol` in base 16 on `0x` and two characters: it reads as far as there are digits.
pub hex_value : ℕ → ℕ → ℕ
unfolding digit
hex_value a b = elim (digit a) [
  | none ↦ 0
  | some x ↦ elim (digit b) [ none ↦ x | some y ↦ 16 * x + y ]
]

-- A plus sign is a space.
pub unplus : ℕ → ℕ
unplus c = if c == b'+' then 32 else c

-- The loop of `decode_query`: `n` is `length`, which an escape lowers by one only, though it
-- takes three characters.
unfoldable pub decode : ℕ → Bytes → Bytes
unfolding hex_value unplus
decode zero s = []
decode (suc n) [] = []
decode (suc n) (c ∷ []) = unplus c ∷ []
decode (suc n) (c ∷ a ∷ []) = unplus c ∷ decode n (a ∷ [])
decode (suc n) (c ∷ a ∷ b ∷ s) =
    let escaped = hex_value a b ∷ decode n s in
    let plain = unplus c ∷ decode n (a ∷ b ∷ s) in if c == b'%' then escaped else plain

-- The block that is allocated for `n` characters, with the result and its terminator.
pub decode_query : Malloc → Bytes → ℕ → Option Bytes
decode_query malloc s n = do r ← malloc (add64 n 1); write_at r 0 (decode n s ++ 0 ∷ [])

-- The characters before the first `stop`.
pub until : ℕ → Bytes → Bytes
until stop [] = []
until stop (c ∷ s) = if c == stop then [] else c ∷ until stop s

-- What one segment adds to the parameters: `s` is all that is left of the query, `n` the length
-- of the segment, and `k` how many of its characters come before an equals sign.
param_of : Malloc → Bytes → ℕ → ℕ → List Param → Option (List Param)
param_of malloc s n k ps =
    if ltb k n
    then (if ltb 0 k
        then (do
          name ← decode_query malloc s k
          value ←
              if ltb (k + 1) n
              then (decode_query malloc (drop (k + 1) s) (n - k - 1) >>= λ v. some (some v))
              else some none
          some (record { name = name; value = value } ∷ ps))
        else some ps)
    else (decode_query malloc s n >>= λ name. some (record { name = name; value = none } ∷ ps))

-- The loop of `parse_query`, on fuel: one round for each segment. `none` is also a want of fuel.
pub parse_from : ℕ → Malloc → Bytes → List Param → Option (List Param)
unfolding param_of until
parse_from zero malloc s ps = none
parse_from (suc fuel) malloc s ps =
    let n = length (until b'&' s) in
    let k = length (until b'=' (until b'&' s)) in
    let rest = drop n s in
    elim (n == 0) [
      | true ↦ some ps
      | false ↦ param_of malloc s n k ps >>= λ qs. elim rest [
        | [] ↦ some qs
        | c ∷ t ↦ parse_from fuel malloc t qs
      ]
    ]

pub parse_query : Malloc → Bytes → List Param → Option (List Param)
unfolding parse_from
parse_query malloc q ps = parse_from (suc (length q)) malloc q ps
