-- ===== src/Http/Tests.antt =====
-- http_parse.c at concrete requests, and the theorems about it there.
use libapi.Base.{
  ℕ, ◌^◌, ◌≡◌, refl, Bool, true, ◌&&◌, not, List, [], ◌∷◌, Option, none, some, ◌==◌, length,
  replicate, length-replicate, arith,
}
use libapi.Http.Buffer.{Bytes, Buffer, Malloc, empty, concat, c_string}
use libapi.Http.Buffer.Concat.{Stores, Succeeds, concat_lem}
use libapi.Http.Request.{Context, Header, Param, no_context, run}
use libapi.Http.Request.Phase.{Pieces, message_calls}
use libapi.Http.Request.Refine.{Stands, HeadersStand, total}
use libapi.Http.Request.Message.{run-message_calls}
use libapi.Http.Lookup.{get_header, find_text, same_texts, lower, Finds, get_header-find_text}
use libapi.Http.Query.{decode, decode_query, parse_query}
use libapi.Http.Query.Decode.{encode, escapes, hex_digit, decode-encode_end, decode-encode_overrun}
use libapi.Http.Query.Blocks.{decode_query_lem}
use libapi.Http.Query.Params.{TextParams, ParamsStand}
use libapi.Http.Query.Print.{print, print_param, onto, parse_query-print}

-- An allocator that never fails and fills its blocks with 0xAA.
abbrev malloc : Malloc
malloc n = some (replicate n 170)

abbrev limit : ℕ
limit = 2 ^ 20

malloc-Succeeds : Succeeds malloc limit
malloc-Succeeds n h = (replicate n 170, refl, length-replicate n 170)

abbrev five : Buffer
five = record { text = some (b'a' ∷ b'b' ∷ 0 ∷ 7 ∷ 7 ∷ []); used = 2; alloc = 5 }

five-Stores : Stores five (b'a' ∷ b'b' ∷ [])
five-Stores = record {
  spare = 7 ∷ 7 ∷ [];
  block = refl;
  plain = omega arith;
  used = refl;
  alloc = refl;
  small = omega arith;
}

concat_lem_example :
    (b : Buffer) × (concat malloc five (b'c' ∷ b'd' ∷ b'e' ∷ []) 3 ≡ some b)
    × Stores b (b'a' ∷ b'b' ∷ b'c' ∷ b'd' ∷ b'e' ∷ [])
concat_lem_example =
    concat_lem malloc limit five (some (b'a' ∷ b'b' ∷ [])) (b'c' ∷ b'd' ∷ b'e' ∷ []) malloc-Succeeds
      (omega arith) (omega arith) (omega arith) five-Stores

-- `GET /ab HTTP/1.1`, `H: vw`, with the url and the value in two pieces.
abbrev us : Pieces
us = (b'/' ∷ b'a' ∷ [], (b'b' ∷ []) ∷ [])

abbrev hs : List (Pieces × Pieces)
hs = ((b'H' ∷ [], []), (b'v' ∷ [], (b'w' ∷ []) ∷ [])) ∷ []

run-message_calls_example :
    (c : Context) × (run malloc no_context (message_calls us hs) ≡ some c)
    × (c.headers_done ≡ true)
    × Stands c.request.url (b'/' ∷ b'a' ∷ b'b' ∷ [])
    × HeadersStand c.request.headers ((b'H' ∷ [], b'v' ∷ b'w' ∷ []) ∷ [])
    × (c.header ≡ none)
    × (c.buffer ≡ empty)
unfolding total
run-message_calls_example =
    run-message_calls malloc limit us hs malloc-Succeeds (omega arith) (omega arith) (omega arith)

abbrev stored : List Header
stored = record { name = some (b'H' ∷ b'x' ∷ 0 ∷ []); value = some (b'v' ∷ 0 ∷ []) } ∷ []

get_header-find_text_example :
    (o : Option Bytes) × (get_header stored (b'h' ∷ b'X' ∷ 0 ∷ []) ≡ some o)
    × Finds o (some (b'v' ∷ []))
unfolding c_string find_text same_texts lower
get_header-find_text_example =
    get_header-find_text stored ((b'H' ∷ b'x' ∷ [], b'v' ∷ []) ∷ []) (b'h' ∷ b'X' ∷ 0 ∷ [])
      ((b'H' ∷ b'x' ∷ 0 ∷ [], refl, refl), (b'v' ∷ 0 ∷ [], refl, refl), tt)

-- Everything but the percent and plus signs and the space is kept.
abbrev keep : ℕ → Bool
keep c = not (c == b'%') && (not (c == b'+') && not (c == 32))

decode-encode_end_example : decode 5 (b'a' ∷ b'%' ∷ b'2' ∷ b'0' ∷ b'b' ∷ []) ≡ b'a' ∷ 32 ∷ b'b' ∷ []
unfolding encode hex_digit
decode-encode_end_example = decode-encode_end keep refl refl (b'a' ∷ 32 ∷ b'b' ∷ []) (omega arith)

-- The name of `a%20b=val` comes out as `a b=v`.
decode-encode_overrun_example :
    decode 5 (b'a' ∷ b'%' ∷ b'2' ∷ b'0' ∷ b'b' ∷ b'=' ∷ b'v' ∷ b'a' ∷ b'l' ∷ [])
    ≡ b'a' ∷ 32 ∷ b'b' ∷ b'=' ∷ b'v' ∷ []
unfolding encode hex_digit escapes decode
decode-encode_overrun_example =
    decode-encode_overrun keep refl refl (b'a' ∷ 32 ∷ b'b' ∷ []) (b'=' ∷ b'v' ∷ b'a' ∷ b'l' ∷ [])
      (omega arith)

decode_query_lem_example :
    (d : Bytes) × (decode_query malloc (b'a' ∷ b'+' ∷ b'b' ∷ []) 3 ≡ some d)
    × (length d ≡ 4)
    × (c_string d ≡ b'a' ∷ 32 ∷ b'b' ∷ [])
unfolding decode c_string
decode_query_lem_example =
    decode_query_lem malloc limit (b'a' ∷ b'+' ∷ b'b' ∷ []) 3 malloc-Succeeds (omega arith)
      (omega arith)

abbrev params : TextParams
params = (b'k' ∷ [], some (b'v' ∷ [])) ∷ (b'q' ∷ [], none) ∷ []

parse_query-print_example :
    (qs : List Param) × (parse_query malloc (print params) [] ≡ some qs)
    × ParamsStand qs (onto params [])
unfolding print print_param
parse_query-print_example =
    parse_query-print malloc limit params malloc-Succeeds (omega arith) (omega arith) (omega arith)
