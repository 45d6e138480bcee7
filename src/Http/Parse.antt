-- ===== src/Http/Parse.antt =====
-- http/src/http_parse.c: `http_request_parse` and `http_request_clean`. http_parser is a parameter: its state,
-- what it does with a piece of input, and how it takes an url apart.
pub mod Drain
pub mod Outcome
pub mod Feed
mod Tests
use libapi.Base.{
  ℕ, zero, suc, ◌≡◌, List, [], ◌∷◌, ◌++◌, Bool, true, false, Option, none, some, ltb, if◌then◌else◌,
  length, drop, sub64,
}
use libapi.Base.Fallible.{◌>>=◌}
use libapi.Stream.{Status, Stream, unread, read}
use libapi.Http.Buffer.{Bytes, Malloc, c_string, str_ndup}
use libapi.Http.Request.{Header, Param, Uri, Request, Context, no_context, Event, run}
use libapi.Http.Query.{decode_query, parse_query}

-- Why a request is not parsed: "stream not readable", the description of an error of http_parser, or
-- "invalud uri".
pub data Failure : Type 0 where
  not_readable : Failure
  parser_error : ℕ → Failure
  invalid_uri : Failure

-- What `http_parser_execute` does: the calls that it makes, the number of bytes it takes, `http_errno`, and
-- the state it is left in.
pub record Executed (Parser : Type 0) : Type 0 where
  pub events : List Event
  pub size : ℕ
  pub errno : ℕ
  pub parser : Parser

-- `struct http_parser_url`: an offset and a length for each part that is there.
pub record Url : Type 0 where
  pub schema : Option (ℕ × ℕ)
  pub host : Option (ℕ × ℕ)
  pub path : Option (ℕ × ℕ)
  pub query : Option (ℕ × ℕ)
  pub fragment : Option (ℕ × ℕ)

-- The answer of the loop, which may also fault, or have no fuel.
pub record Fed (Parser Source : Type 0) : Type 0 where
  pub failure : Option Failure
  pub parser : Parser
  pub context : Context
  pub stream : Stream Source

pub data Feeding (Parser Source : Type 0) : Type 0 where
  no_fuel faulted : Feeding Parser Source
  fed : Fed Parser Source → Feeding Parser Source

module _ {Parser Source : Type 0} (on_read : Source → Status → ℕ → Bytes × Status × Source)
    (malloc : Malloc) (execute : Parser → Bytes → Executed Parser) where
  -- What follows the headers is put back: `d` is the piece that was read.
  unfoldable pub put_back : Bytes → ℕ → Stream Source → Option (Stream Source)
  put_back d size s =
      if ltb size (length d) then unread s (drop size d) (sub64 (length d) size) else some s

  -- The headers have ended in this piece.
  unfoldable pub headers_end :
      Executed Parser → Context → Option (Stream Source) → Feeding Parser Source
  headers_end x c none = faulted
  headers_end x c (some s) =
      fed (record { failure = none; parser = x.parser; context = c; stream = s })

  -- After `http_parser_execute` on the piece `d`; `next` is the next round.
  unfoldable pub executed :
      (next : Parser → Context → Stream Source → Feeding Parser Source)
      → Executed Parser
      → Bytes
      → Option Context
      → Stream Source
      → Feeding Parser Source
  unfolding headers_end put_back
  executed next x d none s = faulted
  executed next x d (some c) s =
      if ltb 0 x.errno
      then fed (record {
        failure = some (parser_error x.errno);
        parser = x.parser;
        context = c;
        stream = s;
      })
      else if c.headers_done
      then headers_end x c (put_back d x.size s)
      else next x.parser c s

  -- After a read that gave the piece `d`.
  unfoldable pub with_piece :
      (next : Parser → Context → Stream Source → Feeding Parser Source)
      → Parser
      → Context
      → Bytes
      → Stream Source
      → Feeding Parser Source
  unfolding executed
  with_piece next p c [] s =
      fed (record { failure = some not_readable; parser = p; context = c; stream = s })
  with_piece next p c (b ∷ bs) s =
      let x = execute p (b ∷ bs) in executed next x (b ∷ bs) (run malloc c x.events) s

  -- The loop of `http_request_parse`, on fuel: one round for each piece.
  unfoldable pub feed : ℕ → Parser → Context → Stream Source → Feeding Parser Source
  unfolding with_piece
  feed zero p c s = no_fuel
  feed (suc fuel) p c s = elim (read on_read s 1024) [
    | none ↦ faulted
    | some r ↦ with_piece (feed fuel) p c (r.0) (r.1)
  ]

-- A part of the url, copied; `none` is a fault.
unfoldable pub part : Malloc → Bytes → Option (ℕ × ℕ) → Option (Option Bytes)
part malloc url none = some none
part malloc url (some p) = str_ndup malloc (some (drop (p.0) url)) (p.1)

-- The path is decoded.
unfoldable pub path_part : Malloc → Bytes → Option (ℕ × ℕ) → Option (Option Bytes)
path_part malloc url none = some none
path_part malloc url (some p) = decode_query malloc (drop (p.0) url) (p.1) >>= λ d. some (some d)

-- `parse_query`, if there is a query: it reads its text.
unfoldable pub query_params :
    Malloc → Option (ℕ × ℕ) → Option Bytes → List Param → Option (List Param)
query_params malloc none q ps = some ps
query_params malloc (some p) none ps = none
query_params malloc (some p) (some q) ps = parse_query malloc (c_string q) ps

unfoldable pub fill_uri : Malloc → Bytes → Url → Request → Option Request
unfolding part path_part query_params
fill_uri malloc url u r = do
  schema ← part malloc url u.schema
  host ← part malloc url u.host
  path ← path_part malloc url u.path
  query ← part malloc url u.query
  params ← query_params malloc u.query query r.params
  fragment ← part malloc url u.fragment
  let uri : Uri = record {
    schema = schema;
    host = host;
    path = path;
    query = query;
    fragment = fragment;
  }
  some (record r { uri = uri; params = params })

-- What `http_request_clean` frees, in its order.
unfoldable pub freed_headers : List Header → List (Option Bytes)
freed_headers [] = []
freed_headers (h ∷ hs) = h.name ∷ h.value ∷ freed_headers hs

unfoldable pub freed_params : List Param → List (Option Bytes)
freed_params [] = []
freed_params (p ∷ ps) = some p.name ∷ p.value ∷ freed_params ps

unfoldable pub clean : Request → List (Option Bytes)
unfolding freed_headers freed_params
clean r =
    r.url
      ∷ r.uri.fragment
      ∷ r.uri.host
      ∷ r.uri.path
      ∷ r.uri.query
      ∷ r.uri.schema
      ∷ freed_headers r.headers
    ++ freed_params r.params

-- `http_major`, `http_minor`, the name of the method, and whether it is CONNECT.
pub record Version : Type 0 where
  pub major : ℕ
  pub minor : ℕ
  pub method : Bytes
  pub is_connect : Bool

-- What follows the loop; with a failure the request is given to `clean`. `none` is a fault.
unfoldable pub finish :
    {Parser Source : Type 0}
    → Malloc
    → (Parser → Version)
    → (Bytes → Bool → Option Url)
    → Fed Parser Source
    → Option (Option Failure × Request × Stream Source)
unfolding fill_uri
finish malloc version parse_url f =
    let v = version f.parser in
    let r : Request = record (f.context.request) {
      major = v.major;
      minor = v.minor;
      method = v.method;
    } in
    elim (f.failure) [
      | some e ↦ some (some e, r, f.stream)
      | none ↦ r.url >>= λ url. elim (parse_url (c_string url) v.is_connect) [
        | none ↦ some (some invalid_uri, r, f.stream)
        | some u ↦ fill_uri malloc url u r >>= λ r'. some (none, r', f.stream)
      ]
    ]
