-- ===== src/Http/Request.antt =====
-- The request of http/include/http.h, and the callbacks of http/src/http_parse.c that build it
-- from the pieces http_parser hands over.
pub mod Phase
pub mod Refine
pub mod Message
use libapi.Base.{
  ℕ, ◌≡◌, Bool, true, false, not, List, [], ◌∷◌, Option, none, some, if◌then◌else◌, length,
}
use libapi.Base.Fallible.{◌>>=◌}
use libapi.Http.Buffer.{Bytes, Buffer, Malloc, empty, concat}

-- `http_header_t` without its link; a null pointer is `none`.
pub record Header : Type 0 where
  pub name : Option Bytes
  pub value : Option Bytes

-- `http_param_t` without its link
pub record Param : Type 0 where
  pub name : Bytes
  pub value : Option Bytes

-- The anonymous struct `uri` of `http_request_t`
pub record Uri : Type 0 where
  pub schema : Option Bytes
  pub host : Option Bytes
  pub path : Option Bytes
  pub query : Option Bytes
  pub fragment : Option Bytes

-- `http_request_t`. The lists are the chains of `next` pointers. Nothing fills `body` or `cookies`.
pub record Request : Type 0 where
  pub major : ℕ
  pub minor : ℕ
  pub method : Bytes
  pub url : Option Bytes
  pub uri : Uri
  pub params : List Param
  pub headers : List Header

-- `state_t`
pub data ParseState : Type 0 where
  state_url state_header_name state_header_value : ParseState

abbrev pub is_url : ParseState → Bool
is_url state_url = true
is_url _ = false

-- `http_parser_t`, the context of the callbacks
pub record Context : Type 0 where
  pub request : Request
  pub headers_done : Bool
  pub header : Option Header
  pub state : ParseState
  pub buffer : Buffer
  pub last_was_value : Bool

-- What `memset` leaves.
abbrev pub no_header : Header
no_header = record { name = none; value = none }

abbrev pub no_request : Request
no_request = record {
  major = 0;
  minor = 0;
  method = [];
  url = none;
  uri = record { schema = none; host = none; path = none; query = none; fragment = none };
  params = [];
  headers = [];
}

abbrev pub no_context : Context
no_context = record {
  request = no_request;
  headers_done = false;
  header = none;
  state = state_url;
  buffer = empty;
  last_was_value = false;
}

-- Each callback returns `none` where the C code would read or write through a bad pointer.
pub on_url : Malloc → Context → Bytes → ℕ → Option Context
on_url malloc c at len = do
  b ← concat malloc c.buffer at len
  some (record c { state = state_url; buffer = b })

-- `ctx->request->url = ctx->buffer.data`, where the name follows the url.
take_url : Context → Context
take_url c =
    if is_url c.state
    then record c { request = record (c.request) { url = c.buffer.text }; buffer = empty }
    else c

-- The finished header joins the list.
put_header : Context → Header → Context
put_header c h = record c {
  request = record (c.request) { headers = record h { value = c.buffer.text } ∷ c.request.headers };
  header = none;
  buffer = empty;
  last_was_value = false;
}

take_header : Context → Option Context
unfolding put_header
take_header c =
    if c.last_was_value
    then (elim c.header [ none ↦ none | some h ↦ some (put_header c h) ])
    else some c

new_header : Context → Context
new_header c = elim c.header [ none ↦ record c { header = some no_header } | some h ↦ c ]

pub on_header_field : Malloc → Context → Bytes → ℕ → Option Context
unfolding take_url take_header new_header
on_header_field malloc c at len = do
  c ← take_header (record (take_url c) { state = state_header_name })
  let c' = new_header c
  b ← concat malloc c'.buffer at len
  some (record c' { buffer = b })

name_header : Context → Option Context
name_header c = if c.last_was_value then some c else (elim c.header [
  | none ↦ none
  | some h ↦ some (record c { header = some (record h { name = c.buffer.text }); buffer = empty })
])

pub on_header_value : Malloc → Context → Bytes → ℕ → Option Context
unfolding name_header
on_header_value malloc c at len = do
  c ← name_header c
  b ← concat malloc c.buffer at len
  some (record c { last_was_value = true; buffer = b })

complete : Context → Context
complete c = elim c.header [
  | some h ↦ record c {
    request = record (c.request) {
      headers = record h { value = c.buffer.text } ∷ c.request.headers;
    };
    header = none;
  }
  | none ↦ record c { request = record (c.request) { url = c.buffer.text } }
]

pub on_headers_complete : Context → Context
unfolding complete
on_headers_complete c = record (complete c) { buffer = empty; headers_done = true }

-- What http_parser calls, in the order of the calls.
pub data Event : Type 0 where
  url field value : Bytes → Event
  headers_complete : Event

pub step : Malloc → Context → Event → Option Context
step malloc c (url at) = on_url malloc c at (length at)
step malloc c (field at) = on_header_field malloc c at (length at)
step malloc c (value at) = on_header_value malloc c at (length at)
step malloc c headers_complete = some (on_headers_complete c)

pub run : Malloc → Context → List Event → Option Context
run malloc c [] = some c
run malloc c (e ∷ es) = step malloc c e >>= λ c'. run malloc c' es
