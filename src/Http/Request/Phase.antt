-- ===== src/Http/Request/Phase.antt =====
-- What the callbacks of http/src/http_parse.c are meant to build: the state of a request as
-- plain text, with no buffers, flags or null pointers.
use libapi.Base.{◌≡◌, refl, List, [], ◌∷◌, ◌++◌, Option, none, some, ◌∙◌}
use libapi.Base.Fallible.{◌>>=◌}
use libapi.Http.Buffer.{Bytes}
use libapi.Http.Request.{Event, url, field, value, headers_complete}

abbrev pub Pairs : Type 0
Pairs = List (Bytes × Bytes)

-- The headers stand newest first.
pub data Phase : Type 0 where
  start : Phase
  in_url : Bytes → Phase
  in_name : Bytes → Pairs → Bytes → Phase
  in_value : Bytes → Pairs → Bytes → Bytes → Phase
  finished : Bytes → Pairs → Phase

-- `none` is an order of calls that http_parser does not produce.
abbrev pub advance : Phase → Event → Option Phase
advance start (url t) = some (in_url t)
advance (in_url u) (url t) = some (in_url (u ++ t))
advance (in_url u) (field t) = some (in_name u [] t)
advance (in_url u) headers_complete = some (finished u [])
advance (in_name u hs n) (field t) = some (in_name u hs (n ++ t))
advance (in_name u hs n) (value t) = some (in_value u hs n t)
advance (in_value u hs n v) (value t) = some (in_value u hs n (v ++ t))
advance (in_value u hs n v) (field t) = some (in_name u ((n, v) ∷ hs) t)
advance (in_value u hs n v) headers_complete = some (finished u ((n, v) ∷ hs))
advance _ _ = none

unfoldable pub advances : Phase → List Event → Option Phase
advances p [] = some p
advances p (e ∷ es) = advance p e >>= λ q. advances q es

-- A text in pieces, the first of them apart.
abbrev pub Pieces : Type 0
Pieces = Bytes × List Bytes

abbrev pub glue_on : Bytes → List Bytes → Bytes
glue_on t [] = t
glue_on t (x ∷ xs) = glue_on (t ++ x) xs

abbrev pub glue : Pieces → Bytes
glue (x, xs) = glue_on x xs

abbrev pub calls : (Bytes → Event) → List Bytes → List Event → List Event
calls f [] es = es
calls f (x ∷ xs) es = f x ∷ calls f xs es

-- The calls for headers, each name and value in pieces, and then for the end.
abbrev pub header_calls : List (Pieces × Pieces) → List Event
header_calls [] = headers_complete ∷ []
header_calls (((n, ns), (v, vs)) ∷ hs) =
    calls field (n ∷ ns) (calls value (v ∷ vs) (header_calls hs))

abbrev pub message_calls : Pieces → List (Pieces × Pieces) → List Event
message_calls (u, us) hs = calls url (u ∷ us) (header_calls hs)

abbrev pub texts : List (Pieces × Pieces) → Pairs → Pairs
texts [] acc = acc
texts ((n, v) ∷ hs) acc = texts hs ((glue n, glue v) ∷ acc)

urls :
    (u : Bytes) (xs : List Bytes) (es : List Event)
    → advances (in_url u) (calls url xs es) ≡ advances (in_url (glue_on u xs)) es
unfolding advances
urls u [] es = refl
urls u (x ∷ xs) es = urls (u ++ x) xs es

names :
    (u : Bytes) (ps : Pairs) (n : Bytes) (xs : List Bytes) (es : List Event)
    → advances (in_name u ps n) (calls field xs es) ≡ advances (in_name u ps (glue_on n xs)) es
unfolding advances
names u ps n [] es = refl
names u ps n (x ∷ xs) es = names u ps (n ++ x) xs es

values :
    (u : Bytes) (ps : Pairs) (n v : Bytes) (xs : List Bytes) (es : List Event)
    → advances (in_value u ps n v) (calls value xs es)
      ≡ advances (in_value u ps n (glue_on v xs)) es
unfolding advances
values u ps n v [] es = refl
values u ps n v (x ∷ xs) es = values u ps n (v ++ x) xs es

headers_after_value :
    (u : Bytes) (ps : Pairs) (n v : Bytes) (hs : List (Pieces × Pieces))
    → advances (in_value u ps n v) (header_calls hs) ≡ some (finished u (texts hs ((n, v) ∷ ps)))
unfolding advances
headers_after_value u ps n v [] = refl
headers_after_value u ps n v (((m, ms), (w, ws)) ∷ hs) =
    names u ((n, v) ∷ ps) m ms _
    ∙ values u ((n, v) ∷ ps) (glue_on m ms) w ws _
    ∙ headers_after_value u ((n, v) ∷ ps) (glue_on m ms) (glue_on w ws) hs

headers_after_url :
    (u : Bytes) (hs : List (Pieces × Pieces))
    → advances (in_url u) (header_calls hs) ≡ some (finished u (texts hs []))
unfolding advances
headers_after_url u [] = refl
headers_after_url u (((m, ms), (w, ws)) ∷ hs) =
    names u [] m ms _
    ∙ values u [] (glue_on m ms) w ws _
    ∙ headers_after_value u [] (glue_on m ms) (glue_on w ws) hs

-- However its texts are cut, a message ends with the whole url and each header's whole texts.
pub advances-message_calls :
    (us : Pieces) (hs : List (Pieces × Pieces))
    → advances start (message_calls us hs) ≡ some (finished (glue us) (texts hs []))
unfolding advances
advances-message_calls (u, us) hs =
    urls u us (header_calls hs) ∙ headers_after_url (glue_on u us) hs
