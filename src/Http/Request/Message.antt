-- ===== src/Http/Request/Message.antt =====
-- A whole request head through the callbacks, however http_parser cuts its texts.
use libapi.Base.{ℕ, ◌+◌, ◌*◌, ◌<◌, ◌≤◌, ◌≡◌, refl, List, [], true, none, some, arith, u64_mod}
use libapi.Http.Buffer.{Malloc, empty}
use libapi.Http.Buffer.Concat.{Succeeds}
use libapi.Http.Request.{Context, no_context, run}
use libapi.Http.Request.Phase.{
  Pieces, glue, texts, message_calls, finished, start, advances-message_calls,
}
use libapi.Http.Request.Refine.{Stands, HeadersStand, AllNulFree, total, pending, run-advances}

-- From a cleared context, the calls for a url and headers that come in pieces leave the whole
-- url, every header with its whole name and value, the last one first, and nothing pending.
-- The pieces hold no zero byte, and allocations up to twice their total length succeed.
pub run-message_calls :
    (malloc : Malloc) (limit : ℕ) (us : Pieces) (hs : List (Pieces × Pieces))
    → Succeeds malloc limit
    → limit ≤ u64_mod
    → AllNulFree (message_calls us hs)
    → 2 * total (message_calls us hs) + 1 < limit
    → (c : Context) × (run malloc no_context (message_calls us hs) ≡ some c)
      × (c.headers_done ≡ true)
      × Stands c.request.url (glue us)
      × HeadersStand c.request.headers (texts hs [])
      × (c.header ≡ none)
      × (c.buffer ≡ empty)
unfolding pending
run-message_calls malloc limit us hs ok wide f h =
    let (c, e, (hd, eu, ep, eh, eb)) =
      run-advances malloc limit no_context start (message_calls us hs)
        (finished (glue us) (texts hs [])) ok wide f (omega arith) (advances-message_calls us hs)
        (refl, refl, refl, refl, refl) in
    (c, e, hd, eu, ep, eh, eb)
