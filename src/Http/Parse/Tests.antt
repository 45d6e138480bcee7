-- ===== src/Http/Parse/Tests.antt =====
-- A request that is read in pieces, by `http_request_parse` of http/src/http_parse.c.
use libapi.Base.{
  ℕ, ◌-◌, ◌≤◌, [], ◌∷◌, false, some, min, leb, if◌then◌else◌, length, take, drop, length-take,
  take-append-drop, arith, replicate,
}
use libapi.Stream.{Status, Stream}
use libapi.Http.Buffer.{Bytes, Malloc}
use libapi.Http.Request.{no_context, url, headers_complete}
use libapi.Stream.Content.{Delivers}
use libapi.Http.Parse.{Executed, feed}
use libapi.Http.Parse.Outcome.{Ends}
use libapi.Http.Parse.Feed.{feed-Ends}

abbrev malloc : Malloc
malloc n = some (replicate n 170)

-- The source gives two bytes at a time.
abbrev pairs : Bytes → Status → ℕ → Bytes × Status × Bytes
pairs src st n = (take (min 2 n) src, st, drop (min 2 n) src)

pairs-Delivers : Delivers pairs (λ src. src)
pairs-Delivers src st n =
    (let l = length-take (min 2 n) src in omega arith, take-append-drop (min 2 n) src)

-- A parser of headers of a known length, all of it url.
abbrev count_down : ℕ → Bytes → Executed ℕ
count_down p d = record {
  events = if leb p (length d) then url (take p d) ∷ headers_complete ∷ [] else url d ∷ [];
  size = min p (length d);
  errno = 0;
  parser = p - length d;
}

count_down-size : (p : ℕ) (d : Bytes) → (count_down p d).size ≤ length d
count_down-size p d = omega arith

abbrev stream : Stream Bytes
stream = record {
  status = record {
    read_timeout = false;
    write_timeout = false;
    eof = false;
    error = 0;
    closed = false;
    peer_closed = false;
    terminated = false;
  };
  unread = record { buffer = []; offset = 0; length = 0 };
  loop_terminated = false;
  source = 71 ∷ 69 ∷ 84 ∷ 5 ∷ 6 ∷ [];
}

feed-Ends_example :
    Ends pairs
      (λ src. src)
      malloc
      count_down
      stream
      3
      no_context
      (feed pairs malloc count_down 6 3 no_context stream)
feed-Ends_example =
    feed-Ends pairs (λ src. src) malloc count_down pairs-Delivers count_down-size 6 3 no_context
      stream ((omega arith), (omega arith)) (omega arith) (omega arith)
