-- ===== src/Http/Parse/Outcome.antt =====
-- What the loop of `http_request_parse` of http/src/http_parse.c comes to: what http_parser has seen then, and what
-- is left of the stream.
use libapi.Base.{ℕ, ◌<◌, ◌≡◌, ◌≢◌, ◌⊎◌, [], ◌++◌, true, false, Option, none, some, take}
use libapi.Stream.{Status, Stream, read}
use libapi.Stream.Content.{content}
use libapi.Http.Buffer.{Bytes, Malloc}
use libapi.Http.Request.{Context, run}
use libapi.Http.Parse.{Failure, parser_error, not_readable, Executed, Fed, Feeding, faulted, fed}

module _ {Parser Source : Type 0} (on_read : Source → Status → ℕ → Bytes × Status × Source)
    (left : Source → Bytes) (malloc : Malloc) (execute : Parser → Bytes → Executed Parser) where
  -- http_parser has seen consecutive pieces, up to the given failure, and has taken the bytes `used` of them: each
  -- piece is taken whole but for the one in which the headers end.
  pub data Seen : Option Failure → Parser → Context → Bytes → Parser → Context → Type 0 where
    last :
        (p : Parser) (c c' : Context) (d : Bytes)
        → d ≢ []
        → (execute p d).errno ≡ 0
        → run malloc c (execute p d).events ≡ some c'
        → c'.headers_done ≡ true
        → Seen none p c (take (execute p d).size d) (execute p d).parser c'
    erred :
        (p : Parser) (c c' : Context) (d : Bytes)
        → d ≢ []
        → 0 < (execute p d).errno
        → run malloc c (execute p d).events ≡ some c'
        → Seen (some (parser_error (execute p d).errno)) p c d (execute p d).parser c'
    ended_early : (p : Parser) (c : Context) → Seen (some not_readable) p c [] p c
    more :
        (o : Option Failure) (p : Parser) (c c' : Context) (d used : Bytes) (q : Parser)
        (e : Context)
        → d ≢ []
        → (execute p d).errno ≡ 0
        → run malloc c (execute p d).events ≡ some c'
        → c'.headers_done ≡ false
        → Seen o (execute p d).parser c' used q e
        → Seen o p c (d ++ used) q e

  -- What the loop promises with an answer.
  pub record Good (s : Stream Source) (p : Parser) (c : Context) (f : Fed Parser Source)
      : Type 0 where
    pub used : Bytes
    pub split : used ++ content on_read left f.stream ≡ content on_read left s
    pub seen : Seen f.failure p c used f.parser f.context
    pub unreadable :
        f.failure ≡ some not_readable
        → (s1 : Stream Source) × (read on_read s1 1024 ≡ some ([], f.stream))

  -- The calls that http_parser makes for the last of consecutive pieces `used` fault, and it has seen those before
  -- it without an error.
  pub data Broken : Parser → Context → Bytes → Type 0 where
    now :
        (p : Parser) (c : Context) (d : Bytes)
        → d ≢ []
        → run malloc c (execute p d).events ≡ none
        → Broken p c d
    later :
        (p : Parser) (c c' : Context) (d used : Bytes)
        → d ≢ []
        → (execute p d).errno ≡ 0
        → run malloc c (execute p d).events ≡ some c'
        → c'.headers_done ≡ false
        → Broken (execute p d).parser c' used
        → Broken p c (d ++ used)

  -- What the loop promises with a fault: it is one of the callbacks, at what the stream had first.
  pub record Crashed (s : Stream Source) (p : Parser) (c : Context) : Type 0 where
    pub used : Bytes
    pub rest : Bytes
    pub split : used ++ rest ≡ content on_read left s
    pub broken : Broken p c used

  -- The loop ends in a callback that faults, or with an answer.
  abbrev pub Ends : Stream Source → Parser → Context → Feeding Parser Source → Type 0
  Ends s p c r =
      ((r ≡ faulted) × Crashed s p c) ⊎ ((f : Fed Parser Source) × (r ≡ fed f) × Good s p c f)
