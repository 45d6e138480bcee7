-- ===== src/Stream.antt =====
-- api/src/unix/api_stream.c and api/src/api_stream_common.c: reading from a stream, from what was
-- put back first and then through its filters. A filter's `on_read` is a parameter: it gives bytes
-- and may change the status. Allocation from the loop's pool is taken to succeed.
pub mod Content
pub mod Exact
mod Tests
use libapi.Base.{
  ℕ, zero, suc, ◌≡◌, List, [], ◌∷◌, ◌++◌, Bool, true, false, not, ◌||◌, Option, none, some, ◌==◌,
  ltb, leb, ◌+◌, if◌then◌else◌, length, take, drop, add64, sub64,
}
use libapi.Base.Fallible.{◌>>=◌}

abbrev pub Bytes : Type 0
Bytes = List ℕ

-- `api_stream_t.status`; no error is 0.
pub record Status : Type 0 where
  pub read_timeout : Bool
  pub write_timeout : Bool
  pub eof : Bool
  pub error : ℕ
  pub closed : Bool
  pub peer_closed : Bool
  pub terminated : Bool

-- `api_stream_t.unread`
pub record Unread : Type 0 where
  pub buffer : Bytes
  pub offset : ℕ
  pub length : ℕ

-- A stream with what its filters read from, and whether its loop has been terminated.
pub record Stream (Source : Type 0) : Type 0 where
  pub status : Status
  pub unread : Unread
  pub loop_terminated : Bool
  pub source : Source

-- What `memcpy` copies from a block; `none` is a read out of bounds.
unfoldable pub copy_of : Bytes → ℕ → ℕ → Option Bytes
copy_of b off n = if leb (off + n) (length b) then some (take n (drop off b)) else none

-- No read is tried on a stream in one of these states.
unfoldable pub failed : Status → Bool
failed s =
    s.read_timeout || s.eof || not (s.error == 0) || s.closed || s.peer_closed || s.terminated

-- What is left of the bytes that were put back.
unfoldable pub take_unread : Unread → ℕ → Option (Bytes × Unread)
unfolding copy_of
take_unread u n =
    if leb u.length n
    then (do d ← copy_of u.buffer u.offset u.length; some (d, record u { length = 0 }))
    else (do
      d ← copy_of u.buffer u.offset n
      some (d, record u { offset = add64 u.offset n; length = sub64 u.length n }))

module _ {Source : Type 0} where
  unfoldable pub unread : Stream Source → Bytes → ℕ → Option (Stream Source)
  unfolding copy_of
  unread s bs n = if n == 0 then some s else (do
    d ← copy_of bs 0 n
    some (record s { unread = record { buffer = d; offset = 0; length = n } }))

module _ {Source : Type 0} (on_read : Source → Status → ℕ → Bytes × Status × Source) where
  -- `filter_head->on_read`
  unfoldable pub read_filters : Stream Source → ℕ → Bytes × Stream Source
  read_filters s n =
      let (d, st, src) = on_read s.source s.status n in (d, record s { status = st; source = src })

  -- The bytes read are those in the caller's buffer.
  unfoldable pub read : Stream Source → ℕ → Option (Bytes × Stream Source)
  unfolding failed take_unread read_filters
  read s n =
      if n == 0
      then some ([], s)
      else if failed s.status
      then some ([], s)
      else if s.loop_terminated
      then some ([], record s { status = record (s.status) { terminated = true } })
      else if ltb 0 s.unread.length
      then (take_unread s.unread n >>= λ r. some (r.0, record s { unread = r.1 }))
      else some (read_filters s n)

  -- The loop of `api_stream_read_exact`, on fuel, with the bytes that were read so far.
  unfoldable pub read_loop : ℕ → Stream Source → ℕ → ℕ → Bytes → Option (ℕ × Bytes × Stream Source)
  unfolding read
  read_loop zero s n offset got = none
  read_loop (suc fuel) s n offset got =
      if ltb offset n
      then (read s (sub64 n offset) >>= λ r. elim (r.0) [
        | [] ↦ some (offset, got, r.1)
        | c ∷ d ↦ read_loop fuel (r.1) n (add64 offset (length (c ∷ d))) (got ++ c ∷ d)
      ])
      else some (offset, got, s)

  unfoldable pub read_exact : Stream Source → ℕ → Option (ℕ × Bytes × Stream Source)
  unfolding read_loop
  read_exact s n = read_loop (suc n) s n 0 []
