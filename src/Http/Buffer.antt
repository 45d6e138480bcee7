-- ===== src/Http/Buffer.antt =====
-- The text buffer of http/src/http_parse.c: `buffer_t`, `concat` and `str_ndup`, over blocks
-- of bytes whose writes are checked against their bounds.
pub mod Write
pub mod Concat
pub mod Copy
use libapi.Base.{
  ℕ, zero, suc, ◌+◌, ◌*◌, ◌%◌, ◌≡◌, List, [], ◌∷◌, ◌++◌, Option, none, some, ◌==◌, leb,
  if◌then◌else◌, length, take, drop, replicate, add64, sub64, u64_mod,
}
use libapi.Base.Fallible.{◌>>=◌}

abbrev pub Bytes : Type 0
Bytes = List ℕ

-- A store of `bs` at `b + off`; `none` is a write out of bounds.
unfoldable pub write_at : Bytes → ℕ → Bytes → Option Bytes
write_at b off bs =
    if leb (off + length bs) (length b)
    then some (take off b ++ (bs ++ drop (off + length bs) b))
    else none

-- The C string at the start of `s`, without its terminator.
unfoldable pub c_string : Bytes → Bytes
c_string [] = []
c_string (c ∷ s) = if c == 0 then [] else c ∷ c_string s

-- What `strcpy` copies; `none` is a source with no terminator.
unfoldable pub strcpy_bytes : Bytes → Option Bytes
strcpy_bytes [] = none
strcpy_bytes (c ∷ s) =
    let rest = strcpy_bytes s in if c == 0 then some (0 ∷ []) else (rest >>= λ r. some (c ∷ r))

-- The `n` bytes that `strncpy(_, s, n)` writes: the string, then zeros.
unfoldable pub strncpy_bytes : Bytes → ℕ → Bytes
strncpy_bytes s zero = []
strncpy_bytes [] (suc n) = 0 ∷ strncpy_bytes [] n
strncpy_bytes (c ∷ s) (suc n) =
    let rest = strncpy_bytes s n in if c == 0 then 0 ∷ replicate n 0 else c ∷ rest

-- `buffer_t`; a null `data` is `none`.
pub record Buffer : Type 0 where
  pub text : Option Bytes
  pub used : ℕ
  pub alloc : ℕ

-- What `ctx->buffer.alloc = 0; ctx->buffer.used = 0; ctx->buffer.data = 0` leaves.
abbrev pub empty : Buffer
empty = record { text = none; used = 0; alloc = 0 }

-- What an allocator returns for a size: a block of junk, or null.
abbrev pub Malloc : Type 0
Malloc = ℕ → Option Bytes

-- The three cases of `concat`. `none` is a store through null or out of bounds.
concat_new : Malloc → Bytes → ℕ → Option Buffer
concat_new malloc at len = do
  d ← malloc (add64 len 1)
  d ← write_at d 0 (strncpy_bytes at len)
  d ← write_at d len (0 ∷ [])
  some (record { text = some d; used = len; alloc = add64 len 1 })

concat_in_place : Bytes → ℕ → ℕ → Bytes → ℕ → Option Buffer
concat_in_place d used alloc at len = do
  d ← write_at d used (strncpy_bytes at len)
  d ← write_at d (add64 used len) (0 ∷ [])
  some (record { text = some d; used = add64 used len; alloc = alloc })

concat_grow : Malloc → Bytes → ℕ → Bytes → ℕ → Option Buffer
concat_grow malloc d used at len = do
  let alloc = add64 used (2 * len % u64_mod)
  buf ← malloc alloc
  old ← strcpy_bytes d
  buf ← write_at buf 0 old
  buf ← write_at buf used (strncpy_bytes at len)
  buf ← write_at buf (add64 used len) (0 ∷ [])
  some (record { text = some buf; used = add64 used len; alloc = alloc })

concat_text : Malloc → Option Bytes → ℕ → ℕ → Bytes → ℕ → Option Buffer
unfolding concat_new concat_in_place concat_grow
concat_text malloc none used alloc at len = concat_new malloc at len
concat_text malloc (some d) used alloc at len =
    if leb len (sub64 (sub64 alloc used) 1)
    then concat_in_place d used alloc at len
    else concat_grow malloc d used at len

pub concat : Malloc → Buffer → Bytes → ℕ → Option Buffer
unfolding concat_text
concat malloc b at len = concat_text malloc b.text b.used b.alloc at len

-- The loop of `str_ndup`: how many of the first `n` bytes come before a null character.
str_ndup_length : Bytes → ℕ → ℕ
str_ndup_length s zero = 0
str_ndup_length [] (suc n) = 0
str_ndup_length (c ∷ s) (suc n) = let rest = str_ndup_length s n in if c == 0 then 0 else suc rest

copy_text : Bytes → Bytes → ℕ → Option Bytes
copy_text r s m = do r ← write_at r 0 (strncpy_bytes s m); write_at r m (0 ∷ [])

-- The outer `none` is a fault; the inner one is a null result.
pub str_ndup : Malloc → Option Bytes → ℕ → Option (Option Bytes)
unfolding str_ndup_length copy_text
str_ndup malloc none n = some none
str_ndup malloc (some s) n =
    let m = str_ndup_length s n in
    elim (malloc (add64 1 m)) [ none ↦ some none | some r ↦ copy_text r s m >>= λ d. some (some d) ]
