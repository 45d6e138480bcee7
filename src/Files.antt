-- ===== src/Files.antt =====
-- api/src/unix/api_fs.c: files by their paths; and api/src/api_pool.c, which hands on to `malloc` and `free`.
-- What the system answers is an argument.
use libapi.Base.{
  ℕ, zero, suc, ◌≡◌, ◌≢◌, refl, List, [], ◌∷◌, Option, none, some, ◌==◌, if◌then◌else◌, ne→not_==,
}
use libapi.Memory.{Ptr, null}
use libapi.Errno.{api_ok, translate, translate_lem}
use libapi.Loop.Start.{Answer, gives, fails, Held, opened, close, free}
use libapi.Loop.Start.Failures.{close-opened, allocated, free-allocated}

data OpenFlag : Type 0 where
  o_creat o_wronly o_trunc o_append o_rdwr o_nonblock : OpenFlag

-- With the answer to `open`: the result, the descriptor of the stream where it is set up, and what the
-- process holds then.
abbrev stream_of : Answer → Held → ℕ × Option ℕ × Held
stream_of (fails e) h = (translate e, none, h)
stream_of (gives fd) h = (api_ok, some fd, opened fd h)

-- `api_fs_create`
unfoldable create : (List OpenFlag → Answer) → Held → ℕ × Option ℕ × Held
create opens h = stream_of (opens (o_creat ∷ o_wronly ∷ o_trunc ∷ o_nonblock ∷ [])) h

-- `api_fs_open`
unfoldable open_file : (List OpenFlag → Answer) → Held → ℕ × Option ℕ × Held
open_file opens h = stream_of (opens (o_append ∷ o_rdwr ∷ o_nonblock ∷ [])) h

-- `api_stat_t`
record Stat : Type 0 where
  size : ℕ
  date_create : ℕ
  date_access : ℕ
  date_modified : ℕ

-- `api_fs_stat`: what `stat` fills in, if it succeeds, and what the local of the call had before.
unfoldable stat : Option Stat → Stat → ℕ × Stat
stat none garbage = (api_ok, garbage)
stat (some s) garbage = (api_ok, s)

-- `api_alloc`, with the answer of `malloc`.
unfoldable alloc : Ptr → Held → Ptr × Held
alloc p h = if p == null then (null, h) else (p, record h { blocks = p ∷ h.blocks })

-- `api_calloc`: clearing a block that is not there faults, unless it is of no bytes.
unfoldable calloc : ℕ → Ptr → Held → Option (Ptr × Held)
unfolding alloc
calloc zero p h = some (alloc p h)
calloc (suc size) p h = if p == null then none else some (alloc p h)

-- `api_free`
unfoldable give_back : ℕ → Ptr → Held → Held
unfolding free
give_back zero p h = h
give_back (suc size) p h = if p == null then h else free p h

-- A stream is set up where `open` succeeds and nowhere else, and closing its descriptor gives back all that
-- the process took.
open_file-close :
    (opens : List OpenFlag → Answer) (h : Held) (fd : ℕ)
    → opens (o_append ∷ o_rdwr ∷ o_nonblock ∷ []) ≡ gives fd
    → (open_file opens h ≡ (api_ok, some fd, opened fd h)) × (close fd (opened fd h) ≡ h)
unfolding open_file
open_file-close opens h fd e = (rw e refl, close-opened fd h)

create-fails :
    (opens : List OpenFlag → Answer) (h : Held) (e : ℕ)
    → opens (o_creat ∷ o_wronly ∷ o_trunc ∷ o_nonblock ∷ []) ≡ fails e
    → create opens h ≡ (e, none, h)
unfolding create
create-fails opens h e r = rw (r, translate_lem e) refl

-- A block that was taken and given back with its size is gone; with size 0 it stays.
calloc-give_back :
    (size : ℕ) (p : Ptr) (h : Held)
    → p ≢ null
    → (calloc (suc size) p h ≡ some (p, allocated p h))
      × (give_back (suc size) p (allocated p h) ≡ h)
      × (give_back 0 p (allocated p h) ≡ allocated p h)
unfolding calloc alloc give_back
calloc-give_back size p h n =
    (rw (ne→not_== p null n) refl, rw (ne→not_== p null n) (free-allocated p h), refl)
