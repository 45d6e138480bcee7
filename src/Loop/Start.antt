-- ===== src/Loop/Start.antt =====
-- api/src/unix/api_loop.c and `api_async_init` of api/src/unix/api_async.c: how a loop comes to be, up
-- to where it runs, and what it holds: descriptors and blocks of memory. What the system calls answer
-- is given to the functions.
pub mod Failures
use libapi.Base.{ℕ, ◌-◌, ◌^◌, ◌%◌, List, [], ◌∷◌, Bool, true, false, not, ◌==◌, leb, if◌then◌else◌}
use libapi.Memory.{Ptr, null}
use libapi.Errno.{api_ok, translate}

-- What a call that makes a descriptor answers: the descriptor, or -1 with `errno`.
pub data Answer : Type 0 where
  gives fails : ℕ → Answer

-- What the process holds.
pub record Held : Type 0 where
  pub descriptors : List ℕ
  pub blocks : List Ptr

abbrev pub opened : ℕ → Held → Held
opened fd h = record h { descriptors = fd ∷ h.descriptors }

unfoldable pub without : ℕ → List ℕ → List ℕ
without x [] = []
without x (y ∷ ys) = let rest = y ∷ without x ys in if x == y then ys else rest

-- `api_close`, where it closes the descriptor.
unfoldable pub close : ℕ → Held → Held
unfolding without
close fd h = record h { descriptors = without fd h.descriptors }

-- `free`
unfoldable pub free : Ptr → Held → Held
unfolding without
free p h = record h { blocks = without p h.blocks }

-- The system's answers while a loop starts: `ctl` is the error of `epoll_ctl`, `thread` tells whether
-- `pthread_create` fails, and `left` is `errno` when it has failed; 0 is no error.
pub record Answers : Type 0 where
  pub memory : Ptr
  pub epoll : Answer
  pub eventfd : Answer
  pub ctl : ℕ
  pub thread_fails : Bool
  pub left : ℕ

-- `api_async_init`: the eventfd of the loop, and its result.
unfoldable pub async_init : Answer → ℕ → Held → ℕ × Held
unfolding close
async_init (fails e) ctl h = (translate e, h)
async_init (gives fd) ctl h =
    if ctl == 0 then (api_ok, opened fd h) else (translate ctl, close fd (opened fd h))

-- `api_loop_init`; what it clears and sets holds nothing.
abbrev pub loop_init : Answers → Held → ℕ × Held
loop_init a h = async_init a.eventfd a.ctl h

abbrev pub no_memory : ℕ
no_memory = 12

-- `api_async_terminate` closes the eventfd; the rest of `api_loop_cleanup` holds neither descriptors nor
-- blocks of the loop.
unfoldable pub loop_cleanup : Answer → Held → Held
unfolding close
loop_cleanup (fails e) h = h
loop_cleanup (gives fd) h = close fd h

-- `api_loop_start` once it has an epoll descriptor.
unfoldable pub start_with : Answers → ℕ → Held → ℕ × Ptr × Held
unfolding async_init close free loop_cleanup
start_with a ep h =
    let init = loop_init a h in
    if not (init.0 == api_ok)
    then (init.0, null, free a.memory (close ep (init.1)))
    else if a.thread_fails
    then (translate a.left, null, free a.memory (close ep (loop_cleanup a.eventfd (init.1))))
    else (api_ok, a.memory, init.1)

-- With the answer to its `epoll_create1`.
unfoldable pub start_from : Answers → Answer → Held → ℕ × Ptr × Held
unfolding start_with free
start_from a (fails e) h = (translate e, null, free a.memory h)
start_from a (gives ep) h = start_with a ep (opened ep h)

-- `api_loop_start`: its result, `*loop`, and what is held then.
unfoldable pub start : Answers → Held → ℕ × Ptr × Held
unfolding start_from
start a h =
    if a.memory == null
    then (no_memory, null, h)
    else start_from a a.epoll (record h { blocks = a.memory ∷ h.blocks })

-- The system's answers while `api_loop_run` starts: those of above, the memory for the message of a post,
-- and the error of its `eventfd_write`.
pub record RunAnswers : Type 0 where
  pub answers : Answers
  pub message : Ptr
  pub write : ℕ

pub data Begun : Type 0 where
  runs : Begun
  returns : ℕ → Begun

-- Below 0 as an `int`.
abbrev pub negative : ℕ → Bool
negative e = leb (2 ^ 31) (e % 2 ^ 32)

-- `api_loop_post` of the callback of `api_loop_run`, as far as it holds something.
unfoldable pub first_post : RunAnswers → Held → ℕ × Held
first_post a h = if a.message == null then (no_memory, h) else (
  if a.write == 0 then api_ok else translate a.write,
  record h { blocks = a.message ∷ h.blocks },
)

-- `api_loop_run` once it has an epoll descriptor, up to `api_loop_run_internal`.
unfoldable pub run_with : RunAnswers → ℕ → Ptr → Held → Begun × Held
unfolding async_init close first_post
run_with a ep callback h =
    let init = loop_init a.answers h in
    if negative init.0
    then (returns init.0, close ep init.1)
    else if callback == null
    then (runs, init.1)
    else (let post = first_post a init.1 in
        if not (api_ok == post.0) then (returns post.0, close ep post.1) else (runs, post.1))

unfoldable pub run_from : RunAnswers → Answer → Ptr → Held → Begun × Held
unfolding run_with
run_from a (fails e) callback h = (returns (translate e), h)
run_from a (gives ep) callback h = run_with a ep callback (opened ep h)

-- `api_loop_run`, whose loop is a local, so that it holds no block for it.
unfoldable pub run : RunAnswers → Ptr → Held → Begun × Held
unfolding run_from
run a callback h = run_from a a.answers.epoll callback h
