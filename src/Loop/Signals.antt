-- ===== src/Loop/Signals.antt =====
-- api/src/unix/api_async.c: how a message reaches a loop. A thread puts it in the queue of Mpscq and
-- then writes to the eventfd of the loop; the loop, when its epoll_wait tells that the eventfd can be
-- read, reads it and then pops until the queue gives null. Threads and loop interleave step by step.
pub mod Stub
pub mod Draining
pub mod Delivery
use libapi.Base.{
  ℕ, suc, ◌-◌, ◌<◌, ◌≡◌, ◌≢◌, Bool, true, false, not, ◌==◌, has, drop, length, if◌then◌else◌,
  u64_max,
}
use libapi.Memory.{Ptr, null}
use libapi.Mpscq.{
  Links, Progress, goes_on, returns, pop_step, World, entered, linked, consumed, initial,
}

-- A loop's `asyncs` with the threads that post to it: `signals` is the counter of the eventfd,
-- `owing` the number of threads that have linked a message and not written to the eventfd yet, and
-- `draining` tells that the loop is in `api_async_processor`.
pub record Asyncs : Type 0 where
  pub line : World
  pub signals : ℕ
  pub owing : ℕ
  pub draining : Bool

-- The first half of `api_mpscq_push`.
unfoldable pub enters_queue : Ptr → Asyncs → Asyncs
enters_queue n w = record w { line = entered n w.line }

-- The second half, after which `eventfd_write` is next.
unfoldable pub links_queue : Ptr → Asyncs → Asyncs
links_queue prev w = record w { line = linked prev w.line; owing = suc w.owing }

-- `eventfd_write` of 1 fails, and adds nothing, only where the counter is as large as it can be.
unfoldable pub writes_signal : Asyncs → Asyncs
writes_signal w = record w {
  signals = if w.signals == u64_max - 1 then w.signals else suc w.signals;
  owing = w.owing - 1;
}

-- The start of `api_async_processor`: `eventfd_read` sets the counter back.
unfoldable pub reads_signal : Asyncs → Asyncs
reads_signal w = record w { signals = 0; draining = true }

abbrev pub gives_null : Progress → Bool
gives_null (goes_on at q) = false
gives_null (returns p q) = p == null

-- A step of a pop in the loop of `api_async_processor`, which ends where a pop gives null.
unfoldable pub pops_step : Ptr → Asyncs → Asyncs
pops_step stub w = record w {
  line = consumed stub w.line;
  draining = not (gives_null (pop_step stub w.line.place w.line.queue));
}

pub data Step (stub : Ptr) : Asyncs → Asyncs → Type 0 where
  enters :
      {w : Asyncs} (n : Ptr)
      → n ≢ null
      → n ≢ stub
      → has n (drop (length w.line.popped) w.line.pushed) ≡ false
      → Step stub w (enters_queue n w)
  links :
      {w : Asyncs} (prev : Ptr)
      → w.line.pending prev ≢ null
      → w.line.pending prev ≢ stub
      → Step stub w (links_queue prev w)
  signals : {w : Asyncs} → 0 < w.owing → Step stub w (writes_signal w)
  wakes : {w : Asyncs} → w.draining ≡ false → 0 < w.signals → Step stub w (reads_signal w)
  pops : {w : Asyncs} → w.draining ≡ true → Step stub w (pops_step stub w)

-- After `api_async_init`.
unfoldable pub started : Ptr → Links → Asyncs
started stub next = record { line = initial stub next; signals = 0; owing = 0; draining = false }

pub data Run (stub : Ptr) : Asyncs → Type 0 where
  new : (next : Links) → Run stub (started stub next)
  then_step : {w v : Asyncs} → Run stub w → Step stub w v → Run stub v
