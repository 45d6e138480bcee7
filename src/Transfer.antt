-- ===== src/Transfer.antt =====
-- api/src/api_stream_common.c: `api_stream_transfer`, in which a task reads chunks from one stream
-- and another one writes them to a second stream. Tasks of a loop run in turn and change over only
-- where they wait: in a read, in a write, or for a wakeup. A step is what one of them does between
-- two waits. What a read gives and how much a write takes is up to the streams.
pub mod Order
pub mod Wakeups
pub mod Stuck
pub mod Disturbed
mod Tests
use libapi.Base.{
  ℕ, suc, ◌+◌, ◌-◌, ◌<◌, ◌≡◌, ◌≢◌, List, [], ◌∷◌, ◌++◌, Bool, true, false, ◌&&◌, ◌==◌,
  if◌then◌else◌, length,
}

abbrev pub Bytes : Type 0
Bytes = List ℕ

-- `api_transfer_t`; a buffer is the bytes that it holds.
pub record Transfer : Type 0 where
  pub buffers : List Bytes
  pub read_done : Bool
  pub write_done : Bool
  pub num_wakeup_req : ℕ
  pub num_wakeup_done : ℕ

-- Whether the reader waits in a read.
pub data Reader : Type 0 where
  reading stopped : Reader

-- Where the writer waits: for a wakeup, or in the write of a chunk. Then `api_stream_transfer` has
-- returned.
pub data Writer : Type 0 where
  asleep : Writer
  writing : Bytes → Writer
  returned : Writer

-- `posted` counts the wakeups that are on their way through the loop. `taken` and `given` list the
-- chunks that were read and those that were handed to a write.
pub record World : Type 0 where
  pub transfer : Transfer
  pub reader : Reader
  pub writer : Writer
  pub posted : ℕ
  pub total : ℕ
  pub wrote : ℕ
  pub taken : List Bytes
  pub given : List Bytes

-- The wakeup that the reader sends if the last one has been answered.
unfoldable pub wake_writer : World → World
wake_writer w =
    if w.transfer.num_wakeup_done == w.transfer.num_wakeup_req
    then record w {
      posted = suc w.posted;
      transfer = record (w.transfer) { num_wakeup_req = suc w.transfer.num_wakeup_req };
    }
    else w

-- A read gave bytes: the loop of `api_transfer_reader` ends if the writer has failed.
unfoldable pub has_read : Bytes → World → World
has_read b w =
    let w' = record w {
      transfer = record (w.transfer) { buffers = w.transfer.buffers ++ b ∷ [] };
      taken = w.taken ++ b ∷ [];
    } in
    if w.transfer.write_done then wake_writer (record w' { reader = stopped }) else wake_writer w'

-- A read gave nothing.
unfoldable pub has_ended : World → World
has_ended w =
    wake_writer (record w { reader = stopped; transfer = record (w.transfer) { read_done = true } })

abbrev no_buffers : List Bytes → Bool
no_buffers [] = true
no_buffers (b ∷ bs) = false

-- After the inner loop of `api_stream_transfer` has found no more buffers.
unfoldable pub end_round : World → World
end_round w = record w {
  total = w.total + w.wrote;
  writer = if w.transfer.read_done && no_buffers w.transfer.buffers then returned else asleep;
}

-- What follows `api_list_pop_head` on the chunks that wait: the write of the first one.
unfoldable pub next_of : List Bytes → World → World
next_of [] w = end_round w
next_of (b ∷ bs) w = record w {
  transfer = record (w.transfer) { buffers = bs };
  writer = writing b;
  given = w.given ++ b ∷ [];
}

unfoldable pub next_buffer : World → World
next_buffer w = next_of w.transfer.buffers w

-- A wakeup reaches the writer where it sleeps for one.
unfoldable pub has_woken : World → World
has_woken w = next_buffer (record w {
  posted = w.posted - 1;
  transfer = record (w.transfer) { num_wakeup_done = suc w.transfer.num_wakeup_done };
})

-- A write has taken `n` bytes of a chunk; the buffers that are left after a failure are freed.
unfoldable pub has_written : Bytes → ℕ → World → World
has_written b n w = if length b == n then next_buffer (record w { wrote = n }) else record w {
  wrote = n;
  writer = returned;
  transfer = record (w.transfer) { write_done = true; buffers = [] };
}

-- A step of a task. When `api_stream_transfer` has returned its `transfer` is gone, and so a step of
-- the reader would be a fault.
pub data Move : World → World → Type 0 where
  reads :
      {w : World} (b : Bytes)
      → b ≢ []
      → w.reader ≡ reading
      → w.writer ≢ returned
      → Move w (has_read b w)
  ends : {w : World} → w.reader ≡ reading → w.writer ≢ returned → Move w (has_ended w)
  wakes : {w : World} → w.writer ≡ asleep → 0 < w.posted → Move w (has_woken w)
  writes : {w : World} (b : Bytes) (n : ℕ) → w.writer ≡ writing b → Move w (has_written b n w)

-- A wakeup that reaches the writer while it waits in a write ends the wait there, and the write
-- goes on waiting, as the one of a socket does.
unfoldable pub disturbed : World → World
disturbed w = record w { posted = w.posted - 1 }

pub data Step : World → World → Type 0 where
  moves : {w v : World} → Move w v → Step w v
  disturbs : {w : World} (b : Bytes) → w.writer ≡ writing b → 0 < w.posted → Step w (disturbed w)

-- The reader has been posted and waits in its first read, and the writer sleeps.
abbrev pub initial : World
initial = record {
  transfer = record {
    buffers = [];
    read_done = false;
    write_done = false;
    num_wakeup_req = 0;
    num_wakeup_done = 0;
  };
  reader = reading;
  writer = asleep;
  posted = 0;
  total = 0;
  wrote = 0;
  taken = [];
  given = [];
}

pub data Star (R : World → World → Type 0) (v : World) : World → Type 0 where
  here : Star R v v
  then_step : {w u : World} → Star R v w → R w u → Star R v u
