-- ===== src/Transfer/Wakeups.antt =====
-- The wakeups of `api_stream_transfer` of api/src/api_stream_common.c.
use libapi.Base.{◌+◌, ◌<◌, ◌≡◌, ◌≢◌, ◌⊎◌, [], true, false}
use libapi.Transfer.{reading, stopped, asleep, returned, World}

-- The writer that sleeps has a wakeup on its way, or there is nothing to do before the reader goes on.
abbrev Served : World → Type 0
Served w =
    (0 < w.posted)
    ⊎ ((w.transfer.buffers ≡ []) × (w.reader ≡ reading) × (w.transfer.read_done ≡ false))

record Calm (w : World) : Type 0 where
  count : w.posted + w.transfer.num_wakeup_done ≡ w.transfer.num_wakeup_req
  served : w.writer ≡ asleep → Served w
  ended : w.reader ≡ stopped → w.writer ≢ returned → w.transfer.read_done ≡ true
  alive : w.writer ≢ returned → w.transfer.write_done ≡ false
