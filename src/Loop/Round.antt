-- ===== src/Loop/Round.antt =====
-- `api_loop_run_internal` of api/src/unix/api_loop.c: the rounds of a loop, in each of which it runs
-- out sleeps, waits in epoll_wait, gives the events to their processors, and runs out idles and
-- timeouts.
pub mod Clock
use libapi.Base.{
  ℕ, zero, suc, ◌%◌, ◌^◌, List, [], ◌∷◌, Bool, true, false, ◌||◌, Option, none, some, ◌==◌, ltb,
  if◌then◌else◌, sub64,
}
use libapi.Base.Fallible.{◌>>=◌}
use libapi.Memory.{Ptr}
use libapi.Timers.{Timers, sleep_timer, idle_timer, timeout_timer}
use libapi.Timers.Process.{process, terminate}
use libapi.Timers.Timeout.{calculate_wait_timeout}

-- The part of `api_loop_base_t` that the rounds work on.
pub record Base : Type 0 where
  pub sleeps : Timers
  pub idles : Timers
  pub timeouts : Timers
  pub now : ℕ
  pub last_activity : ℕ

-- What `epoll_wait` answers: -1 with `errno`, or the events, as the addresses of their `os_linux_t`.
pub data Polled : Type 0 where
  fails : ℕ → Polled
  ready : List Ptr → Polled

-- `clock` is `api_time_current`, `poll` is `epoll_wait`, given the timeout as an `int`, and `processor` what
-- the processor of an event does, with the tasks that it wakes. Woken by a timer, tasks do `wakeup` to the
-- timers of its kind, and `settle` is what they have done to the rest of the loop.
module _ (clock : Base → ℕ) (poll : ℕ → Base → Polled) (processor : Ptr → Base → Base)
    (wakeup : Ptr → Timers → Timers) (settle : Base → Base) (depth : ℕ) (phantom : Ptr) where
  -- `loop->base.now = api_time_current()`, and with it `last_activity`.
  unfoldable pub look : Base → Base
  look b = record b { now = clock b }

  unfoldable pub active : Base → Base
  active b = record b { now = clock b; last_activity = clock b }

  unfoldable pub settled : ℕ → Base → Base
  unfolding active
  settled count b = if ltb 0 count then active (settle b) else b

  unfoldable pub process_sleeps : Base → Option Base
  unfolding settled
  process_sleeps b = process wakeup depth phantom b.sleeps sleep_timer b.now >>= λ r.
      some (settled r.1 (record b { sleeps = r.0 }))

  unfoldable pub process_idles : Base → Option Base
  unfolding settled
  process_idles b =
      process wakeup depth phantom b.idles idle_timer (sub64 b.now b.last_activity) >>= λ r.
      some (settled r.1 (record b { idles = r.0 }))

  unfoldable pub process_timeouts : Base → Option Base
  process_timeouts b =
      process wakeup depth phantom b.timeouts timeout_timer (sub64 b.now b.last_activity) >>= λ r.
      let b' = record b { timeouts = r.0 } in some (if ltb 0 r.1 then settle b' else b')

  -- The processors of the events, one after the other.
  unfoldable pub dispatch : List Ptr → Base → Base
  unfolding active
  dispatch [] b = b
  dispatch (e ∷ es) b = dispatch es (active (processor e b))

  unfoldable pub handle_events : List Ptr → Base → Option Base
  unfolding dispatch process_idles
  handle_events [] b = process_idles b
  handle_events (e ∷ es) b = some (dispatch (e ∷ es) b)

  abbrev ebadf : ℕ
  ebadf = 9

  abbrev einval : ℕ
  einval = 22

  -- The rest of a round; `false` where the loop breaks.
  unfoldable pub after_wait : Polled → Base → Option (Bool × Base)
  unfolding handle_events process_timeouts
  after_wait (fails e) b = if e == ebadf || e == einval then some (false, b) else some (true, b)
  after_wait (ready events) b =
      handle_events events b >>= λ b1. process_timeouts b1 >>= λ b2. some (true, b2)

  unfoldable pub round : Base → Option (Bool × Base)
  unfolding process_sleeps look after_wait
  round b = process_sleeps b >>= λ b1.
      calculate_wait_timeout depth b1.sleeps b1.idles b1.timeouts b1.now >>= λ t.
      after_wait (poll (t % 2 ^ 32) b1) (look b1)

  -- The rounds up to the `break`, on fuel.
  unfoldable pub rounds : ℕ → Base → Option Base
  unfolding round
  rounds zero b = none
  rounds (suc fuel) b = round b >>= λ r. elim (r.0) [ true ↦ rounds fuel r.1 | false ↦ some r.1 ]

  -- The timers' part of `api_loop_cleanup`.
  unfoldable pub cleanup : Base → Option Base
  cleanup b = do
    idles ← terminate wakeup depth phantom b.idles
    sleeps ← terminate wakeup depth phantom b.sleeps
    timeouts ← terminate wakeup depth phantom b.timeouts
    some (record b { idles = idles; sleeps = sleeps; timeouts = timeouts })

  -- `api_loop_run_internal`
  unfoldable pub run : ℕ → Base → Option Base
  unfolding active rounds cleanup
  run fuel b = rounds fuel (active b) >>= cleanup
