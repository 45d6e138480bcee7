-- ===== src/Loop/Round/Clock.antt =====
-- The times by which `api_loop_run_internal` of api/src/unix/api_loop.c runs out idles and timeouts.
use libapi.Base.{
  ℕ, ◌+◌, ◌^◌, ◌%◌, if◌then◌else◌, ◌≤◌, ◌<◌, ◌≡◌, refl, ap, ◌∙◌, List, [], ◌∷◌, true, false, some,
  ltb, arith, sub64, u64_mod,
}
use libapi.Memory.{Ptr}
use libapi.Timers.{Timers, idle_timer, timeout_timer}
use libapi.Timers.Process.{due, process}
use libapi.Timers.Timeout.{calculate_wait_timeout}
use libapi.Timers.Idle.{Reached, process-idle}
use libapi.Loop.Round.{
  Base, Polled, ready, look, dispatch, handle_events, process_sleeps, process_timeouts, after_wait,
  round,
}
use libapi.Base.Fallible.{◌>>=◌}

-- The time since the last activity, as the loop computes it.
abbrev pub idle_time : Base → ℕ
idle_time b = sub64 b.now b.last_activity

no_time : (a b : ℕ) → a ≡ b → b < u64_mod → sub64 a b ≡ 0
no_time a b e h = rw e (omega arith)

never_due : (issued period : ℕ) → 0 < period → due timeout_timer 0 issued period ≡ false
unfolding due
never_due issued period h = ground arith

module _ (clock : Base → ℕ) (poll : ℕ → Base → Polled) (processor : Ptr → Base → Base)
    (wakeup : Ptr → Timers → Timers) (settle : Base → Base) (depth : ℕ) (phantom : Ptr) where
  abbrev dispatched : List Ptr → Base → Base
  dispatched es b = dispatch clock poll processor wakeup settle depth phantom es b

  -- The timeouts are not being processed.
  abbrev pub unmarked : Base → Base
  unmarked b = record b { timeouts = record (b.timeouts) { processing = false } }

  -- After an event the loop counts the time from now.
  dispatch-active :
      (es : List Ptr) (b : Base)
      → b.now ≡ b.last_activity
      → (dispatched es b).now ≡ (dispatched es b).last_activity
  unfolding dispatch
  dispatch-active [] b e = e
  dispatch-active (p ∷ es) b e = dispatch-active es _ refl

  after_events :
      (p : Ptr) (es : List Ptr) (b : Base)
      → (dispatched (p ∷ es) b).now ≡ (dispatched (p ∷ es) b).last_activity
  unfolding dispatch
  after_events p es b = dispatch-active es _ refl

  -- After an event the round runs out the timeouts by no time.
  timeouts_wait :
      (p : Ptr) (es : List Ptr) (b : Base)
      → (dispatched (p ∷ es) b).last_activity < u64_mod
      → Reached depth (dispatched (p ∷ es) b).timeouts
      → process_timeouts clock poll processor wakeup settle depth phantom (dispatched (p ∷ es) b)
        ≡ some (unmarked (dispatched (p ∷ es) b))
  unfolding process_timeouts
  timeouts_wait p es b small r =
      let d = dispatched (p ∷ es) b in
      let e = no_time _ _ (after_events p es b) small in
      ap
        (λ x. process wakeup depth phantom d.timeouts timeout_timer x >>= λ r.
          let b' = record d { timeouts = r.0 } in some (if ltb 0 r.1 then settle b' else b'))
        e
      ∙ rw (process-idle wakeup depth phantom timeout_timer 0 never_due d.timeouts r) refl

  -- A round in which an event came runs out no timeout, however long its timer has waited, and whatever the
  -- processors and the woken tasks do: after the processors of the events only the mark of the timeouts
  -- that they are being processed is reset, and the loop goes on. `b1` is what the sleeps of the round leave
  -- and `t` the time for which it waits. The lists of timeouts that the call comes to have timers and
  -- periods above 0, with fuel for all of them, and the clock is a number of 64 bits.
  pub busy-no_timeout :
      (b b1 : Base) (t : ℕ) (p : Ptr) (es : List Ptr)
      → process_sleeps clock poll processor wakeup settle depth phantom b ≡ some b1
      → calculate_wait_timeout depth b1.sleeps b1.idles b1.timeouts b1.now ≡ some t
      → poll (t % 2 ^ 32) b1 ≡ ready (p ∷ es)
      → (dispatched
          (p ∷ es)
          (look clock poll processor wakeup settle depth phantom b1)).last_activity
        < u64_mod
      → Reached depth
          (dispatched (p ∷ es) (look clock poll processor wakeup settle depth phantom b1)).timeouts
      → round clock poll processor wakeup settle depth phantom b
        ≡ some (
          true,
          unmarked (dispatched (p ∷ es) (look clock poll processor wakeup settle depth phantom b1)),
        )
  unfolding round after_wait handle_events
  busy-no_timeout b b1 t p es es1 et ep small r =
      let next = look clock poll processor wakeup settle depth phantom b1 in
      rw (es1, et, ep, timeouts_wait p es next small r) refl

  -- Where the clock has been set back behind the last activity, an idle time of less than 2^63 is over
  -- at once, because the difference wraps.
  pub look-back :
      (b : Base) (issued period : ℕ)
      → clock b < b.last_activity
      → b.last_activity < clock b + 2 ^ 63
      → b.last_activity < u64_mod
      → period ≤ 2 ^ 63
      → due idle_timer
          (idle_time (look clock poll processor wakeup settle depth phantom b))
          issued
          period
        ≡ true
  unfolding look due
  look-back b issued period h near small p =
      let long : period ≤ sub64 (clock b) b.last_activity = omega arith in ground arith
