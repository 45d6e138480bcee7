-- ===== src/Scheduler/Event.antt =====
-- api/src/unix/api_event.c: an event that one task waits for and another one signals.
use libapi.Base.{
  ℕ, ◌≡◌, ◌≢◌, refl, sym, ap, ◌∙◌, Bool, true, false, ◌&&◌, Option, none, some, ◌==◌, ltb,
  if◌then◌else◌, add64, ne→not_==,
}
use libapi.Base.Fallible.{◌>>=◌}
use libapi.Memory.{Ptr, null}
use libapi.Errno.{api_ok, etimedout, translate}
use libapi.Scheduler.{Task, Scheduler, sleep, wakeup, swap}
use libapi.Scheduler.Switch.{Live, swap-goes, at-some, not_ended}

-- `api_event_t`: `reserved` is the task that waits, or null.
pub record Event : Type 0 where
  pub value : ℕ
  pub reserved : Ptr

-- `api_event_signal`
unfoldable pub signal : Event → Scheduler → Option (Event × Scheduler)
unfolding wakeup
signal ev s =
    let raised = record ev { value = add64 ev.value 1 } in
    if ev.reserved == null
    then some (raised, s)
    else (wakeup ev.reserved s >>= λ s'. some (record raised { reserved = null }, s'))

-- `api_event_wait` up to where its task goes on; `none` for the first part tells that nothing waits. The
-- timer of a wait is one of Timers.
unfoldable pub begin_wait : Event → Scheduler → Option (Event × Scheduler)
unfolding sleep
begin_wait ev s =
    if ev.value == 0
    then (sleep s.current s >>= λ s'. some (record ev { reserved = s.current }, s'))
    else some (ev, s)

-- `api_event_wait` after its task has slept: it leaves no current task.
unfoldable pub end_wait : (timeout : ℕ) (elapsed : Bool) → Scheduler → ℕ × Scheduler
unfolding translate
end_wait timeout elapsed s =
    (if ltb 0 timeout && elapsed then translate etimedout else api_ok, record s { current = null })

reserved_some :
    (ev : Event) (s s' : Scheduler)
    → ev.reserved ≢ null
    → wakeup ev.reserved s ≡ some s'
    → signal ev s ≡ some (record ev { value = add64 ev.value 1; reserved = null }, s')
unfolding signal
reserved_some ev s s' h e =
    let raised : Event = record ev { value = add64 ev.value 1 } in
    ap
      (λ b.
        if b
        then some (raised, s)
        else (wakeup ev.reserved s >>= λ s'. some (record raised { reserved = null }, s')))
      (ne→not_== ev.reserved null h)
    ∙ ap (λ o. o >>= λ s'. some (record raised { reserved = null }, s')) e

wakeup-swaps : (p : Ptr) (t : Task) (s : Scheduler) → Live s p t → wakeup p s ≡ swap s.current p s
unfolding wakeup
wakeup-swaps p t s l = ap (λ o. o >>= λ t. swap s.current p s) (at-some s p t l.some_task l.found)

sleep-null : (s : Scheduler) → sleep null s ≡ none
unfolding sleep swap
sleep-null s = refl

-- A signal wakes the task that waits. When the wait has returned the loop has no current task, so that
-- the next operation that puts the current task to sleep follows a null pointer.
pub signal-no_current :
    (ev : Event) (m t : Task) (s : Scheduler) (timeout : ℕ)
    → Live s s.current m
    → Live s ev.reserved t
    → (s' : Scheduler) × (signal ev s
        ≡ some (record ev { value = add64 ev.value 1; reserved = null }, s'))
      × (s'.current ≡ ev.reserved)
      × (sleep ((end_wait timeout false s').1.current) ((end_wait timeout false s').1) ≡ none)
unfolding end_wait
signal-no_current ev m t s timeout me other =
    let (s', e, w) =
      swap-goes s.current ev.reserved m t s me.some_task other.some_task me.found
        (not_ended m me.going) other.found other.going in
    (
      s',
      reserved_some ev s s' other.some_task (wakeup-swaps ev.reserved t s other ∙ e),
      w.current,
      sleep-null _,
    )

sleep-swaps : (p : Ptr) (s : Scheduler) → sleep p s ≡ swap p s.main s
unfolding sleep
sleep-swaps p s = refl

-- A task other than the main one that signals an event does not go on when the task that it has woken
-- sleeps again: the main task does, though the signalling task is not done and waits for nothing.
pub signal-stranded :
    (ev : Event) (m t n : Task) (s : Scheduler)
    → s.current ≢ s.main
    → ev.reserved ≢ s.main
    → s.current ≢ ev.reserved
    → Live s s.current m
    → Live s ev.reserved t
    → Live s s.main n
    → (s' : Scheduler) × ((signal ev s >>= λ r. sleep ev.reserved (r.1)) ≡ some s')
      × (s'.current ≡ s.main)
      × (s'.tasks s.current ≡ some m)
      × (m.is_done ≡ false)
signal-stranded ev m t n s not_main other_not_main apart me other main =
    let (s1, e1, w1) =
      swap-goes s.current ev.reserved m t s me.some_task other.some_task me.found
        (not_ended m me.going) other.found other.going in
    let main_found : s1.tasks s.main ≡ some n =
      w1.others s.main (λ e. other_not_main (sym e)) ∙ main.found in
    let (s2, e2, w2) =
      swap-goes ev.reserved s.main (record t { started = true }) n s1 other.some_task main.some_task
        w1.entered (not_ended t other.going) main_found main.going in
    (
      s2,
      ap (λ o. o >>= λ r. sleep ev.reserved (r.1))
            (reserved_some ev s s1 other.some_task (wakeup-swaps ev.reserved t s other ∙ e1))
          ∙ sleep-swaps ev.reserved s1
          ∙ ap (λ p. swap ev.reserved p s1) w1.main
          ∙ e2,
      w2.current,
      w2.others s.current not_main ∙ w1.others s.current apart ∙ me.found,
      me.going,
    )
