-- ===== src/Loop/Windows/Rounds.antt =====
-- api/src/win/api_loop.c: the rounds of a loop of the port to Windows, and how it starts. What the system
-- calls answer is given to the functions.
use libapi.Base.{
  ℕ, ◌%◌, ◌^◌, ◌≡◌, ◌≢◌, refl, sym, ◌∙◌, ◌⊎◌, inl, inr, [], ◌∷◌, Bool, true, false, not, ◌&&◌, ◌||◌,
  Option, some, ◌==◌, if◌then◌else◌, Bool-cases, ne→not_==,
}
use libapi.Base.Fallible.{◌>>=◌}
use libapi.Memory.{Ptr, null}
use libapi.Errno.{api_ok}
use libapi.Timers.{Timers}
use libapi.Timers.Timeout.{calculate_wait_timeout}
use libapi.Loop.Start.{Answer, gives, fails, Held, opened, close, free, no_memory}
use libapi.Loop.Start.Failures.{released, allocated, free-allocated}
use libapi.Loop.Round.{Base, Polled, look, active, process_sleeps, process_idles, process_timeouts}

-- What `GetQueuedCompletionStatus` answers.
pub record Status : Type 0 where
  pub succeeds : Bool
  pub key : Ptr
  pub overlapped : Ptr
  pub transferred : ℕ
  pub error : ℕ

abbrev operation_aborted : ℕ
operation_aborted = 995

abbrev abandoned_wait : ℕ
abandoned_wait = 735

abbrev wait_timeout : ℕ
wait_timeout = 258

-- What a round makes of a status: the port is closed and the loop breaks, the wait was too long, or the
-- packet is for the processor with a key, if that is not null, and the loop goes on unless it `failed`.
pub data Fate : Type 0 where
  closed timed_out : Fate
  packet : (failed : Bool) → Ptr → Fate

unfoldable pub fate_of : Status → Fate
fate_of s =
    let aborted = s.error == operation_aborted in
    let key = if aborted then null else s.key in
    if s.succeeds
    then packet false s.key
    else if s.overlapped == null
    then (if s.error == abandoned_wait
        then closed
        else if s.error == wait_timeout
        then timed_out
        else packet (not aborted) key)
    else packet (not (aborted || s.transferred == 0)) key

-- The parameters are those of Round, with the processor of a packet given its status.
module _ (clock : Base → ℕ) (wait : ℕ → Base → Status) (processor : Status → Base → Base)
    (wakeup : Ptr → Timers → Timers) (settle : Base → Base) (depth : ℕ) (phantom : Ptr) where
  abbrev no_poll : ℕ → Base → Polled
  no_poll t b = Polled.ready []

  abbrev no_events : Ptr → Base → Base
  no_events p b = b

  -- The packet goes to its processor, and then the timeouts run out.
  unfoldable pub handle_packet : Status → Bool → Ptr → Base → Option (Bool × Base)
  unfolding active process_timeouts look
  handle_packet s failed key b =
      let b' =
        if not failed && not (key == null)
        then active clock no_poll no_events wakeup settle depth phantom (processor s b)
        else b in
      process_timeouts clock no_poll no_events wakeup settle depth phantom b' >>= λ b''.
      some (not failed, look clock no_poll no_events wakeup settle depth phantom b'')

  -- The rest of a round; `false` where it is the last one.
  unfoldable pub after_wait : Status → Fate → Base → Option (Bool × Base)
  unfolding handle_packet process_idles
  after_wait s closed b = some (false, b)
  after_wait s timed_out b =
      process_idles clock no_poll no_events wakeup settle depth phantom b >>= λ b'.
      handle_packet s false null b'
  after_wait s (packet failed key) b = handle_packet s failed key b

  unfoldable pub round : Base → Option (Bool × Base)
  unfolding process_sleeps after_wait look fate_of
  round b = process_sleeps clock no_poll no_events wakeup settle depth phantom b >>= λ b1.
      calculate_wait_timeout depth b1.sleeps b1.idles b1.timeouts b1.now >>= λ t.
      let s = wait (t % 2 ^ 32) b1 in
      after_wait s (fate_of s) (look clock no_poll no_events wakeup settle depth phantom b1)

-- The system's answers while a loop starts: `fails` of `thread` has the error of `_beginthreadex`.
pub record Answers : Type 0 where
  pub memory : Ptr
  pub port : Answer
  pub thread : Answer

-- `api_loop_init` always succeeds and holds nothing, and so is nothing left for `api_loop_cleanup`.
unfoldable pub start_thread : Answers → Answer → ℕ → Held → ℕ × Ptr × Held
unfolding close free
start_thread a (fails e) port h = (e, null, free a.memory (close port h))
start_thread a (gives thread) port h = (api_ok, a.memory, h)

unfoldable pub start_from : Answers → Answer → Held → ℕ × Ptr × Held
unfolding start_thread free
start_from a (fails e) h = (e, null, free a.memory h)
start_from a (gives port) h = start_thread a a.thread port (opened port h)

-- `api_loop_start`: its result, `*loop`, and what is held then.
unfoldable pub start : Answers → Held → ℕ × Ptr × Held
unfolding start_from
start a h =
    if a.memory == null
    then (no_memory, null, h)
    else start_from a a.port (record h { blocks = a.memory ∷ h.blocks })

-- One operation that fails after a part of its bytes ends the whole loop, and its processor is not called.
failed_packet :
    (s : Status)
    → s.succeeds ≡ false
    → s.overlapped ≢ null
    → s.error ≢ operation_aborted
    → s.transferred ≢ 0
    → fate_of s ≡ packet true s.key
unfolding fate_of
failed_packet s e o a t =
    rw
      (
        e,
        ne→not_== s.overlapped null o,
        ne→not_== s.error operation_aborted a,
        ne→not_== s.transferred 0 t,
      )
      refl

-- Where `api_loop_start` fails it gives no loop and holds nothing that it did not hold before.
start-released :
    (a : Answers) (e : ℕ) (h : Held)
    → (a.memory ≡ null) ⊎ ((a.port ≡ fails e) ⊎ (a.thread ≡ fails e))
    → ((start a h).1 ≡ null) × ((start a h).2 ≡ h)
unfolding start start_from start_thread
start-released a e h (inl none_left) = rw none_left (refl, refl)
start-released a e h (inr f) = elim (Bool-cases (a.memory == null)) [
  | inl t ↦ rw t (refl, refl)
  | inr t ↦ rw t (without_loop a.port refl f)
]
  where
    given : (d e : ℕ) → gives d ≢ fails e
    given d e q = cc q

    without_loop :
        (x : Answer)
        → a.port ≡ x
        → (a.port ≡ fails e) ⊎ (a.thread ≡ fails e)
        → ((start_from a x (allocated a.memory h)).1 ≡ null)
          × ((start_from a x (allocated a.memory h)).2 ≡ h)
    without_loop (fails d) p q = (refl, free-allocated a.memory h)
    without_loop (gives port) p (inl q) = absurd (given port e (sym p ∙ q))
    without_loop (gives port) p (inr q) =
        rw q (refl, released a.memory port h (opened port (allocated a.memory h)) refl)
