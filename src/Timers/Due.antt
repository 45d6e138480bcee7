-- ===== src/Timers/Due.antt =====
-- Which timers `api_timer_process` of api/src/api_timer.c takes out of a list, by time alone.
use libapi.Base.{
  ℕ, ◌+◌, ◌-◌, ◌≤◌, ◌<◌, ◌≡◌, List, [], ◌∷◌, Bool, not, ◌&&◌, ltb, leb, arith, All, sub64,
  sub64_exact, u64_mod, if◌then◌else◌,
}
use libapi.Memory.{Ptr}
use libapi.Timers.{TimerType, sleep_timer, Timer, Timers}
use libapi.Timers.Process.{due}

-- A sleep is over when its period has passed since it began, and not before.
pub due-sleep :
    (now issued period : ℕ)
    → issued ≤ now
    → now < u64_mod
    → due sleep_timer now issued period ≡ leb (issued + period) now
unfolding due
due-sleep now issued period h small =
    let e : sub64 now issued ≡ now - issued = sub64_exact now issued small h in rw e (ground arith)

-- The timers of a list that a test holds of, and the others.
abbrev pub chosen : (Ptr → Bool) → List Ptr → List Ptr
chosen test [] = []
chosen test (p ∷ ps) = if test p then p ∷ chosen test ps else chosen test ps

abbrev pub others : (Ptr → Bool) → List Ptr → List Ptr
others test [] = []
others test (p ∷ ps) = if test p then others test ps else p ∷ others test ps

-- The time at which a timer was set plays a part for sleeps only.
abbrev pub IssuedBy : TimerType → ℕ → ℕ → Type 0
IssuedBy sleep_timer i j = i ≤ j
IssuedBy _ i j = Unit {0}

-- `q` was set no earlier than `p`.
abbrev pub NoEarlier : TimerType → (Ptr → Timer) → Ptr → Ptr → Type 0
NoEarlier type ms p q =
    ((ms p).version ≤ (ms q).version) × IssuedBy type (ms p).issued (ms q).issued

-- The timers are in the order in which they were set.
abbrev pub InOrder : TimerType → (Ptr → Timer) → List Ptr → Type 0
InOrder type ms [] = Unit {0}
InOrder type ms (p ∷ ps) = All (NoEarlier type ms p) ps × InOrder type ms ps

module _ (type : TimerType) (value version period : ℕ) (ms : Ptr → Timer) where
  abbrev pub test : Ptr → Bool
  test q = not (ltb version (ms q).version) && due type value (ms q).issued period

  -- A sleep has begun by now.
  abbrev pub Begun : Ptr → Type 0
  Begun q = IssuedBy type (ms q).issued value
