-- ===== src/Timers/Versions.antt =====
-- The order of the timers in the lists of api/src/api_timer.c, which `api_timer_process` relies on,
-- as `api_timer_set` keeps it.
use mathlib.Core.Path.{subst}
use libapi.Base.{
  ℕ, ◌≤◌, ◌≡◌, ◌≢◌, refl, sym, ap, ◌∙◌, inl, inr, List, [], ◌∷◌, ◌++◌, true, false, Option, none,
  some, ◌==◌, arith, has, All, All-append, Bool-cases, ==→eq, not_==→ne,
}
use libapi.Memory.{Ptr, null, Store, write, write_same, write_other}
use libapi.Timers.{TimerType, Timer, TimerList, Timers, without}
use libapi.Timers.Expire.{Distinct, in_head, in_tail}
use libapi.Timers.Due.{IssuedBy, NoEarlier, InOrder}

-- The timer at an address, or a blank one.
abbrev pub or_blank : Option Timer → Timer
or_blank none = record { list = null; task = null; issued = 0; version = 0; elapsed = false }
or_blank (some m) = m

abbrev pub timer_at : Store Timer → Ptr → Timer
timer_at s p = or_blank (s p)

-- A timer that waits in the list `l`, set by the time `clock`; `latest` is the last version given.
pub record Waits (type : TimerType) (clock : ℕ) (s : Store Timer) (latest : ℕ) (l q : Ptr)
    : Type 0 where
  pub timer : Timer
  pub here : s q ≡ some timer
  pub list : timer.list ≡ l
  pub version : timer.version ≤ latest
  pub issued : IssuedBy type timer.issued clock

-- Every timer in a list knows its list, no list has one twice, and each list is in the order in
-- which its timers were set.
pub record Inv (type : TimerType) (clock : ℕ) (t : Timers) : Type 0 where
  pub member :
      (l : Ptr) (tl : TimerList) (q : Ptr)
      → t.lists l ≡ some tl
      → has q tl.timers ≡ true
      → Waits type clock t.timers t.version l q
  pub distinct : (l : Ptr) (tl : TimerList) → t.lists l ≡ some tl → Distinct tl.timers
  pub order :
      (l : Ptr) (tl : TimerList) → t.lists l ≡ some tl → InOrder type (timer_at t.timers) tl.timers

-- A timer in no list.
abbrev pub Free : Timers → Ptr → Type 0
Free t p = (l : Ptr) (tl : TimerList) → t.lists l ≡ some tl → has p tl.timers ≡ false

pub has-without : (q p : Ptr) (ps : List Ptr) → has q (without p ps) ≡ true → has q ps ≡ true
has-without q p [] h = cc h
has-without q p (x ∷ ps) h = ground (arith, h, has-without q p ps)

All-without {κ} : (P : Ptr → Type κ) (p : Ptr) (ps : List Ptr) → All P ps → All P (without p ps)
All-without P p [] h = h
All-without P p (x ∷ ps) h = elim (Bool-cases (p == x)) [
  | inl e ↦ rw e h.1
  | inr e ↦ rw e (h.0, All-without P p ps h.1)
]

out_of_without : (q p : Ptr) (ps : List Ptr) → has q ps ≡ false → has q (without p ps) ≡ false
out_of_without q p [] h = refl
out_of_without q p (x ∷ ps) h = ground (arith, h, out_of_without q p ps)

pub Distinct-without : (p : Ptr) (ps : List Ptr) → Distinct ps → Distinct (without p ps)
Distinct-without p [] d = d
Distinct-without p (x ∷ ps) d = elim (Bool-cases (p == x)) [
  | inl e ↦ rw e d.2
  | inr e ↦ rw e (d.0, out_of_without x p ps d.1, Distinct-without p ps d.2)
]

-- What is taken out of a list that had it once is not in it any more.
pub gone : (p : Ptr) (ps : List Ptr) → Distinct ps → has p (without p ps) ≡ false
gone p [] d = refl
gone p (x ∷ ps) d = elim (Bool-cases (p == x)) [
  | inl e ↦ rw e (rw (==→eq p x e) (d.1))
  | inr e ↦ rw (e, e) (gone p ps d.2)
]

module _ (type : TimerType) (ms : Ptr → Timer) where
  pub InOrder-without :
      (p : Ptr) (ps : List Ptr) → InOrder type ms ps → InOrder type ms (without p ps)
  InOrder-without p [] o = o
  InOrder-without p (x ∷ ps) o = elim (Bool-cases (p == x)) [
    | inl e ↦ rw e (o.1)
    | inr e ↦ rw e (All-without (NoEarlier type ms x) p ps o.0, InOrder-without p ps o.1)
  ]

  pub InOrder-snoc :
      (ps : List Ptr) (p : Ptr)
      → InOrder type ms ps
      → All (λ q. NoEarlier type ms q p) ps
      → InOrder type ms (ps ++ p ∷ [])
  InOrder-snoc [] p o h = (tt, tt)
  InOrder-snoc (x ∷ ps) p o h =
      (All-append (NoEarlier type ms x) ps (p ∷ []) o.0 (h.0, tt), InOrder-snoc ps p o.1 h.1)

  All-same :
      (ms' : Ptr → Timer) (x : Ptr) (ps : List Ptr)
      → ms' x ≡ ms x
      → ((q : Ptr) → has q ps ≡ true → ms' q ≡ ms q)
      → All (NoEarlier type ms x) ps
      → All (NoEarlier type ms' x) ps
  All-same ms' x [] ex same h = tt
  All-same ms' x (q ∷ ps) ex same h =
      let eq = same q (in_head q ps) in
      (rw (ex, eq) h.0, All-same ms' x ps ex (λ r i. same r (in_tail r q ps i)) h.1)

  pub InOrder-same :
      (ms' : Ptr → Timer) (ps : List Ptr)
      → ((q : Ptr) → has q ps ≡ true → ms' q ≡ ms q)
      → InOrder type ms ps
      → InOrder type ms' ps
  InOrder-same ms' [] same o = tt
  InOrder-same ms' (x ∷ ps) same o = (
    All-same ms' x ps (same x (in_head x ps)) (λ q i. same q (in_tail q x ps i)) o.0,
    InOrder-same ms' ps (λ q i. same q (in_tail q x ps i)) o.1,
  )

-- To prove something of every list after one was written.
pub per_list {κ} :
    (P : Ptr → TimerList → Type κ) (s : Store TimerList) (l : Ptr) (tl : TimerList)
    → P l tl
    → ((a : Ptr) (al : TimerList) → a ≢ l → s a ≡ some al → P a al)
    → (a : Ptr) (al : TimerList) → write s l tl a ≡ some al
    → P a al
per_list P s l tl here elsewhere a al e = elim (Bool-cases (a == l)) [
  | inl same ↦
      let a_l : a ≡ l = ==→eq a l same in
      let al_tl : tl ≡ al = cc (write_same s l tl, ap (write s l tl) a_l, e) in
      subst (λ x. P x al) (sym a_l) (subst (P l) al_tl here)
  | inr other ↦
      let ne = not_==→ne a l other in elsewhere a al ne (sym (write_other s l a tl ne) ∙ e)
]
