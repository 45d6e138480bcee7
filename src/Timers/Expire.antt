-- ===== src/Timers/Expire.antt =====
-- The inner loop of `api_timer_process` of api/src/api_timer.c, on one list, where the tasks that
-- it wakes leave the timers alone.
use libapi.Base.{
  ℕ, zero, suc, ◌+◌, ◌<◌, ◌≡◌, ◌≢◌, refl, sym, ap, ◌∙◌, inl, inr, List, [], ◌∷◌, ◌++◌, Bool, true,
  false, not, ◌&&◌, ◌==◌, Option, some, ltb, arith, has, length, Bool-cases, ==_refl, ne→not_==,
  append_assoc,
}
use libapi.Memory.{Ptr, null, Store, write_same, write_other}
use libapi.NodeList.Chain.{has-append, ne_of_has}
use libapi.Timers.{TimerType, Timer, TimerList, Timers, get}
use libapi.Timers.Process.{due, after, expire, expire_loop}

-- Addresses that are all different, none of them null.
abbrev pub Distinct : List Ptr → Type 0
Distinct [] = Unit {0}
Distinct (p ∷ ps) = (p ≢ null) × (has p ps ≡ false) × Distinct ps

abbrev pub head : List Ptr → Ptr
head [] = null
head (p ∷ ps) = p

abbrev pub list_of : ℕ → List Ptr → TimerList
list_of period ps = record { value = period; timers = ps }

get_lem : {N : Type 0} (s : Store N) (p : Ptr) (n : N) → p ≢ null → s p ≡ some n → get s p ≡ some n
get_lem s p n h e = rw (ne→not_== p null h) e

pub after-head : (p : Ptr) (ps : List Ptr) → after p (p ∷ ps) ≡ some (head ps)
unfolding after
after-head p [] = rw (==_refl p) refl
after-head p (q ∷ ps) = rw (==_refl p) refl

after-append :
    (p : Ptr) (xs ps : List Ptr) → has p xs ≡ false → after p (xs ++ p ∷ ps) ≡ some (head ps)
unfolding after
after-append p [] ps h = after-head p ps
after-append p (x ∷ xs) ps h = ground (arith, after-append p xs ps)

pub in_head : (p : Ptr) (ps : List Ptr) → has p (p ∷ ps) ≡ true
in_head p ps = ground arith

pub in_tail : (q p : Ptr) (ps : List Ptr) → has q ps ≡ true → has q (p ∷ ps) ≡ true
in_tail q p ps h = ground arith

pub in_rest :
    (q p : Ptr) (ps : List Ptr) → (q == p) ≡ false → has q (p ∷ ps) ≡ true → has q ps ≡ true
in_rest q p ps n h = ground arith

pub not_in : (q p : Ptr) (ps : List Ptr) → has q (p ∷ ps) ≡ false → (q ≢ p) × (has q ps ≡ false)
not_in q p ps h = (ground arith, ground arith)

both : (a b : Bool) → (not a && b) ≡ true → (a ≡ false) × (b ≡ true)
both true b h = (cc h, cc h)
both false b h = (refl, h)

neither : (b a : Bool) → a ≡ false → (not a && b) ≡ false → b ≡ false
neither b true e h = cc e
neither b false e h = h

Distinct-middle :
    (xs : List Ptr) (p : Ptr) (ps : List Ptr)
    → Distinct (xs ++ p ∷ ps)
    → (p ≢ null) × (has p xs ≡ false)
Distinct-middle [] p ps d = (d.0, refl)
Distinct-middle (x ∷ xs) p ps d =
    let (h, out) = Distinct-middle xs p ps d.2 in
    (h, ground (arith, d.1, has-append x xs (p ∷ ps), out))

-- `t'` is `t` after the timers `fs` have left the list `l`, where `os` stay.
pub record Expired (l : Ptr) (period : ℕ) (ms : Ptr → Timer) (fs os : List Ptr) (t t' : Timers)
    : Type 0 where
  pub list : t'.lists l ≡ some (list_of period os)
  pub others : (a : Ptr) → a ≢ l → t'.lists a ≡ t.lists a
  pub fired :
      (q : Ptr)
      → has q fs ≡ true
      → t'.timers q ≡ some (record (ms q) { list = null; elapsed = true })
  pub kept : (q : Ptr) → has q fs ≡ false → t'.timers q ≡ t.timers q
  pub rest : record t' { lists = t.lists; timers = t.timers } ≡ t

module _ (wakeup : Ptr → Timers → Timers) (type : TimerType) (value version : ℕ) (l : Ptr)
    (l_null : l ≢ null) (period : ℕ) (ms : Ptr → Timer) where
  -- Whether a timer was set before the call and has waited long enough.
  abbrev pub fires : Ptr → Bool
  fires q = not (ltb version (ms q).version) && due type value (ms q).issued period

  abbrev loop : ℕ → Timers → Ptr → ℕ → Option (Timers × ℕ)
  loop fuel t p count = expire_loop wakeup fuel type value version l t p count

  loop-fires :
      ((k : Ptr) (t : Timers) → wakeup k t ≡ t)
      → (fuel : ℕ) (t : Timers) (p : Ptr) (ps : List Ptr) (count : ℕ) → p ≢ null
      → t.timers p ≡ some (ms p)
      → t.lists l ≡ some (list_of period (p ∷ ps))
      → fires p ≡ true
      → loop (suc fuel) t p count
        ≡ loop fuel (expire t l (list_of period (p ∷ ps)) p (ms p)) (head ps) (suc count)
  unfolding expire_loop
  loop-fires quiet fuel t p ps count h et el f =
      let (old, waited) =
        both (ltb version (ms p).version) (due type value (ms p).issued period) f in
      rw
        (
          expire_loop,
          ne→not_== p null h,
          ne→not_== p null h,
          et,
          ne→not_== l null l_null,
          el,
          after-head p ps,
          old,
          waited,
          quiet,
        )
        refl

  -- The loop does nothing more where no timer fires: it passes over new ones, and ends at the
  -- first of the others or at the end of the list.
  pub loop_idle :
      (fuel : ℕ) (t : Timers) (xs os : List Ptr) (count : ℕ)
      → t.lists l ≡ some (list_of period (xs ++ os))
      → ((q : Ptr) → has q os ≡ true → t.timers q ≡ some (ms q))
      → ((q : Ptr) → has q os ≡ true → fires q ≡ false)
      → Distinct (xs ++ os)
      → length os < fuel
      → loop fuel t (head os) count ≡ some (t, count)
  unfolding expire_loop
  loop_idle zero t xs os count el et f d more = absurd (omega arith)
  loop_idle (suc fuel) t xs [] count el et f d more = refl
  loop_idle (suc fuel) t xs (p ∷ os) count el et f d more =
      let here = et p (in_head p os) in
      let (h, out) = Distinct-middle xs p os d in
      elim (Bool-cases (ltb version (ms p).version)) [
        | inl newer ↦
            rw
              (
                expire_loop,
                ne→not_== p null h,
                ne→not_== p null h,
                here,
                ne→not_== l null l_null,
                el,
                after-append p xs os out,
                newer,
              )
              (loop_idle fuel t (xs ++ p ∷ []) os count
                (el ∙ ap (λ ps. some (list_of period ps)) (sym (append_assoc xs (p ∷ []) os)))
                (λ q e. et q (in_tail q p os e)) (λ q e. f q (in_tail q p os e))
                (rw (append_assoc xs (p ∷ []) os) d) (omega arith))
        | inr older ↦
            let waits =
              neither (due type value (ms p).issued period) (ltb version (ms p).version) older
                (f p (in_head p os)) in
            rw
              (
                expire_loop,
                ne→not_== p null h,
                ne→not_== p null h,
                here,
                ne→not_== l null l_null,
                el,
                after-append p xs os out,
                older,
                waits,
              )
              refl
      ]

  expire_empty :
      (t t' : Timers) (f : Ptr) (fs os : List Ptr)
      → f ≢ null
      → has f fs ≡ false
      → Expired l period ms fs os (expire t l (list_of period (f ∷ fs ++ os)) f (ms f)) t'
      → Expired l period ms (f ∷ fs) os t t'
  expire_empty t t' f fs os h out e = record {
    list = e.list;
    others = λ a ne. e.others a ne ∙ write_other t.lists l a _ ne;
    fired = λ q i. elim (Bool-cases (has q fs)) [
      | inl later ↦ e.fired q later
      | inr here ↦
          let q_f : q ≡ f = ground (arith, i, here) in
          e.kept q here ∙ rw q_f (write_same t.timers f _)
    ];
    kept = λ q o. let (ne, o') = not_in q f fs o in e.kept q o' ∙ write_other t.timers f q _ ne;
    rest = ap (λ (r : Timers). record r { lists = t.lists; timers = t.timers }) e.rest;
  }

  -- The timers in front that fire leave the list, with `elapsed` set, and are counted.
  pub expire_front :
      ((k : Ptr) (t : Timers) → wakeup k t ≡ t)
      → (fuel : ℕ) (t : Timers) (fs os : List Ptr) (count : ℕ)
      → t.lists l ≡ some (list_of period (fs ++ os))
      → ((q : Ptr) → has q (fs ++ os) ≡ true → t.timers q ≡ some (ms q))
      → ((q : Ptr) → has q fs ≡ true → fires q ≡ true)
      → ((q : Ptr) → has q os ≡ true → fires q ≡ false)
      → Distinct (fs ++ os)
      → length (fs ++ os) < fuel
      → (t' : Timers) × (loop fuel t (head (fs ++ os)) count ≡ some (t', count + length fs))
        × Expired l period ms fs os t t'
  expire_front quiet fuel t [] os count el et ff fo d more =
      let same : count + 0 ≡ count = omega arith in
      (
        t,
        rw same (loop_idle fuel t [] os count el et fo d more),
        record {
          list = el;
          others = λ a ne. refl;
          fired = λ q i. cc i;
          kept = λ q o. refl;
          rest = refl;
        },
      )
  expire_front quiet zero t (f ∷ fs) os count el et ff fo d more = absurd (omega arith)
  expire_front quiet (suc fuel) t (f ∷ fs) os count el et ff fo d more =
      let t1 = expire t l (list_of period (f ∷ fs ++ os)) f (ms f) in
      let (t', e, x) =
        expire_front quiet fuel t1 fs os (suc count) (left_list t f (fs ++ os))
          (λ q i.
            write_other t.timers f q _ (ne_of_has q f (fs ++ os) i d.1)
            ∙ et q (in_tail q f (fs ++ os) i))
          (λ q i. ff q (in_tail q f fs i)) fo d.2 (omega arith) in
      let total : suc count + length fs ≡ count + suc (length fs) = omega arith in
      (
        t',
        loop-fires quiet fuel t f (fs ++ os) count d.0 (et f (in_head f (fs ++ os))) el
              (ff f (in_head f fs))
            ∙ rw total at e,
        expire_empty t t' f fs os d.0 (out_front f fs os d.1) x,
      )
    where
      left_list :
          (t : Timers) (f : Ptr) (ps : List Ptr)
          → (expire t l (list_of period (f ∷ ps)) f (ms f)).lists l ≡ some (list_of period ps)
      left_list t f ps = write_same t.lists l _ ∙ rw (==_refl f) refl

      out_front : (f : Ptr) (fs os : List Ptr) → has f (fs ++ os) ≡ false → has f fs ≡ false
      out_front f fs os h = ground (arith, has-append f fs os, h)
