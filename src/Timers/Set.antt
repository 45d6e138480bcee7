-- ===== src/Timers/Set.antt =====
-- `api_timer_add`, and `api_timer_set` for a timer that waits already, of api/src/api_timer.c.
use mathlib.Core.Path.{subst}
use libapi.Base.{
  ℕ, suc, ◌≤◌, ◌<◌, ◌≡◌, ◌≢◌, refl, sym, ap, ◌∙◌, inl, inr, List, [], ◌∷◌, ◌++◌, true, false, some,
  ◌==◌, arith, has, All, Bool-cases, add64, u64_mod, ==→eq, not_==→ne, ne→not_==,
}
use libapi.Memory.{Ptr, null, write, write_same, write_other}
use libapi.NodeList.Chain.{has-append, ne_of_has}
use libapi.Timers.{
  TimerType, sleep_timer, idle_timer, timeout_timer, Timer, TimerList, Timers, detach, add,
}
use libapi.Timers.Expire.{Distinct, list_of, in_head, in_tail, not_in}
use libapi.Timers.Due.{IssuedBy, NoEarlier, InOrder}
use libapi.Timers.Versions.{
  or_blank, timer_at, per_list, Waits, Inv, Free, has-without, Distinct-without, gone,
  InOrder-without, InOrder-snoc, InOrder-same,
}

in_front :
    (q p : Ptr) (ps : List Ptr) → (q == p) ≡ false → has q (ps ++ p ∷ []) ≡ true → has q ps ≡ true
in_front q p ps h i = ground (arith, has-append q ps (p ∷ []))

Distinct-snoc :
    (ps : List Ptr) (p : Ptr) → p ≢ null → Distinct ps → has p ps ≡ false → Distinct (ps ++ p ∷ [])
Distinct-snoc [] p h d o = (h, refl, tt)
Distinct-snoc (x ∷ ps) p h d o =
    let (ne, o') = not_in p x ps o in
    (d.0, out_behind x p ps (λ e. ne (sym e)) d.1, Distinct-snoc ps p h d.2 o')
  where
    out_behind :
        (x p : Ptr) (ps : List Ptr) → x ≢ p → has x ps ≡ false → has x (ps ++ p ∷ []) ≡ false
    out_behind x p ps ne o = ground (arith, has-append x ps (p ∷ []))

All-of {κ} : {P : Ptr → Type κ} (ps : List Ptr) → ((q : Ptr) → has q ps ≡ true → P q) → All P ps
All-of [] h = tt
All-of (x ∷ ps) h = (h x (in_head x ps), All-of ps (λ q i. h q (in_tail q x ps i)))

-- `t'` is `t` after the timer `p`, which holds `m`, has been added at the time `now` to the list `l`, in
-- which `ps` wait: it has a new version and, unless it is for an idle, the time.
pub record Added (type : TimerType) (now : ℕ) (l : Ptr) (period : ℕ) (ps : List Ptr) (p : Ptr)
    (m : Timer) (t t' : Timers) : Type 0 where
  pub list : t'.lists l ≡ some (list_of period (ps ++ p ∷ []))
  pub timer :
      t'.timers p
      ≡ some (record m {
        list = l;
        issued = elim type [ idle_timer ↦ m.issued | _ ↦ now ];
        version = suc t.version;
      })
  pub version : t'.version ≡ suc t.version
  pub other_lists : (a : Ptr) → a ≢ l → t'.lists a ≡ t.lists a
  pub other_timers : (q : Ptr) → q ≢ p → t'.timers q ≡ t.timers q
  pub rest : record t' { lists = t.lists; timers = t.timers; version = t.version } ≡ t

module _ (type : TimerType) (clock : ℕ) where
  -- What `api_list_remove` leaves: the timer is in no list.
  pub detach-Inv :
      (t : Timers) (l : Ptr) (tl : TimerList) (p : Ptr)
      → Inv type clock t
      → t.lists l ≡ some tl
      → Inv type clock (detach t l tl p)
  detach-Inv t l tl p inv el = record {
    member = λ a al q ea.
        per_list (λ x xl. has q xl.timers ≡ true → Waits type clock t.timers t.version x q) t.lists
          l _ (λ i. inv.member l tl q el (has-without q p tl.timers i))
          (λ x xl ne ex. inv.member x xl q ex) a al ea;
    distinct =
        per_list (λ x xl. Distinct xl.timers) t.lists l _
          (Distinct-without p tl.timers (inv.distinct l tl el)) (λ x xl ne. inv.distinct x xl);
    order =
        per_list (λ x xl. InOrder type (timer_at t.timers) xl.timers) t.lists l _
          (InOrder-without type (timer_at t.timers) p tl.timers (inv.order l tl el))
          (λ x xl ne. inv.order x xl);
  }

  pub detach-Free :
      (t : Timers) (l : Ptr) (tl : TimerList) (p : Ptr) (m : Timer)
      → Inv type clock t
      → t.lists l ≡ some tl
      → t.timers p ≡ some m
      → m.list ≡ l
      → Free (detach t l tl p) p
  detach-Free t l tl p m inv el em ml =
      per_list (λ x xl. has p xl.timers ≡ false) t.lists l _
        (gone p tl.timers (inv.distinct l tl el))
        (λ x xl ne ex. elim (Bool-cases (has p xl.timers)) [
          | inl i ↦
              let w = inv.member x xl p ex i in
              let same : w.timer ≡ m = cc (w.here, em) in
              absurd (ne (sym w.list ∙ ap (λ (n : Timer). n.list) same ∙ ml))
          | inr o ↦ o
        ])

  -- The timer that is added, and the others, afterwards.
  abbrev added : Timers → Ptr → Timer → ℕ → Timer
  added t l m now = record m {
    list = l;
    issued = elim type [ idle_timer ↦ m.issued | _ ↦ now ];
    version = suc t.version;
  }

  added_issued :
      (t : Timers) (l : Ptr) (m : Timer) (now : ℕ) → IssuedBy type (added t l m now).issued now
  added_issued t l m now =
      elim type as (λ y. IssuedBy y (elim y [ idle_timer ↦ m.issued | _ ↦ now ]) now) [
        | sleep_timer ↦ omega arith
        | idle_timer ↦ tt
        | timeout_timer ↦ tt
      ]

  issued_before :
      (i now : ℕ) (m : Timer)
      → IssuedBy type i clock
      → clock ≤ now
      → IssuedBy type i (elim type [ idle_timer ↦ m.issued | _ ↦ now ]) × IssuedBy type i now
  issued_before i now m h later =
      elim type
          as (λ y.
            IssuedBy y i clock
            → IssuedBy y i (elim y [ idle_timer ↦ m.issued | _ ↦ now ]) × IssuedBy y i now) [
              | sleep_timer ↦ λ h. (omega arith, omega arith)
              | idle_timer ↦ λ h. (tt, tt)
              | timeout_timer ↦ λ h. (tt, tt)
            ]
        h

  Waits-later :
      (t : Timers) (p : Ptr) (m' m : Timer) (now : ℕ) (a q : Ptr)
      → clock ≤ now
      → q ≢ p
      → Waits type clock t.timers t.version a q
      → Waits type now (write t.timers p m') (suc t.version) a q
  Waits-later t p m' m now a q later ne w = record {
    timer = w.timer;
    here = write_other t.timers p q m' ne ∙ w.here;
    list = w.list;
    version = omega (arith, w.version);
    issued = (issued_before w.timer.issued now m w.issued later).1;
  }

  abbrev NoEarlierThan : Timer → Timer → Type 0
  NoEarlierThan m n = (m.version ≤ n.version) × IssuedBy type m.issued n.issued

  -- What waits was set no later than what is added.
  behind :
      (t : Timers) (p : Ptr) (m : Timer) (l : Ptr) (tl : TimerList) (now : ℕ)
      → clock ≤ now
      → (q : Ptr) → q ≢ p
      → Waits type clock t.timers t.version l q
      → NoEarlier type (timer_at (write t.timers p (added t l m now))) q p
  behind t p m l tl now later q ne w =
      let s = write t.timers p (added t l m now) in
      let at_q : timer_at s q ≡ w.timer =
        ap or_blank (write_other t.timers p q (added t l m now) ne ∙ w.here) in
      let at_p : timer_at s p ≡ added t l m now =
        ap or_blank (write_same t.timers p (added t l m now)) in
      subst (λ (n : Timer). NoEarlierThan n (timer_at s p)) (sym at_q)
        (subst (λ (n : Timer). NoEarlierThan w.timer n) (sym at_p)
          (omega (arith, w.version), (issued_before w.timer.issued now m w.issued later).0))

  -- A free timer goes to the end of a list.
  pub add_lem :
      (now : ℕ) (t : Timers) (l : Ptr) (tl : TimerList) (p : Ptr) (m : Timer)
      → Inv type clock t
      → Free t p
      → clock ≤ now
      → l ≢ null
      → p ≢ null
      → t.lists l ≡ some tl
      → t.timers p ≡ some m
      → suc t.version < u64_mod
      → (t' : Timers) × (add now type t l p ≡ some t')
        × Inv type now t'
        × Added type now l tl.value tl.timers p m t t'
  unfolding add
  add_lem now t l tl p m inv free later l_null p_null el em small =
      let m' = added t l m now in
      let version : add64 t.version 1 ≡ suc t.version = omega arith in
      (
        record t {
          version = suc t.version;
          timers = write t.timers p m';
          lists = write t.lists l (record tl { timers = tl.timers ++ p ∷ [] });
        },
        rw (ne→not_== p null p_null, ne→not_== l null l_null, em, el, version) refl,
        record {
          member = λ a al q ea.
              per_list
                (λ x xl.
                  has q xl.timers ≡ true → Waits type now (write t.timers p m') (suc t.version) x q)
                t.lists l _
                (λ i. elim (Bool-cases (q == p)) [
                  | inl same ↦
                      subst (λ x. Waits type now (write t.timers p m') (suc t.version) l x)
                        (sym (==→eq q p same))
                        (record {
                          timer = m';
                          here = write_same t.timers p m';
                          list = refl;
                          version = omega arith;
                          issued = added_issued t l m now;
                        })
                  | inr other ↦
                      Waits-later t p m' m now l q later (not_==→ne q p other)
                        (inv.member l tl q el (in_front q p tl.timers other i))
                ])
                (λ x xl ne ex i.
                  Waits-later t p m' m now x q later (ne_of_has q p xl.timers i (free x xl ex))
                    (inv.member x xl q ex i))
                a al ea;
          distinct =
              per_list (λ x xl. Distinct xl.timers) t.lists l _
                (Distinct-snoc tl.timers p p_null (inv.distinct l tl el) (free l tl el))
                (λ x xl ne. inv.distinct x xl);
          order =
              per_list (λ x xl. InOrder type (timer_at (write t.timers p m')) xl.timers) t.lists l _
                (InOrder-snoc type (timer_at (write t.timers p m')) tl.timers p
                  (still_InOrder l tl el)
                  (All-of tl.timers (λ q i.
                    behind t p m l tl now later q (ne_of_has q p tl.timers i (free l tl el))
                      (inv.member l tl q el i))))
                (λ x xl ne ex. still_InOrder x xl ex);
        },
        record {
          list = write_same t.lists l _;
          timer = write_same t.timers p m';
          version = refl;
          other_lists = λ a n. write_other t.lists l a _ n;
          other_timers = λ q n. write_other t.timers p q m' n;
          rest = refl;
        },
      )
    where
      still_InOrder :
          (x : Ptr) (xl : TimerList)
          → t.lists x ≡ some xl
          → InOrder type (timer_at (write t.timers p (added t l m now))) xl.timers
      still_InOrder x xl ex =
          InOrder-same type (timer_at t.timers) (timer_at (write t.timers p (added t l m now)))
            xl.timers
            (λ q i.
              ap or_blank (write_other t.timers p q _ (ne_of_has q p xl.timers i (free x xl ex))))
            (inv.order x xl ex)
