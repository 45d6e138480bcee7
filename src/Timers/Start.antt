-- ===== src/Timers/Start.antt =====
-- `api_timer_set` of api/src/api_timer.c: a timer that waits starts anew or is stopped, and a timer
-- that does not wait joins the list for its period.
use libapi.Base.{
  ℕ, suc, ◌≤◌, ◌<◌, ◌≡◌, ◌≢◌, refl, ap, ◌∙◌, List, [], ◌∷◌, ◌++◌, Bool, true, false, Option, some,
  ◌==◌, arith, u64_mod, if◌then◌else◌, ne→not_==, ==_refl,
}
use libapi.Memory.{Ptr, null, Store, write, write_same, write_other}
use libapi.Rbtree
use libapi.Rbtree.{Sign, negative, zero_sign, positive}
use libapi.Rbtree.Shape.{RbTree, top, inorder, height, Holds}
use libapi.Rbtree.Shape.Search.{Ordered, find, sign_of, search-find}
use libapi.Timers.{
  TimerType, Timer, TimerList, Timers, without, detach, add, set, reschedule, schedule, list_for,
  forget_list, value_of, value_or_none, timer_compare, drop_empty,
}
use libapi.Timers.Expire.{list_of}
use libapi.Timers.Versions.{or_blank, timer_at, Inv, Free, InOrder-same}
use libapi.NodeList.Chain.{ne_of_has}
use libapi.Timers.Set.{Added, detach-Inv, detach-Free, add_lem}

module _ (depth : ℕ) (key fresh : Ptr) (type : TimerType) (clock now : ℕ)
    (later : clock ≤ now) where
  if_same : {A : Type 0} (b : Bool) (x : A) → (if b then x else x) ≡ x
  if_same true x = refl
  if_same false x = refl

  abbrev set_timer : Timers → Ptr → ℕ → Option Timers
  set_timer t p value = set depth key fresh now type t p value

  -- The branches of `api_timer_set`.
  set_waiting :
      (t : Timers) (p : Ptr) (m : Timer) (value : ℕ)
      → p ≢ null
      → t.timers p ≡ some m
      → m.list ≢ null
      → set_timer t p value ≡ reschedule depth key fresh now type t p m value
  unfolding set
  set_waiting t p m value p_null em l_null =
      rw (ne→not_== p null p_null, em, ne→not_== m.list null l_null) refl

  set_free :
      (t : Timers) (p : Ptr) (m : Timer) (value : ℕ)
      → p ≢ null
      → t.timers p ≡ some m
      → m.list ≡ null
      → set_timer t p value ≡ schedule depth key fresh now type t p value
  unfolding set
  set_free t p m value p_null em m_null =
      let unlisted : (m.list == null) ≡ true = rw m_null refl in
      rw (ne→not_== p null p_null, em, unlisted) refl

  reschedule_same :
      (t : Timers) (p : Ptr) (m : Timer) (tl : TimerList)
      → m.list ≢ null
      → t.lists m.list ≡ some tl
      → reschedule depth key fresh now type t p m tl.value
        ≡ add now type (detach t m.list tl p) m.list p
  unfolding reschedule
  reschedule_same t p m tl l_null el = rw (ne→not_== m.list null l_null, el, ==_refl tl.value) refl

  reschedule_zero :
      (t : Timers) (p : Ptr) (m : Timer) (tl : TimerList)
      → m.list ≢ null
      → t.lists m.list ≡ some tl
      → tl.value ≢ 0
      → drop_empty depth key (detach t m.list tl p) m.list ≡ some (detach t m.list tl p)
      → reschedule depth key fresh now type t p m 0 ≡ some (forget_list (detach t m.list tl p) p m)
  unfolding reschedule schedule
  reschedule_zero t p m tl l_null el some_value kept =
      rw
        (
          ne→not_== m.list null l_null,
          el,
          ne→not_== tl.value 0 some_value,
          kept,
          if_same t.processing (some (detach t m.list tl p)),
        )
        refl

  schedule_found :
      (t : Timers) (p f : Ptr) (value : ℕ)
      → value ≢ 0
      → f ≢ null
      → Rbtree.search depth
          (timer_compare (write t.lists key (list_of value [])))
          t.root
          key
          t.nodes
        ≡ some (f, t.nodes)
      → schedule depth key fresh now type t p value ≡ add now type t f p
  unfolding schedule list_for
  schedule_found t p f value some_value f_null look =
      rw (ne→not_== value 0 some_value, look, ne→not_== f null f_null) refl

  -- A timer that waits and is set again to the period of its list goes to the end of that list, with a version
  -- that is one more than the last one and, unless it is for an idle, with the time of the call; the
  -- lists stay in the order in which their timers were set, and no other list and no other timer changes.
  -- The timers were in order, and the versions have not run out.
  pub set_again :
      (t : Timers) (p : Ptr) (m : Timer) (tl : TimerList)
      → Inv type clock t
      → p ≢ null
      → m.list ≢ null
      → t.timers p ≡ some m
      → t.lists m.list ≡ some tl
      → suc t.version < u64_mod
      → (t' : Timers) × (set depth key fresh now type t p tl.value ≡ some t')
        × Inv type now t'
        × Added type now m.list tl.value (without p tl.timers) p m t t'
  set_again t p m tl inv p_null l_null em el small =
      let t1 = detach t m.list tl p in
      let (t', e, inv', a) =
        add_lem type clock now t1 m.list (list_of tl.value (without p tl.timers)) p m
          (detach-Inv type clock t m.list tl p inv el)
          (detach-Free type clock t m.list tl p m inv el em refl) later l_null p_null
          (write_same t.lists m.list _) em small in
      (
        t',
        set_waiting t p m tl.value p_null em l_null ∙ reschedule_same t p m tl l_null el ∙ e,
        inv',
        record {
          list = a.list;
          timer = a.timer;
          version = a.version;
          other_lists = λ x n. a.other_lists x n ∙ write_other t.lists m.list x _ n;
          other_timers = a.other_timers;
          rest = ap (λ (r : Timers). record r { lists = t.lists }) a.rest;
        },
      )

  -- A list with timers is not dropped.
  drop_some :
      (t : Timers) (l : Ptr) (tl : TimerList) (q : Ptr) (qs : List Ptr)
      → l ≢ null
      → t.lists l ≡ some tl
      → tl.timers ≡ q ∷ qs
      → drop_empty depth key t l ≡ some t
  unfolding drop_empty
  drop_some t l tl q qs l_null el e = rw (ne→not_== l null l_null, el, e) refl

  forget-Inv :
      (t : Timers) (p : Ptr) (m : Timer)
      → Inv type clock t
      → Free t p
      → Inv type clock (forget_list t p m)
  forget-Inv t p m inv free = record {
    member = λ l tl q el i.
        let w = inv.member l tl q el i in
        record {
          timer = w.timer;
          here = write_other t.timers p q _ (ne_of_has q p tl.timers i (free l tl el)) ∙ w.here;
          list = w.list;
          version = w.version;
          issued = w.issued;
        };
    distinct = inv.distinct;
    order = λ l tl el.
        InOrder-same type (timer_at t.timers) _ tl.timers
          (λ q i.
            ap or_blank (write_other t.timers p q _ (ne_of_has q p tl.timers i (free l tl el))))
          (inv.order l tl el);
  }

  -- A timer that waits and is set to 0 leaves its list, in which others wait, and is in no list; the
  -- others stay in their order.
  pub set_zero :
      (t : Timers) (p : Ptr) (m : Timer) (tl : TimerList) (q : Ptr) (qs : List Ptr)
      → Inv type clock t
      → p ≢ null
      → m.list ≢ null
      → t.timers p ≡ some m
      → t.lists m.list ≡ some tl
      → tl.value ≢ 0
      → without p tl.timers ≡ q ∷ qs
      → (t' : Timers) × (set depth key fresh now type t p 0 ≡ some t')
        × Inv type clock t'
        × Free t' p
        × (t'.lists m.list ≡ some (list_of tl.value (q ∷ qs)))
  set_zero t p m tl q qs inv p_null l_null em el some_value others =
      let l = m.list in
      let t1 = detach t l tl p in
      let there : t1.lists l ≡ some (list_of tl.value (q ∷ qs)) =
        write_same t.lists l _ ∙ ap (λ ps. some (list_of tl.value ps)) others in
      let free = detach-Free type clock t l tl p m inv el em refl in
      (
        forget_list t1 p m,
        set_waiting t p m 0 p_null em l_null
            ∙ reschedule_zero t p m tl l_null el some_value
                (drop_some t1 l (list_of tl.value (q ∷ qs)) q qs l_null there refl),
        forget-Inv t1 p m (detach-Inv type clock t l tl p inv el) free,
        free,
        there,
      )

  compare-sign_of :
      (lists : Store TimerList) (a b : Ptr)
      → timer_compare lists a b ≡ sign_of (value_of lists a) (value_of lists b)
  unfolding timer_compare sign_of
  compare-sign_of lists a b = ground arith

  -- A timer that does not wait joins the list for its period that the tree has, as the last one.
  pub set_joins :
      (t : Timers) (p : Ptr) (m : Timer) (value : ℕ) (tree : RbTree) (f : Ptr) (tl : TimerList)
      → Inv type clock t
      → Free t p
      → p ≢ null
      → m.list ≡ null
      → t.timers p ≡ some m
      → value ≢ 0
      → Holds t.nodes null tree
      → t.root ≡ top tree
      → height tree < depth
      → Ordered (value_of (write t.lists key (list_of value []))) tree
      → find (value_of (write t.lists key (list_of value []))) value (inorder tree) ≡ f
      → f ≢ null
      → t.lists f ≡ some tl
      → suc t.version < u64_mod
      → (t' : Timers) × (set depth key fresh now type t p value ≡ some t')
        × Inv type now t'
        × (t'.lists f ≡ some (list_of tl.value (tl.timers ++ p ∷ [])))
  set_joins t p m value tree f tl inv free p_null m_null em some_value holds root deep ordered found
        f_null el small =
      let searched = write t.lists key (list_of value []) in
      let (t', e, inv', a) =
        add_lem type clock now t f tl p m inv free later f_null p_null el em small in
      let key_value : value_of searched key ≡ value =
        ap value_or_none (write_same t.lists key (list_of value [])) in
      let look =
        search-find (value_of searched) (timer_compare searched) key
          (λ b. compare-sign_of searched key b) t.nodes depth null tree holds ordered deep in
      let look' : Rbtree.search depth (timer_compare searched) t.root key t.nodes
          ≡ some (f, t.nodes) =
        ap (λ r. Rbtree.search depth (timer_compare searched) r key t.nodes) root
        ∙ look
        ∙ ap (λ x. some (x, t.nodes))
            (ap (λ v. find (value_of searched) v (inorder tree)) key_value ∙ found) in
      (
        t',
        set_free t p m value p_null em m_null
            ∙ schedule_found t p f value some_value f_null look'
            ∙ e,
        inv',
        a.list,
      )
