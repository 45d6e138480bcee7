-- ===== src/Mpscq/Order/Fifo.antt =====
-- However the threads of api/src/unix/api_mpscq.h interleave, nodes come out of the queue in the
-- order in which they went in; and a pop that meets no unfinished push returns the oldest one.
use mathlib.Core.Path.{subst}
use libapi.Base.{
  ℕ, suc, ◌≡◌, ◌≢◌, refl, sym, ap, ◌∙◌, inl, inr, List, [], ◌∷◌, ◌++◌, true, false, ◌==◌,
  Bool-cases, ==→eq, not_==→ne, ne→not_==, ==_refl, some, length, drop, drop-append,
}
use libapi.Memory.{Ptr, null}
use libapi.Mpscq.{
  Links, set, Queue, Place, start, second, compare_head, push_stub, link_stub, last_read, Progress,
  goes_on, returns, create, enter, link, take_tail, pop_step, pop_from, pop, World, enters, links,
  consumes, initial, Reachable, new, then_step,
}
use libapi.Mpscq.Line.{Line, Joined, set_same, not_in}
use libapi.Mpscq.Order.{payload, payload_skips, payload_keeps, Core, Inv}
use libapi.Mpscq.Order.Producers.{Inv-enters, Inv-links}
use libapi.Mpscq.Order.Consumer.{Inv-consumes}

-- The nodes that went in and have not come out.
unfoldable pub waiting : World → List Ptr
waiting w = drop (length w.popped) w.pushed

abbrev pub oldest : List Ptr → Ptr
oldest [] = null
oldest (x ∷ xs) = x

module _ (stub : Ptr) (stub_null : stub ≢ null) where
  Inv-initial : (next : Links) → Inv stub (initial stub next)
  unfolding initial create payload
  Inv-initial next = (
    [],
    record {
      line = (stub_null, refl, set_same next stub null, refl);
      outside = λ p h. refl;
      fifo = sym (payload_skips stub []);
    },
    tt,
  )

  pub Inv-Reachable : {w : World} → Reachable stub w → Inv stub w
  Inv-Reachable (new next) = Inv-initial next
  Inv-Reachable (then_step r (enters n ok ne fresh)) =
      Inv-enters stub stub_null _ n ok ne fresh (Inv-Reachable r)
  Inv-Reachable (then_step r (links prev some_node ne)) =
      Inv-links stub stub_null _ prev some_node ne (Inv-Reachable r)
  Inv-Reachable (then_step r consumes) = Inv-consumes stub stub_null _ (Inv-Reachable r)

  -- After any steps of any producers and the consumer, what was popped and then what waits is what
  -- was pushed, in the order of the exchanges: nothing is lost, doubled or overtaken. A producer
  -- pushes a node, neither null nor the stub, only while the node does not wait in the queue.
  pub popped_then_waiting : {w : World} → Reachable stub w → w.pushed ≡ w.popped ++ waiting w
  unfolding waiting
  popped_then_waiting {w} reach =
      let (r, c, at) = Inv-Reachable reach in
      c.fifo
      ∙ ap (λ xs. w.popped ++ xs)
          (sym (
            ap (drop (length w.popped)) c.fifo
            ∙ drop-append w.popped (payload stub (w.queue.tail ∷ r))))

  pub waiting_lem :
      (w : World) (r : List Ptr) → Core stub w r → waiting w ≡ payload stub (w.queue.tail ∷ r)
  unfolding waiting
  waiting_lem w r c =
      ap (drop (length w.popped)) c.fifo ∙ drop-append w.popped (payload stub (w.queue.tail ∷ r))

  first_node :
      (next pending : Links) (head a : Ptr) (r : List Ptr) → Line next pending head a r → a ≢ null
  first_node next pending head a [] l = l.0
  first_node next pending head a (b ∷ r) l = l.0

  joined :
      (q : Queue) (pending : Links) (b : Ptr)
      → ((p : Ptr) → pending p ≡ null)
      → b ≢ null
      → Joined (q.next q.tail) (pending q.tail) b
      → q.next q.tail ≡ b
  joined q pending b done ok (inl (e, f)) = e
  joined q pending b done ok (inr (e, f)) = absurd (ok (sym f ∙ done q.tail))

  goes :
      (fuel : ℕ) (at at' : Place) (q q' : Queue)
      → pop_step stub at q ≡ goes_on at' q'
      → pop_from (suc fuel) stub at q ≡ pop_from fuel stub at' q'
  unfolding pop_from
  goes fuel at at' q q' e = rw (e, pop_from) refl

  ends :
      (fuel : ℕ) (at : Place) (q q' : Queue) (p : Ptr)
      → pop_step stub at q ≡ returns p q'
      → pop_from (suc fuel) stub at q ≡ some (p, q')
  unfolding pop_from
  ends fuel at q q' p e = rw (e, pop_from) refl

  take_some :
      (q : Queue) (otherwise : Progress)
      → q.next q.tail ≢ null
      → take_tail q otherwise ≡ returns q.tail (record q { tail = q.next q.tail })
  unfolding take_tail
  take_some q otherwise h = rw (ne→not_== (q.next q.tail) null h) refl

  take_none :
      (q : Queue) (otherwise : Progress) → q.next q.tail ≡ null → take_tail q otherwise ≡ otherwise
  unfolding take_tail
  take_none q otherwise h = rw h refl

  -- The only node, which is not the stub: the stub is pushed behind it.
  take_only :
      (q : Queue) (fuel : ℕ)
      → q.tail ≡ q.head
      → q.next q.tail ≡ null
      → (q' : Queue) × (pop_from (suc (suc (suc (suc (suc fuel))))) stub second q
          ≡ some (q.tail, q'))
  unfolding pop_step enter link
  take_only q fuel at_head nothing =
      let relinked = record q { head = stub; next = set (set q.next stub null) q.head stub } in
      let behind : relinked.next q.tail ≢ null =
        λ e. stub_null (sym (rw at_head (set_same (set q.next stub null) q.head stub)) ∙ e) in
      (
        record relinked { tail = relinked.next q.tail },
        goes _ second compare_head q q (take_none q _ nothing)
            ∙ goes _ compare_head push_stub q q (rw (at_head, ==_refl q.head) refl)
            ∙ goes _ push_stub (link_stub q.head) q (enter stub q) refl
            ∙ goes _ (link_stub q.head) last_read (enter stub q) relinked refl
            ∙ ends _ last_read relinked _ q.tail (take_some relinked _ behind),
      )

  -- A tail that is not the stub is returned.
  take_oldest :
      (q : Queue) (pending : Links) (r : List Ptr) (fuel : ℕ)
      → Line q.next pending q.head q.tail r
      → ((p : Ptr) → pending p ≡ null)
      → (q' : Queue) × (pop_from (suc (suc (suc (suc (suc fuel))))) stub second q
          ≡ some (q.tail, q'))
  unfolding pop_step
  take_oldest q pending [] fuel l done = take_only q fuel l.1 l.2
  take_oldest q pending (b ∷ t) fuel l done =
      let behind : q.next q.tail ≢ null = λ e.
        first_node q.next pending q.head b t l.3
          (sym (joined q pending b done (first_node q.next pending q.head b t l.3) l.2) ∙ e) in
      (_, ends _ second q _ q.tail (take_some q _ behind))

  -- Where the tail is not the stub, the first read does what the second one does.
  from_start :
      (q : Queue) (fuel : ℕ)
      → q.tail ≢ stub
      → pop_from (suc fuel) stub start q ≡ pop_from (suc fuel) stub second q
  unfolding pop_from pop_step
  from_start q fuel ne = rw (ne→not_== q.tail stub ne, pop_from, pop_step) refl

  from_stub :
      (q : Queue) (pending : Links) (r : List Ptr)
      → Line q.next pending q.head q.tail r
      → ((p : Ptr) → pending p ≡ null)
      → q.tail ≡ stub
      → (q' : Queue) × (pop stub q ≡ some (oldest (payload stub r), q'))
  unfolding pop pop_step payload
  from_stub q pending [] l done e =
      let is_stub : (q.tail == stub) ≡ true = rw e (==_refl stub) in
      let nothing : (q.next q.tail == null) ≡ true = rw (l.2) refl in
      (q, ends 5 start q q null (rw (is_stub, nothing) refl))
  from_stub q pending (b ∷ t) l done e =
      let b_null = first_node q.next pending q.head b t l.3 in
      let next = joined q pending b done b_null l.2 in
      let is_stub : (q.tail == stub) ≡ true = rw e (==_refl stub) in
      let something : (q.next q.tail == null) ≡ false =
        ne→not_== (q.next q.tail) null (λ e'. b_null (sym next ∙ e')) in
      let moved = record q { tail = q.next q.tail } in
      let (q', e') =
        take_oldest moved pending t 0 (subst (λ x. Line q.next pending q.head x t) (sym next) l.3)
          done in
      let b_stub : b ≢ stub = λ e''. (not_in q.tail b t l.1).0 (e ∙ sym e'') in
      (
        q',
        goes 5 start second q moved (rw (is_stub, something) refl)
            ∙ e'
            ∙ ap (λ x. some (x, q')) (next ∙ sym (ap oldest (payload_keeps stub b t b_stub))),
      )

  pop_lem :
      (q : Queue) (pending : Links) (r : List Ptr)
      → Line q.next pending q.head q.tail r
      → ((p : Ptr) → pending p ≡ null)
      → (q' : Queue) × (pop stub q ≡ some (oldest (payload stub (q.tail ∷ r)), q'))
  unfolding pop pop_step payload
  pop_lem q pending r l done = elim (Bool-cases (q.tail == stub)) [
    | inr e ↦
        let (q', e') = take_oldest q pending r 1 l done in
        (q', from_start q 5 (not_==→ne q.tail stub e) ∙ e' ∙ rw e refl)
    | inl e ↦ rw e (from_stub q pending r l done (==→eq q.tail stub e))
  ]

  -- In a queue with unfinished pushes a pop may return null too early; if there are none, a pop
  -- that runs alone returns the node that has waited longest, or null if none waits.
  pub pop-oldest :
      {w : World}
      → Reachable stub w
      → ((p : Ptr) → w.pending p ≡ null)
      → (q : Queue) × (pop stub w.queue ≡ some (oldest (waiting w), q))
  pop-oldest {w} reach done =
      let (r, c, at) = Inv-Reachable reach in
      rw (waiting_lem w r c) (pop_lem w.queue w.pending r c.line done)
