-- ===== src/Loop/Signals/Draining.antt =====
-- What the pops of `api_async_processor` of api/src/unix/api_async.c leave when one gives null.
use libapi.Base.{
  ◌-◌, ◌<◌, ◌≡◌, ◌≢◌, refl, sym, ap, ◌∙◌, ◌⊎◌, inl, inr, List, [], ◌∷◌, ◌++◌, false, not, ◌==◌,
  u64_max, arith, Bool-cases, ==→eq, not_==→ne, ne→not_==, append-nil,
}
use libapi.Memory.{Ptr, null}
use libapi.Mpscq.{
  Links, Queue, Place, start, second, compare_head, push_stub, link_stub, last_read, Progress,
  goes_on, returns, enter, link, take_tail, pop_step, World, entered, consumed, consumer_pending,
  progressed,
}
use libapi.Mpscq.Line.{set_same}
use libapi.Mpscq.Order.{payload, payload_skips, Core, At, Inv}
use libapi.Loop.Signals.{Asyncs, enters_queue, links_queue, writes_signal, gives_null, pops_step}
use libapi.Loop.Signals.Stub.{StubFree, StubLink, elsewhere}

module _ (stub : Ptr) (stub_null : stub ≢ null) where
  -- A thread is about to link a message.
  abbrev Pushing : Links → Type 0
  Pushing f = (p : Ptr) × (f p ≢ null) × (f p ≢ stub)

  -- A signal stands, or a thread is on its way to write one.
  abbrev pub Active : Asyncs → Type 0
  Active w = (0 < w.signals) ⊎ ((0 < w.owing) ⊎ Pushing w.line.pending)

  -- What a pop knows of the queue at each place, where it could give null too early.
  abbrev pub Sees : Asyncs → Place → Type 0
  Sees w compare_head = (w.line.queue.tail ≡ w.line.queue.head) ⊎ Active w
  Sees w (link_stub prev) = w.line.queue.tail ≢ w.line.queue.head
  Sees w last_read = w.line.queue.tail ≢ w.line.queue.head
  Sees w _ = Unit {0}

  abbrev Served : Asyncs → Type 0
  Served w = (w.line.pushed ≡ w.line.popped) ⊎ Active w

  pub record Good (w : Asyncs) : Type 0 where
    pub sees : Sees w w.line.place
    pub idle : w.draining ≡ false → w.line.place ≡ start
    pub served : w.draining ≡ false → Served w

  -- A tail that has no next node is the head, or the thread that has put a node behind it is about to
  -- link it.
  behind :
      (w : World) (r : List Ptr)
      → Core stub w r
      → (w.pending w.queue.tail ≢ stub)
      → w.queue.next w.queue.tail ≡ null
      → ((w.queue.tail ≡ w.queue.head) × (r ≡ [])) ⊎ Pushing w.pending
  behind w [] c n e = inl (c.line.1, refl)
  behind w (b ∷ t) c n e = elim c.line.2 [
    | inl (next, free) ↦ absurd (first_some w b t c (sym next ∙ e))
    | inr (none_next, mine) ↦ inr (w.queue.tail, (λ z. first_some w b t c (sym mine ∙ z)), n)
  ]
    where
      first_some : (w : World) (b : Ptr) (t : List Ptr) → Core stub w (b ∷ t) → b ≢ null
      first_some w b [] c = c.line.3.0
      first_some w b (d ∷ t) c = c.line.3.0

  pub Active-enters : (n : Ptr) (w : Asyncs) → n ≢ null → n ≢ stub → Active (enters_queue n w)
  unfolding enters_queue entered
  Active-enters n w a b = inr (
      inr (
        w.line.queue.head,
        (λ e. a (sym (set_same w.line.pending w.line.queue.head n) ∙ e)),
        (λ e. b (sym (set_same w.line.pending w.line.queue.head n) ∙ e)),
      ))

  pub Active-links : (p : Ptr) (w : Asyncs) → Active (links_queue p w)
  unfolding links_queue
  Active-links p w = inr (inl (omega arith))

  pub Active-signals : (w : Asyncs) → Active (writes_signal w)
  unfolding writes_signal
  Active-signals w = elim (Bool-cases (w.signals == u64_max - 1)) [
    | inl e ↦ rw e (inl (rw (==→eq w.signals (u64_max - 1) e) (omega arith)))
    | inr e ↦ rw e (inl (omega arith))
  ]

  -- The loop behind a step of a pop.
  abbrev after : Asyncs → Links → Progress → Asyncs
  after w f x = record w { line = progressed w.line f x; draining = not (gives_null x) }

  Good-goes :
      (w : Asyncs) (f : Links) (at : Place) (q : Queue)
      → Sees (after w f (goes_on at q)) at
      → Good (after w f (goes_on at q))
  unfolding progressed
  Good-goes w f at q h = record { sees = h; idle = λ e. cc e; served = λ e. cc e }

  Good-returns :
      (w : Asyncs) (f : Links) (n : Ptr) (q : Queue) → n ≢ null → Good (after w f (returns n q))
  unfolding progressed
  Good-returns w f n q h =
      rw (ne→not_== n null h) (record { sees = tt; idle = λ e. refl; served = λ e. cc e })

  Good-ends : (w : Asyncs) (q : Queue) → Served w → Good (after w w.line.pending (returns null q))
  unfolding progressed
  Good-ends w q h = record { sees = tt; idle = λ e. refl; served = λ e. h }

  tail_some : (w : World) (r : List Ptr) → Core stub w r → w.queue.tail ≢ null
  tail_some w [] c = c.line.0
  tail_some w (b ∷ t) c = c.line.0

  Good-take :
      (w : Asyncs) (r : List Ptr) (otherwise : Progress)
      → Core stub w.line r
      → StubFree stub stub_null w.line.pending
      → (((w.line.queue.tail ≡ w.line.queue.head) × (r ≡ [])) ⊎ Pushing w.line.pending
          → Good (after w w.line.pending otherwise))
      → Good (after w w.line.pending (take_tail w.line.queue otherwise))
  unfolding take_tail
  Good-take w r otherwise c free h =
      elim (Bool-cases (w.line.queue.next w.line.queue.tail == null)) [
        | inl e ↦ rw e (h (behind w.line r c (free w.line.queue.tail) (==→eq _ null e)))
        | inr e ↦ rw e (Good-returns w w.line.pending w.line.queue.tail _ (tail_some w.line r c))
      ]

  all_popped :
      (w : World) (r : List Ptr)
      → Core stub w r
      → w.queue.tail ≡ stub
      → r ≡ []
      → w.pushed ≡ w.popped
  unfolding payload
  all_popped w r c e er =
      c.fifo
      ∙ ap (λ xs. w.popped ++ payload stub (w.queue.tail ∷ xs)) er
      ∙ ap (λ t. w.popped ++ payload stub (t ∷ [])) e
      ∙ ap (λ xs. w.popped ++ xs) (payload_skips stub [])
      ∙ append-nil w.popped

  -- Before the comparison of the tail with the head.
  Good-compare :
      (w : Asyncs) (r : List Ptr)
      → Core stub w.line r
      → StubFree stub stub_null w.line.pending
      → Good (after w w.line.pending (take_tail w.line.queue (goes_on compare_head w.line.queue)))
  unfolding progressed
  Good-compare w r c free = Good-take w r (goes_on compare_head w.line.queue) c free (λ h.
      Good-goes w w.line.pending compare_head w.line.queue
        (elim h [ inl (at_head, er) ↦ inl at_head | inr pushing ↦ inr (inr (inr pushing)) ]))

  consumed-Good :
      (w : Asyncs) (r : List Ptr) (at : Place)
      → w.line.place ≡ at
      → Core stub w.line r
      → At stub w.line r at
      → StubLink stub stub_null w.line
      → Sees w at
      → Good (
          after w
            (consumer_pending stub at w.line.queue w.line.pending)
            (pop_step stub at w.line.queue))
  unfolding consumer_pending pop_step progressed enter link
  consumed-Good w r start e c a l s = elim (Bool-cases (w.line.queue.tail == stub)) [
    | inl is_stub ↦ elim (Bool-cases (w.line.queue.next w.line.queue.tail == null)) [
      | inl nothing ↦
          rw (is_stub, nothing)
            (Good-ends w w.line.queue
              (elim (behind w.line r c
                (elsewhere stub stub_null w.line start e refl l w.line.queue.tail)
                (==→eq _ null nothing)) [
                  | inl (at_head, er) ↦ inl (all_popped w.line r c (==→eq _ stub is_stub) er)
                  | inr pushing ↦ inr (inr (inr pushing))
                ]))
      | inr something ↦ rw (is_stub, something) (Good-goes w w.line.pending second _ tt)
    ]
    | inr other ↦ rw other (Good-compare w r c (elsewhere stub stub_null w.line start e refl l))
  ]
  consumed-Good w r second e c a l s =
      Good-compare w r c (elsewhere stub stub_null w.line second e refl l)
  consumed-Good w r compare_head e c a l s =
      elim (Bool-cases (w.line.queue.tail == w.line.queue.head)) [
        | inl same ↦ rw same (Good-goes w w.line.pending push_stub _ tt)
        | inr other ↦ rw other (
            Good-ends w w.line.queue (elim s [
              | inl at_head ↦ absurd (not_==→ne _ _ other at_head)
              | inr active ↦ inr active
            ]))
      ]
  consumed-Good w r push_stub e c a l s = Good-goes w _ _ _ a.0
  consumed-Good w r (link_stub prev) e c a l s = Good-goes w _ last_read _ s
  consumed-Good w r last_read e c a l s =
      Good-take w r (returns null w.line.queue) c
        (elsewhere stub stub_null w.line last_read e refl l)
        (λ h. Good-ends w w.line.queue (elim h [
          | inl (at_head, er) ↦ absurd (s at_head)
          | inr pushing ↦ inr (inr (inr pushing))
        ]))

  pub pops-Good :
      (w : Asyncs)
      → Inv stub w.line
      → StubLink stub stub_null w.line
      → Good w
      → Good (pops_step stub w)
  unfolding pops_step consumed
  pops-Good w (r, c, a) l g = consumed-Good w r w.line.place refl c a l g.sees
