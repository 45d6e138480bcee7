-- ===== src/Mpscq/Order/Consumer.antt =====
-- The steps of the consumer keep the invariant of the queue.
use mathlib.Core.Path.{subst}
use libapi.Base.{
  ◌≡◌, ◌≢◌, refl, sym, ap, ◌∙◌, inl, inr, List, [], ◌∷◌, ◌++◌, false, ◌==◌, has, Bool-cases, ==→eq,
  not_==→ne, ne→not_==, ==_refl, append_assoc, append-nil,
}
use libapi.Memory.{Ptr, null}
use libapi.Mpscq.{
  Links, set, Place, start, second, compare_head, push_stub, link_stub, last_read, Progress,
  goes_on, returns, link, take_tail, pop_step, World, consumer_pending, progressed, consumed,
}
use libapi.Mpscq.Order.{payload, payload_keeps, payload_skips, payload-append, Core, At, Inv}
use libapi.Mpscq.Order.Producers.{Core-enter, Core-link}
use libapi.Mpscq.Line.{Line, set_same, not_in, Line-head, ne_of_in}

module _ (stub : Ptr) (stub_null : stub ≢ null) where
  -- If the tail has a next node, that node is the next one of the line.
  pub advance :
      (next pending : Links) (head a : Ptr) (r : List Ptr)
      → Line next pending head a r
      → next a ≢ null
      → (t : List Ptr) × (r ≡ next a ∷ t)
        × (has a (next a ∷ t) ≡ false)
        × (pending a ≡ null)
        × Line next pending head (next a) t
  advance next pending head a [] l some_node = absurd (some_node l.2)
  advance next pending head a (b ∷ t) l some_node = elim l.2 [
    | inl (e, f) ↦ (
      t,
      ap (λ x. x ∷ t) (sym e),
      rw e (l.1),
      f,
      subst (λ x. Line next pending head x t) (sym e) l.3,
    )
    | inr (e, f) ↦ absurd (some_node e)
  ]

  -- The tail goes on to the next node, and `popped` grows by the old one unless it is the stub.
  Core-advance :
      (w : World) (r : List Ptr) (at : Place) (popped : List Ptr)
      → Core stub w r
      → w.queue.next w.queue.tail ≢ null
      → w.popped ++ payload stub (w.queue.tail ∷ []) ≡ popped
      → (t : List Ptr) × (has w.queue.tail (w.queue.next w.queue.tail ∷ t) ≡ false)
        × Core stub
            (record w {
              queue = record (w.queue) { tail = w.queue.next w.queue.tail };
              place = at;
              popped = popped;
            })
            t
  Core-advance w r at popped c some_node e =
      let (t, er, apart, free, line) =
        advance w.queue.next w.pending w.queue.head w.queue.tail r c.line some_node in
      (
        t,
        apart,
        record {
          line = line;
          outside = λ p h. elim (Bool-cases (p == w.queue.tail)) [
            | inl same ↦ ap w.pending (==→eq p w.queue.tail same) ∙ free
            | inr other ↦ c.outside p (rw (er, other, h) refl)
          ];
          fifo =
              c.fifo
              ∙ ap (λ xs. w.popped ++ payload stub (w.queue.tail ∷ xs)) er
              ∙ ap (λ xs. w.popped ++ xs)
                  (payload-append stub (w.queue.tail ∷ []) (w.queue.next w.queue.tail ∷ t))
              ∙ sym (append_assoc w.popped _ _)
              ∙ ap (λ xs. xs ++ payload stub (w.queue.next w.queue.tail ∷ t)) e;
        },
      )

  -- If the tail is the head, nothing is behind it.
  alone :
      (next pending : Links) (head a : Ptr) (r : List Ptr)
      → Line next pending head a r
      → a ≡ head
      → r ≡ []
  alone next pending head a [] l e = refl
  alone next pending head a (b ∷ r) l e =
      absurd (ne_of_in head a (b ∷ r) (Line-head next pending head b r l.3) l.1 (sym e))

  -- The consumer stays where nothing changes but its place.
  Core-place :
      (w : World) (r : List Ptr) (at : Place)
      → Core stub w r
      → Core stub (record w { place = at }) r
  Core-place w r at c = record { line = c.line; outside = c.outside; fifo = c.fifo }

  present : (w : World) (r : List Ptr) → Core stub w r → w.queue.tail ≢ null
  present w [] c = c.line.0
  present w (b ∷ r) c = c.line.0

  payload_one : (x : Ptr) → x ≢ stub → payload stub (x ∷ []) ≡ x ∷ []
  unfolding payload
  payload_one x ne = payload_keeps stub x [] ne

  Inv-take :
      (w : World) (r : List Ptr) (otherwise : Progress)
      → Core stub w r
      → w.queue.tail ≢ stub
      → Inv stub (progressed w w.pending otherwise)
      → Inv stub (progressed w w.pending (take_tail w.queue otherwise))
  unfolding take_tail progressed
  Inv-take w r otherwise c ne i = elim (Bool-cases (w.queue.next w.queue.tail == null)) [
    | inl e ↦ rw e i
    | inr e ↦
        let (t, apart, c') =
          Core-advance w r start (w.popped ++ w.queue.tail ∷ []) c
            (not_==→ne (w.queue.next w.queue.tail) null e)
            (ap (λ xs. w.popped ++ xs) (payload_one w.queue.tail ne)) in
        rw (e, ne→not_== w.queue.tail null (present w r c)) (t, c', tt)
  ]

  skip_stub :
      (w : World) → w.queue.tail ≡ stub → w.popped ++ payload stub (w.queue.tail ∷ []) ≡ w.popped
  unfolding payload
  skip_stub w e = rw (e, ==_refl stub) (append-nil w.popped)

  payload_snoc : (xs : List Ptr) → payload stub (xs ++ stub ∷ []) ≡ payload stub xs
  unfolding payload
  payload_snoc xs =
      payload-append stub xs (stub ∷ [])
      ∙ ap (λ ys. payload stub xs ++ ys) (payload_skips stub [])
      ∙ append-nil (payload stub xs)

  Inv-step :
      (w : World) (r : List Ptr) (at : Place)
      → Core stub w r
      → At stub w r at
      → Inv stub
          (progressed w (consumer_pending stub at w.queue w.pending) (pop_step stub at w.queue))
  unfolding progressed consumer_pending pop_step
  Inv-step w r start c h = elim (Bool-cases (w.queue.tail == stub)) [
    | inl e ↦ elim (Bool-cases (w.queue.next w.queue.tail == null)) [
      | inl none_left ↦ rw (e, none_left) (r, Core-place w r start c, tt)
      | inr some_left ↦
          let (t, apart, c') =
            Core-advance w r second w.popped c
              (not_==→ne (w.queue.next w.queue.tail) null some_left)
              (skip_stub w (==→eq w.queue.tail stub e)) in
          rw (e, some_left)
            (
              t,
              c',
              λ e'.
                  (not_in w.queue.tail (w.queue.next w.queue.tail) t apart).0
                    (==→eq w.queue.tail stub e ∙ sym e'),
            )
    ]
    | inr e ↦
        let ne = not_==→ne w.queue.tail stub e in
        rw e
          (Inv-take w r (goes_on compare_head w.queue) c ne (r, Core-place w r compare_head c, ne))
  ]
  Inv-step w r second c h =
      Inv-take w r (goes_on compare_head w.queue) c h (r, Core-place w r compare_head c, h)
  Inv-step w r compare_head c h = elim (Bool-cases (w.queue.tail == w.queue.head)) [
    | inl e ↦
        let er =
          alone w.queue.next w.pending w.queue.head w.queue.tail r c.line
            (==→eq w.queue.tail w.queue.head e) in
        rw e (r, Core-place w r push_stub c, (h, rw er refl))
    | inr e ↦ rw e (r, Core-place w r start c, tt)
  ]
  Inv-step w r push_stub c h = (
    r ++ stub ∷ [],
    Core-enter stub stub_null w stub r w.pushed (link_stub w.queue.head) stub_null
        (rw (ne→not_== stub w.queue.tail (λ e. h.0 (sym e))) (h.1)) c
        (c.fifo ∙ ap (λ xs. w.popped ++ xs) (sym (payload_snoc (w.queue.tail ∷ r)))),
    (h.0, set_same w.pending w.queue.head stub),
  )
  Inv-step w r (link_stub prev) c h = (
    r,
    subst
        (λ x.
          Core stub
            (record w {
              queue = link prev x w.queue;
              place = last_read;
              pending = set w.pending prev null;
            })
            r)
        (h.1) (Core-link stub stub_null w prev r last_read (λ e. stub_null (sym h.1 ∙ e)) c),
    h.0,
  )
  Inv-step w r last_read c h =
      Inv-take w r (returns null w.queue) c h (r, Core-place w r start c, tt)

  pub Inv-consumes : (w : World) → Inv stub w → Inv stub (consumed stub w)
  unfolding consumed
  Inv-consumes w (r, c, h) = Inv-step w r w.place c h
