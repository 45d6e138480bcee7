-- ===== src/Mpscq/Order/Producers.antt =====
-- The steps of producers keep the invariant of the queue.
use libapi.Base.{
  ◌≡◌, ◌≢◌, sym, ap, ◌∙◌, inl, inr, List, [], ◌∷◌, ◌++◌, true, false, has, Bool-cases, drop, length,
  drop-append, append_assoc,
}
use libapi.Memory.{Ptr, null}
use libapi.Mpscq.{
  set, Place, start, second, compare_head, push_stub, link_stub, last_read, enter, link, World,
  entered, linked,
}
use libapi.NodeList.Chain.{out_left}
use libapi.Mpscq.Order.{payload, payload_keeps, payload-append, out_of_payload, Core, At, Inv}
use libapi.Mpscq.Line.{
  Line-free, set_other, Line-head, Line-enter, Line-link, ne_of_in, not_in_snoc,
}

module _ (stub : Ptr) (stub_null : stub ≢ null) where
  -- A node that the caller may push is not in the line.
  not_in_line :
      (w : World) (n : Ptr) (r : List Ptr)
      → n ≢ stub
      → has n (drop (length w.popped) w.pushed) ≡ false
      → Core stub w r
      → has n (w.queue.tail ∷ r) ≡ false
  not_in_line w n r ne fresh c =
      out_of_payload stub n (w.queue.tail ∷ r) ne
        (rw (c.fifo, drop-append w.popped (payload stub (w.queue.tail ∷ r))) at fresh)

  put_behind :
      (w : World) (n : Ptr) (r : List Ptr)
      → n ≢ stub
      → Core stub w r
      → w.pushed ++ n ∷ [] ≡ w.popped ++ payload stub (w.queue.tail ∷ r ++ n ∷ [])
  unfolding payload
  put_behind w n r ne c =
      ap (λ xs. xs ++ n ∷ []) c.fifo
      ∙ append_assoc w.popped (payload stub (w.queue.tail ∷ r)) (n ∷ [])
      ∙ ap (λ xs. w.popped ++ xs)
          (sym (
            payload-append stub (w.queue.tail ∷ r) (n ∷ [])
            ∙ ap (λ xs. payload stub (w.queue.tail ∷ r) ++ xs) (payload_keeps stub n [] ne)))

  -- A node goes in behind the head, by a producer or by the consumer.
  pub Core-enter :
      (w : World) (n : Ptr) (r : List Ptr) (pushed : List Ptr) (at : Place)
      → n ≢ null
      → has n (w.queue.tail ∷ r) ≡ false
      → Core stub w r
      → pushed ≡ w.popped ++ payload stub (w.queue.tail ∷ r ++ n ∷ [])
      → Core stub
          (record w {
            queue = enter n w.queue;
            place = at;
            pending = set w.pending w.queue.head n;
            pushed = pushed;
          })
          (r ++ n ∷ [])
  unfolding enter
  Core-enter w n r pushed at ok out c e = record {
    line =
        Line-enter w.queue.next w.pending w.queue.head n w.queue.tail r ok out (c.outside n out)
          c.line;
    outside = λ p h.
        let h' = out_left p (w.queue.tail ∷ r) (n ∷ []) h in
        set_other w.pending w.queue.head n p (λ e'.
          ne_of_in w.queue.head p (w.queue.tail ∷ r)
            (Line-head w.queue.next w.pending w.queue.head w.queue.tail r c.line) h' (sym e'))
        ∙ c.outside p h';
    fifo = e;
  }

  -- A pending link is made, by a producer or by the consumer.
  pub Core-link :
      (w : World) (prev : Ptr) (r : List Ptr) (at : Place)
      → w.pending prev ≢ null
      → Core stub w r
      → Core stub
          (record w {
            queue = link prev (w.pending prev) w.queue;
            place = at;
            pending = set w.pending prev null;
          })
          r
  unfolding link
  Core-link w prev r at some_node c = record {
    line = Line-link w.queue.next w.pending w.queue.head prev w.queue.tail r some_node there c.line;
    outside = λ p h. set_other w.pending prev null p (ne_of_in' h) ∙ c.outside p h;
    fifo = c.fifo;
  }
    where
      there : has prev (w.queue.tail ∷ r) ≡ true
      there = elim (Bool-cases (has prev (w.queue.tail ∷ r))) [
        | inl e ↦ e
        | inr e ↦ absurd (some_node (c.outside prev e))
      ]

      ne_of_in' : {p : Ptr} → has p (w.queue.tail ∷ r) ≡ false → p ≢ prev
      ne_of_in' {p} h e = ne_of_in prev p (w.queue.tail ∷ r) there h (sym e)

  At-enters :
      (w : World) (n : Ptr) (r : List Ptr) (at : Place)
      → n ≢ stub
      → Core stub w r
      → At stub w r at
      → At stub (entered n w) (r ++ n ∷ []) at
  unfolding entered enter
  At-enters w n r start ne c h = tt
  At-enters w n r second ne c h = h
  At-enters w n r compare_head ne c h = h
  At-enters w n r push_stub ne c h = (h.0, not_in_snoc stub r n h.1 (λ e. ne (sym e)))
  At-enters w n r (link_stub prev) ne c h = (
    h.0,
    set_other w.pending w.queue.head n prev (λ e. stub_null (
          sym h.1
          ∙ ap w.pending e
          ∙ Line-free w.queue.next w.pending w.queue.head w.queue.tail r c.line))
        ∙ h.1,
  )
  At-enters w n r last_read ne c h = h

  At-links :
      (w : World) (prev : Ptr) (r : List Ptr) (at : Place)
      → w.pending prev ≢ stub
      → At stub w r at
      → At stub (linked prev w) r at
  unfolding linked link
  At-links w prev r start ne h = tt
  At-links w prev r second ne h = h
  At-links w prev r compare_head ne h = h
  At-links w prev r push_stub ne h = h
  At-links w prev r (link_stub p) ne h =
      (h.0, set_other w.pending prev null p (λ e. ne (ap w.pending (sym e) ∙ h.1)) ∙ h.1)
  At-links w prev r last_read ne h = h

  pub Inv-enters :
      (w : World) (n : Ptr)
      → n ≢ null
      → n ≢ stub
      → has n (drop (length w.popped) w.pushed) ≡ false
      → Inv stub w
      → Inv stub (entered n w)
  unfolding entered
  Inv-enters w n ok ne fresh (r, c, at) =
      let out = not_in_line w n r ne fresh c in
      (
        r ++ n ∷ [],
        Core-enter w n r (w.pushed ++ n ∷ []) w.place ok out c (put_behind w n r ne c),
        At-enters w n r w.place ne c at,
      )

  pub Inv-links :
      (w : World) (prev : Ptr)
      → w.pending prev ≢ null
      → w.pending prev ≢ stub
      → Inv stub w
      → Inv stub (linked prev w)
  unfolding linked
  Inv-links w prev some_node ne (r, c, at) =
      (r, Core-link w prev r w.place some_node c, At-links w prev r w.place ne at)
