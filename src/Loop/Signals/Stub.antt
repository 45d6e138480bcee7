-- ===== src/Loop/Signals/Stub.antt =====
-- The stub of the queue behind the messages of api/src/unix/api_async.c: only a pop puts it in.
use libapi.Base.{
  ◌≡◌, ◌≢◌, refl, sym, ap, ◌∙◌, inl, inr, Bool, true, false, ◌==◌, Bool-cases, ==→eq, not_==→ne,
}
use libapi.Memory.{Ptr, null}
use libapi.Mpscq.{
  Links, set, Queue, Place, start, second, compare_head, push_stub, link_stub, last_read, Progress,
  goes_on, returns, enter, link, create, take_tail, pop_step, World, entered, linked, consumed,
  consumer_pending, progressed, initial, Reachable,
}
use libapi.Mpscq as Mpscq
use libapi.Mpscq.Line.{set_same, set_other}
use libapi.Loop.Signals.{
  Asyncs, enters_queue, links_queue, writes_signal, reads_signal, pops_step, Step, enters, links,
  signals, wakes, pops, started, Run, new, then_step,
}

module _ (stub : Ptr) (stub_null : stub ≢ null) where
  pub Run-Reachable : {w : Asyncs} → Run stub w → Reachable stub w.line
  unfolding started enters_queue links_queue writes_signal reads_signal pops_step
  Run-Reachable (new next) = Mpscq.new next
  Run-Reachable (then_step r (enters n a b c)) =
      Mpscq.then_step (Run-Reachable r) (Mpscq.enters n a b c)
  Run-Reachable (then_step r (links p a b)) = Mpscq.then_step (Run-Reachable r) (Mpscq.links p a b)
  Run-Reachable (then_step r (signals h)) = Run-Reachable r
  Run-Reachable (then_step r (wakes h s)) = Run-Reachable r
  Run-Reachable (then_step r (pops h)) = Mpscq.then_step (Run-Reachable r) Mpscq.consumes

  -- Only the consumer puts the stub in, and it links it before it does anything else.
  abbrev pub StubLink : World → Type 0
  StubLink w = (p : Ptr) → w.pending p ≡ stub → w.place ≡ link_stub p

  link_stub_place : {p q : Ptr} → link_stub p ≡ link_stub q → p ≡ q
  link_stub_place e = cc e

  -- No link of the stub is to come.
  abbrev pub StubFree : Links → Type 0
  StubFree f = (p : Ptr) → f p ≢ stub

  set-StubLink :
      (w : World) (p q a : Ptr)
      → q ≢ stub
      → (w.pending a ≡ stub → w.place ≡ link_stub a)
      → set w.pending p q a ≡ stub
      → w.place ≡ link_stub a
  set-StubLink w p q a n h e = elim (Bool-cases (a == p)) [
    | inl same ↦
        absurd
          (n (sym (set_same w.pending p q) ∙ ap (set w.pending p q) (sym (==→eq a p same)) ∙ e))
    | inr other ↦ h (sym (set_other w.pending p q a (not_==→ne a p other)) ∙ e)
  ]

  set-StubFree : (f : Links) (p : Ptr) → ((a : Ptr) → f a ≡ stub → a ≡ p) → StubFree (set f p null)
  set-StubFree f p h a e = elim (Bool-cases (a == p)) [
    | inl same ↦ stub_null (sym e ∙ ap (set f p null) (==→eq a p same) ∙ set_same f p null)
    | inr other ↦ not_==→ne a p other (h a (sym (set_other f p null a (not_==→ne a p other)) ∙ e))
  ]

  progressed-StubLink :
      (w : World) (f : Links) (x : Progress) → StubFree f → StubLink (progressed w f x)
  unfolding progressed
  progressed-StubLink w f (goes_on at q) free p e = absurd (free p e)
  progressed-StubLink w f (returns n q) free p e = absurd (free p e)

  abbrev links_stub : Place → Bool
  links_stub (link_stub prev) = true
  links_stub _ = false

  pub elsewhere :
      (w : World) (at : Place)
      → w.place ≡ at
      → links_stub at ≡ false
      → StubLink w
      → StubFree w.pending
  elsewhere w at e n h p d = cc (sym n ∙ ap links_stub (sym e ∙ h p d))

  pushed_stub :
      (w : World)
      → w.place ≡ push_stub
      → StubLink w
      → StubLink (progressed w (set w.pending w.queue.head stub) (pop_step stub push_stub w.queue))
  unfolding progressed pop_step
  pushed_stub w e h p d = elim (Bool-cases (p == w.queue.head)) [
    | inl same ↦ ap link_stub (sym (==→eq p w.queue.head same))
    | inr other ↦ absurd (
        elsewhere w push_stub e refl h p
          (sym (set_other w.pending w.queue.head stub p (not_==→ne p w.queue.head other)) ∙ d))
  ]

  consumed-StubLink :
      (w : World) (at : Place)
      → w.place ≡ at
      → StubLink w
      → StubLink
          (progressed w (consumer_pending stub at w.queue w.pending) (pop_step stub at w.queue))
  unfolding consumer_pending
  consumed-StubLink w start e h = progressed-StubLink w w.pending _ (elsewhere w start e refl h)
  consumed-StubLink w second e h = progressed-StubLink w w.pending _ (elsewhere w second e refl h)
  consumed-StubLink w compare_head e h =
      progressed-StubLink w w.pending _ (elsewhere w compare_head e refl h)
  consumed-StubLink w push_stub e h = pushed_stub w e h
  consumed-StubLink w (link_stub prev) e h =
      progressed-StubLink w _ _
        (set-StubFree w.pending prev (λ a d. link_stub_place (sym (h a d) ∙ e)))
  consumed-StubLink w last_read e h =
      progressed-StubLink w w.pending _ (elsewhere w last_read e refl h)

  consumed_link : (w : World) → StubLink w → StubLink (consumed stub w)
  unfolding consumed
  consumed_link w l = consumed-StubLink w w.place refl l

  Step-StubLink : {w v : Asyncs} → Step stub w v → StubLink w.line → StubLink v.line
  unfolding enters_queue links_queue writes_signal reads_signal pops_step entered linked
  Step-StubLink {w} (enters n a b c) l p = set-StubLink w.line w.line.queue.head n p b (l p)
  Step-StubLink {w} (links q a b) l p = set-StubLink w.line q null p (λ e. stub_null (sym e)) (l p)
  Step-StubLink (signals h) l p = l p
  Step-StubLink (wakes h s) l p = l p
  Step-StubLink {w} (pops h) l p = consumed_link w.line l p

  started-StubLink : (next : Links) → StubLink (started stub next).line
  unfolding started initial
  started-StubLink next p e = absurd (stub_null (sym e))

  pub Run-StubLink : {w : Asyncs} → Run stub w → StubLink w.line
  Run-StubLink (new next) = started-StubLink next
  Run-StubLink (then_step r s) = Step-StubLink s (Run-StubLink r)
