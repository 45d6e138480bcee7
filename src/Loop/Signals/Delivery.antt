-- ===== src/Loop/Signals/Delivery.antt =====
-- No message that is posted to a loop of api/src/unix/api_async.c is lost.
use mathlib.Core.Path.{subst}
use libapi.Base.{
  ◌<◌, ◌≡◌, ◌≢◌, refl, sym, ap, ◌∙◌, ◌⊎◌, inl, inr, List, ◌∷◌, false, has, drop, length, arith,
}
use libapi.Memory.{Ptr, null}
use libapi.Mpscq.{
  Links, Place, start, second, compare_head, push_stub, link_stub, last_read, enter, link, World,
  entered, linked, initial,
}
use libapi.Mpscq.Line.{not_in}
use libapi.Mpscq.Order.{out_of_payload, Core, Inv}
use libapi.Mpscq.Order.Fifo.{waiting, waiting_lem, Inv-Reachable}
use libapi.Loop.Signals.{
  Asyncs, enters_queue, links_queue, writes_signal, reads_signal, Step, enters, links, signals,
  wakes, pops, started, Run, new, then_step,
}
use libapi.Loop.Signals.Draining.{
  Active, Active-enters, Active-links, Active-signals, Good, Sees, pops-Good,
}
use libapi.Loop.Signals.Stub.{Run-Reachable, Run-StubLink, StubLink}

module _ (stub : Ptr) (stub_null : stub ≢ null) where
  newcomer :
      (w : World) (r : List Ptr) (n : Ptr)
      → Core stub w r
      → n ≢ stub
      → has n (drop (length w.popped) w.pushed) ≡ false
      → w.queue.tail ≢ n
  unfolding waiting
  newcomer w r n c ne h e =
      (not_in n w.queue.tail r (
          out_of_payload stub n (w.queue.tail ∷ r) ne
            (ap (has n) (sym (waiting_lem stub stub_null w r c)) ∙ h))).0
        (sym e)

  Sees-enters :
      (w : Asyncs) (r : List Ptr) (n : Ptr) (at : Place)
      → Core stub w.line r
      → n ≢ null
      → n ≢ stub
      → has n (drop (length w.line.popped) w.line.pushed) ≡ false
      → Sees stub stub_null w at
      → Sees stub stub_null (enters_queue n w) at
  unfolding enters_queue entered enter
  Sees-enters w r n start c a b h s = tt
  Sees-enters w r n second c a b h s = tt
  Sees-enters w r n compare_head c a b h s = inr (Active-enters stub stub_null n w a b)
  Sees-enters w r n push_stub c a b h s = tt
  Sees-enters w r n (link_stub p) c a b h s = newcomer w.line r n c b h
  Sees-enters w r n last_read c a b h s = newcomer w.line r n c b h

  -- A change that leaves the head and the tail, and after stub stub_null which something is under way.
  Sees-Active :
      (w v : Asyncs) (at : Place)
      → v.line.queue.tail ≡ w.line.queue.tail
      → v.line.queue.head ≡ w.line.queue.head
      → Active stub stub_null v
      → Sees stub stub_null w at
      → Sees stub stub_null v at
  Sees-Active w v start t h a s = tt
  Sees-Active w v second t h a s = tt
  Sees-Active w v compare_head t h a s = inr a
  Sees-Active w v push_stub t h a s = tt
  Sees-Active w v (link_stub p) t h a s = λ e. s (sym t ∙ e ∙ h)
  Sees-Active w v last_read t h a s = λ e. s (sym t ∙ e ∙ h)

  Step-Good :
      {w v : Asyncs}
      → Inv stub w.line
      → StubLink stub stub_null w.line
      → Step stub w v
      → Good stub stub_null w
      → Good stub stub_null v
  unfolding enters_queue links_queue writes_signal reads_signal entered linked link
  Step-Good {w} (r, c, at) l (enters n a b h) g = record {
    sees = Sees-enters w r n w.line.place c a b h g.sees;
    idle = g.idle;
    served = λ e. inr (Active-enters stub stub_null n w a b);
  }
  Step-Good {w} i l (links p a b) g = record {
    sees =
        Sees-Active w (links_queue p w) w.line.place refl refl (Active-links stub stub_null p w)
          g.sees;
    idle = g.idle;
    served = λ e. inr (Active-links stub stub_null p w);
  }
  Step-Good {w} i l (signals h) g = record {
    sees =
        Sees-Active w (writes_signal w) w.line.place refl refl (Active-signals stub stub_null w)
          g.sees;
    idle = g.idle;
    served = λ e. inr (Active-signals stub stub_null w);
  }
  Step-Good {w} i l (wakes e s) g = record {
    sees = subst (Sees stub stub_null (reads_signal w)) (sym (g.idle e)) tt;
    idle = λ d. g.idle e;
    served = λ d. cc d;
  }
  Step-Good {w} i l (pops h) g = pops-Good stub stub_null w i l g

  started-Good : (next : Links) → Good stub stub_null (started stub next)
  unfolding started initial
  started-Good next = record { sees = tt; idle = λ e. refl; served = λ e. inl refl }

  Run-Good : {w : Asyncs} → Run stub w → Good stub stub_null w
  Run-Good (new next) = started-Good next
  Run-Good (then_step r s) =
      Step-Good (Inv-Reachable stub stub_null (Run-Reachable stub stub_null r))
        (Run-StubLink stub stub_null r) s (Run-Good r)

  -- However the threads and the loop interleave, while the loop waits in epoll_wait and no thread is
  -- between the start of its push and the end of its eventfd_write, the loop has popped every message
  -- that was posted, or the counter of the eventfd is not zero, so that the loop is to wake.
  pub Run-delivered :
      {w : Asyncs}
      → Run stub w
      → w.draining ≡ false
      → w.owing ≡ 0
      → ((p : Ptr) → w.line.pending p ≡ null)
      → (w.line.popped ≡ w.line.pushed) ⊎ (0 < w.signals)
  Run-delivered r e none_owing none_pending = elim ((Run-Good r).served e) [
    | inl all ↦ inl (sym all)
    | inr active ↦ elim active [
      | inl signalled ↦ inr signalled
      | inr coming ↦ elim coming [
        | inl owing ↦ absurd (omega arith)
        | inr (p, some_node, other) ↦ absurd (some_node (none_pending p))
      ]
    ]
  ]
