-- ===== src/Mpscq/Order.antt =====
-- What holds of the queue of api/src/unix/api_mpscq.h between any two steps of its threads.
pub mod Producers
pub mod Consumer
pub mod Fifo
use libapi.Base.{
  ◌≡◌, ◌≢◌, refl, sym, ap, ◌∙◌, ◌⊎◌, inl, inr, List, [], ◌∷◌, ◌++◌, Bool, true, false, ◌||◌, ◌==◌,
  has, arith, Bool-cases, ==→eq, not_==→ne, ne→not_==, ==_refl, if◌then◌else◌, drop, length,
  drop-append, append_assoc, append-nil,
}
use libapi.Memory.{Ptr, null}
use libapi.Mpscq.{
  Links, set, Queue, Place, start, second, compare_head, push_stub, link_stub, last_read, Progress,
  goes_on, returns, create, enter, link, take_tail, pop_step, World, entered, linked,
  consumer_pending, progressed, consumed, Step, enters, links, consumes, initial, Reachable, new,
  then_step,
}
use libapi.NodeList.Chain.{out_left}
use libapi.Mpscq.Line.{
  Line, Joined, set_same, set_other, in_head, in_tail, not_in, Line-head, Line-enter, Line-link,
  ne_of_in, not_in_snoc,
}

module _ (stub : Ptr) where
  -- Without the stub.
  unfoldable pub payload : List Ptr → List Ptr
  payload [] = []
  payload (x ∷ xs) = if x == stub then payload xs else x ∷ payload xs

  pub payload_skips : (xs : List Ptr) → payload (stub ∷ xs) ≡ payload xs
  unfolding payload
  payload_skips xs = rw (==_refl stub) refl

  pub payload_keeps : (x : Ptr) (xs : List Ptr) → x ≢ stub → payload (x ∷ xs) ≡ x ∷ payload xs
  unfolding payload
  payload_keeps x xs ne = rw (ne→not_== x stub ne) refl

  pub payload-append : (xs ys : List Ptr) → payload (xs ++ ys) ≡ payload xs ++ payload ys
  unfolding payload
  payload-append [] ys = refl
  payload-append (x ∷ xs) ys = elim (Bool-cases (x == stub)) [
    | inl e ↦ rw e (payload-append xs ys)
    | inr e ↦ rw e (ap (◌∷◌ x) (payload-append xs ys))
  ]

  pub out_of_payload :
      (n : Ptr) (xs : List Ptr) → n ≢ stub → has n (payload xs) ≡ false → has n xs ≡ false
  unfolding payload
  out_of_payload n [] ne h = refl
  out_of_payload n (x ∷ xs) ne h = elim (Bool-cases (x == stub)) [
    | inl e ↦
        rw (ne→not_== n x (λ e'. ne (e' ∙ ==→eq x stub e))) (out_of_payload n xs ne (rw e at h))
    | inr e ↦
        let (ne', h') = not_in n x (payload xs) (rw e at h) in
        rw (ne→not_== n x ne') (out_of_payload n xs ne h')
  ]

  -- What holds between any two steps: `r` are the nodes behind the tail.
  pub record Core (w : World) (r : List Ptr) : Type 0 where
    pub line : Line w.queue.next w.pending w.queue.head w.queue.tail r
    pub outside : (p : Ptr) → has p (w.queue.tail ∷ r) ≡ false → w.pending p ≡ null
    pub fifo : w.pushed ≡ w.popped ++ payload (w.queue.tail ∷ r)

  -- What the consumer knows at each place.
  abbrev pub At : World → List Ptr → Place → Type 0
  At w r start = Unit {0}
  At w r second = w.queue.tail ≢ stub
  At w r compare_head = w.queue.tail ≢ stub
  At w r push_stub = (w.queue.tail ≢ stub) × (has stub r ≡ false)
  At w r (link_stub prev) = (w.queue.tail ≢ stub) × (w.pending prev ≡ stub)
  At w r last_read = w.queue.tail ≢ stub

  abbrev pub Inv : World → Type 0
  Inv w = (r : List Ptr) × Core w r × At w r w.place
