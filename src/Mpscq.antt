-- ===== src/Mpscq.antt =====
-- api/src/unix/api_mpscq.h: the queue by which many threads hand tasks to one loop. A producer's
-- exchange of the head and its link are two steps, and the consumer's pop is one step for each
-- read or write of a shared field, so that every interleaving of them is a sequence of steps.
pub mod Line
pub mod Order
mod Tests
use libapi.Base.{
  ℕ, zero, suc, ◌≡◌, ◌≢◌, List, [], ◌∷◌, ◌++◌, Bool, true, false, Option, none, some, ◌==◌, has,
  drop, length, if◌then◌else◌,
}
use libapi.Memory.{Ptr, null}

-- A field `next` of every node.
abbrev pub Links : Type 0
Links = Ptr → Ptr

unfoldable pub set : Links → Ptr → Ptr → Links
set f p q a = if a == p then q else f a

-- `api_mpscq_t`, with the next fields of its nodes. The address of `stub` is a parameter.
pub record Queue : Type 0 where
  pub head : Ptr
  pub tail : Ptr
  pub next : Links

-- Where a pop stands: before its first read, before its second one, before the comparison of
-- the tail with the head, before and within the push of the stub, and before its last read.
pub data Place : Type 0 where
  start second compare_head push_stub : Place
  link_stub : Ptr → Place
  last_read : Place

pub data Progress : Type 0 where
  goes_on : Place → Queue → Progress
  returns : Ptr → Queue → Progress

unfoldable pub create : Ptr → Links → Queue
create stub next = record { head = stub; tail = stub; next = set next stub null }

-- The two halves of a push: `n->next = 0` with the exchange, and `prev->next = n`, where `prev`
-- is the head before the exchange. Until the exchange no other thread knows of `n`.
unfoldable pub enter : Ptr → Queue → Queue
enter n q = record q { head = n; next = set q.next n null }

unfoldable pub link : Ptr → Ptr → Queue → Queue
link prev n q = record q { next = set q.next prev n }

unfoldable pub push : Ptr → Queue → Queue
unfolding enter link
push n q = link q.head n (enter n q)

-- If the tail has a next node, that becomes the tail and the pop returns the old one.
unfoldable pub take_tail : Queue → Progress → Progress
take_tail q otherwise =
    if q.next q.tail == null then otherwise else returns q.tail (record q { tail = q.next q.tail })

unfoldable pub pop_step : Ptr → Place → Queue → Progress
unfolding enter link take_tail
pop_step stub start q =
    if q.tail == stub
    then (if q.next q.tail == null
        then returns null q
        else goes_on second (record q { tail = q.next q.tail }))
    else take_tail q (goes_on compare_head q)
pop_step stub second q = take_tail q (goes_on compare_head q)
pop_step stub compare_head q = if q.tail == q.head then goes_on push_stub q else returns null q
pop_step stub push_stub q = goes_on (link_stub q.head) (enter stub q)
pop_step stub (link_stub prev) q = goes_on last_read (link prev stub q)
pop_step stub last_read q = take_tail q (returns null q)

-- A pop that no producer interrupts; six steps are enough.
unfoldable pub pop_from : ℕ → Ptr → Place → Queue → Option (Ptr × Queue)
unfolding pop_step
pop_from zero stub at q = none
pop_from (suc fuel) stub at q = elim (pop_step stub at q) [
  | returns p q' ↦ some (p, q')
  | goes_on at' q' ↦ pop_from fuel stub at' q'
]

unfoldable pub pop : Ptr → Queue → Option (Ptr × Queue)
unfolding pop_from
pop stub q = pop_from 6 stub start q

-- The queue with its threads: `pending prev` is the node that a push has put in behind `prev`
-- and not linked yet, or null. `pushed` and `popped` list all nodes that went in and came out.
pub record World : Type 0 where
  pub queue : Queue
  pub place : Place
  pub pending : Links
  pub pushed : List Ptr
  pub popped : List Ptr

unfoldable pub entered : Ptr → World → World
unfolding enter
entered n w = record w {
  queue = enter n w.queue;
  pending = set w.pending w.queue.head n;
  pushed = w.pushed ++ n ∷ [];
}

unfoldable pub linked : Ptr → World → World
unfolding link
linked prev w = record w {
  queue = link prev (w.pending prev) w.queue;
  pending = set w.pending prev null;
}

-- The pending links after a step of the consumer at a place.
unfoldable pub consumer_pending : Ptr → Place → Queue → Links → Links
consumer_pending stub push_stub q f = set f q.head stub
consumer_pending stub (link_stub prev) q f = set f prev null
consumer_pending stub _ q f = f

-- The consumer goes on, and starts again when a pop has returned.
unfoldable pub progressed : World → Links → Progress → World
progressed w f (goes_on at q) = record w { queue = q; place = at; pending = f }
progressed w f (returns p q) = record w {
  queue = q;
  place = start;
  pending = f;
  popped = if p == null then w.popped else w.popped ++ p ∷ [];
}

unfoldable pub consumed : Ptr → World → World
unfolding pop_step consumer_pending progressed
consumed stub w =
    progressed w (consumer_pending stub w.place w.queue w.pending) (pop_step stub w.place w.queue)

-- A step of a thread. A node is pushed only while it is not in the queue.
pub data Step (stub : Ptr) : World → World → Type 0 where
  enters :
      {w : World} (n : Ptr)
      → n ≢ null
      → n ≢ stub
      → has n (drop (length w.popped) w.pushed) ≡ false
      → Step stub w (entered n w)
  links :
      {w : World} (prev : Ptr)
      → w.pending prev ≢ null
      → w.pending prev ≢ stub
      → Step stub w (linked prev w)
  consumes : {w : World} → Step stub w (consumed stub w)

unfoldable pub initial : Ptr → Links → World
unfolding create
initial stub next = record {
  queue = create stub next;
  place = start;
  pending = λ _. null;
  pushed = [];
  popped = [];
}

-- What steps lead to from a new queue.
pub data Reachable (stub : Ptr) : World → Type 0 where
  new : (next : Links) → Reachable stub (initial stub next)
  then_step : {w v : World} → Reachable stub w → Step stub w v → Reachable stub v
