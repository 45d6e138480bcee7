-- ===== src/Mpscq/Tests.antt =====
-- The queue at concrete interleavings.
use libapi.Base.{◌≡◌, ◌≢◌, refl, [], ◌∷◌, ◌++◌, some, arith, suc, ℕ}
use libapi.Memory.{null}
use libapi.Mpscq.{
  Queue, World, create, push, pop, set, entered, linked, consumed, enters, links, consumes, initial,
  Reachable, new, then_step,
}
use libapi.Mpscq.Order.Fifo.{waiting, popped_then_waiting, pop-oldest}

some_node : (n : ℕ) → suc n ≢ null
some_node n = λ e. absurd (omega arith)

-- The stub is node 1.
abbrev one_pushed : World
one_pushed = linked 1 (entered 5 (initial 1 (λ _. null)))

one_pushed-Reachable : Reachable 1 one_pushed
unfolding entered linked initial set
one_pushed-Reachable =
    then_step
      (then_step (new (λ _. null)) (enters 5 (some_node 4) (λ e. absurd (omega arith)) refl))
      (links 1 (some_node 4) (λ e. absurd (omega arith)))

-- A second push has put its node in and not linked it when the consumer starts.
abbrev half_pushed : World
half_pushed = consumed 1 (consumed 1 (entered 6 one_pushed))

half_pushed-Reachable : Reachable 1 half_pushed
unfolding entered linked initial set
half_pushed-Reachable =
    then_step
      (then_step
        (then_step one_pushed-Reachable (enters 6 (some_node 5) (λ e. absurd (omega arith)) refl))
        consumes)
      consumes

popped_then_waiting_example : 5 ∷ 6 ∷ [] ≡ half_pushed.popped ++ waiting half_pushed
unfolding entered linked initial set consumed
popped_then_waiting_example = popped_then_waiting 1 (some_node 0) half_pushed-Reachable

pop-oldest_example : (q : Queue) × (pop 1 one_pushed.queue ≡ some (5, q))
unfolding entered linked initial set waiting
pop-oldest_example = pop-oldest 1 (some_node 0) one_pushed-Reachable (λ p. ground arith)

-- Two pushes and a pop, one after the other.
pop-push : (q : Queue) × (pop 1 (push 6 (push 5 (create 1 (λ _. null)))) ≡ some (5, q))
unfolding pop push create set
pop-push = (_, refl)
