-- ===== src/Timers/Timeout.antt =====
-- How long a loop waits: `api_timers_nearest_event` of api/src/api_timer.c and
-- `api_loop_calculate_wait_timeout` of api/src/api_loop_base.c.
use libapi.Base.{
  ℕ, ◌+◌, ◌-◌, ◌≤◌, ◌<◌, ◌≡◌, ◌≢◌, refl, ap, ◌∙◌, List, ◌∷◌, Option, some, arith, u64_mod, u64_max,
  sub64, sub64_exact, if◌then◌else◌, ne→not_==, ltb,
}
use libapi.Base.Fallible.{◌>>=◌}
use libapi.Memory.{Ptr, null}
use libapi.Rbtree
use libapi.Rbtree.Shape.{RbTree, top, inorder, height, Holds, first_or}
use libapi.Rbtree.Shape.Walk.{first-inorder}
use libapi.Timers.{Timer, Timers}
use libapi.Timers.Process.{nearest_event}
use libapi.Timers.Expire.{list_of}

abbrev smaller : ℕ → ℕ → ℕ
smaller a b = if ltb a b then a else b

unfoldable pub calculate_wait_timeout : ℕ → Timers → Timers → Timers → ℕ → Option ℕ
calculate_wait_timeout depth sleeps idles timeouts now = do
  timeout_sleep ← nearest_event depth sleeps now
  timeout_idle ← nearest_event depth idles now
  timeout_timeout ← nearest_event depth timeouts now
  some (smaller timeout_timeout (smaller timeout_idle (smaller timeout_sleep u64_max)))

nearest_event-first :
    (depth : ℕ) (t : Timers) (now : ℕ) (f : Ptr)
    → Rbtree.first depth t.root t.nodes ≡ some (f, t.nodes)
    → f ≢ null
    → (p : Ptr) (m : Timer) (period : ℕ) (ps : List Ptr)
    → t.lists f ≡ some (list_of period (p ∷ ps))
    → p ≢ null
    → t.timers p ≡ some m
    → nearest_event depth t now ≡ some (sub64 now m.issued)
unfolding nearest_event
nearest_event-first depth t now f e f_null p m period ps el p_null em =
    rw (e, ne→not_== f null f_null, el, ne→not_== p null p_null, em) refl

nearest_event-none :
    (depth : ℕ) (t : Timers) (now : ℕ) → t.root ≡ null → nearest_event depth t now ≡ some u64_max
unfolding nearest_event Rbtree.first
nearest_event-none depth t now e = rw e refl

-- With sleeps only, the loop waits for as long as the first sleep of the shortest period has
-- lasted, and not for the `remaining` time until it is over: for no time at all where it has just
-- begun, and for too long where more than half of the period has passed.
pub wait_timeout-sleep :
    (depth : ℕ) (sleeps idles timeouts : Timers) (now : ℕ) (tree : RbTree) (f p : Ptr) (m : Timer)
    (period remaining : ℕ) (ps : List Ptr)
    → idles.root ≡ null
    → timeouts.root ≡ null
    → Holds sleeps.nodes null tree
    → sleeps.root ≡ top tree
    → height tree < depth
    → first_or (inorder tree) null ≡ f
    → f ≢ null
    → sleeps.lists f ≡ some (list_of period (p ∷ ps))
    → p ≢ null
    → sleeps.timers p ≡ some m
    → now < u64_mod
    → m.issued ≤ now
    → now + remaining ≡ m.issued + period
    → calculate_wait_timeout depth sleeps idles timeouts now ≡ some (period - remaining)
unfolding calculate_wait_timeout
wait_timeout-sleep depth sleeps idles timeouts now tree f p m period remaining ps ei et holds root
      deep found f_null el p_null em small begun left =
    let look : Rbtree.first depth sleeps.root sleeps.nodes ≡ some (f, sleeps.nodes) =
      ap (λ r. Rbtree.first depth r sleeps.nodes) root
      ∙ first-inorder sleeps.nodes depth tree holds deep
      ∙ ap (λ x. some (x, sleeps.nodes)) found in
    rw
      (
        nearest_event-first depth sleeps now f look f_null p m period ps el p_null em,
        nearest_event-none depth idles now ei,
        nearest_event-none depth timeouts now et,
        sub64_exact now m.issued small begun,
      )
      (ground arith)
