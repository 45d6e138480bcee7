-- ===== src/Loop/Wait/Dangling.antt =====
-- The wait of `api_loop_stop_and_wait` in `api_wait_notify`, of api/src/unix/api_loop.c and api_wait.c.
use libapi.Base.{
  ℕ, zero, suc, ◌≤◌, length, ◌≡◌, ◌≢◌, refl, sym, ap, ◌∙◌, inl, inr, List, [], ◌∷◌, ◌++◌, true,
  false, Option, none, some, ◌==◌, has, arith, Bool-cases, ==→eq, not_==→ne, ==_refl, if◌then◌else◌,
}
use libapi.Base.Fallible.{◌>>=◌}
use libapi.Memory.{Ptr, null, Store, write, write_other}
use libapi.Loop.{wait_handler, Message, Fleet, push, leave, message_at, put}
use libapi.Loop.Queues.{leave_same}
use libapi.Loop.Wait.{exec, send, after_pop, notify, stop_and_wait}
use libapi.Timers.Expire.{Distinct, in_rest}
use libapi.Loop.Wait.Notify.{pop-some, popped-some}

gone : (w : Fleet) (p : Ptr) → w.messages p ≡ none → message_at w p ≡ none
gone w p e = elim (Bool-cases (p == null)) [ inl h ↦ rw h refl | inr h ↦ rw h e ]

removed : (p : Ptr) (messages : Store Message) → (if p == p then none else messages p) ≡ none
removed p messages = rw (==_refl p) refl

pushed : (f : Ptr → List Ptr) (l p : Ptr) → has p (push f l p l) ≡ true
unfolding push
pushed f l p = rw (==_refl l) (has_last p (f l))
  where
    has_last : (p : Ptr) (ps : List Ptr) → has p (ps ++ p ∷ []) ≡ true
    has_last p [] = rw (==_refl p) refl
    has_last p (q ∷ ps) = ground (arith, has_last p ps)

send-faults : (p : Ptr) (w : Fleet) → w.messages p ≡ none → send p w ≡ none
unfolding send
send-faults p w e = rw (gone w p e) refl

kept_by_send :
    (q p : Ptr) (w : Fleet)
    → p ≢ q
    → w.messages p ≡ none
    → (k : Fleet → Option Fleet)
    → ((v : Fleet) → v.messages p ≡ none → v.waiters ≡ w.waiters → k v ≡ none)
    → (send q w >>= k) ≡ none
unfolding send
kept_by_send q p w n e k h = by_message (message_at w q)
  where
    sent : Message → Fleet
    sent m = record (put q (record m { handler = wait_handler }) w) {
      queues = push w.queues m.caller q;
    }

    by_message : (o : Option Message) → (o >>= (λ m. some (sent m)) >>= k) ≡ none
    by_message none = refl
    by_message (some m) = h (sent m) (write_other w.messages q p _ n ∙ e) refl

notify-faults :
    (p : Ptr) (linked : ℕ) (ps : List Ptr) (l : Ptr) (w : Fleet)
    → w.waiters l ≡ ps
    → Distinct ps
    → length ps ≤ linked
    → has p ps ≡ true
    → w.messages p ≡ none
    → notify linked l w ≡ none
unfolding notify
notify-faults p linked [] l w el d b h e = cc h
notify-faults p zero (q ∷ ps) l w el d b h e = absurd (omega arith)
notify-faults p (suc linked) (q ∷ ps) l w el (q_null, out, d) b h e =
    let popped : Fleet = record w { waiters = leave w.waiters l ps } in
    let next = notify linked l in
    ap (after_pop next) (pop-some linked l q ps w el)
    ∙ popped-some next q popped q_null
    ∙ (elim (Bool-cases (p == q)) [
      | inl same ↦
          ap (λ o. o >>= next) (send-faults q popped (ap w.messages (sym (==→eq p q same)) ∙ e))
      | inr other ↦ kept_by_send q p popped (not_==→ne p q other) e next (λ v f kept.
          notify-faults p linked ps l v (ap (λ g. g l) kept ∙ leave_same w.waiters l ps) d
            (omega arith) (in_rest p q ps other h) f)
    ])

-- `api_loop_stop_and_wait` puts a wait among the waiters of a loop and leaves the call that holds it: when
-- the loop ends and no push is unfinished, `api_wait_notify` reads it through a dangling pointer. The waits are
-- different nodes.
pub stop_and_wait-notify :
    (junk : Message) (e : ℕ) (p current task loop : Ptr) (linked : ℕ) (w : Fleet)
    → Distinct (push w.waiters loop p loop)
    → length (push w.waiters loop p loop) ≤ linked
    → notify linked loop (stop_and_wait junk e p current task loop w).1 ≡ none
unfolding stop_and_wait
stop_and_wait-notify junk e p current task loop linked w d b =
    notify-faults p linked (push w.waiters loop p loop) loop (exec junk p current task loop false w)
      refl d b (pushed w.waiters loop p)
      (removed p (write w.messages p (record junk { caller = current; loop = loop; task = task })))
