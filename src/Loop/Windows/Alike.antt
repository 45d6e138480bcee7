-- ===== src/Loop/Windows/Alike.antt =====
-- The messages of api/src/win/api_async.c and api/src/win/api_wait.c do what those of
-- api/src/unix/api_async.c and api/src/unix/api_wait.c do.
use libapi.Base.{
  ℕ, ◌≡◌, ◌≢◌, refl, ap, ◌∙◌, inl, inr, List, [], ◌∷◌, ◌++◌, false, Option, none, some, ◌==◌, map,
  Bool-cases, ne→not_==,
}
use libapi.Base.Fallible.{◌>>=◌}
use libapi.Memory.{Ptr, null}
use libapi.Errno.{api_ok}
use libapi.Loop.{
  Handler, post_handler, wakeup_handler, exec_handler, exec_completed_handler, wait_handler,
  Message, Fleet, push,
}
use libapi.Loop.Async as Unix
use libapi.Loop.Async.{Action, posts, execs, wakes}
use libapi.Loop.Windows.{
  Key, async_key, notifier_key, Packet, Ports, message_in, put_in, queue, send, post, answer_exec,
  handle, processor,
}

-- A port without its keys is the queue of a loop.
abbrev pub view : Ports → Fleet
view v = record {
  queues = λ a. map (λ x. x.overlapped) (v.packets a);
  waiters = v.waiters;
  messages = v.messages;
}

abbrev pub view_of : Option Ports → Option Fleet
view_of none = none
view_of (some v) = some (view v)

overlapped_snoc :
    (xs : List Packet) (x : Packet)
    → map (λ x. x.overlapped) (xs ++ x ∷ []) ≡ map (λ x. x.overlapped) xs ++ x.overlapped ∷ []
overlapped_snoc [] x = refl
overlapped_snoc (y ∷ ys) x = ap (◌∷◌ y.overlapped) (overlapped_snoc ys x)

queue_at :
    (l : Ptr) (key : Key) (p : Ptr) (v : Ports) (a : Ptr)
    → (view (queue l key p v)).queues a ≡ push (view v).queues l p a
unfolding queue push
queue_at l key p v a = elim (Bool-cases (a == l)) [
  | inl e ↦ rw e (overlapped_snoc (v.packets a) (record { key = key; overlapped = p }))
  | inr e ↦ rw e refl
]

view-queue :
    (l : Ptr) (key : Key) (p : Ptr) (v : Ports)
    → view (queue l key p v) ≡ record (view v) { queues = push (view v).queues l p }
unfolding queue
view-queue l key p v =
    λ i. record { queues = λ a. queue_at l key p v a i; waiters = v.waiters; messages = v.messages }

view-bind :
    (o : Option Message) (k : Message → Option Ports) (k' : Message → Option Fleet)
    → ((m : Message) → view_of (k m) ≡ k' m)
    → view_of (o >>= k) ≡ (o >>= k')
view-bind none k k' h = refl
view-bind (some m) k k' h = h m

module _ (win_malloc : Ports → Ptr) (malloc : Fleet → Ptr)
    (same_memory : (v : Ports) → win_malloc v ≡ malloc (view v)) (junk : Message) where
  -- A post that the system takes does to the queues what it does on the other platform.
  view-post :
      (loop callback arg : Ptr) (stack_size write_error : ℕ) (v : Ports)
      → view (post win_malloc junk 0 loop callback arg stack_size v).1
        ≡ (Unix.post malloc junk write_error loop callback arg stack_size (view v)).1
  unfolding post send Unix.post
  view-post loop callback arg stack_size write_error v = elim (Bool-cases (win_malloc v == null)) [
    | inl e ↦ rw (← same_memory v, e) refl
    | inr e ↦ rw (← same_memory v, e) (view-queue loop async_key (win_malloc v) _)
  ]

  module _ (win_perform : Action → Ports → Ports) (perform : Action → Fleet → Fleet)
      (same_tasks : (a : Action) (v : Ports) → view (win_perform a v) ≡ perform a (view v))
      (write_error : ℕ) where
    abbrev unix : Ptr → Handler → Ptr → Message → Fleet → Option Fleet
    unix l h p m w = Unix.handle malloc junk perform write_error false l h p m w

    view-answer :
        (p : Ptr) (v : Ports)
        → view_of (answer_exec win_malloc junk win_perform 0 p v)
          ≡ Unix.answer_exec malloc junk perform write_error p api_ok (view v)
    unfolding answer_exec Unix.answer_exec
    view-answer p v =
        view-bind (message_in v p)
          (λ m. some ((post win_malloc junk 0 m.caller null null 0 (done m)).1))
          (λ m. some ((Unix.post malloc junk write_error m.caller null null 0 (view (done m))).1))
          (λ m. ap some (view-post m.caller null null 0 write_error (done m)))
      where
        done : Message → Ports
        done m = put_in p (record m { result = api_ok; handler = exec_completed_handler }) v

    view-handle :
        (h : Handler) (l p : Ptr) (m : Message) (v : Ports)
        → m.loop ≡ l
        → h ≢ wait_handler
        → view_of (handle win_malloc junk win_perform 0 h p m v) ≡ unix l h p m (view v)
    unfolding handle Unix.handle
    view-handle post_handler l p m v e n =
        ap some (same_tasks (posts m.loop p) v ∙ ap (λ x. perform (posts x p) (view v)) e)
    view-handle wakeup_handler l p m v e n = ap some (same_tasks (wakes m.arg) v)
    view-handle exec_handler l p m v e n =
        view-answer p (win_perform (execs m.loop p) v)
        ∙ ap (Unix.answer_exec malloc junk perform write_error p api_ok)
            (same_tasks (execs m.loop p) v ∙ ap (λ x. perform (execs x p) (view v)) e)
    view-handle exec_completed_handler l p m v e n = ap some (same_tasks (wakes m.task) v)
    view-handle wait_handler l p m v e n = absurd (n refl)

    -- A loop of the port to Windows handles a message that was sent to it as a loop of Unix does that
    -- goes on, and a packet that tells of the end of another loop as Unix handles the message for it:
    -- the same tasks are called or woken, and the same messages sent. The system takes what is posted,
    -- and memory and tasks do the same on both.
    pub view-processor :
        (l p : Ptr) (m : Message) (v : Ports)
        → p ≢ null
        → v.messages p ≡ some m
        → m.loop ≡ l
        → m.handler ≢ wait_handler
        → (view_of (processor win_malloc junk win_perform 0 l async_key p v)
            ≡ unix l m.handler p m (view v))
          × (view_of (processor win_malloc junk win_perform 0 l notifier_key p v)
              ≡ unix l wait_handler p m (view v))
    unfolding processor Unix.handle
    view-processor l p m v p_null f e n =
        let found : message_in v p ≡ some m = rw (ne→not_== p null p_null) f in
        (
          ap (λ o. view_of (o >>= λ m. handle win_malloc junk win_perform 0 m.handler p m v)) found
              ∙ view-handle m.handler l p m v e n,
          ap (λ o. view_of (o >>= λ m. some (win_perform (wakes m.task) v))) found
              ∙ ap some (same_tasks (wakes m.task) v),
        )
