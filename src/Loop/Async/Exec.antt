-- ===== src/Loop/Async/Exec.antt =====
-- What becomes of the answer to `api_async_exec` of api/src/unix/api_async.c.
use libapi.Base.{
  ℕ, suc, ◌≡◌, ◌≢◌, refl, sym, ap, ◌∙◌, List, [], ◌∷◌, ◌++◌, Bool, true, false, none, some, ◌==◌,
  if◌then◌else◌, ne→not_==,
}
use libapi.Base.Fallible.{◌>>=◌}
use libapi.Memory.{Ptr, null, write, write_same, write_other}
use libapi.Errno.{api_ok, api_terminate}
use libapi.Loop.{
  exec_handler, exec_completed_handler, post_handler, Message, Fleet, push, leave, message_at, put,
}
use libapi.Loop.Queues.{push_same, push_other, leave_same, leave_other, leave-push}
use libapi.Loop.Async.{Action, execs, post, begin_exec, answer_exec, handle, drain, async_task_fn}

module _ (malloc : Fleet → Ptr) (junk : Message) (perform : Action → Fleet → Fleet)
    (quiet : (a : Action) (w : Fleet) → perform a w ≡ w) (error : ℕ) where
  abbrev request : (current task loop callback arg : Ptr) → ℕ → Message
  request current task loop callback arg stack_size = record {
    handler = exec_handler;
    loop = loop;
    callback = callback;
    arg = arg;
    stack_size = stack_size;
    caller = current;
    task = task;
    result = 0;
  }

  abbrev outcome : (ends : Bool) → ℕ
  outcome true = api_terminate
  outcome false = api_ok

  found :
      (w : Fleet) (p : Ptr) (m : Message)
      → p ≢ null
      → w.messages p ≡ some m
      → message_at w p ≡ some m
  found w p m h e = rw (ne→not_== p null h) e

  -- A round of the loop of `api_async_processor`.
  pub drain-first :
      (fuel : ℕ) (ends : Bool) (l p : Ptr) (ps : List Ptr) (m : Message) (w : Fleet)
      → w.queues l ≡ p ∷ ps
      → p ≢ null
      → w.messages p ≡ some m
      → drain malloc junk perform error (suc fuel) ends l w ≡ (
          handle malloc junk perform error ends l m.handler p m
            (record w { queues = leave w.queues l ps })
          >>= λ v. drain malloc junk perform error fuel ends l v)
  unfolding drain
  drain-first fuel ends l p ps m w e h f = rw (e, drain, ne→not_== p null h, f) refl

  pub drain-none :
      (fuel : ℕ) (ends : Bool) (l : Ptr) (w : Fleet)
      → w.queues l ≡ []
      → drain malloc junk perform error (suc fuel) ends l w ≡ some w
  unfolding drain
  drain-none fuel ends l w e = rw (e, drain) refl

  -- The result is in the message, and a message with no callback is sent.
  answered :
      (p n : Ptr) (result : ℕ) (m : Message) (w : Fleet)
      → malloc (put p (record m { result = result; handler = exec_completed_handler }) w) ≡ n
      → p ≢ null
      → n ≢ null
      → w.messages p ≡ some m
      → answer_exec malloc junk perform error p result w
        ≡ some
            (record (put n
              (record junk {
                loop = m.caller;
                handler = post_handler;
                callback = null;
                arg = null;
                stack_size = 0;
              })
              (put p (record m { result = result; handler = exec_completed_handler }) w)) {
                queues = push w.queues m.caller n;
              })
  unfolding answer_exec post
  answered p n result m w e p_null n_null f =
      rw (found w p m p_null f, e, ne→not_== n null n_null) refl

  -- The handler of an exec, whether its loop goes on or ends.
  handle-exec :
      (ends : Bool) (l p : Ptr) (m : Message) (w : Fleet)
      → handle malloc junk perform error ends l exec_handler p m w
        ≡ answer_exec malloc junk perform error p (outcome ends) w
  unfolding handle
  handle-exec true l p m w = refl
  handle-exec false l p m w =
      ap (answer_exec malloc junk perform error p api_ok) (quiet (execs l p) w)

  module _ (p n current task loop callback arg : Ptr) (stack_size : ℕ) (ends : Bool)
      (gives : (v : Fleet) → malloc v ≡ n) (p_null : p ≢ null) (n_null : n ≢ null) (apart : n ≢ p)
      (elsewhere : current ≢ loop) where
    abbrev asked : Message
    asked = request current task loop callback arg stack_size

    -- The loop that was asked hears of it, and the loop that asked of its answer.
    abbrev sent : Fleet → Fleet
    sent w = begin_exec malloc junk p current task loop callback arg stack_size w

    -- The loop to which `api_async_exec` sends a message answers with a message of its own, whose
    -- function is null: the task that it starts faults. The message of the exec, whose handler would
    -- wake the task that called, has its result and is in no queue. So it is whether the loop goes on
    -- or ends; the memory for the answer is there, and the callback leaves the messages alone.
    pub exec-unanswered :
        (fuel : ℕ) (w : Fleet)
        → w.queues loop ≡ []
        → (w' : Fleet) × (drain malloc junk perform error (suc (suc fuel)) ends loop (sent w)
            ≡ some w')
          × ((a : Ptr) → a ≢ current → w'.queues a ≡ (if a == loop then [] else w.queues a))
          × (w'.queues current ≡ w.queues current ++ n ∷ [])
          × (w'.messages p
              ≡ some (record asked { handler = exec_completed_handler; result = outcome ends }))
          × ((run : Ptr → Ptr → Ptr → Fleet → Fleet) → async_task_fn run n w' ≡ none)
    unfolding begin_exec async_task_fn
    exec-unanswered fuel w e = (
      w2,
      drain-first (suc fuel) ends loop p [] asked w0 (push_same w.queues loop p ∙ rw e refl) p_null
            (write_same w.messages p asked)
          ∙ ap (λ o. o >>= λ v. drain malloc junk perform error (suc fuel) ends loop v)
              (handle-exec ends loop p asked w1
                ∙ answered p n (outcome ends) asked w1 (gives _) p_null n_null
                    (write_same w.messages p asked))
          ∙ drain-none fuel ends loop w2 (
              push_other w1.queues current n loop (λ h. elsewhere (sym h))
              ∙ leave_same w0.queues loop []),
      (λ a h. push_other w1.queues current n a h ∙ leave-push w.queues loop p a),
      push_same w1.queues current n
          ∙ ap (λ ps. ps ++ n ∷ [])
              (leave_other w0.queues loop [] current elsewhere
                ∙ push_other w.queues loop p current elsewhere),
      write_other (write w1.messages p done) n p no_callback (λ h. apart (sym h))
          ∙ write_same w1.messages p done,
      λ run.
          stopped run
            (found w2 n no_callback n_null (write_same (write w1.messages p done) n no_callback)),
    )
      where
        w0 : Fleet
        w0 = sent w

        w1 : Fleet
        w1 = record w0 { queues = leave w0.queues loop [] }

        done : Message
        done = record asked { result = outcome ends; handler = exec_completed_handler }

        no_callback : Message
        no_callback = record junk {
          loop = current;
          handler = post_handler;
          callback = null;
          arg = null;
          stack_size = 0;
        }

        w2 : Fleet
        w2 = record (put n no_callback (put p done w1)) { queues = push w1.queues current n }

        stopped :
            (run : Ptr → Ptr → Ptr → Fleet → Fleet)
            → message_at w2 n ≡ some no_callback
            → async_task_fn run n w2 ≡ none
        stopped run h = rw h refl
