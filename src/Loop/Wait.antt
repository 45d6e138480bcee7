-- ===== src/Loop/Wait.antt =====
-- api/src/unix/api_wait.c: tasks that wait for the end of a loop.
pub mod Notify
pub mod Dangling
use libapi.Base.{
  ℕ, zero, suc, List, [], ◌∷◌, Bool, true, false, Option, none, some, ◌==◌, if◌then◌else◌,
}
use libapi.Base.Fallible.{◌>>=◌}
use libapi.Memory.{Ptr, null}
use libapi.Loop.{wait_handler, Message, Fleet, push, leave, message_at, put, discard}

-- `api_wait_init`
unfoldable pub init : Ptr → Fleet → Fleet
unfolding leave
init l w = record w { waiters = leave w.waiters l [] }

-- `api_wait_exec` by the task `task` of the loop `current`, up to where the task sleeps or, where it
-- does not, up to its return. The wait is the local at `p`, whose memory holds `junk` and does not
-- outlive the call.
unfoldable pub exec : Message → (p current task loop : Ptr) → (sleep : Bool) → Fleet → Fleet
unfolding push
exec junk p current task loop sleep w =
    let pushed = record (put p (record junk { caller = current; loop = loop; task = task }) w) {
      waiters = push w.waiters loop p;
    } in
    if sleep then pushed else discard p pushed

-- `api_mpscq_pop` on the waits for `l`: the oldest, or null. It also gives null where the push of the next one
-- is unfinished (`pop_step` of Mpscq): `linked` of the waits come before such a one.
unfoldable pub pop : (linked : ℕ) → Ptr → Fleet → Ptr × Fleet
unfolding leave
pop zero l w = (null, w)
pop (suc linked) l w = elim (w.waiters l) [
  | [] ↦ (null, w)
  | p ∷ ps ↦ (p, record w { waiters = leave w.waiters l ps })
]

-- A wait is sent to the loop of its task.
unfoldable pub send : Ptr → Fleet → Option Fleet
unfolding push
send p w = message_at w p >>= λ m.
    some
      (record (put p (record m { handler = wait_handler }) w) { queues = push w.queues m.caller p })

-- After a pop in `api_wait_notify`: its loop ends where that gave null, or goes on with `next`.
abbrev pub after_pop : (next : Fleet → Option Fleet) → Ptr × Fleet → Option Fleet
after_pop next r = elim (r.0 == null) [ true ↦ some (r.1) | false ↦ send (r.0) (r.1) >>= next ]

-- `api_wait_notify`
unfoldable pub notify : (linked : ℕ) → Ptr → Fleet → Option Fleet
unfolding pop send
notify zero l w = some w
notify (suc linked) l w = after_pop (notify linked l) (pop (suc linked) l w)

-- `api_loop_stop_and_wait` up to where its task sleeps, with the result `e` of closing the epoll descriptor
-- of the loop.
unfoldable pub stop_and_wait : Message → ℕ → (p current task loop : Ptr) → Fleet → ℕ × Fleet
unfolding exec
stop_and_wait junk e p current task loop w = (e, exec junk p current task loop false w)
