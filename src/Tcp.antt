-- ===== src/Tcp.antt =====
-- api/src/unix/api_tcp.c: listeners, which accept connections for a task that waits, and connections that
-- are made. What the system calls answer is an argument, and so is the handler `on_accept`.
pub mod Connect
pub mod Accept
pub mod Listen
mod Tests
use libapi.Base.{
  ℕ, ◌≡◌, List, [], ◌∷◌, ◌++◌, Bool, true, false, not, ◌&&◌, ◌||◌, Option, none, some, ◌==◌,
  if◌then◌else◌,
}
use libapi.Base.Fallible.{◌>>=◌}
use libapi.Memory.{Ptr, null}
use libapi.Errno.{api_ok, api_terminate, eagain, translate}
use libapi.Device.{EventSet, read_add, read_del, Event, ready, ending}

-- `api_tcp_listener_accept_t`: the descriptor that was taken, if `success` is set.
pub record AcceptRequest : Type 0 where
  pub success : Bool
  pub fd : ℕ
  pub task : Ptr

-- The calls of the handlers of a listener.
pub data ListenerNotice : Type 0 where
  on_error : ℕ → ListenerNotice
  on_closed on_terminate : ListenerNotice

-- `api_tcp_listener_t`: `accepting` is its `reserved` request. `refused` lists the connections that were
-- closed again.
pub record Listener : Type 0 where
  pub closed : Bool
  pub terminated : Bool
  pub error : ℕ
  pub accepting : Option AcceptRequest
  pub interest : EventSet
  pub loop_terminated : Bool
  pub notices : List ListenerNotice
  pub refused : List ℕ

-- What `accept` answers: a descriptor, or an error.
pub data Incoming : Type 0 where
  connection : ℕ → Incoming
  accept_failed : ℕ → Incoming

abbrev pub tell : ListenerNotice → Listener → Listener
tell n l = record l { notices = l.notices ++ n ∷ [] }

abbrev pub listener_error : ℕ → Listener → Listener
listener_error e l = tell (on_error (translate e)) (record l { error = translate e })

-- The loop of `api_tcp_listener_accept_try`: the answers in their order, and after those `EAGAIN`. The handler
-- for an error is given the code of the system, which is that of the library.
unfoldable pub accept_loop :
    (on_accept : ℕ → Bool) → List Incoming → AcceptRequest → Listener → AcceptRequest × Listener
accept_loop on_accept [] a l = (a, l)
accept_loop on_accept (accept_failed e ∷ rest) a l =
    if e == eagain then (a, l) else (a, tell (on_error e) (record l { error = translate e }))
accept_loop on_accept (connection fd ∷ rest) a l =
    let next =
      accept_loop on_accept rest (record a { fd = fd })
        (record l { refused = l.refused ++ fd ∷ [] }) in
    if on_accept fd then (record a { success = true; fd = fd }, l) else next

-- `api_tcp_listener_accept_try`, with its answer; without a request it follows a null pointer.
unfoldable pub accept_try :
    (on_accept : ℕ → Bool) → List Incoming → Listener → Option (Bool × Listener)
unfolding accept_loop
accept_try on_accept incoming l = l.accepting >>= λ a.
    let r = accept_loop on_accept incoming a l in
    some ((r.0).success, record (r.1) { accepting = some (r.0) })

-- The first part of `api_tcp_listener_processor`: whether the task that waits is to be woken. The first
-- that is set counts of an error, a hangup and input.
unfoldable pub listener_first :
    (error hangup input : Bool)
    → (on_accept : ℕ → Bool) → List Incoming
    → ℕ
    → Listener
    → Option (Bool × Listener)
unfolding accept_try
listener_first true h i on_accept incoming errno l = some (true, listener_error errno l)
listener_first false true i on_accept incoming errno l =
    some (true, tell on_closed (record l { closed = true }))
listener_first false false true on_accept incoming errno l = accept_try on_accept incoming l
listener_first false false false on_accept incoming errno l = some (true, listener_error errno l)

abbrev pub accepting_task : Listener → Ptr
accepting_task l = elim (l.accepting) [ none ↦ null | some a ↦ a.task ]

-- `api_tcp_listener_processor` up to the wakeup, with the task to wake or null.
unfoldable pub listener_processor :
    Event → (on_accept : ℕ → Bool) → List Incoming → ℕ → Listener → Option (Ptr × Listener)
unfolding listener_first
listener_processor ending on_accept incoming errno l =
    some (accepting_task l, tell on_terminate (record l { terminated = true }))
listener_processor (ready e) on_accept incoming errno l =
    listener_first e.error e.hangup (e.input || e.priority) on_accept incoming errno l >>= λ r.
    some (if r.0 then accepting_task (r.1) else null, r.1)

-- `api_tcp_accept` up to where its task sleeps, or what it returns.
pub data Accepting : Type 0 where
  refuses : ℕ → Accepting
  listens : Listener → Accepting

unfoldable pub begin_accept : Ptr → Listener → Accepting
unfolding read_add
begin_accept task l =
    if l.loop_terminated
    then refuses api_terminate
    else if l.closed || l.terminated || not (l.error == api_ok)
    then refuses l.error
    else listens (record l {
      accepting = some (record { success = false; fd = 0; task = task });
      interest = read_add l.interest;
    })

-- `api_tcp_accept` after its task has slept: what it returns.
unfoldable pub end_accept : AcceptRequest → Listener → ℕ × Listener
unfolding read_del
end_accept a l = (
  if a.success then api_ok else l.error,
  record l { accepting = none; interest = read_del l.interest },
)
