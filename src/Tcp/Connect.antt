-- ===== src/Tcp/Connect.antt =====
-- api/src/unix/api_tcp.c: `api_tcp_connect`, cut where its task sleeps, and the processor of a descriptor that
-- connects.
use libapi.Base.{
  ℕ, ◌+◌, ◌≡◌, ◌≢◌, refl, ◌⊎◌, inl, inr, arith, Bool-cases, Bool, true, false, not, ◌&&◌, ◌||◌,
  ◌==◌, ltb, if◌then◌else◌,
}
use libapi.Errno.{api_ok, api_terminate, etimedout, minus_one, translate}
use libapi.Stream.{Status}
use libapi.Device.{EventSet, Event, ready, ending, write_add, write_del}

-- The part of `api_tcp_t` that a connect uses: the state, the events waited for, whether `epoll` knows the
-- descriptor, whether that is open, and the references to the loop.
pub record Connection : Type 0 where
  pub status : Status
  pub interest : EventSet
  pub registered : Bool
  pub is_open : Bool
  pub refs : ℕ

abbrev no_status : Status
no_status = record {
  read_timeout = false;
  write_timeout = false;
  eof = false;
  error = 0;
  closed = false;
  peer_closed = false;
  terminated = false;
}

abbrev no_events : EventSet
no_events = record {
  error = false;
  hangup = false;
  peer_hangup = false;
  input = false;
  priority = false;
  output = false;
}

-- A connection that has been cleared, with a socket or without one.
abbrev pub cleared : Bool → ℕ → Connection
cleared is_open refs = record {
  status = no_status;
  interest = no_events;
  registered = false;
  is_open = is_open;
  refs = refs;
}

-- The first that is set counts of an error, a hangup and no output.
unfoldable pub connect_first : (error hangup output : Bool) → (errno : ℕ) → Connection → Connection
connect_first true h o errno c = record c { status = record (c.status) { error = translate errno } }
connect_first false true o errno c = record c { status = record (c.status) { closed = true } }
connect_first false false true errno c = c
connect_first false false false errno c = record c {
  status = record (c.status) { error = translate errno };
}

-- `api_tcp_connect_processor`, which then wakes the task that connects.
unfoldable pub connect_processor : Event → ℕ → Connection → Connection
unfolding connect_first
connect_processor ending errno c = record c { status = record (c.status) { terminated = true } }
connect_processor (ready e) errno c = connect_first e.error e.hangup e.output errno c

-- What `connect` answers: done, in progress, or an error; and `epoll_ctl` for adding and for changing.
pub data Connects : Type 0 where
  at_once in_progress : Connects
  connect_failed : ℕ → Connects

-- The end of `api_tcp_connect`: `api_stream_init` clears the stream, but not what `epoll` knows; with an error, or with a state that is one, the descriptor is closed.
unfoldable pub conclude : ℕ → Connection → ℕ × Connection
conclude error c =
    if (error == api_ok)
      && (not c.status.closed && (not c.status.terminated && (c.status.error == api_ok)))
    then (api_ok, record c { status = no_status; interest = no_events; refs = c.refs + 1 })
    else (
      if not (error == api_ok)
          then error
          else if not (c.status.error == api_ok)
          then c.status.error
          else minus_one,
      record c { is_open = false; registered = false },
    )

-- `api_tcp_connect` after its task has slept.
unfoldable pub end_connect : (timeout : ℕ) (elapsed : Bool) → Connection → ℕ × Connection
unfolding conclude write_del
end_connect timeout elapsed c =
    let late = ltb 0 timeout && elapsed in
    let c1 = if late then record c { status = record (c.status) { read_timeout = true } } else c in
    let c2 =
      if c.status.closed || (c.status.terminated || not (c.status.error == api_ok))
      then record c1 { registered = false }
      else record c1 { interest = write_del c1.interest } in
    conclude (if late then translate etimedout else api_ok) c2

-- `api_tcp_connect` up to where its task sleeps, or what it returns. `added` and `changed` are what
-- `epoll_ctl` answers.
pub data Connecting : Type 0 where
  answers : ℕ → Connection → Connecting
  sleeps : Connection → Connecting

unfoldable pub begin_connect :
    (loop_terminated : Bool) → Connects → (added changed : Bool) (errno refs : ℕ) → Connecting
unfolding conclude write_add
begin_connect true k added changed errno refs =
    let c = cleared false refs in
    answers api_terminate (record c { status = record (c.status) { terminated = true } })
begin_connect false at_once added changed errno refs =
    let r = conclude api_ok (cleared true refs) in answers (r.0) (r.1)
begin_connect false (connect_failed e) added changed errno refs =
    let r = conclude (translate e) (cleared true refs) in answers (r.0) (r.1)
begin_connect false in_progress false changed errno refs =
    let r = conclude (translate minus_one) (cleared true refs) in answers (r.0) (r.1)
begin_connect false in_progress true changed errno refs =
    let c = cleared true refs in
    let e =
      write_add
        (record no_events { error = true; hangup = true; peer_hangup = true; output = true }) in
    let r = conclude (translate errno) (record c { interest = e }) in
    if changed then sleeps (record c { registered = true; interest = e }) else answers (r.0) (r.1)

failed_code :
    (error : ℕ) (c : Connection)
    → (error == api_ok)
        && (not c.status.closed && (not c.status.terminated && (c.status.error == api_ok)))
      ≡ false
    → (if not (error == api_ok)
        then error
        else if not (c.status.error == api_ok)
        then c.status.error
        else minus_one)
      ≢ api_ok
failed_code error c h = ground arith

-- A connect that answers with an error has closed its descriptor, and one that answers API__OK has left it
-- as it was and holds one more reference to the loop.
pub conclude_lem :
    (error : ℕ) (c : Connection)
    → (((conclude error c).0 ≡ api_ok)
        × (((conclude error c).1).is_open ≡ c.is_open)
        × (((conclude error c).1).refs ≡ c.refs + 1))
      ⊎ (((conclude error c).0 ≢ api_ok)
          × (((conclude error c).1).is_open ≡ false)
          × (((conclude error c).1).refs ≡ c.refs))
unfolding conclude
conclude_lem error c =
    elim (Bool-cases (
      (error == api_ok)
      && (not c.status.closed && (not c.status.terminated && (c.status.error == api_ok))))) [
        | inl h ↦ rw h (inl (refl, refl, refl))
        | inr h ↦ let f = failed_code error c h in rw h (inr (f, refl, refl))
      ]
