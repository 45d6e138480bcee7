-- ===== src/Tcp/Accept.antt =====
-- Which connection `api_tcp_accept` of api/src/unix/api_tcp.c gives.
use libapi.Base.{
  ℕ, ◌≡◌, ◌≢◌, refl, sym, ap, ◌∙◌, List, [], ◌∷◌, ◌++◌, append-nil, append_assoc, Bool, true, false,
  ◌||◌, some, if◌then◌else◌, All, map, ne→not_==,
}
use libapi.Base.Fallible.{◌>>=◌}
use libapi.Memory.{null}
use libapi.Errno.{api_ok, eagain, translate}
use libapi.Device.{EventSet, ready}
use libapi.Tcp.{
  AcceptRequest, Listener, on_error, tell, Incoming, connection, accept_failed, accept_loop,
  accept_try, listener_first, listener_processor, end_accept, accepting_task,
}

-- A connection is accepted if its handler takes it: those before it, which it does not take, are closed
-- again, in their order, and those behind it are left to wait.
accept_loop_lem :
    (on_accept : ℕ → Bool) (before : List ℕ) (fd : ℕ) (behind : List Incoming) (a : AcceptRequest)
    (l : Listener)
    → All (λ f. on_accept f ≡ false) before
    → on_accept fd ≡ true
    → accept_loop on_accept (map connection before ++ connection fd ∷ behind) a l
      ≡ (record a { success = true; fd = fd }, record l { refused = l.refused ++ before })
unfolding accept_loop
accept_loop_lem on_accept [] fd behind a l refused taken = rw taken (
    ap (λ r. (record a { success = true; fd = fd }, record l { refused = r }))
      (sym (append-nil l.refused)))
accept_loop_lem on_accept (f ∷ fs) fd behind a l (left, refused) taken = rw left (
    accept_loop_lem on_accept fs fd behind (record a { fd = f })
      (record l { refused = l.refused ++ f ∷ [] }) refused taken
    ∙ ap (λ r. (record a { success = true; fd = fd }, record l { refused = r }))
        (append_assoc l.refused (f ∷ []) fs))

-- The listener after `accept` has failed.
abbrev told : ℕ → AcceptRequest → Listener → Listener
told code a l = record (tell (on_error code) (record l { error = translate code })) {
  accepting = some a;
}

accept_try-failed :
    (on_accept : ℕ → Bool) (a : AcceptRequest) (code : ℕ) (l : Listener)
    → l.accepting ≡ some a
    → code ≢ eagain
    → accept_try on_accept (accept_failed code ∷ []) l ≡ some (a.success, told code a l)
unfolding accept_try accept_loop
accept_try-failed on_accept a code l waits other = rw (waits, ne→not_== code eagain other) refl

first-input :
    (on_accept : ℕ → Bool) (e : EventSet) (incoming : List Incoming) (errno : ℕ) (l : Listener)
    → e.error ≡ false
    → e.hangup ≡ false
    → e.input ≡ true
    → listener_first e.error e.hangup (e.input || e.priority) on_accept incoming errno l
      ≡ accept_try on_accept incoming l
unfolding listener_first
first-input on_accept e incoming errno l no_error no_hangup input =
    rw (no_error, no_hangup, input) refl

-- A task that waits in api_tcp_accept is not woken where `accept` fails: the error is kept in the
-- listener.
accept_failed-asleep :
    (on_accept : ℕ → Bool) (a : AcceptRequest) (e : EventSet) (code errno : ℕ) (l : Listener)
    → l.accepting ≡ some a
    → a.success ≡ false
    → e.error ≡ false
    → e.hangup ≡ false
    → e.input ≡ true
    → code ≢ eagain
    → listener_processor (ready e) on_accept (accept_failed code ∷ []) errno l
      ≡ some (null, told code a l)
unfolding listener_processor
accept_failed-asleep on_accept a e code errno l waits fresh no_error no_hangup input other =
    ap (λ o. o >>= λ r. some (if r.0 then accepting_task (r.1) else null, r.1))
      (first-input on_accept e (accept_failed code ∷ []) errno l no_error no_hangup input
        ∙ accept_try-failed on_accept a code l waits other
        ∙ ap (λ b. some (b, told code a l)) fresh)

-- A listener that is closed while a task waits in api_tcp_accept lets it return API__OK without a
-- connection.
closed-ok :
    (a : AcceptRequest) (l : Listener)
    → a.success ≡ false
    → l.error ≡ api_ok
    → (end_accept a l).0 ≡ api_ok
unfolding end_accept
closed-ok a l fresh fine = rw fresh fine
