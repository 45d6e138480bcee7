-- ===== src/Tcp/Listen.antt =====
-- api/src/unix/api_tcp.c: `api_tcp_listen` and `api_tcp_close`, with the descriptors that the process holds
-- and the references to the loop.
use libapi.Base.{
  ℕ, suc, ◌-◌, ◌≡◌, ◌≢◌, refl, ap, ◌∙◌, List, Bool, true, false, Option, none, some, ◌==◌, has,
  arith, if◌then◌else◌, ne→not_==,
}
use libapi.Memory.{Ptr, null}
use libapi.Errno.{api_ok, api_terminate, minus_one, translate}
use libapi.Loop.Start.{Answer, gives, fails, Held, opened, close}
use libapi.Loop.Start.Failures.{close-opened}

pub data Family : Type 0 where
  af_inet af_inet6 : Family

-- The part of `api_tcp_listener_t` that says whether it listens.
pub record Server : Type 0 where
  pub fd : ℕ
  pub loop : Ptr
  pub af : Family
  pub closed : Bool
  pub terminated : Bool

-- The errors of the system calls, 0 where they succeed.
pub record ListenAnswers : Type 0 where
  pub socket : Answer
  pub bind : ℕ
  pub listen : ℕ
  pub ctl : ℕ

-- What the process holds, and the references to the loop of a server.
pub record Process : Type 0 where
  pub held : Held
  pub refs : ℕ

-- An address with a ':' is one of IPv6.
abbrev family_of : List ℕ → Family
family_of ip = if has 58 ip then af_inet6 else af_inet

-- The descriptor, -1 where `socket` fails, which the code does not ask.
unfoldable pub socket_of : Answer → Held → ℕ × Held
socket_of (fails e) h = (minus_one, h)
socket_of (gives fd) h = (fd, opened fd h)

-- `memset` and the address family of a listener.
abbrev pub new_server : ℕ → List ℕ → Server
new_server fd ip = record {
  fd = fd;
  loop = null;
  af = family_of ip;
  closed = false;
  terminated = false;
}

-- Once it has a socket; `epoll_ctl` answers 0 or -1, which the code takes for an error.
unfoldable pub listen_on : ListenAnswers → Ptr → List ℕ → ℕ → Process → ℕ × Server × Process
unfolding translate
listen_on a loop ip fd p =
    let s = new_server fd ip in
    if a.bind == 0
    then (if a.listen == 0
        then (if a.ctl == 0
            then (api_ok, record s { loop = loop }, record p { refs = suc p.refs })
            else (minus_one, record s { loop = loop }, p))
        else (translate a.listen, s, p))
    else (translate a.bind, s, p)

-- `api_tcp_listen`
unfoldable pub listen :
    ListenAnswers
    → (loop_terminated : Bool) → Ptr
    → List ℕ
    → Server
    → Process
    → ℕ × Server × Process
unfolding socket_of listen_on
listen a loop_terminated loop ip s p =
    if loop_terminated
    then (api_terminate, record s { terminated = true }, p)
    else (let opens = socket_of a.socket p.held in
        listen_on a loop ip opens.0 (record p { held = opens.1 }))

-- `api_tcp_close`; `ctl` is the error of `epoll_ctl`. A listener with no loop is a null pointer's read.
unfoldable pub close_server : ℕ → Server → Process → Option (ℕ × Server × Process)
unfolding close
close_server ctl s p =
    if s.loop == null
    then none
    else some (
      if ctl == 0 then api_ok else minus_one,
      record s { closed = true; loop = null },
      record { held = close s.fd p.held; refs = p.refs - 1 },
    )

one_less : (n : ℕ) → suc n - 1 ≡ n
one_less n = omega arith

-- A listener that listens, and is then closed, leaves the descriptors and the references to the loop as they
-- were; a second close follows a null pointer.
listen-close :
    (a : ListenAnswers) (fd : ℕ) (loop : Ptr) (ip : List ℕ) (s : Server) (p : Process)
    → a.socket ≡ gives fd
    → a.bind ≡ 0
    → a.listen ≡ 0
    → a.ctl ≡ 0
    → loop ≢ null
    → let r = listen a false loop ip s p in
      (r.0 ≡ api_ok)
      × (close_server 0 r.1 r.2 ≡ some (api_ok, record (new_server fd ip) { closed = true }, p))
      × (close_server 0 (record (new_server fd ip) { closed = true }) p ≡ none)
unfolding listen socket_of listen_on close_server
listen-close a fd loop ip s p e b l c n =
    rw (e, b, l, c, ne→not_== loop null n)
      (
        refl,
        ap
              (λ h. some (
                api_ok,
                record (new_server fd ip) { closed = true },
                record { held = h; refs = suc p.refs - 1 },
              ))
              (close-opened fd p.held)
            ∙ ap
                (λ r. some (
                  api_ok,
                  record (new_server fd ip) { closed = true },
                  record { held = p.held; refs = r },
                ))
                (one_less p.refs),
        refl,
      )

-- Where `bind` fails the socket stays open, and the listener has no loop by which it could be closed.
listen-leaks :
    (a : ListenAnswers) (fd : ℕ) (loop : Ptr) (ip : List ℕ) (s : Server) (p : Process)
    → a.socket ≡ gives fd
    → a.bind ≢ 0
    → let r = listen a false loop ip s p in
      (r.2.held ≡ opened fd p.held) × (close_server 0 r.1 r.2 ≡ none)
unfolding listen socket_of listen_on close_server
listen-leaks a fd loop ip s p e b = rw (e, ne→not_== a.bind 0 b) (refl, refl)
