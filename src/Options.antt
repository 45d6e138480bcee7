-- ===== src/Options.antt =====
-- api/src/unix/api_socket.c: the options of a socket. What the system answers is an argument: 0, or the error
-- that it leaves in `errno` when it answers -1.
use libapi.Base.{
  ℕ, zero, suc, ◌≡◌, ◌≢◌, refl, List, [], ◌∷◌, Option, none, some, ◌==◌, arith, if◌then◌else◌,
  ne→not_==,
}
use libapi.Errno.{api_ok, minus_one, translate}

abbrev pub eintr : ℕ
eintr = 4

-- The options that a call sets, each with its value.
pub data Setting : Type 0 where
  so_sndbuf so_rcvbuf tcp_nodelay so_keepalive tcp_keepidle : ℕ → Setting

-- `api_socket_non_block`: the answers of `ioctl` to the calls of the loop; `none` where it still goes on
-- after all of them.
unfoldable non_block : List ℕ → Option ℕ
non_block [] = none
non_block (e ∷ rest) =
    let later = non_block rest in
    if e == eintr then later else if e == 0 then some api_ok else some (translate e)

-- What a call of `setsockopt` leaves to return.
abbrev result_of : ℕ → ℕ
result_of e = if e == 0 then api_ok else translate e

-- `api_socket_send_buffer_size`
unfoldable send_buffer_size : (Setting → ℕ) → ℕ → ℕ
unfolding translate
send_buffer_size sets size = result_of (sets (so_sndbuf size))

-- `api_socket_recv_buffer_size`
unfoldable recv_buffer_size : (Setting → ℕ) → ℕ → ℕ
unfolding translate
recv_buffer_size sets size = result_of (sets (so_rcvbuf size))

-- `api_tcp_nodelay`, which translates what the call answers and not `errno`.
unfoldable nodelay : (Setting → ℕ) → ℕ → ℕ
unfolding translate
nodelay sets enable = if sets (tcp_nodelay enable) == 0 then api_ok else translate minus_one

-- `api_tcp_keepalive`
unfoldable keepalive : (Setting → ℕ) → ℕ → ℕ → ℕ
unfolding translate
keepalive sets enable delay =
    if sets (so_keepalive enable) == 0
    then (if enable == 0 then api_ok else result_of (sets (tcp_keepidle delay)))
    else translate (sets (so_keepalive enable))

-- Calls that a signal interrupts, and then the others.
abbrev interrupted : ℕ → List ℕ → List ℕ
interrupted zero rest = rest
interrupted (suc n) rest = eintr ∷ interrupted n rest

-- The loop returns what the first call answers that no signal interrupts, however many were interrupted.
non_block-interrupted :
    (n e : ℕ) (rest : List ℕ) → e ≢ eintr → non_block (interrupted n (e ∷ rest)) ≡ some e
unfolding non_block translate
non_block-interrupted zero e rest h = ground arith
non_block-interrupted (suc n) e rest h = non_block-interrupted n e rest h

-- The sizes of the buffers: the error of the system.
buffer_sizes_lem :
    (sets : Setting → ℕ) (size : ℕ)
    → (send_buffer_size sets size ≡ sets (so_sndbuf size))
      × (recv_buffer_size sets size ≡ sets (so_rcvbuf size))
unfolding send_buffer_size recv_buffer_size translate
buffer_sizes_lem sets size = (ground arith, ground arith)

-- All errors of the system come out of `api_tcp_nodelay` as the same one.
nodelay-blind :
    (sets : Setting → ℕ) (enable : ℕ)
    → sets (tcp_nodelay enable) ≢ 0
    → nodelay sets enable ≡ minus_one
unfolding nodelay translate
nodelay-blind sets enable h = rw (ne→not_== _ 0 h) refl

-- Keeping alive: the error of the first call, or of the second where there is one.
keepalive_lem :
    (sets : Setting → ℕ) (enable delay : ℕ)
    → (sets (so_keepalive enable) ≢ 0 → keepalive sets enable delay ≡ sets (so_keepalive enable))
      × (sets (so_keepalive enable) ≡ 0
          → enable ≢ 0
          → keepalive sets enable delay ≡ sets (tcp_keepidle delay))
unfolding keepalive translate
keepalive_lem sets enable delay = ((λ h. ground arith), (λ e n. ground arith))
