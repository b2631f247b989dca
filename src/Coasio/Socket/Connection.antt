-- ===== src/Coasio/Socket/Connection.antt =====
-- `cosocket_t`: making a socket, its connection, its addresses, and the end of it.
use boost_coro.Base.{
  ℕ, zero, suc, ◌+◌, ◌==◌, true, false, not, if◌then◌else◌, ◌≡◌, refl, Outcome, ok, ◌>>=◌, ℤ, pos,
}
use boost_coro.Coasio.Address.{Network, Sockaddr, SockAddr, assign_sockaddr}
use boost_coro.Coasio.Socket.{
  System, tcp_defer_accept, so_reuseaddr, tcp_nodelay, so_linger, Op, einprogress, ev_read,
  ev_write, ev_persist, minus_one, is_minus_one, is_zero, set_non_block, set_event,
}

module _ {State : Type 0} (sys : System State) where
  -- `set_defer_accept`, `set_reuse_addr`, `set_no_nagel`
  unfoldable pub set_defer_accept : ℤ → ℕ → State → ℤ × State
  set_defer_accept fd secs s = sys.setsockopt fd (tcp_defer_accept secs) s

  unfoldable pub set_reuse_addr : ℤ → ℕ → State → ℤ × State
  set_reuse_addr fd flag_reusable s = sys.setsockopt fd (so_reuseaddr flag_reusable) s

  unfoldable pub set_no_nagel : ℤ → ℕ → State → ℤ × State
  set_no_nagel fd flag_nonagle s = sys.setsockopt fd (tcp_nodelay flag_nonagle) s

  -- `set_linger(fd, linger_enable, ling_tm)`
  unfoldable pub set_linger : ℤ → ℕ → ℕ → State → ℤ × State
  set_linger fd zero ling_tm s = (pos 0, s)
  set_linger fd (suc n) ling_tm s = sys.setsockopt fd (so_linger (suc n) ling_tm) s

  -- `create`: the descriptor that `_sock_fd` is after it, and what it returns
  unfoldable pub create : ℕ → ℕ → ℕ → ℤ → State → ℤ × ℤ × State
  create family type flags sock_fd s =
      let (fd, s1) = sys.socket family type flags s in
      let (_, s2) = sys.setsockopt fd (so_reuseaddr 1) s1 in
      if is_minus_one fd then (sock_fd, fd, s1) else (fd, fd, s2)

  unfoldable pub bind : ℤ → SockAddr → State → ℤ × State
  bind fd addr s = sys.bind fd addr s

  unfoldable pub listen : ℤ → ℕ → State → ℤ × State
  listen fd backlog s = sys.listen fd backlog s

  -- `connect(addr, timeout)`
  unfoldable pub connect_error : ℤ → ℤ × State → ℤ × State
  unfolding set_non_block
  connect_error fd (error, s) =
      let (r, s1) = set_non_block sys fd false s in
      if is_zero error then (pos 0, s1) else (minus_one, s)

  unfoldable pub connect_result : ℤ → ℤ → ℤ × State → Outcome (ℤ × State)
  unfolding set_non_block set_event connect_error
  connect_result fd timeout (r, s) =
      if is_minus_one r
      then (if not (sys.errno s == einprogress)
          then ok (minus_one, s)
          else (set_event sys fd ev_write timeout s >>= λ s1.
              ok (connect_error fd (sys.so_error fd s1))))
      else ok (connect_error fd (pos 0, s))

  unfoldable pub connect : ℤ → SockAddr → ℤ → State → Outcome (ℤ × State)
  unfolding set_non_block connect_result
  connect fd addr timeout s =
      let (r, s1) = set_non_block sys fd true s in
      connect_result fd timeout (sys.connect fd addr s1)

  -- `close(linger_enable, ling_tm)`: the descriptor after it, and what it returns
  unfoldable pub close : ℕ → ℕ → ℤ → State → ℤ × ℤ × State
  unfolding set_linger
  close linger_enable ling_tm fd s =
      let (r, s1) = set_linger fd linger_enable ling_tm s in (minus_one, pos 0, sys.close fd s1)

  -- ~cosocket_t()
  unfoldable pub destroy : ℤ → State → State
  unfolding close
  destroy fd s = let (_, _, s1) = close 0 0 fd s in if is_minus_one fd then s else s1

  -- The destructor after `close` closes nothing more.
  destroy-close :
      (linger_enable ling_tm : ℕ) (fd : ℤ) (s : State)
      → let r = close linger_enable ling_tm fd s in destroy r.0 r.2 ≡ r.2
  unfolding close destroy
  destroy-close linger_enable ling_tm fd s = refl

module _ {State : Type 0} (sys : System State) (net : Network) where
  unfoldable pub accepted : ℤ × Sockaddr × State → Outcome (ℤ × SockAddr × State)
  unfolding assign_sockaddr set_non_block
  accepted (client, addr, s) = assign_sockaddr net addr >>= λ a.
      let (r, s1) = set_non_block sys client true s in ok (client, a, s1)

  -- `accept(sock_addr, timeout)`, where the address was `old`
  unfoldable pub accept_result : SockAddr → ℤ × Sockaddr × State → Outcome (ℤ × SockAddr × State)
  unfolding accepted
  accept_result old (client, addr, s) =
      if is_minus_one client then ok (minus_one, old, s) else accepted (client, addr, s)

  unfoldable pub accept : ℤ → SockAddr → ℤ → State → Outcome (ℤ × SockAddr × State)
  unfolding set_event accept_result
  accept fd old timeout s = set_event sys fd (ev_read + ev_persist) timeout s >>= λ s1.
      accept_result old (sys.accept fd s1)

  unfoldable pub address_result : SockAddr → ℤ × Sockaddr × State → Outcome (ℤ × SockAddr × State)
  unfolding assign_sockaddr
  address_result old (r, addr, s) =
      if not (is_zero r)
      then ok (minus_one, old, s)
      else (assign_sockaddr net addr >>= λ a. ok (pos 0, a, s))

  -- `remote_addr` and `local_addr`
  unfoldable pub remote_addr : ℤ → SockAddr → State → Outcome (ℤ × SockAddr × State)
  unfolding address_result
  remote_addr fd old s = address_result old (sys.getpeername fd s)

  unfoldable pub local_addr : ℤ → SockAddr → State → Outcome (ℤ × SockAddr × State)
  unfolding address_result
  local_addr fd old s = address_result old (sys.getsockname fd s)

  unfoldable pub received_from : ℤ × State → Outcome (ℤ × SockAddr × State)
  unfolding assign_sockaddr
  received_from (r, s) = assign_sockaddr net (sys.sender s) >>= λ a. ok (r, a, s)

  -- `recv_from`; the address is read whatever the call returned.
  unfoldable pub recv_from : ℤ → ℕ → ℤ → State → Outcome (ℤ × SockAddr × State)
  unfolding set_event received_from
  recv_from fd len timeout s = set_event sys fd ev_read timeout s >>= λ s1.
      received_from (sys.transfer (Op.sys_recvfrom len) fd s1)
