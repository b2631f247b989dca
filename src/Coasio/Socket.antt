-- ===== src/Coasio/Socket.antt =====
-- `cosocket_t` of boost/coroutine/coasio/cosocket.h. The calls of the system, and what happens while the
-- coroutine waits for an event, are a parameter over an unknown state.
pub mod Retry
pub mod Transfer
pub mod Connection
pub mod Buffers
pub mod Examples
use boost_coro.Base.{
  ℕ, zero, suc, ◌+◌, ◌-◌, ◌*◌, ◌^◌, ◌==◌, ltb, Bool, true, false, not, if◌then◌else◌, bit_and,
  bit_or, List, Outcome, ok, fault, assert_failed, deep_recursion, ◌>>=◌, ℤ, pos, negsuc,
}
use boost_coro.Coasio.Address.{Network, Sockaddr, SockAddr, assign_sockaddr}
use boost_coro.VarBuf.Views.{Iovec}

abbrev pub eintr : ℕ
eintr = 4

abbrev pub eagain : ℕ
eagain = 11

abbrev pub einprogress : ℕ
einprogress = 115

abbrev pub o_nonblock : ℕ
o_nonblock = 2048

abbrev pub ev_read : ℕ
ev_read = 0x02

abbrev pub ev_write : ℕ
ev_write = 0x04

abbrev pub ev_persist : ℕ
ev_persist = 0x10

-- -1
abbrev pub minus_one : ℤ
minus_one = negsuc 0

abbrev pub is_neg : ℤ → Bool
is_neg (pos n) = false
is_neg (negsuc n) = true

abbrev pub is_minus_one : ℤ → Bool
is_minus_one (pos n) = false
is_minus_one (negsuc n) = n == 0

abbrev pub is_zero : ℤ → Bool
is_zero (pos n) = n == 0
is_zero (negsuc n) = false

-- The calls that move bytes: a number is the room at the pointer, a list the bytes there.
pub data Op : Type 0 where
  sys_read sys_recv sys_recvfrom : ℕ → Op
  sys_write sys_send : List ℕ → Op
  sys_readv sys_writev : List Iovec → Op
  sys_sendto : List ℕ → SockAddr → Op

-- The options that are set, with their values
pub data SockOpt : Type 0 where
  tcp_defer_accept so_reuseaddr tcp_nodelay : ℕ → SockOpt
  so_linger : ℕ → ℕ → SockOpt

-- The system. Descriptors are ints; `wait` is `set_io` of the reactor, until the coroutine goes on, or to
-- a fault of it, as in the main context or with a trigger that is there already. `stored` are the
-- bytes that the last call has put into memory, and `sender` is what it has put into the address.
pub record System (State : Type 0) : Type 0 where
  pub errno : State → ℕ
  pub socket : ℕ → ℕ → ℕ → State → ℤ × State
  pub setsockopt : ℤ → SockOpt → State → ℤ × State
  pub get_flags : ℤ → State → ℤ × State
  pub set_flags : ℤ → ℕ → State → ℤ × State
  pub bind : ℤ → SockAddr → State → ℤ × State
  pub listen : ℤ → ℕ → State → ℤ × State
  pub accept : ℤ → State → ℤ × Sockaddr × State
  pub connect : ℤ → SockAddr → State → ℤ × State
  pub so_error : ℤ → State → ℤ × State
  pub close : ℤ → State → State
  pub getpeername : ℤ → State → ℤ × Sockaddr × State
  pub getsockname : ℤ → State → ℤ × Sockaddr × State
  pub transfer : Op → ℤ → State → ℤ × State
  pub stored : State → List ℕ
  pub sender : State → Sockaddr
  pub wait : ℤ → ℕ → ℤ → State → Outcome State

-- What a pass through SILLY_NONBLOCK_SOCK_ERR comes to: a return, or the way out of the loop.
pub data Verdict : Type 0 where
  returned : ℤ → Verdict
  blocked : Verdict

-- `flags | O_NONBLOCK` and `flags & ~O_NONBLOCK`
abbrev pub with_non_block : Bool → ℕ → ℕ
with_non_block true flags = bit_or flags o_nonblock
with_non_block false flags = bit_and flags (2 ^ 32 - 1 - o_nonblock)

module _ {State : Type 0} (sys : System State) where
  unfoldable pub changed_flags : ℤ → Bool → ℤ × State → ℤ × State
  changed_flags fd on (negsuc n, s) = (negsuc n, s)
  changed_flags fd on (pos flags, s) =
      let (r, s1) = sys.set_flags fd (with_non_block on flags) s in
      (if is_neg r then minus_one else pos 0, s1)

  -- `set_non_block(fd, on)`
  unfoldable pub set_non_block : ℤ → Bool → State → ℤ × State
  unfolding changed_flags
  set_non_block fd on s = changed_flags fd on (sys.get_flags fd s)

  -- `set_event(events, timeout)`
  unfoldable pub set_event : ℤ → ℕ → ℤ → State → Outcome State
  set_event fd events timeout s =
      if is_minus_one fd then fault assert_failed else sys.wait fd events timeout s

  -- The macro SILLY_NONBLOCK_SOCK_ERR with the loop round it, on fuel
  unfoldable pub retry : (State → ℤ × State) → ℕ → State → Outcome (Verdict × State)
  retry call zero s = fault deep_recursion
  retry call (suc fuel) s =
      let (e, s1) = call s in
      let again = retry call fuel s1 in
      if not (is_neg e)
      then ok (returned e, s1)
      else if sys.errno s1 == eintr
      then again
      else if not (sys.errno s1 == eagain)
      then ok (returned e, s1)
      else ok (blocked, s1)

  -- `return 0` behind the second loop
  abbrev pub settled : Verdict × State → ℤ × State
  settled (returned e, s) = (e, s)
  settled (blocked, s) = (pos 0, s)

  -- `read` and `write`: wait, then try.
  unfoldable pub wait_first : Op → ℕ → ℕ → ℤ → ℤ → State → Outcome (ℤ × State)
  unfolding retry set_event
  wait_first op events fuel fd timeout s = set_event fd events timeout s >>= λ s1.
      retry (sys.transfer op fd) fuel s1 >>= λ r. ok (settled r)

  unfoldable pub try_again : Op → ℕ → ℕ → ℤ → ℤ → Verdict × State → Outcome (ℤ × State)
  unfolding wait_first
  try_again op events fuel fd timeout (returned e, s) = ok (e, s)
  try_again op events fuel fd timeout (blocked, s) = wait_first op events fuel fd timeout s

  -- `send` and `recv`: try, wait if that would block, and try once more.
  unfoldable pub try_first : Op → ℕ → ℕ → ℤ → ℤ → State → Outcome (ℤ × State)
  unfolding retry try_again
  try_first op events fuel fd timeout s =
      retry (sys.transfer op fd) fuel s >>= try_again op events fuel fd timeout

  unfoldable pub read : ℕ → ℤ → ℕ → ℤ → State → Outcome (ℤ × State)
  unfolding wait_first
  read fuel fd len timeout s = wait_first (Op.sys_read len) ev_read fuel fd timeout s

  unfoldable pub write : ℕ → ℤ → List ℕ → ℤ → State → Outcome (ℤ × State)
  unfolding wait_first
  write fuel fd buf timeout s = wait_first (Op.sys_write buf) ev_write fuel fd timeout s

  unfoldable pub send : ℕ → ℤ → List ℕ → ℤ → State → Outcome (ℤ × State)
  unfolding try_first
  send fuel fd buf timeout s = try_first (Op.sys_send buf) ev_write fuel fd timeout s

  unfoldable pub recv : ℕ → ℤ → ℕ → ℤ → State → Outcome (ℤ × State)
  unfolding try_first
  recv fuel fd len timeout s = try_first (Op.sys_recv len) ev_read fuel fd timeout s

  -- `sendv` and `recvv` set the descriptor to non-blocking first.
  unfoldable pub sendv : ℕ → ℤ → List Iovec → ℤ → State → Outcome (ℤ × State)
  unfolding try_first set_non_block
  sendv fuel fd vec timeout s =
      let (r, s1) = set_non_block fd true s in
      try_first (Op.sys_writev vec) ev_write fuel fd timeout s1

  unfoldable pub recvv : ℕ → ℤ → List Iovec → ℤ → State → Outcome (ℤ × State)
  unfolding try_first set_non_block
  recvv fuel fd vec timeout s =
      let (r, s1) = set_non_block fd true s in
      try_first (Op.sys_readv vec) ev_read fuel fd timeout s1

  unfoldable pub send_to : ℤ → SockAddr → List ℕ → ℤ → State → Outcome (ℤ × State)
  unfolding set_event
  send_to fd addr buf timeout s =
      set_event fd ev_write timeout s >>= λ s1. ok (sys.transfer (Op.sys_sendto buf addr) fd s1)
