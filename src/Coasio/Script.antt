-- ===== src/Coasio/Script.antt =====
-- A system for the tests: each call answers with the next entry of a script, a result and an errno.
use boost_coro.Base.{ℕ, List, [], ◌∷◌, ok, ℤ, pos}
use boost_coro.Coasio.Address.{Sockaddr, in_4}
use boost_coro.Coasio.Socket.{System}

pub record Script : Type 0 where
  pub errno : ℕ
  pub entries : List (ℤ × ℕ)

abbrev pub next_of : List (ℤ × ℕ) → ℕ → ℤ × Script
next_of [] e = (pos 0, record { errno = e; entries = [] })
next_of ((r, f) ∷ rest) e = (r, record { errno = f; entries = rest })

abbrev pub answer : Script → ℤ × Script
answer s = next_of s.entries s.errno

abbrev pub somebody : Sockaddr
somebody = in_4 (record { sin_port = 7; sin_addr = 9 })

abbrev pub with_somebody : ℤ × Script → ℤ × Sockaddr × Script
with_somebody (r, s) = (r, somebody, s)

-- The calls that only set an option always succeed and take no entry.
abbrev pub scripted : System Script
scripted = record {
  errno = λ s. s.errno;
  socket = λ f t g s. answer s;
  setsockopt = λ fd option s. (pos 0, s);
  get_flags = λ fd s. (pos 0, s);
  set_flags = λ fd flags s. (pos 0, s);
  bind = λ fd addr s. answer s;
  listen = λ fd backlog s. answer s;
  accept = λ fd s. with_somebody (answer s);
  connect = λ fd addr s. answer s;
  so_error = λ fd s. answer s;
  close = λ fd s. s;
  getpeername = λ fd s. with_somebody (answer s);
  getsockname = λ fd s. with_somebody (answer s);
  transfer = λ op fd s. answer s;
  stored = λ s. [];
  sender = λ s. somebody;
  wait = λ fd events timeout s. ok s;
}

abbrev pub script : List (ℤ × ℕ) → Script
script es = record { errno = 0; entries = es }
