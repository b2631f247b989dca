-- ===== src/Coasio/Socket/Transfer.antt =====
-- What the calls that move bytes return.
use boost_coro.Base.{
  ℕ, zero, suc, ◌==◌, ◌≡◌, refl, inl, inr, Bool-cases, true, false, List, ok, fault, Outcome, ◌>>=◌,
  Ensures, ensures, faulted, bind, ℤ, arith,
}
use boost_coro.VarBuf.Views.{Iovec}
use boost_coro.Coasio.Socket.{
  System, Op, Verdict, returned, blocked, eintr, eagain, is_neg, is_minus_one, ev_read, ev_write,
  set_event, retry, settled, wait_first, try_again, try_first, set_non_block, read, write, send,
  recv, sendv, recvv,
}
use boost_coro.Coasio.Socket.Retry.{Answers}

-- What holds after any result holds after a call.
pub ensure-bind :
    {A B : Type 0} {Q : B → Type 0} (r : Outcome A) (k : A → Outcome B)
    → ((a : A) → Ensures Q (k a))
    → Ensures Q (r >>= k)
ensure-bind (ok a) k q = q a
ensure-bind (fault e) k q = faulted

module _ {State : Type 0} (sys : System State) where
  -- A return from the loop is an answer.
  abbrev IsFinal : Verdict × State → Type 0
  IsFinal (returned e, s) = Answers sys (e, s)
  IsFinal (blocked, s) = Unit {0}

  other :
      (e : ℤ) (s : State)
      → (sys.errno s == eintr) ≡ false
      → (sys.errno s == eagain) ≡ false
      → Answers sys (e, s)
  other e s h k = inr (ground arith, ground arith)

  retry-IsFinal :
      (call : State → ℤ × State) (fuel : ℕ) (s : State) → Ensures IsFinal (retry sys call fuel s)
  unfolding retry
  retry-IsFinal call zero s = faulted
  retry-IsFinal call (suc fuel) s = elim (Bool-cases (is_neg (call s).0)) [
    | inr h ↦ rw h (ensures (inl h))
    | inl h ↦ elim (Bool-cases (sys.errno (call s).1 == eintr)) [
      | inl i ↦ rw h (rw i (retry-IsFinal call fuel (call s).1))
      | inr i ↦ elim (Bool-cases (sys.errno (call s).1 == eagain)) [
        | inl j ↦ rw h (rw i (rw j (ensures tt)))
        | inr j ↦ rw h (rw i (rw j (ensures (other (call s).0 (call s).1 i j))))
      ]
    ]
  ]

  settled-IsFinal : (v : Verdict × State) → IsFinal v → Ensures (Answers sys) (ok (settled sys v))
  settled-IsFinal (returned e, s) a = ensures a
  settled-IsFinal (blocked, s) a = ensures (inl refl)

  wait_first-Answers :
      (op : Op) (events fuel : ℕ) (fd timeout : ℤ) (s : State)
      → Ensures (Answers sys) (wait_first sys op events fuel fd timeout s)
  unfolding wait_first set_event
  wait_first-Answers op events fuel fd timeout s = elim (Bool-cases (is_minus_one fd)) [
    | inl h ↦ rw h faulted
    | inr h ↦ rw h (
        ensure-bind (sys.wait fd events timeout s) _
          λ v. bind (retry-IsFinal (sys.transfer op fd) fuel v) settled-IsFinal)
  ]

  try_again-Answers :
      (op : Op) (events fuel : ℕ) (fd timeout : ℤ) (v : Verdict × State)
      → IsFinal v
      → Ensures (Answers sys) (try_again sys op events fuel fd timeout v)
  unfolding try_again
  try_again-Answers op events fuel fd timeout (returned e, s) a = ensures a
  try_again-Answers op events fuel fd timeout (blocked, s) a =
      wait_first-Answers op events fuel fd timeout s

  try_first-Answers :
      (op : Op) (events fuel : ℕ) (fd timeout : ℤ) (s : State)
      → Ensures (Answers sys) (try_first sys op events fuel fd timeout s)
  unfolding try_first
  try_first-Answers op events fuel fd timeout s =
      bind (retry-IsFinal (sys.transfer op fd) fuel s) (try_again-Answers op events fuel fd timeout)

  -- What `read`, `write`, `send`, `recv`, `sendv` and `recvv` return, on any descriptor and with any fuel,
  -- is a number that is not negative, or an error, where errno is neither EINTR nor EAGAIN.
  pub transfers_Answer :
      (fuel len : ℕ) (fd timeout : ℤ) (buf : List ℕ) (vec : List Iovec) (s : State)
      → Ensures (Answers sys) (read sys fuel fd len timeout s)
        × Ensures (Answers sys) (write sys fuel fd buf timeout s)
        × Ensures (Answers sys) (send sys fuel fd buf timeout s)
        × Ensures (Answers sys) (recv sys fuel fd len timeout s)
        × Ensures (Answers sys) (sendv sys fuel fd vec timeout s)
        × Ensures (Answers sys) (recvv sys fuel fd vec timeout s)
  unfolding read write send recv sendv recvv
  transfers_Answer fuel len fd timeout buf vec s = (
    wait_first-Answers (Op.sys_read len) ev_read fuel fd timeout s,
    wait_first-Answers (Op.sys_write buf) ev_write fuel fd timeout s,
    try_first-Answers (Op.sys_send buf) ev_write fuel fd timeout s,
    try_first-Answers (Op.sys_recv len) ev_read fuel fd timeout s,
    try_first-Answers (Op.sys_writev vec) ev_write fuel fd timeout (set_non_block sys fd true s).1,
    try_first-Answers (Op.sys_readv vec) ev_read fuel fd timeout (set_non_block sys fd true s).1,
  )
