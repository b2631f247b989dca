-- ===== src/Coasio/Socket/Retry.antt =====
-- The loops round the calls of the system: they end when the system stops interrupting them.
use boost_coro.Base.{
  ℕ, zero, suc, ◌+◌, ◌<◌, ◌==◌, ◌≡◌, ◌≢◌, ◌∙◌, ap, ◌⊎◌, inl, inr, Bool-cases, true, false, List, ok,
  ℤ, arith,
}
use boost_coro.Coasio.Socket.{
  System, Op, returned, blocked, eintr, eagain, is_neg, is_minus_one, ev_read, ev_write, read, send,
  set_event, retry, wait_first, try_again, try_first, recv,
}

module _ {State : Type 0} (sys : System State) where
  -- The call fails with EINTR.
  abbrev pub IsInterrupted : ℤ × State → Type 0
  IsInterrupted r = (is_neg r.0 ≡ true) × (sys.errno r.1 ≡ eintr)

  -- The call fails with EAGAIN.
  abbrev pub Blocks : ℤ × State → Type 0
  Blocks r = (is_neg r.0 ≡ true) × (sys.errno r.1 ≡ eagain)

  -- The call succeeds, or it fails with another error than EINTR and EAGAIN.
  abbrev pub Answers : ℤ × State → Type 0
  Answers r = (is_neg r.0 ≡ false) ⊎ ((sys.errno r.1 ≢ eintr) × (sys.errno r.1 ≢ eagain))

  -- From `s` the call is interrupted `k` times in a row, which leads to `t`.
  abbrev pub Interrupted : (State → ℤ × State) → ℕ → State → State → Type 0
  Interrupted call zero s t = s ≡ t
  Interrupted call (suc k) s t = IsInterrupted (call s) × Interrupted call k (call s).1 t

  -- One pass of the loop
  module _ (call : State → ℤ × State) (fuel : ℕ) (s : State) where
    pass_answer :
        Answers (call s) → retry sys call (suc fuel) s ≡ ok (returned (call s).0, (call s).1)
    unfolding retry
    pass_answer (inl success) = rw success
    pass_answer (inr (other, another)) =
        let a : (sys.errno (call s).1 == eintr) ≡ false = ground arith in
        let b : (sys.errno (call s).1 == eagain) ≡ false = ground arith in
        elim (Bool-cases (is_neg (call s).0)) [ inl h ↦ rw h (rw a (rw b)) | inr h ↦ rw h ]

    pass_block : Blocks (call s) → retry sys call (suc fuel) s ≡ ok (blocked, (call s).1)
    unfolding retry
    pass_block (failed, e) = rw failed (rw e)

    pass_interrupt :
        IsInterrupted (call s) → retry sys call (suc fuel) s ≡ retry sys call fuel (call s).1
    unfolding retry
    pass_interrupt (failed, e) = rw failed (rw e)

  -- After any number of interruptions below the fuel, the loop does what its next pass does.
  interrupts :
      (call : State → ℤ × State) (k fuel : ℕ) (s t : State)
      → Interrupted call k s t
      → k < fuel
      → (left : ℕ) × (retry sys call fuel s ≡ retry sys call (suc left) t)
  interrupts call k zero s t i h = absurd (omega arith)
  interrupts call zero (suc fuel) s t i h = (fuel, ap (retry sys call (suc fuel)) i)
  interrupts call (suc k) (suc fuel) s t (i, rest) h =
      let (left, e) = interrupts call k fuel (call s).1 t rest (omega arith) in
      (left, pass_interrupt call fuel s i ∙ e)

  retry_answer :
      (call : State → ℤ × State) (k fuel : ℕ) (s t : State)
      → Interrupted call k s t
      → k < fuel
      → Answers (call t)
      → retry sys call fuel s ≡ ok (returned (call t).0, (call t).1)
  retry_answer call k fuel s t i h a =
      let (left, e) = interrupts call k fuel s t i h in e ∙ pass_answer call left t a

  retry_block :
      (call : State → ℤ × State) (k fuel : ℕ) (s t : State)
      → Interrupted call k s t
      → k < fuel
      → Blocks (call t)
      → retry sys call fuel s ≡ ok (blocked, (call t).1)
  retry_block call k fuel s t i h b =
      let (left, e) = interrupts call k fuel s t i h in e ∙ pass_block call left t b

  -- After the wait, the second loop returns what the system answers in the end.
  wait_first_returns :
      (op : Op) (events m fuel : ℕ) (fd timeout : ℤ) (s v u : State)
      → is_minus_one fd ≡ false
      → sys.wait fd events timeout s ≡ ok v
      → Interrupted (sys.transfer op fd) m v u
      → Answers (sys.transfer op fd u)
      → m < fuel
      → wait_first sys op events fuel fd timeout s
        ≡ ok ((sys.transfer op fd u).0, (sys.transfer op fd u).1)
  unfolding wait_first set_event
  wait_first_returns op events m fuel fd timeout s v u valid w j a h =
      rw valid (rw w (rw (retry_answer (sys.transfer op fd) m fuel v u j h a)))

  try_first_returns :
      (op : Op) (events k m fuel : ℕ) (fd timeout : ℤ) (s t v u : State)
      → is_minus_one fd ≡ false
      → Interrupted (sys.transfer op fd) k s t
      → Blocks (sys.transfer op fd t)
      → sys.wait fd events timeout (sys.transfer op fd t).1 ≡ ok v
      → Interrupted (sys.transfer op fd) m v u
      → Answers (sys.transfer op fd u)
      → k + m < fuel
      → try_first sys op events fuel fd timeout s
        ≡ ok ((sys.transfer op fd u).0, (sys.transfer op fd u).1)
  unfolding try_first try_again
  try_first_returns op events k m fuel fd timeout s t v u valid i b w j a h =
      rw (retry_block (sys.transfer op fd) k fuel s t i (omega arith) b) (
        wait_first_returns op events m fuel fd timeout (sys.transfer op fd t).1 v u valid w j a
          (omega arith))

  -- `recv` on a descriptor that is not -1, where the system interrupts its first call `k` times and then
  -- would block, where the wait then comes to its end, and where the system interrupts the
  -- second call `m` times, and then answers: with a pass for each, it
  -- returns that answer, and has waited once.
  pub recv_returns :
      (k m fuel len : ℕ) (fd timeout : ℤ) (s t v u : State)
      → is_minus_one fd ≡ false
      → Interrupted (sys.transfer (Op.sys_recv len) fd) k s t
      → Blocks (sys.transfer (Op.sys_recv len) fd t)
      → sys.wait fd ev_read timeout (sys.transfer (Op.sys_recv len) fd t).1 ≡ ok v
      → Interrupted (sys.transfer (Op.sys_recv len) fd) m v u
      → Answers (sys.transfer (Op.sys_recv len) fd u)
      → k + m < fuel
      → recv sys fuel fd len timeout s
        ≡ ok ((sys.transfer (Op.sys_recv len) fd u).0, (sys.transfer (Op.sys_recv len) fd u).1)
  unfolding recv
  recv_returns k m fuel len fd timeout s t v u valid i b w j a h =
      try_first_returns (Op.sys_recv len) ev_read k m fuel fd timeout s t v u valid i b w j a h

  -- `send` the same
  pub send_returns :
      (k m fuel : ℕ) (buf : List ℕ) (fd timeout : ℤ) (s t v u : State)
      → is_minus_one fd ≡ false
      → Interrupted (sys.transfer (Op.sys_send buf) fd) k s t
      → Blocks (sys.transfer (Op.sys_send buf) fd t)
      → sys.wait fd ev_write timeout (sys.transfer (Op.sys_send buf) fd t).1 ≡ ok v
      → Interrupted (sys.transfer (Op.sys_send buf) fd) m v u
      → Answers (sys.transfer (Op.sys_send buf) fd u)
      → k + m < fuel
      → send sys fuel fd buf timeout s
        ≡ ok ((sys.transfer (Op.sys_send buf) fd u).0, (sys.transfer (Op.sys_send buf) fd u).1)
  unfolding send
  send_returns k m fuel buf fd timeout s t v u valid i b w j a h =
      try_first_returns (Op.sys_send buf) ev_write k m fuel fd timeout s t v u valid i b w j a h

  -- `read` waits first: where the wait comes to its end, and the system then interrupts its call `m` times, and answers, with a pass for
  -- each it returns that answer.
  pub read_returns :
      (m fuel len : ℕ) (fd timeout : ℤ) (s v u : State)
      → is_minus_one fd ≡ false
      → sys.wait fd ev_read timeout s ≡ ok v
      → Interrupted (sys.transfer (Op.sys_read len) fd) m v u
      → Answers (sys.transfer (Op.sys_read len) fd u)
      → m < fuel
      → read sys fuel fd len timeout s
        ≡ ok ((sys.transfer (Op.sys_read len) fd u).0, (sys.transfer (Op.sys_read len) fd u).1)
  unfolding read
  read_returns m fuel len fd timeout s v u valid w j a h =
      wait_first_returns (Op.sys_read len) ev_read m fuel fd timeout s v u valid w j a h
