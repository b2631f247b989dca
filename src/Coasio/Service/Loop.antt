-- ===== src/Coasio/Service/Loop.antt =====
-- The acceptor's loop: what it does with the clients, and when it ends.
use boost_coro.Base.{
  All-append, All, ℕ, zero, suc, ◌<◌, ◌≡◌, refl, ap, inl, inr, Bool, Bool-cases, true, false, List,
  [], ◌∷◌, ◌++◌, Outcome, ok, fault, ◌>>=◌, Ensures, ensures, faulted, bind, ℤ, arith,
}
use boost_coro.Coasio.Address.{Network, SockAddr}
use boost_coro.Coasio.Socket.Transfer.{ensure-bind}
use boost_coro.Coasio.Socket.{System, is_neg, minus_one}
use boost_coro.Coasio.Socket.Connection.{accept}
use boost_coro.Coasio.Service.{
  Server, Event, failed, succeeded, served, closed, no_address, audited, received, round, serve,
}

module _ {State : Type 0} (sys : System State) (net : Network) (server : Server State) where
  -- The audit let the client pass that was served, and it did not let the one pass that was closed; there
  -- was a client.
  abbrev pub IsAudited : Event → Type 0
  IsAudited failed = ⊥
  IsAudited succeeded = ⊥
  IsAudited (served client addr) =
      (is_neg client ≡ false) × (s : State) × ((server.audit client addr s).0 ≡ false)
  IsAudited (closed client addr) =
      (is_neg client ≡ false) × (s : State) × ((server.audit client addr s).0 ≡ true)

  audited-IsAudited :
      (client : ℤ) (addr : SockAddr) (s : State) (r : Bool × State)
      → is_neg client ≡ false
      → server.audit client addr s ≡ r
      → All IsAudited (audited sys net server client addr r).0
  unfolding audited
  audited-IsAudited client addr s (true, t) valid e = ((valid, s, ap (λ x. x.0) e), tt)
  audited-IsAudited client addr s (false, t) valid e = ((valid, s, ap (λ x. x.0) e), tt)

  received-IsAudited : (r : ℤ × SockAddr × State) → All IsAudited (received sys net server r).0
  unfolding received
  received-IsAudited (client, addr, s) = elim (Bool-cases (is_neg client)) [
    | inl h ↦ rw h tt
    | inr h ↦ rw h (audited-IsAudited client addr s (server.audit client addr s) h refl)
  ]

  abbrev pub IsAuditedRun : List Event × State → Type 0
  IsAuditedRun r = All IsAudited r.0

  round-IsAudited : (fd : ℤ) (s : State) → Ensures IsAuditedRun (round sys net server fd s)
  unfolding round
  round-IsAudited fd s =
      ensure-bind (accept sys net fd no_address minus_one s) (λ r. ok (received sys net server r))
        (λ r. ensures (received-IsAudited r))

  -- Whatever the fuel, each client that the loop hands over has passed the audit, and each one it closes
  -- has not; it hands over no error for a client, and calls `accept_failed` no more.
  pub serve-IsAudited :
      (fuel : ℕ) (fd : ℤ) (s : State) → Ensures IsAuditedRun (serve sys net server fuel fd s)
  unfolding serve
  serve-IsAudited zero fd s = faulted
  serve-IsAudited (suc fuel) fd s = elim (Bool-cases (server.is_stopped s)) [
    | inl h ↦ rw h (ensures tt)
    | inr h ↦ rw h (
        bind (round-IsAudited fd s) (λ r a.
          bind (serve-IsAudited fuel fd r.1) (λ q b. ensures (All-append IsAudited r.0 q.0 a b))))
  ]

  -- What the acceptor promises. From `s`, not stopped before, it accepts `k` times, with the events `es`,
  -- and then stands in `t`, stopped. Of each time: without a client nothing is done; a client that the
  -- audit is against is closed; and one that it is not against is handed over, once.
  pub data Rounds (fd : ℤ) : ℕ → State → List Event → State → Type 0 where
    stopped : {s : State} → server.is_stopped s ≡ true → Rounds fd 0 s [] s
    no_client :
        {k : ℕ} {s t u : State} {es : List Event} (client : ℤ) (addr : SockAddr)
        → server.is_stopped s ≡ false
        → accept sys net fd no_address minus_one s ≡ ok (client, addr, t)
        → is_neg client ≡ true
        → Rounds fd k t es u
        → Rounds fd (suc k) s es u
    refused :
        {k : ℕ} {s t v u : State} {es : List Event} (client : ℤ) (addr : SockAddr)
        → server.is_stopped s ≡ false
        → accept sys net fd no_address minus_one s ≡ ok (client, addr, t)
        → is_neg client ≡ false
        → server.audit client addr t ≡ (true, v)
        → Rounds fd k (sys.close client v) es u
        → Rounds fd (suc k) s (closed client addr ∷ es) u
    handed_over :
        {k : ℕ} {s t v u : State} {es : List Event} (client : ℤ) (addr : SockAddr)
        → server.is_stopped s ≡ false
        → accept sys net fd no_address minus_one s ≡ ok (client, addr, t)
        → is_neg client ≡ false
        → server.audit client addr t ≡ (false, v)
        → Rounds fd k (server.accept_succeed client addr v) es u
        → Rounds fd (suc k) s (served client addr ∷ es) u

  -- When the acceptor is stopped after `k` rounds, the loop ends, on fuel for one round more, with the
  -- events of these rounds in order.
  pub serve_returns :
      (fd : ℤ) (k fuel : ℕ) (s t : State) (es : List Event)
      → Rounds fd k s es t
      → k < fuel
      → serve sys net server fuel fd s ≡ ok (es, t)
  unfolding serve round received audited
  serve_returns fd k zero s t es rounds h = absurd (omega arith)
  serve_returns fd zero (suc fuel) s t es (stopped e) h = rw e
  serve_returns fd (suc k) (suc fuel) s t es (no_client client addr going a n rest) h =
      rw (going, a, n, serve_returns fd k fuel _ t es rest (omega arith)) refl
  serve_returns fd (suc k) (suc fuel) s t es (refused {es = fs} client addr going a n d rest) h =
      rw (going, a, n, d, serve_returns fd k fuel _ t fs rest (omega arith)) refl
  serve_returns fd (suc k) (suc fuel) s t es (handed_over {es = fs} client addr going a n d rest)
        h =
      rw (going, a, n, d, serve_returns fd k fuel _ t fs rest (omega arith)) refl

  abbrev pub HasRounds : ℤ → State → List Event × State → Type 0
  HasRounds fd s r = (k : ℕ) × Rounds fd k s r.0 r.1

  -- A round after its `accept`
  audited-Rounds :
      (fd : ℤ) (s t : State) (client : ℤ) (addr : SockAddr) (r : Bool × State)
      → server.is_stopped s ≡ false
      → accept sys net fd no_address minus_one s ≡ ok (client, addr, t)
      → is_neg client ≡ false
      → server.audit client addr t ≡ r
      → (q : List Event × State) → HasRounds fd (audited sys net server client addr r).1 q
      → HasRounds fd s ((audited sys net server client addr r).0 ++ q.0, q.1)
  unfolding audited
  audited-Rounds fd s t client addr (true, v) going a n d q (k, rest) =
      (suc k, refused client addr going a n d rest)
  audited-Rounds fd s t client addr (false, v) going a n d q (k, rest) =
      (suc k, handed_over client addr going a n d rest)

  received-Rounds :
      (fd : ℤ) (s t : State) (client : ℤ) (addr : SockAddr)
      → server.is_stopped s ≡ false
      → accept sys net fd no_address minus_one s ≡ ok (client, addr, t)
      → (q : List Event × State) → HasRounds fd (received sys net server (client, addr, t)).1 q
      → HasRounds fd s ((received sys net server (client, addr, t)).0 ++ q.0, q.1)
  unfolding received
  received-Rounds fd s t client addr going a q = elim (Bool-cases (is_neg client)) [
    | inl n ↦ rw n (λ (k, rest). (suc k, no_client client addr going a n rest))
    | inr n ↦ rw n (audited-Rounds fd s t client addr (server.audit client addr t) going a n refl q)
  ]

  -- Where the loop returns, on whatever fuel, it has come through some number of rounds.
  pub serve-Rounds :
      (fuel : ℕ) (fd : ℤ) (s : State) → Ensures (HasRounds fd s) (serve sys net server fuel fd s)
  unfolding serve round
  serve-Rounds zero fd s = faulted
  serve-Rounds (suc fuel) fd s = elim (Bool-cases (server.is_stopped s)) [
    | inl h ↦ rw h (ensures (0, stopped h))
    | inr h ↦
        rw h (more h (accept sys net fd no_address minus_one s) refl λ t. serve-Rounds fuel fd t)
  ]
    where
      more :
          server.is_stopped s ≡ false
          → (o : Outcome (ℤ × SockAddr × State)) → accept sys net fd no_address minus_one s ≡ o
          → ((t : State) → Ensures (HasRounds fd t) (serve sys net server fuel fd t))
          → Ensures (HasRounds fd s) (
              o >>= (λ r. ok (received sys net server r)) >>= λ r.
              serve sys net server fuel fd r.1 >>= λ q. ok (r.0 ++ q.0, q.1))
      more h (fault e) f rest = faulted
      more h (ok (client, addr, t)) f rest =
          bind (rest _) λ q a. ensures (received-Rounds fd s t client addr h f q a)
