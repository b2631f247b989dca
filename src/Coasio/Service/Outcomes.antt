-- ===== src/Coasio/Service/Outcomes.antt =====
-- What `acceptor_t::operator()` comes to.
use boost_coro.Base.{
  Bool, not, ◌<◌, ap, sym, ◌∙◌, if◌then◌else◌, ℕ, ◌≡◌, refl, inl, inr, ◌⊎◌, Bool-cases, true, false,
  List, [], ◌∷◌, ok, Ensures, ensures, both, ℤ,
}
use boost_coro.Coasio.Address.{Network, SockAddr}
use boost_coro.Coasio.Socket.{System, so_reuseaddr, is_neg, is_zero, is_minus_one, set_non_block}
use boost_coro.Coasio.Socket.Connection.{create, bind, listen}
use boost_coro.Coasio.Service.{
  serve, Server, Event, failed, family_of, give_up, listened, bound, created, accept_at,
}
use boost_coro.Coasio.Service.Connects.{valid_fd}
use boost_coro.Coasio.Service.Loop.{
  Rounds, HasRounds, serve-Rounds, serve_returns, IsAuditedRun, serve-IsAudited,
}

module _ {State : Type 0} (sys : System State) (net : Network) where
  -- `bind` and `listen` of a new socket, from its descriptor and the state after `socket`
  abbrev bind_of : SockAddr → ℤ × State → ℤ × State
  bind_of addr (fd, s) = bind sys fd addr (sys.setsockopt fd (so_reuseaddr 1) s).1

  abbrev listen_of : SockAddr → ℤ × State → ℤ × State
  listen_of addr r = listen sys r.0 5 (bind_of addr r).1

  -- From `s`, the system gives the descriptor `fd` for a socket, which is then bound to the address and
  -- listens, and is set to non-blocking; that leads to `u`.
  abbrev pub IsStarted : SockAddr → ℕ → ℕ → State → ℤ → State → Type 0
  IsStarted addr type flag s fd u =
      (t : State) × (sys.socket (family_of addr.sockaddr) type flag s ≡ (fd, t))
      × (is_neg fd ≡ false)
      × (is_zero (bind_of addr (fd, t)).0 ≡ true)
      × (is_zero (listen_of addr (fd, t)).0 ≡ true)
      × (u ≡ (set_non_block sys fd true (listen_of addr (fd, t)).1).1)

  module _ (server : Server State) (addr : SockAddr) where
    listened_lem :
        (fuel : ℕ) (fd : ℤ) (s : State)
        → is_zero (listen sys fd 5 s).0 ≡ true
        → listened sys net server fuel fd (listen sys fd 5 s)
          ≡ serve sys net server fuel fd (set_non_block sys fd true (listen sys fd 5 s).1).1
    unfolding listened
    listened_lem fuel fd s h = rw h refl

    -- A socket that starts leads into the loop.
    started_lem :
        (fuel type flag : ℕ) (old fd : ℤ) (s u : State)
        → IsStarted addr type flag s fd u
        → accept_at sys net server fuel addr type flag old s ≡ serve sys net server fuel fd u
    unfolding accept_at create created bound
    started_lem fuel type flag old fd s u (t, e, v, b, l, f) =
        rw (e, f) (rw (valid_fd fd v) (rw v (rw b (rw (listened_lem fuel fd _ l) refl))))

    -- Whether the start fails: `accept_failed` was called, once, and nothing else was done; or not: then
    -- the loop was stopped after some rounds, and what was done with a client was as its audit was.
    abbrev pub Serves : ℕ → ℕ → State → List Event × State → Type 0
    Serves type flag s r =
        ((t : State) × (r ≡ (failed ∷ [], server.accept_failed t))
          × ((fd : ℤ) (u : State) → IsStarted addr type flag s fd u → ⊥))
        ⊎ ((fd : ℤ) × (u : State) × IsStarted addr type flag s fd u
            × HasRounds sys net server fd u r
            × IsAuditedRun sys net server r)

    module _ (type flag : ℕ) (s : State) where
      -- What has failed for the socket that the system gives rules out every start.
      not_started :
          (test : ℤ × State → Bool) (r : ℤ × State)
          → sys.socket (family_of addr.sockaddr) type flag s ≡ r
          → test r ≡ false
          → ((fd : ℤ) (u : State) (st : IsStarted addr type flag s fd u) → test (fd, st.0) ≡ true)
          → (fd : ℤ) (u : State) → IsStarted addr type flag s fd u
          → ⊥
      not_started test r e fails passes fd u st =
          let same : test r ≡ test (fd, st.0) = ap test (sym e ∙ st.1) in
          let passed : test (fd, st.0) ≡ true = passes fd u st in cc

      listened-Serves :
          (fuel : ℕ) (old fd : ℤ) (t : State)
          → sys.socket (family_of addr.sockaddr) type flag s ≡ (fd, t)
          → is_neg fd ≡ false
          → is_zero (bind_of addr (fd, t)).0 ≡ true
          → Ensures (Serves type flag s) (listened sys net server fuel fd (listen_of addr (fd, t)))
      unfolding listened give_up
      listened-Serves fuel old fd t e v b = elim (Bool-cases (is_zero (listen_of addr (fd, t)).0)) [
        | inr h ↦ rw h (
            ensures (
              inl (
                _,
                refl,
                not_started (λ x. is_zero (listen_of addr x).0) (fd, t) e h (λ fd u st. st.4),
              )))
        | inl h ↦
            let u = (set_non_block sys fd true (listen_of addr (fd, t)).1).1 in
            rw h (
              both (serve-Rounds sys net server fuel fd u)
                (serve-IsAudited sys net server fuel fd u)
                λ q k a. inr (fd, u, (t, e, v, b, h, refl), k, a))
      ]

      bound-Serves :
          (fuel : ℕ) (old fd : ℤ) (t : State)
          → sys.socket (family_of addr.sockaddr) type flag s ≡ (fd, t)
          → is_neg fd ≡ false
          → Ensures (Serves type flag s) (bound sys net server fuel fd (bind_of addr (fd, t)))
      unfolding bound give_up
      bound-Serves fuel old fd t e v = elim (Bool-cases (is_zero (bind_of addr (fd, t)).0)) [
        | inr h ↦ rw h (
            ensures (
              inl (
                _,
                refl,
                not_started (λ x. is_zero (bind_of addr x).0) (fd, t) e h (λ fd u st. st.3),
              )))
        | inl h ↦ rw h (listened-Serves fuel old fd t e v h)
      ]

      created-Serves :
          (fuel : ℕ) (old fd : ℤ) (t : State)
          → sys.socket (family_of addr.sockaddr) type flag s ≡ (fd, t)
          → Ensures (Serves type flag s) (
              created sys net server fuel addr (
                if is_minus_one fd
                then (old, fd, t)
                else (fd, fd, (sys.setsockopt fd (so_reuseaddr 1) t).1)))
      unfolding created give_up
      created-Serves fuel old fd t e = elim (Bool-cases (is_neg fd)) [
        | inl h ↦
            let no_start =
              not_started (λ x. not (is_neg x.0)) (fd, t) e (rw h refl) (λ fd u st. rw st.2 refl) in
            elim (Bool-cases (is_minus_one fd)) [
              | inl m ↦ rw m (rw h (ensures (inl (_, refl, no_start))))
              | inr m ↦ rw m (rw h (ensures (inl (_, refl, no_start))))
            ]
        | inr h ↦ rw (valid_fd fd h) (rw h (bound-Serves fuel old fd t e h))
      ]

      -- Where `acceptor_t` returns, on whatever fuel, either its start failed: the system did not give a
      -- socket that is then bound to the address and listens, and `accept_failed` was called, once, and
      -- nothing else was done. Or its start succeeded, and it came through some number of rounds of its
      -- loop and was then stopped; each client that it handed over is one that the audit lets pass in some
      -- state, and each one that it closed is one that it does not.
      pub accept_at-Serves :
          (fuel : ℕ) (old : ℤ)
          → Ensures (Serves type flag s) (accept_at sys net server fuel addr type flag old s)
      unfolding accept_at create
      accept_at-Serves fuel old =
          let r = sys.socket (family_of addr.sockaddr) type flag s in
          created-Serves fuel old r.0 r.1 refl

      -- If the start of `acceptor_t` succeeds, and its loop is then stopped after `k` rounds, it returns,
      -- on fuel for one round more, with what these rounds have done, in order: a round in which `accept`
      -- gives no client does nothing, one whose client the audit is against closes it, and one whose
      -- client the audit is not against hands it over.
      pub accept_at_returns :
          (k fuel : ℕ) (old fd : ℤ) (u v : State) (es : List Event)
          → IsStarted addr type flag s fd u
          → Rounds sys net server fd k u es v
          → k < fuel
          → accept_at sys net server fuel addr type flag old s ≡ ok (es, v)
      accept_at_returns k fuel old fd u v es st rounds enough =
          started_lem fuel type flag old fd s u st
          ∙ serve_returns sys net server fd k fuel u v es rounds enough
