-- ===== src/Coasio/Service/Connects.antt =====
-- What `connector_t::operator()` comes to.
use boost_coro.Base.{
  Bool, not, if◌then◌else◌, ◌==◌, ◌≡◌, refl, inl, inr, Bool-cases, true, false, List, [], ◌∷◌,
  Outcome, ok, fault, ◌>>=◌, ℤ, pos, negsuc,
}
use boost_coro.Coasio.Address.{Network, SockAddr}
use boost_coro.Coasio.Socket.{
  System, so_reuseaddr, is_neg, is_zero, is_minus_one, minus_one, ev_write, einprogress,
  set_non_block, set_event,
}
use boost_coro.Coasio.Socket.Connection.{create, connect_error, connect_result, connect}
use boost_coro.Coasio.Service.{
  Client, Event, failed, succeeded, sock_stream, family_of, connect_done, connect_created,
  connect_to,
}

pub valid_fd : (fd : ℤ) → is_neg fd ≡ false → is_minus_one fd ≡ false
valid_fd (pos n) h = refl
valid_fd (negsuc n) h = cc

module _ {State : Type 0} (sys : System State) (net : Network) where
  module _ (client : Client State) where
    -- With the answer to a test, one of the two functions is called, once: `connect_succeed` if it is
    -- true. Where the test ends in a fault, so does the call.
    abbrev pub Calls : Outcome Bool → Outcome (List Event × State) → Type 0
    Calls (fault x) r = r ≡ fault x
    Calls (ok test) r =
        (t : State) × (r ≡ (
          if test
          then ok (succeeded ∷ [], client.connect_succeed t)
          else ok (failed ∷ [], client.connect_failed t)))

    -- The connection is made at once, or it is in progress and without an error after the wait.
    abbrev is_made : ℤ → ℤ → ℤ × State → Outcome Bool
    is_made fd timeout (r, s) =
        if not (is_minus_one r)
        then ok true
        else if sys.errno s == einprogress
        then (sys.wait fd ev_write timeout s >>= λ t. ok (is_zero (sys.so_error fd t).0))
        else ok false

    -- The system gives a socket, and it is connected.
    abbrev pub is_connected : SockAddr → ℤ → ℤ × State → Outcome Bool
    is_connected addr timeout (fd, s) =
        if is_neg fd
        then ok false
        else is_made fd timeout (
            sys.connect fd addr
              (set_non_block sys fd true (sys.setsockopt fd (so_reuseaddr 1) s).1).1)

    done-Calls : (r : ℤ × State) → Calls (ok (is_zero r.0)) (connect_done sys net client r)
    unfolding connect_done
    done-Calls (r, s) = elim (Bool-cases (is_zero r)) [
      | inl h ↦ (s, rw h refl)
      | inr h ↦ (s, rw h refl)
    ]

    error-Calls :
        (fd : ℤ) (r : ℤ × State)
        → Calls (ok (is_zero r.0)) (connect_done sys net client (connect_error sys fd r))
    unfolding connect_error
    error-Calls fd (error, s) = elim (Bool-cases (is_zero error)) [
      | inl h ↦ rw h (done-Calls (pos 0, (set_non_block sys fd false s).1))
      | inr h ↦ rw h (done-Calls (minus_one, s))
    ]

    -- After the wait, or a fault of it
    waited-Calls :
        (fd : ℤ) (o : Outcome State)
        → Calls (o >>= λ t. ok (is_zero (sys.so_error fd t).0)) (
            (o >>= λ t. ok (connect_error sys fd (sys.so_error fd t)))
            >>= connect_done sys net client)
    waited-Calls fd (ok t) = error-Calls fd (sys.so_error fd t)
    waited-Calls fd (fault x) = refl

    result-Calls :
        (fd timeout : ℤ) (r : ℤ × State)
        → is_minus_one fd ≡ false
        → Calls
            (is_made fd timeout r)
            (connect_result sys fd timeout r >>= connect_done sys net client)
    unfolding connect_result set_event
    result-Calls fd timeout (r, s) valid = elim (Bool-cases (is_minus_one r)) [
      | inr h ↦ rw h (error-Calls fd (pos 0, s))
      | inl h ↦ elim (Bool-cases (sys.errno s == einprogress)) [
        | inl i ↦ rw h (rw i (rw valid (waited-Calls fd (sys.wait fd ev_write timeout s))))
        | inr i ↦ rw h (rw i (done-Calls (minus_one, s)))
      ]
    ]

    created-Calls :
        (addr : SockAddr) (timeout old fd : ℤ) (s : State)
        → Calls (is_connected addr timeout (fd, s)) (
            connect_created sys net client addr timeout (
              if is_minus_one fd
              then (old, fd, s)
              else (fd, fd, (sys.setsockopt fd (so_reuseaddr 1) s).1)))
    unfolding connect_created connect
    created-Calls addr timeout old fd s = elim (Bool-cases (is_neg fd)) [
      | inl h ↦ elim (Bool-cases (is_minus_one fd)) [
        | inl m ↦ rw (m, h) (s, refl)
        | inr m ↦ rw (m, h) ((sys.setsockopt fd (so_reuseaddr 1) s).1, refl)
      ]
      | inr h ↦ rw (valid_fd fd h) (
          rw h (
            result-Calls fd timeout
              (sys.connect fd addr
                (set_non_block sys fd true (sys.setsockopt fd (so_reuseaddr 1) s).1).1)
              (valid_fd fd h)))
    ]

    -- `connector_t` returns after a call of just one of its two functions, once: `connect_succeed` if the
    -- system gives a socket, and its `connect` does not return -1, or does so with EINPROGRESS and the
    -- socket has no error after the wait; and `connect_failed` if not. The one exception is where
    -- `connect` does return -1 with EINPROGRESS, and the wait ends in a fault: then that is what
    -- `connector_t` ends in.
    pub connect_to-Calls :
        (addr : SockAddr) (timeout old : ℤ) (s : State)
        → Calls
            (is_connected addr timeout (sys.socket (family_of addr.sockaddr) sock_stream 0 s))
            (connect_to sys net client addr timeout old s)
    unfolding connect_to create
    connect_to-Calls addr timeout old s =
        let r = sys.socket (family_of addr.sockaddr) sock_stream 0 s in
        created-Calls addr timeout old r.0 r.1
