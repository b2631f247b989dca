-- ===== src/Coasio/Service.antt =====
-- `acceptor_t` and `connector_t` of boost/coroutine/coasio/acceptor.h and connector.h. The virtual functions
-- are a parameter; each call of one, and each client that is closed, is an event of the result.
pub mod Loop
pub mod Connects
pub mod Outcomes
pub mod Stop
pub mod Examples
use boost_coro.Base.{
  ℕ, zero, suc, Bool, true, false, not, if◌then◌else◌, List, [], ◌∷◌, ◌++◌, Outcome, ok, fault,
  deep_recursion, ◌>>=◌, ℤ, pos,
}
use boost_coro.Coasio.Address.{Network, SockAddr, Sockaddr, blank, in_4, unix_domain, other}
use boost_coro.Coasio.Socket.{System, is_neg, is_zero, minus_one, set_non_block}
use boost_coro.Coasio.Socket.Connection.{create, bind, listen, accept, connect}

-- SOCK_STREAM
abbrev pub sock_stream : ℕ
sock_stream = 1

-- `family()`: AF_UNSPEC, AF_INET or AF_LOCAL
abbrev pub family_of : Sockaddr → ℕ
family_of blank = 0
family_of (in_4 a) = 2
family_of (unix_domain path) = 1
family_of (other family) = family

-- What the class that is derived does. `is_stopped` is the member `_stopped`, which `stop` sets.
pub record Server (State : Type 0) : Type 0 where
  pub accept_failed : State → State
  pub accept_succeed : ℤ → SockAddr → State → State
  pub audit : ℤ → SockAddr → State → Bool × State
  pub is_stopped : State → Bool

pub record Client (State : Type 0) : Type 0 where
  pub connect_failed : State → State
  pub connect_succeed : State → State

pub data Event : Type 0 where
  failed succeeded : Event
  served closed : ℤ → SockAddr → Event

-- sock_addr_t()
abbrev pub no_address : SockAddr
no_address = record { str = []; len = 0; sockaddr = blank }

module _ {State : Type 0} (sys : System State) (net : Network) where
  module _ (server : Server State) where
    unfoldable pub audited : ℤ → SockAddr → Bool × State → List Event × State
    audited client addr (true, s) = (closed client addr ∷ [], sys.close client s)
    audited client addr (false, s) = (served client addr ∷ [], server.accept_succeed client addr s)

    unfoldable pub received : ℤ × SockAddr × State → List Event × State
    unfolding audited
    received (client, addr, s) =
        if is_neg client then ([], s) else audited client addr (server.audit client addr s)

    -- A round of the loop
    unfoldable pub round : ℤ → State → Outcome (List Event × State)
    unfolding accept received
    round fd s = accept sys net fd no_address minus_one s >>= λ r. ok (received r)

    -- The loop of `acceptor_t::operator()`, on fuel
    unfoldable pub serve : ℕ → ℤ → State → Outcome (List Event × State)
    unfolding round
    serve zero fd s = fault deep_recursion
    serve (suc fuel) fd s =
        let on : List Event × State → Outcome (List Event × State) =
          λ r. serve fuel fd r.1 >>= λ q. ok (r.0 ++ q.0, q.1) in
        let next = round fd s >>= on in if server.is_stopped s then ok ([], s) else next

    unfoldable pub give_up : State → Outcome (List Event × State)
    give_up s = ok (failed ∷ [], server.accept_failed s)

    unfoldable pub listened : ℕ → ℤ → ℤ × State → Outcome (List Event × State)
    unfolding give_up set_non_block serve
    listened fuel fd (r, s) =
        let (_, s1) = set_non_block sys fd true s in
        if not (is_zero r) then give_up s else serve fuel fd s1

    unfoldable pub bound : ℕ → ℤ → ℤ × State → Outcome (List Event × State)
    unfolding give_up listen listened
    bound fuel fd (r, s) =
        if not (is_zero r) then give_up s else listened fuel fd (listen sys fd 5 s)

    unfoldable pub created : ℕ → SockAddr → ℤ × ℤ × State → Outcome (List Event × State)
    unfolding give_up bind bound
    created fuel addr (fd, r, s) =
        if is_neg r then give_up s else bound fuel fd (bind sys fd addr s)

    -- `acceptor_t::operator()(sock_addr, type, flag)`, where the socket's descriptor was `old`
    unfoldable pub accept_at : ℕ → SockAddr → ℕ → ℕ → ℤ → State → Outcome (List Event × State)
    unfolding create created
    accept_at fuel addr type flag old s =
        created fuel addr (create sys (family_of addr.sockaddr) type flag old s)

  module _ (client : Client State) where
    unfoldable pub connect_done : ℤ × State → Outcome (List Event × State)
    connect_done (r, s) =
        if is_zero r
        then ok (succeeded ∷ [], client.connect_succeed s)
        else ok (failed ∷ [], client.connect_failed s)

    unfoldable pub connect_created : SockAddr → ℤ → ℤ × ℤ × State → Outcome (List Event × State)
    unfolding connect connect_done
    connect_created addr timeout (fd, r, s) =
        if is_neg r
        then ok (failed ∷ [], client.connect_failed s)
        else (connect sys fd addr timeout s >>= connect_done)

    -- `connector_t::operator()(sock_addr, timeout)`
    unfoldable pub connect_to : SockAddr → ℤ → ℤ → State → Outcome (List Event × State)
    unfolding create connect_created
    connect_to addr timeout old s =
        connect_created addr timeout (create sys (family_of addr.sockaddr) sock_stream 0 old s)
