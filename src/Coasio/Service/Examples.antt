-- ===== src/Coasio/Service/Examples.antt =====
-- A server whose audit refuses the descriptors below 10, on a scripted system.
use boost_coro.Base.{
  ℕ, ltb, ◌≡◌, refl, Bool, true, false, List, [], ◌∷◌, ok, Ensures, ℤ, pos, negsuc, arith,
}
use boost_coro.Coasio.Address.{SockAddr}
use boost_coro.Coasio.Address.Examples.{net}
use boost_coro.Coasio.Address.Decimal.{decimal}
use boost_coro.Coasio.Script.{Script, scripted, script, somebody}
use boost_coro.Coasio.Socket.{einprogress, minus_one, set_non_block}
use boost_coro.Coasio.Socket.Connection.{bind, listen, accept}
use boost_coro.Coasio.Service.{
  Server, Client, served, closed, failed, no_address, accept_at, connect_to,
}
use boost_coro.Coasio.Service.Loop.{stopped, refused, handed_over}
use boost_coro.Coasio.Service.Connects.{Calls, is_connected, connect_to-Calls}
use boost_coro.Coasio.Service.Outcomes.{Serves, IsStarted, accept_at-Serves, accept_at_returns}

abbrev low : ℤ → Bool
low (pos n) = ltb n 10
low (negsuc n) = true

abbrev no_more : List (ℤ × ℕ) → Bool
no_more [] = true
no_more (_ ∷ _) = false

-- It is stopped when the script has ended.
abbrev server : Server Script
server = record {
  accept_failed = λ s. s;
  accept_succeed = λ client addr s. s;
  audit = λ client addr s. (low client, s);
  is_stopped = λ s. no_more s.entries;
}

abbrev client : Client Script
client = record { connect_failed = λ s. s; connect_succeed = λ s. s }

abbrev address : SockAddr
address = record { str = 9 ∷ b':' ∷ b'7' ∷ []; len = 16; sockaddr = somebody }

abbrev two_clients : Script
two_clients = script ((pos 12, 0) ∷ (pos 4, 0) ∷ [])

abbrev one_client : Script
one_client = script ((pos 4, 0) ∷ [])

first_accept :
    accept scripted net (pos 3) no_address minus_one two_clients ≡ ok (pos 12, address, one_client)
unfolding accept decimal
first_accept = refl

second_accept :
    accept scripted net (pos 3) no_address minus_one one_client ≡ ok (pos 4, address, script [])
unfolding accept decimal
second_accept = refl

-- The socket, bind and listen succeed, and then two clients come.
abbrev start : Script
start = script ((pos 3, 0) ∷ (pos 0, 0) ∷ (pos 0, 0) ∷ (pos 12, 0) ∷ (pos 4, 0) ∷ [])

accept_at-Serves_example :
    Ensures
      (Serves scripted net server address 1 0 start)
      (accept_at scripted net server 3 address 1 0 (negsuc 0) start)
accept_at-Serves_example = accept_at-Serves scripted net server address 1 0 start 3 (negsuc 0)

start-IsStarted : IsStarted scripted net address 1 0 start (pos 3) two_clients
unfolding set_non_block listen bind
start-IsStarted = (_, refl, refl, refl, refl, refl)

accept_at_returns_example :
    accept_at scripted net server 3 address 1 0 (negsuc 0) start
    ≡ ok (served (pos 12) address ∷ closed (pos 4) address ∷ [], script [])
accept_at_returns_example =
    accept_at_returns scripted net server address 1 0 start 2 3 (negsuc 0) (pos 3) two_clients
      (script []) (served (pos 12) address ∷ closed (pos 4) address ∷ []) start-IsStarted
      (handed_over (pos 12) address refl first_accept refl refl
        (refused (pos 4) address refl second_accept refl refl (stopped refl)))
      (omega arith)

whole_run :
    accept_at scripted net server 3 address 1 0 (negsuc 0) start
    ≡ ok (served (pos 12) address ∷ closed (pos 4) address ∷ [], script [])
unfolding accept_at decimal
whole_run = refl

-- A connection that is in progress and then refused
abbrev slow : Script
slow = script ((pos 3, 0) ∷ (negsuc 0, einprogress) ∷ (pos 111, 0) ∷ [])

connect_to-Calls_example :
    Calls scripted net client
      (is_connected scripted net client address (pos 5) (scripted.socket 2 1 0 slow))
      (connect_to scripted net client address (pos 5) (negsuc 0) slow)
connect_to-Calls_example = connect_to-Calls scripted net client address (pos 5) (negsuc 0) slow

refused_run :
    connect_to scripted net client address (pos 5) (negsuc 0) slow ≡ ok (failed ∷ [], script [])
unfolding connect_to
refused_run = refl
