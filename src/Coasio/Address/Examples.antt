-- ===== src/Coasio/Address/Examples.antt =====
-- A network in which addresses print as one character, and ports have the order of the machine.
use boost_coro.Base.{
  ℕ, zero, suc, List, length, not, ◌&&◌, ◌/◌, ◌%◌, false, ◌<◌, ◌≡◌, refl, Option, none, some, [],
  ◌∷◌, Text, codes, arith,
}
use boost_coro.Coasio.Address.{
  Network, Sockaddr, blank, unix_domain, other, SockAddr, in_4, assign_unix, inet_addr_port,
  inet_addr_host, assign_inet, to_unix_addr,
}
use boost_coro.Coasio.Address.Decimal.{decimal}
use boost_coro.Coasio.Address.Order.{Layout, lt_sock, eq_sock, eq_sock-lt_sock}
use boost_coro.Coasio.Address.Parse.{to_sock_addr}
use boost_coro.Coasio.Address.RoundTrip.{
  IsNetwork, to_unix_addr-to_sock_addr, to_sock_addr_bound, to_sock_addr_any,
}

abbrev read_one : Text → Option ℕ
read_one [] = none
read_one (c ∷ s) = some c

abbrev pub net : Network
net = record {
  htons = λ p. p;
  ntohs = λ p. p;
  inet_pton = read_one;
  inet_ntop = λ a. some (a ∷ []);
  gethostbyname = λ s. none;
  size_in = 16;
  size_un = 110;
  path_size = 108;
}

net-IsNetwork : IsNetwork net
net-IsNetwork = record {
  htons-ntohs = λ p h. refl;
  printed = λ a. a ∷ [];
  inet_ntop_lem = λ a h. refl;
  inet_pton-printed = λ a h. refl;
  inet_pton_empty = refl;
}

-- "inet://9999" is an address of this host, and "foo" a path.
default_host : (to_sock_addr net (codes "inet://9999") none).str ≡ codes "127.0.0.1:9999"
unfolding to_sock_addr inet_addr_host decimal
default_host = refl

bare_path : (to_sock_addr net (codes "foo") none).str ≡ codes "foo"
unfolding to_sock_addr
bare_path = refl

to_sock_addr_any_example :
    ((to_sock_addr net (codes "inet://localhost:9999") none).str ≡ codes "localhost:9999")
    × ((to_sock_addr net (codes "inet://localhost:9999") none).sockaddr
        ≡ in_4 (record { sin_port = 9999; sin_addr = 0 }))
unfolding decimal
to_sock_addr_any_example =
    to_sock_addr_any net net-IsNetwork (codes "localhost") 9999 none (ground arith) (omega arith)

to_unix_addr-to_sock_addr_example :
    (to_unix_addr net (to_sock_addr net (codes "local:///tmp/s") none) ≡ some (codes "/tmp/s"))
    × (to_unix_addr net (to_sock_addr net (codes "file:///tmp/s") none) ≡ some (codes "/tmp/s"))
    × ((to_sock_addr net (codes "local:///tmp/s") none).str ≡ codes "/tmp/s")
    × ((to_sock_addr net (codes "file:///tmp/s") none).str ≡ codes "/tmp/s")
to_unix_addr-to_sock_addr_example = to_unix_addr-to_sock_addr net (codes "/tmp/s") none

to_sock_addr_bound_example : 3 < 108
unfolding to_sock_addr to_unix_addr
to_sock_addr_bound_example =
    to_sock_addr_bound net (codes "foo") none (codes "foo") (omega arith) refl

-- A layout with room for a port, an address and four bytes of a path
abbrev padded : ℕ → Text → List ℕ
padded zero t = []
padded (suc n) [] = 0 ∷ padded n []
padded (suc n) (c ∷ t) = c ∷ padded n t

length-padded : (n : ℕ) (t : Text) → length (padded n t) ≡ n
length-padded zero t = refl
length-padded (suc n) [] = omega (arith, length-padded n [])
length-padded (suc n) (c ∷ t) = omega (arith, length-padded n t)

abbrev bytes_of : Sockaddr → List ℕ
bytes_of blank = padded 6 []
bytes_of (in_4 a) =
    padded 6 (2 ∷ 0 ∷ a.sin_port / 256 % 256 ∷ a.sin_port % 256 ∷ a.sin_addr % 256 ∷ [])
bytes_of (unix_domain path) = padded 6 (1 ∷ 0 ∷ path)
bytes_of (other family) = padded 6 (family % 256 ∷ family / 256 % 256 ∷ [])

length-bytes_of : (a : Sockaddr) → length (bytes_of a) ≡ 6
length-bytes_of blank = refl
length-bytes_of (in_4 a) = refl
length-bytes_of (unix_domain path) = length-padded 6 (1 ∷ 0 ∷ path)
length-bytes_of (other family) = refl

abbrev small_layout : Layout
small_layout = record { size = 6; bytes = bytes_of; length-bytes = length-bytes_of }

abbrev local_a : SockAddr
local_a = assign_unix net (codes "/a")

abbrev local_b : SockAddr
local_b = assign_unix net (codes "/b")

abbrev inet_c : SockAddr
inet_c = assign_inet net (inet_addr_port 80)

eq_sock-lt_sock_example :
    (eq_sock small_layout local_a local_b
      ≡ (not (lt_sock small_layout local_a local_b) && not (lt_sock small_layout local_b local_a)))
    × ((lt_sock small_layout local_a local_b && lt_sock small_layout local_b local_a) ≡ false)
    × ((lt_sock small_layout local_a local_b
          && lt_sock small_layout local_b inet_c
          && not (lt_sock small_layout local_a inet_c))
        ≡ false)
eq_sock-lt_sock_example = eq_sock-lt_sock small_layout local_a local_b inet_c
