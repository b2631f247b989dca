-- ===== src/Coasio/Address.antt =====
-- The addresses of boost/coroutine/coasio/addr.h. `htons`, `inet_pton` and their inverses are the system's.
pub mod Parse
pub mod Decimal
pub mod RoundTrip
pub mod Order
pub mod Examples
use boost_coro.Base.{
  ℕ, ◌+◌, ◌-◌, ◌==◌, Bool, true, false, not, ◌&&◌, if◌then◌else◌, Option, none, some, List, [], ◌∷◌,
  ◌++◌, length, take, Outcome, ok, fault, assert_failed, null_deref, Text, codes,
}
use boost_coro.Coasio.Address.Decimal.{decimal}

-- What the system gives: conversions of ports and of IPv4 addresses, the sizes of its structures, and the
-- number of bytes in `sun_path`.
pub record Network : Type 0 where
  pub htons : ℕ → ℕ
  pub ntohs : ℕ → ℕ
  pub inet_pton : Text → Option ℕ
  pub inet_ntop : ℕ → Option Text
  pub gethostbyname : Text → Option (List ℕ)
  pub size_in : ℕ
  pub size_un : ℕ
  pub path_size : ℕ

abbrev pub any_host : Text
any_host = codes "0.0.0.0"

pub record InetAddr : Type 0 where
  pub host : Text
  pub host_ip : Text
  pub port : ℕ

-- `sockaddr_in`, with the port and the address as they stand in it, in network order
pub record SockaddrIn : Type 0 where
  pub sin_port : ℕ
  pub sin_addr : ℕ

-- The union of `sock_addr_t`, by its family; `blank` is all zeros.
pub data Sockaddr : Type 0 where
  blank : Sockaddr
  in_4 : SockaddrIn → Sockaddr
  unix_domain : Text → Sockaddr
  other : ℕ → Sockaddr

pub record SockAddr : Type 0 where
  pub str : Text
  pub len : ℕ
  pub sockaddr : Sockaddr

-- inet_addr_t(port), inet_addr_t(host, port)
unfoldable pub inet_addr_port : ℕ → InetAddr
inet_addr_port port = record { host = any_host; host_ip = any_host; port = port }

unfoldable pub inet_addr_host : Text → ℕ → InetAddr
inet_addr_host host port = record { host = host; host_ip = []; port = port }

-- `inet_addr_t::to_string`
unfoldable pub inet_to_string : InetAddr → Text
inet_to_string a = a.host ++ (b':' ∷ decimal a.port)

abbrev pub text_or : Option Text → Text → Text
text_or none t = t
text_or (some s) t = s

-- The assignment of what `inet_ntop` returns dereferences null when it fails.
abbrev pub assigned : Option Text → Outcome Text
assigned none = fault null_deref
assigned (some s) = ok s

abbrev pub first_address : (ℕ → Option Text) → Option (List ℕ) → Outcome Text
first_address ntop none = ok any_host
first_address ntop (some []) = ok any_host
first_address ntop (some (a ∷ _)) = assigned (ntop a)

abbrev pub eq_text : Text → Text → Bool
eq_text [] [] = true
eq_text [] (_ ∷ _) = false
eq_text (_ ∷ _) [] = false
eq_text (c ∷ s) (d ∷ t) = c == d && eq_text s t

-- `operator==`
unfoldable pub eq_inet : InetAddr → InetAddr → Bool
eq_inet a b = eq_text a.host b.host && eq_text a.host_ip b.host_ip && a.port == b.port

module _ (net : Network) where
  -- `get_ip_by_host`
  unfoldable pub get_ip_by_host : Text → Outcome Text
  get_ip_by_host host =
      if eq_text host any_host
      then ok host
      else first_address net.inet_ntop (net.gethostbyname host)

  -- inet_addr_t(sockaddr)
  unfoldable pub inet_addr_sockaddr : SockaddrIn → InetAddr
  inet_addr_sockaddr a =
      let ip = text_or (net.inet_ntop a.sin_addr) any_host in
      record { host = ip; host_ip = ip; port = net.ntohs a.sin_port }

  abbrev pub number_or : Option ℕ → ℕ → ℕ
  number_or none n = n
  number_or (some m) n = m

  -- `assign` of an `inet_addr_t`. `inet_pton` writes nothing when it cannot read the text.
  unfoldable pub assign_inet : InetAddr → SockAddr
  unfolding inet_to_string
  assign_inet a = record {
    str = inet_to_string a;
    len = net.size_in;
    sockaddr =
        in_4 (record {
          sin_port = net.htons a.port;
          sin_addr = number_or (net.inet_pton a.host_ip) 0;
        });
  }

  -- `assign` of a `unix_addr_t`, by its path
  unfoldable pub assign_unix : Text → SockAddr
  assign_unix path = record {
    str = path;
    len = net.size_un;
    sockaddr = unix_domain (take (net.path_size - 1) path);
  }

  -- `assign` of a `sockaddr`
  unfoldable pub assign_sockaddr : Sockaddr → Outcome SockAddr
  unfolding assign_inet assign_unix inet_addr_sockaddr
  assign_sockaddr blank = fault assert_failed
  assign_sockaddr (in_4 a) = ok (assign_inet (inet_addr_sockaddr a))
  assign_sockaddr (unix_domain path) = ok (assign_unix path)
  assign_sockaddr (other family) = fault assert_failed

  -- `to_inet_addr` and `to_unix_addr`: `none` is the error -1.
  unfoldable pub to_inet_addr : SockAddr → Option InetAddr
  unfolding inet_addr_sockaddr
  to_inet_addr s = elim s.sockaddr [ in_4 a ↦ some (inet_addr_sockaddr a) | _ ↦ none ]

  unfoldable pub to_unix_addr : SockAddr → Option Text
  to_unix_addr s = elim s.sockaddr [ unix_domain path ↦ some path | _ ↦ none ]
