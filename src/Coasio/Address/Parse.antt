-- ===== src/Coasio/Address/Parse.antt =====
-- `to_sock_addr`: the address that a text names.
use boost_coro.Base.{ℕ, ◌==◌, if◌then◌else◌, Option, none, some, [], ◌∷◌, Text, codes}
use boost_coro.Coasio.Address.{Network, SockAddr, inet_addr_host, assign_inet, assign_unix}
use boost_coro.Coasio.Address.Decimal.{atoi}

abbrev pub prefix_inet : Text
prefix_inet = codes "inet://"

abbrev pub prefix_local : Text
prefix_local = codes "local://"

abbrev pub prefix_file : Text
prefix_file = codes "file://"

abbrev pub localhost : Text
localhost = codes "127.0.0.1"

-- What follows a prefix, if `strncmp` finds it in front.
unfoldable pub strip : Text → Text → Option Text
strip [] s = some s
strip (c ∷ p) [] = none
strip (c ∷ p) (d ∷ s) = if c == d then strip p s else none

abbrev pub in_front : ℕ → Option (Text × Text) → Option (Text × Text)
in_front c none = none
in_front c (some (s, t)) = some (c ∷ s, t)

-- The texts before and behind the first colon, where `strstr` finds one.
unfoldable pub split_colon : Text → Option (Text × Text)
split_colon [] = none
split_colon (c ∷ s) = if c == b':' then some ([], s) else in_front c (split_colon s)

abbrev pub host_or : Option Text → Text
host_or none = localhost
host_or (some host) = host

module _ (net : Network) where
  -- The part behind `inet://`; `bindhost` may be null.
  unfoldable pub inet_sock_addr : Option Text → Text → Option (Text × Text) → SockAddr
  unfolding assign_inet inet_addr_host atoi
  inet_sock_addr bindhost addr (some (host, port)) =
      assign_inet net (inet_addr_host host (atoi port))
  inet_sock_addr bindhost addr none =
      assign_inet net (inet_addr_host (host_or bindhost) (atoi addr))

  -- The other prefixes, one after the other
  unfoldable pub unix_sock_addr : Text → Option Text → Option Text → SockAddr
  unfolding assign_unix
  unix_sock_addr addr (some path) file = assign_unix net path
  unix_sock_addr addr none (some path) = assign_unix net path
  unix_sock_addr addr none none = assign_unix net addr

  unfoldable pub by_prefix : Option Text → Text → Option Text → SockAddr
  unfolding inet_sock_addr unix_sock_addr strip split_colon
  by_prefix bindhost addr (some rest) = inet_sock_addr bindhost rest (split_colon rest)
  by_prefix bindhost addr none =
      unix_sock_addr addr (strip prefix_local addr) (strip prefix_file addr)

  -- `to_sock_addr(addr, bindhost)`
  unfoldable pub to_sock_addr : Text → Option Text → SockAddr
  unfolding by_prefix strip
  to_sock_addr addr bindhost = by_prefix bindhost addr (strip prefix_inet addr)
