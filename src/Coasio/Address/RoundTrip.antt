-- ===== src/Coasio/Address/RoundTrip.antt =====
-- Addresses out of texts and back.
use boost_coro.Base.{
  All, ℕ, ◌-◌, ◌<◌, ◌^◌, ◌==◌, ◌≡◌, ◌≢◌, refl, ◌∙◌, ap, false, Option, none, some, [], ◌∷◌, ◌++◌,
  length, length-take, take, ok, Text, arith,
}
use boost_coro.Coasio.Address.{
  Network, InetAddr, SockaddrIn, in_4, SockAddr, inet_addr_host, inet_to_string, inet_addr_sockaddr,
  assign_inet, assign_unix, assign_sockaddr, to_inet_addr, to_unix_addr,
}
use boost_coro.Coasio.Address.Decimal.{decimal, atoi-decimal}
use boost_coro.Coasio.Address.Parse.{
  prefix_inet, prefix_local, prefix_file, strip, split_colon, inet_sock_addr, unix_sock_addr,
  by_prefix, to_sock_addr,
}

-- What the conversions of the system promise: they are inverse to each other on the values of a
-- `sockaddr_in`, and an empty text is no address.
pub record IsNetwork (net : Network) : Type 0 where
  pub htons-ntohs : (p : ℕ) → p < 2 ^ 16 → net.htons (net.ntohs p) ≡ p
  pub printed : ℕ → Text
  pub inet_ntop_lem : (a : ℕ) → a < 2 ^ 32 → net.inet_ntop a ≡ some (printed a)
  pub inet_pton-printed : (a : ℕ) → a < 2 ^ 32 → net.inet_pton (printed a) ≡ some a
  pub inet_pton_empty : net.inet_pton [] ≡ none

abbrev pub NoColon : Text → Type 0
NoColon = All (λ (c : ℕ). c ≢ b':')

strip-append : (p s : Text) → strip p (p ++ s) ≡ some s
unfolding strip
strip-append [] s = refl
strip-append (c ∷ p) s = ground (arith, strip-append p s)

split_colon-append :
    (host rest : Text) → NoColon host → split_colon (host ++ (b':' ∷ rest)) ≡ some (host, rest)
unfolding split_colon
split_colon-append [] rest n = refl
split_colon-append (c ∷ host) rest (n, ns) =
    let other_char : (c == b':') ≡ false = ground arith in
    rw other_char (rw (split_colon-append host rest ns))

module _ (net : Network) where
  to_sock_addr-inet :
      (bindhost : Option Text) (host : Text) (port : ℕ)
      → NoColon host
      → port < 2 ^ 16
      → to_sock_addr net (prefix_inet ++ (host ++ (b':' ∷ decimal port))) bindhost
        ≡ assign_inet net (inet_addr_host host port)
  unfolding to_sock_addr
  to_sock_addr-inet bindhost host port n h =
      let rest = host ++ (b':' ∷ decimal port) in
      ap (by_prefix net bindhost (prefix_inet ++ rest)) (strip-append prefix_inet rest)
      ∙ ap (inet_sock_addr net bindhost rest) (split_colon-append host (decimal port) n)
      ∙ ap (λ (p : ℕ). assign_inet net (inet_addr_host host p)) (atoi-decimal port h)

  to_sock_addr-local :
      (bindhost : Option Text) (path : Text)
      → to_sock_addr net (prefix_local ++ path) bindhost ≡ assign_unix net path
  unfolding to_sock_addr
  to_sock_addr-local bindhost path =
      ap
        (λ o.
          unix_sock_addr net (prefix_local ++ path) o (strip prefix_file (prefix_local ++ path)))
        (strip-append prefix_local path)

  to_sock_addr-file :
      (bindhost : Option Text) (path : Text)
      → to_sock_addr net (prefix_file ++ path) bindhost ≡ assign_unix net path
  unfolding to_sock_addr
  to_sock_addr-file bindhost path =
      ap (λ o. unix_sock_addr net (prefix_file ++ path) none o) (strip-append prefix_file path)

  -- `to_sock_addr` of "local://" or "file://" and a path gives the address that prints as the path, and
  -- from which `to_unix_addr` reads the path back when it is shorter than `sun_path`, and its first bytes,
  -- one less than `sun_path` has, when it is not.
  pub to_unix_addr-to_sock_addr :
      (path : Text) (bindhost : Option Text)
      → (to_unix_addr net (to_sock_addr net (prefix_local ++ path) bindhost)
          ≡ some (take (net.path_size - 1) path))
        × (to_unix_addr net (to_sock_addr net (prefix_file ++ path) bindhost)
            ≡ some (take (net.path_size - 1) path))
        × ((to_sock_addr net (prefix_local ++ path) bindhost).str ≡ path)
        × ((to_sock_addr net (prefix_file ++ path) bindhost).str ≡ path)
  unfolding to_unix_addr assign_unix
  to_unix_addr-to_sock_addr path bindhost = (
    rw (to_sock_addr-local bindhost path),
    rw (to_sock_addr-file bindhost path),
    rw (to_sock_addr-local bindhost path),
    rw (to_sock_addr-file bindhost path),
  )

  -- The path of the address, if it has one, leaves room for a NUL.
  abbrev Ends : SockAddr → Type 0
  Ends s = (path : Text) → to_unix_addr net s ≡ some path → length path < net.path_size

  assign_inet-Ends : (a : InetAddr) → Ends (assign_inet net a)
  unfolding to_unix_addr assign_inet
  assign_inet-Ends a path e = cc

  assign_unix-Ends : 0 < net.path_size → (p : Text) → Ends (assign_unix net p)
  unfolding to_unix_addr assign_unix
  assign_unix-Ends room p path e =
      let same : take (net.path_size - 1) p ≡ path = ground arith in
      omega (arith, length-take (net.path_size - 1) p, ap length same)

  inet_sock_addr-Ends :
      (bindhost : Option Text) (addr : Text) (o : Option (Text × Text))
      → Ends (inet_sock_addr net bindhost addr o)
  unfolding inet_sock_addr
  inet_sock_addr-Ends bindhost addr (some (host, port)) = assign_inet-Ends _
  inet_sock_addr-Ends bindhost addr none = assign_inet-Ends _

  unix_sock_addr-Ends :
      0 < net.path_size → (addr : Text) (l f : Option Text) → Ends (unix_sock_addr net addr l f)
  unfolding unix_sock_addr
  unix_sock_addr-Ends room addr (some path) f = assign_unix-Ends room path
  unix_sock_addr-Ends room addr none (some path) = assign_unix-Ends room path
  unix_sock_addr-Ends room addr none none = assign_unix-Ends room addr

  by_prefix-Ends :
      0 < net.path_size
      → (bindhost : Option Text) (addr : Text) (o : Option Text)
      → Ends (by_prefix net bindhost addr o)
  unfolding by_prefix
  by_prefix-Ends room bindhost addr (some rest) =
      inet_sock_addr-Ends bindhost rest (split_colon rest)
  by_prefix-Ends room bindhost addr none =
      unix_sock_addr-Ends room addr (strip prefix_local addr) (strip prefix_file addr)

  -- The path of every address that `to_sock_addr` makes leaves room for the NUL in `sun_path`, if that has
  -- room for a byte at all.
  pub to_sock_addr_bound :
      (addr : Text) (bindhost : Option Text) (path : Text)
      → 0 < net.path_size
      → to_unix_addr net (to_sock_addr net addr bindhost) ≡ some path
      → length path < net.path_size
  unfolding to_sock_addr
  to_sock_addr_bound addr bindhost path room =
      by_prefix-Ends room bindhost addr (strip prefix_inet addr) path

module _ (net : Network) (is : IsNetwork net) where
  -- `to_sock_addr` of "inet://", a host without a colon, a colon and a port gives the address that prints
  -- as that host and port, with the port in network order. But its IPv4 address is zero, that of any
  -- host, whatever the host is, where the system reads no address from an empty text.
  pub to_sock_addr_any :
      (host : Text) (port : ℕ) (bindhost : Option Text)
      → NoColon host
      → port < 2 ^ 16
      → ((to_sock_addr net (prefix_inet ++ (host ++ (b':' ∷ decimal port))) bindhost).str
          ≡ host ++ (b':' ∷ decimal port))
        × ((to_sock_addr net (prefix_inet ++ (host ++ (b':' ∷ decimal port))) bindhost).sockaddr
            ≡ in_4 (record { sin_port = net.htons port; sin_addr = 0 }))
  unfolding assign_inet inet_to_string inet_addr_host
  to_sock_addr_any host port bindhost n h =
      let e = to_sock_addr-inet net bindhost host port n h in
      (ap (λ (s : SockAddr). s.str) e, ap (λ (s : SockAddr). s.sockaddr) e ∙ rw is.inet_pton_empty)

  -- An address made from a `sockaddr_in` has that in its union, and `to_inet_addr` gives an address that,
  -- assigned again, makes the same one, for values that the structure can hold.
  assign-to_inet_addr :
      (a : SockaddrIn)
      → a.sin_port < 2 ^ 16
      → a.sin_addr < 2 ^ 32
      → (s : SockAddr) × (i : InetAddr) × (assign_sockaddr net (in_4 a) ≡ ok s)
        × (s.sockaddr ≡ in_4 a)
        × (to_inet_addr net s ≡ some i)
        × (assign_inet net i ≡ s)
  unfolding assign_sockaddr to_inet_addr inet_addr_sockaddr assign_inet
  assign-to_inet_addr a p q =
      let shown = is.inet_ntop_lem a.sin_addr q in
      let i : InetAddr = inet_addr_sockaddr net a in
      (
        assign_inet net i,
        i,
        refl,
        rw (shown, is.htons-ntohs a.sin_port p, is.inet_pton-printed a.sin_addr q),
        rw (shown, is.htons-ntohs a.sin_port p, is.inet_pton-printed a.sin_addr q) (rw shown),
        refl,
      )
