-- ===== src/Coasio/Address/Order.antt =====
-- The comparisons of `sock_addr_t`, which make it an element of ordered containers.
use Prim.Native.Nat.{compare, Ordering}
use boost_coro.Base.{ℕ, ◌≡◌, refl, Bool, true, false, not, ◌&&◌, List, [], ◌∷◌, length, arith}
use boost_coro.Coasio.Address.{Sockaddr, SockAddr}

-- `memcmp` of two objects of the same size, by the sign of what it returns
unfoldable pub memcmp : List ℕ → List ℕ → Ordering
memcmp [] t = Ordering.eq
memcmp (c ∷ s) [] = Ordering.eq
memcmp (c ∷ s) (d ∷ t) =
    let rest = memcmp s t in
    elim (compare c d) [
      | Ordering.lt ↦ Ordering.lt
      | Ordering.eq ↦ rest
      | Ordering.gt ↦ Ordering.gt
    ]

abbrev pub is_lt : Ordering → Bool
is_lt o = elim o [ Ordering.lt ↦ true | _ ↦ false ]

abbrev pub is_eq : Ordering → Bool
is_eq o = elim o [ Ordering.eq ↦ true | _ ↦ false ]

-- How the union stands in memory: its bytes, all `sizeof(_sockaddr)` of them. Every member leaves the
-- bytes behind it as `memset` has set them.
pub record Layout : Type 0 where
  pub size : ℕ
  pub bytes : Sockaddr → List ℕ
  pub length-bytes : (a : Sockaddr) → length (bytes a) ≡ size

module _ (layout : Layout) where
  -- `operator<`, `operator==` and `operator!=`
  unfoldable pub lt_sock : SockAddr → SockAddr → Bool
  lt_sock a b = is_lt (memcmp (layout.bytes a.sockaddr) (layout.bytes b.sockaddr))

  unfoldable pub eq_sock : SockAddr → SockAddr → Bool
  eq_sock a b = is_eq (memcmp (layout.bytes a.sockaddr) (layout.bytes b.sockaddr))

  unfoldable pub neq_sock : SockAddr → SockAddr → Bool
  unfolding eq_sock
  neq_sock a b = not (eq_sock a b)

memcmp_equivalence :
    (s t : List ℕ)
    → length s ≡ length t
    → is_eq (memcmp s t) ≡ (not (is_lt (memcmp s t)) && not (is_lt (memcmp t s)))
unfolding memcmp
memcmp_equivalence [] [] h = refl
memcmp_equivalence [] (d ∷ t) h = absurd (omega arith)
memcmp_equivalence (c ∷ s) [] h = absurd (omega arith)
memcmp_equivalence (c ∷ s) (d ∷ t) h = ground (arith, memcmp_equivalence s t)

memcmp_asym :
    (s t : List ℕ) → length s ≡ length t → (is_lt (memcmp s t) && is_lt (memcmp t s)) ≡ false
unfolding memcmp
memcmp_asym [] t h = refl
memcmp_asym (c ∷ s) [] h = refl
memcmp_asym (c ∷ s) (d ∷ t) h = ground (arith, memcmp_asym s t)

memcmp_trans :
    (s t u : List ℕ)
    → length s ≡ length t
    → length t ≡ length u
    → is_lt (memcmp s t) ≡ true
    → is_lt (memcmp t u) ≡ true
    → is_lt (memcmp s u) ≡ true
unfolding memcmp
memcmp_trans [] t u h k a b = cc
memcmp_trans (c ∷ s) [] u h k a b = absurd (omega arith)
memcmp_trans (c ∷ s) (d ∷ t) [] h k a b = absurd (omega arith)
memcmp_trans (c ∷ s) (d ∷ t) (e ∷ u) h k a b = ground (arith, memcmp_trans s t u)

-- `operator==` holds just where `operator<` holds in neither direction; `operator<` never holds in both,
-- and it is transitive. This asks that the objects compared have the same size.
pub eq_sock-lt_sock :
    (layout : Layout) (a b c : SockAddr)
    → (eq_sock layout a b ≡ (not (lt_sock layout a b) && not (lt_sock layout b a)))
      × ((lt_sock layout a b && lt_sock layout b a) ≡ false)
      × ((lt_sock layout a b && lt_sock layout b c && not (lt_sock layout a c)) ≡ false)
unfolding lt_sock eq_sock
eq_sock-lt_sock layout a b c =
    let s = layout.bytes a.sockaddr in
    let t = layout.bytes b.sockaddr in
    let u = layout.bytes c.sockaddr in
    let same : length s ≡ length t =
      rw (layout.length-bytes a.sockaddr, layout.length-bytes b.sockaddr) refl in
    let alike : length t ≡ length u =
      rw (layout.length-bytes b.sockaddr, layout.length-bytes c.sockaddr) refl in
    (
      memcmp_equivalence s t same,
      ground (arith, memcmp_asym s t same),
      ground (arith, memcmp_trans s t u same alike),
    )
