-- ===== src/LinkedList/Push.antt =====
-- `push_back` and `push_front`.
use boost_coro.Base.{
  ℕ, suc, ◌==◌, ◌≡◌, ◌≢◌, refl, ◌∙◌, sym, ap, true, if◌then◌else◌, Option, none, some, List, [],
  ◌∷◌, ◌++◌, length-append, ok, arith,
}
use boost_coro.LinkedList.{
  Pointer, Node, LinkedList, is_same, load, set_node, push_front, link_tail, push_back_at,
  push_back,
}
use boost_coro.LinkedList.Cells.{
  Cell, Chain, Apart, Distinct, last_of, data_of, update, Chain-update, Chain-link,
}
use boost_coro.LinkedList.Refines.{Goes, Holds}

Apart-fresh :
    (h : Pointer → Option Node) (a : Pointer)
    → h a ≡ none
    → (p : Option Pointer) (cs : List Cell) → Chain h p cs
    → Apart a cs
Apart-fresh h a e none [] s = tt
Apart-fresh h a e none (_ ∷ _) s = elim s [ ]
Apart-fresh h a e (some p) [] s = elim s [ ]
Apart-fresh h a e (some p) (c ∷ cs) (at, n, f, d, s) = (ground arith, Apart-fresh h a e n.next cs s)

push_back-none :
    (t : Option Pointer) (size a x : ℕ) (nodes : Pointer → Option Node) (cs : List Cell)
    → Goes (record { head = none; tail = t; size = size; nodes = nodes }) cs
    → (v : LinkedList) × (push_back a x
          (record { head = none; tail = t; size = size; nodes = nodes })
        ≡ ok v)
      × Goes v (cs ++ record { at = a; holds = x } ∷ [])
unfolding push_back push_back_at set_node
push_back-none t size a x nodes [] g =
    let here : (a == a) ≡ true = ground arith in
    (
      record {
        head = some a;
        tail = some a;
        size = suc size;
        nodes = update a (some (record { next = none; datum = x })) nodes;
      },
      refl,
      record {
        chain = (refl, record { next = none; datum = x }, rw here, refl, tt);
        distinct = (tt, tt);
        tail = refl;
        count = omega (arith, g.count);
      },
    )
push_back-none t size a x nodes (_ ∷ _) g = elim g.chain [ ]

Distinct-append :
    (a x : ℕ) (cs : List Cell)
    → Distinct cs
    → Apart a cs
    → Distinct (cs ++ record { at = a; holds = x } ∷ [])
Distinct-append a x [] u y = (tt, tt)
Distinct-append a x (c ∷ cs) (u, us) (y, ys) = (grown c.at cs u y, Distinct-append a x cs us ys)
  where
    grown :
        (b : ℕ) (ds : List Cell)
        → Apart b ds
        → b ≢ a
        → Apart b (ds ++ record { at = a; holds = x } ∷ [])
    grown b [] z ne = (ground arith, tt)
    grown b (d ∷ ds) (z, zs) ne = (z, grown b ds zs ne)

last-append :
    (o : Option Pointer) (a x : ℕ) (cs : List Cell)
    → last_of o (cs ++ record { at = a; holds = x } ∷ []) ≡ some a
last-append o a x [] = refl
last-append o a x (c ∷ cs) = last-append (some c.at) a x cs

push_back-some :
    (p : Pointer) (t : Option Pointer) (size a x : ℕ) (nodes : Pointer → Option Node)
    (cs : List Cell)
    → Goes (record { head = some p; tail = t; size = size; nodes = nodes }) cs
    → nodes a ≡ none
    → (v : LinkedList) × (push_back a x
          (record { head = some p; tail = t; size = size; nodes = nodes })
        ≡ ok v)
      × Goes v (cs ++ record { at = a; holds = x } ∷ [])
unfolding push_back push_back_at link_tail set_node load
push_back-some p t size a x nodes [] g e = elim g.chain [ ]
push_back-some p t size a x nodes (c ∷ cs) g e =
    let made = update a (some (record { next = none; datum = x })) nodes in
    let apart = Apart-fresh nodes a e (some p) (c ∷ cs) g.chain in
    let here : (a == a) ≡ true = ground arith in
    let (q, n, last, at_q, chain) =
      Chain-link made a x (rw here) (some p) c cs
        (Chain-update a (some (record { next = none; datum = x })) nodes (some p) (c ∷ cs) apart
          g.chain)
        g.distinct apart in
    let at_tail : t ≡ some q = g.tail ∙ last in
    (
      record {
        head = some p;
        tail = some a;
        size = suc size;
        nodes = update q (some (record n { next = some a })) made;
      },
      rw at_tail (rw at_q),
      record {
        chain = chain;
        distinct = Distinct-append a x (c ∷ cs) g.distinct apart;
        tail = sym (last-append none a x (c ∷ cs));
        count = omega (arith, g.count, length-append (c ∷ cs) (record { at = a; holds = x } ∷ []));
      },
    )

data-append :
    (a x : ℕ) (cs : List Cell)
    → data_of (cs ++ record { at = a; holds = x } ∷ []) ≡ data_of cs ++ x ∷ []
data-append a x [] = refl
data-append a x (c ∷ cs) = ap (λ r. c.holds ∷ r) (data-append a x cs)

-- `push_back(x)` to a list that holds `xs`, with a node from the pool that is not in use, returns a list
-- that holds `xs` and then `x`.
pub push_back-Holds :
    (l : LinkedList) (xs : List ℕ) (a x : ℕ)
    → Holds l xs
    → l.nodes a ≡ none
    → (v : LinkedList) × (push_back a x l ≡ ok v) × Holds v (xs ++ x ∷ [])
push_back-Holds l xs a x (cs, g, d) fresh =
    let (v, e, good) = go l.head g in
    (
      v,
      e,
      (cs ++ record { at = a; holds = x } ∷ [], good, data-append a x cs ∙ ap (λ r. r ++ x ∷ []) d),
    )
  where
    go :
        (h : Option Pointer)
        → Goes (record l { head = h }) cs
        → (v : LinkedList) × (push_back a x (record l { head = h }) ≡ ok v)
          × Goes v (cs ++ record { at = a; holds = x } ∷ [])
    go none g = push_back-none l.tail l.size a x l.nodes cs g
    go (some p) g = push_back-some p l.tail l.size a x l.nodes cs g fresh

-- `push_front(x)` to a list that holds `xs`, with a node from the pool that is not in use, makes a list
-- that holds `x` and then `xs`.
pub push_front-Holds :
    (l : LinkedList) (xs : List ℕ) (a x : ℕ)
    → Holds l xs
    → l.nodes a ≡ none
    → Holds (push_front a x l) (x ∷ xs)
unfolding push_front set_node
push_front-Holds l xs a x (cs, g, d) fresh =
    let here : (a == a) ≡ true = ground arith in
    let apart = Apart-fresh l.nodes a fresh l.head cs g.chain in
    (
      record { at = a; holds = x } ∷ cs,
      record {
        chain = (
          refl,
          record { next = l.head; datum = x },
          rw here,
          refl,
          Chain-update a (some (record { next = l.head; datum = x })) l.nodes l.head cs apart
              g.chain,
        );
        distinct = (apart, g.distinct);
        tail = new_tail l.head cs g.chain g.tail;
        count = omega (arith, g.count);
      },
      ap (λ r. x ∷ r) d,
    )
  where
    new_tail :
        (h : Option Pointer) (cs : List Cell)
        → Chain l.nodes h cs
        → l.tail ≡ last_of none cs
        → (if is_same h none then some a else l.tail) ≡ last_of (some a) cs
    new_tail none [] s t = refl
    new_tail none (_ ∷ _) s t = elim s [ ]
    new_tail (some p) [] s t = elim s [ ]
    new_tail (some p) (c ∷ cs) s t = t
