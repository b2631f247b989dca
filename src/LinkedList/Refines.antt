-- ===== src/LinkedList/Refines.antt =====
-- The operations of `list_t` are those of a list: what it holds, from head to tail.
use boost_coro.Base.{
  ℕ, zero, suc, ◌-◌, ◌==◌, ◌≡◌, refl, ◌∙◌, sym, ap, subst, true, false, if◌then◌else◌, Option, none,
  some, List, [], ◌∷◌, length, ok, arith,
}
use boost_coro.LinkedList.{
  Pointer, Node, LinkedList, is_same, load, set_node, front, front_at, pop_at, pop_front, empty,
  clear_loop, clear,
}
use boost_coro.LinkedList.Cells.{
  Cell, Chain, Apart, Distinct, last_of, data_of, update, Chain-update, last-Apart,
}

-- The list goes through the cells: `_head` leads to them, `_tail` is the last one, `_size` their number.
pub record Goes (l : LinkedList) (cs : List Cell) : Type 0 where
  pub chain : Chain l.nodes l.head cs
  pub distinct : Distinct cs
  pub tail : l.tail ≡ last_of none cs
  pub count : l.size ≡ length cs

-- The list holds the data.
abbrev pub Holds : LinkedList → List ℕ → Type 0
Holds l xs = (cs : List Cell) × Goes l cs × (data_of cs ≡ xs)

pop_Goes :
    (h : Option Pointer) (l : LinkedList) (c : Cell) (cs : List Cell)
    → Goes (record l { head = h }) (c ∷ cs)
    → (v : LinkedList) × (front (record l { head = h }) ≡ ok c.holds)
      × (pop_front (record l { head = h }) ≡ ok v)
      × Goes v cs
unfolding front front_at pop_front pop_at load set_node
pop_Goes none l c cs g = elim g.chain [ ]
pop_Goes (some p) l c cs g =
    let (e, n, f, d, s) = g.chain in
    let apart = subst (λ q. Apart q cs) e g.distinct.0 in
    (
      record {
        head = n.next;
        tail = if is_same (some p) l.tail then none else l.tail;
        size = l.size - 1;
        nodes = update p none l.nodes;
      },
      rw f (ap ok d),
      rw f,
      record {
        chain = Chain-update p none l.nodes n.next cs apart s;
        distinct = g.distinct.1;
        tail = new_tail cs apart (g.tail ∙ ap (λ q. last_of (some q) cs) e);
        count = omega (arith, g.count);
      },
    )
  where
    new_tail :
        (cs : List Cell)
        → Apart p cs
        → l.tail ≡ last_of (some p) cs
        → (if is_same (some p) l.tail then none else l.tail) ≡ last_of none cs
    new_tail [] apart t = let here : (p == p) ≡ true = ground arith in rw t (rw here)
    new_tail (d ∷ ds) apart t =
        let (q, e, ne) = last-Apart p none d ds apart in
        let away : (p == q) ≡ false = ground arith in rw (t, e) (rw away)

-- `front()` of a list that holds `x` and then `xs` returns `x`, and after `pop_front()` it holds `xs`.
pub pop_front-Holds :
    (l : LinkedList) (x : ℕ) (xs : List ℕ)
    → Holds l (x ∷ xs)
    → (v : LinkedList) × (front l ≡ ok x) × (pop_front l ≡ ok v) × Holds v xs
pop_front-Holds l x xs ([], g, d) = absurd (ground arith)
pop_front-Holds l x xs (c ∷ cs, g, d) =
    let (v, e, f, good) = pop_Goes l.head l c cs g in
    (v, e ∙ ap ok (ground (arith, d)), f, (cs, good, ground (arith, d)))

clear_loop_lem :
    (cs : List Cell) (h t : Option Pointer) (size : ℕ) (nodes : Pointer → Option Node)
    → Chain nodes h cs
    → Distinct cs
    → size ≡ length cs
    → (v : LinkedList) × (clear_loop size h
          (record { head = h; tail = t; size = size; nodes = nodes })
        ≡ ok v)
      × (v.head ≡ none)
      × (v.tail ≡ none)
      × (v.size ≡ 0)
unfolding clear_loop load set_node
clear_loop_lem [] none t zero nodes s u e =
    (record { head = none; tail = none; size = 0; nodes = nodes }, refl, refl, refl, refl)
clear_loop_lem [] none t (suc n) nodes s u e = absurd (omega arith)
clear_loop_lem [] (some p) t size nodes s u e = elim s [ ]
clear_loop_lem (_ ∷ _) none t size nodes s u e = elim s [ ]
clear_loop_lem (c ∷ cs) (some p) t zero nodes s u e = absurd (omega arith)
clear_loop_lem (c ∷ cs) (some p) t (suc k) nodes (at, n, f, d, s) (u, us) e =
    let apart = subst (λ q. Apart q cs) at u in
    let (v, run, a, b, z) =
      clear_loop_lem cs n.next t k (update p none nodes)
        (Chain-update p none nodes n.next cs apart s) us (omega arith) in
    let one_less : suc k - 1 ≡ k = omega arith in (v, rw f (rw one_less run), a, b, z)

-- `clear()` of a list that holds any data returns, and leaves a list that holds nothing, with null for
-- `_head` and `_tail`.
clear-Holds :
    (l : LinkedList) (xs : List ℕ)
    → Holds l xs
    → (v : LinkedList) × (clear l ≡ ok v) × (v.head ≡ none) × (v.tail ≡ none) × Holds v []
unfolding clear
clear-Holds l xs (cs, g, d) =
    let (v, run, a, b, z) =
      clear_loop_lem cs l.head l.tail l.size l.nodes g.chain g.distinct g.count in
    (
      v,
      run,
      a,
      b,
      (
        [],
        record {
          chain = subst (λ h. Chain v.nodes h []) (sym a) tt;
          distinct = tt;
          tail = b;
          count = z;
        },
        refl,
      ),
    )

-- `empty()` and `size()` of a list that holds `xs` say whether `xs` is empty and how long it is.
pub empty-Holds :
    (l : LinkedList) (xs : List ℕ)
    → Holds l xs
    → (empty l ≡ (length xs == 0)) × (l.size ≡ length xs)
unfolding empty
empty-Holds l xs (cs, g, d) =
    let same = count cs xs d in (go l.head cs xs g.chain same, omega (arith, g.count, same))
  where
    count : (cs : List Cell) (xs : List ℕ) → data_of cs ≡ xs → length cs ≡ length xs
    count cs xs d = subst (λ ys. length cs ≡ length ys) d (same_length cs)
      where
        same_length : (cs : List Cell) → length cs ≡ length (data_of cs)
        same_length [] = refl
        same_length (c ∷ cs) = omega (arith, same_length cs)

    go :
        (h : Option Pointer) (cs : List Cell) (xs : List ℕ)
        → Chain l.nodes h cs
        → length cs ≡ length xs
        → is_same h none ≡ (length xs == 0)
    go none [] [] s e = refl
    go none [] (_ ∷ _) s e = absurd (omega arith)
    go none (_ ∷ _) xs s e = elim s [ ]
    go (some p) [] xs s e = elim s [ ]
    go (some p) (_ ∷ _) [] s e = absurd (omega arith)
    go (some p) (_ ∷ _) (_ ∷ ys) s e =
        let some_left : (suc (length ys) == 0) ≡ false = ground arith in rw some_left
