-- ===== src/LinkedList/Cells.antt =====
-- The chain of nodes of a list: which cells it goes through, and what leaves it alone.
use boost_coro.Base.{
  All, ℕ, ◌==◌, ◌≡◌, ◌≢◌, refl, ◌∙◌, sym, ap, true, false, if◌then◌else◌, Option, none, some, List,
  [], ◌∷◌, ◌++◌, arith,
}
use boost_coro.LinkedList.{Pointer, Node}

pub record Cell : Type 0 where
  pub at : Pointer
  pub holds : ℕ

-- From `p` the `next` pointers lead through the cells, and the last one is null.
abbrev pub Chain : (Pointer → Option Node) → Option Pointer → List Cell → Type 0
Chain h none [] = Unit {0}
Chain h none (_ ∷ _) = ⊥
Chain h (some a) [] = ⊥
Chain h (some a) (c ∷ cs) =
    (c.at ≡ a) × (n : Node) × (h a ≡ some n) × (n.datum ≡ c.holds) × Chain h n.next cs

abbrev pub Apart : Pointer → List Cell → Type 0
Apart a cs = All (λ (c : Cell). c.at ≢ a) cs

abbrev pub Distinct : List Cell → Type 0
Distinct [] = Unit
Distinct (c ∷ cs) = Apart c.at cs × Distinct cs

abbrev pub last_of : Option Pointer → List Cell → Option Pointer
last_of p [] = p
last_of p (c ∷ cs) = last_of (some c.at) cs

abbrev pub data_of : List Cell → List ℕ
data_of [] = []
data_of (c ∷ cs) = c.holds ∷ data_of cs

abbrev pub update : Pointer → Option Node → (Pointer → Option Node) → Pointer → Option Node
update a o h b = if b == a then o else h b

pub Chain-update :
    (a : Pointer) (o : Option Node) (h : Pointer → Option Node) (p : Option Pointer)
    (cs : List Cell)
    → Apart a cs
    → Chain h p cs
    → Chain (update a o h) p cs
Chain-update a o h none [] x s = tt
Chain-update a o h none (_ ∷ _) x s = s
Chain-update a o h (some p) [] x s = s
Chain-update a o h (some p) (c ∷ cs) (x, xs) (e, n, f, d, s) =
    let away : (p == a) ≡ false = ground arith in
    (e, n, rw away f, d, Chain-update a o h n.next cs xs s)

pub last-Apart :
    (b : Pointer) (q : Option Pointer) (c : Cell) (cs : List Cell)
    → Apart b (c ∷ cs)
    → (t : Pointer) × (last_of q (c ∷ cs) ≡ some t) × (t ≢ b)
last-Apart b q c [] (x, xs) = (c.at, refl, x)
last-Apart b q c (d ∷ cs) (x, xs) = last-Apart b (some c.at) d cs xs

-- The node behind the last one is linked.
pub Chain-link :
    (h : Pointer → Option Node) (a : Pointer) (x : ℕ)
    → h a ≡ some (record { next = none; datum = x })
    → (o : Option Pointer) (c : Cell) (cs : List Cell) → Chain h o (c ∷ cs)
    → Distinct (c ∷ cs)
    → Apart a (c ∷ cs)
    → (t : Pointer) × (n : Node) × (last_of none (c ∷ cs) ≡ some t)
      × (h t ≡ some n)
      × Chain
          (update t (some (record n { next = some a })) h)
          o
          (c ∷ cs ++ record { at = a; holds = x } ∷ [])
Chain-link h a x fresh none c cs s u y = elim s [ ]
Chain-link h a x fresh (some p) c [] (e, n, f, d, s) u (y, ys) =
    let here : (p == p) ≡ true = ground arith in
    let away : (a == p) ≡ false = ground arith in
    (
      p,
      n,
      ap some e,
      f,
      (
        e,
        record n { next = some a },
        rw here,
        d,
        (refl, record { next = none; datum = x }, rw away fresh, refl, tt),
      ),
    )
Chain-link h a x fresh (some p) c (c2 ∷ cs) (e, n, f, d, s) (u, us) (y, ys) =
    let (t, m, l, g, k) = Chain-link h a x fresh n.next c2 cs s us ys in
    let (t2, l2, apart) = last-Apart c.at none c2 cs u in
    let same : some t ≡ some t2 = sym l ∙ l2 in
    let away : (p == t) ≡ false = ground arith in (t, m, l, g, (e, n, rw away f, d, k))
