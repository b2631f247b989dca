-- ===== src/Allocator/Destroy.antt =====
-- The destructor of the allocator: which blocks it gives back.
use boost_coro.Base.{
  All, ℕ, zero, suc, ◌==◌, ◌≡◌, refl, ◌∙◌, subst, true, false, Option, none, some, List, [], ◌∷◌,
  length, ok, arith,
}
use boost_coro.LinkedList.{Pointer, Node}
use boost_coro.LinkedList.Cells.{Cell, Chain, Apart, Distinct, Chain-update}
use boost_coro.Allocator.{Allocator, put, destroy_from, destroy}
use boost_coro.Allocator.FreeList.{Frees}

-- The cells are given back, and no other block.
record Returned (cs : List Cell) (h g : Pointer → Option Node) : Type 0 where
  gone : All (λ (c : Cell). g c.at ≡ none) cs
  others : (q : Pointer) → Apart q cs → g q ≡ h q

destroy_from-Returned :
    (cs : List Cell) (fuel : ℕ) (o : Option Pointer) (h : Pointer → Option Node)
    → Chain h o cs
    → Distinct cs
    → fuel ≡ length cs
    → (g : Pointer → Option Node) × (destroy_from fuel o h ≡ ok g) × Returned cs h g
unfolding destroy_from
destroy_from-Returned [] fuel none h s u e = (h, refl, record { gone = tt; others = λ q a. refl })
destroy_from-Returned [] fuel (some p) h s u e = elim s [ ]
destroy_from-Returned (_ ∷ _) fuel none h s u e = elim s [ ]
destroy_from-Returned (c ∷ cs) zero (some p) h s u e = absurd (omega arith)
destroy_from-Returned (c ∷ cs) (suc fuel) (some p) h (at, n, f, d, s) (u, us) e =
    let apart = subst (λ q. Apart q cs) at u in
    let (g, run, r) =
      destroy_from-Returned cs fuel n.next (put p none h) (Chain-update p none h n.next cs apart s)
        us (omega arith) in
    let here : (c.at == p) ≡ true = ground arith in
    (
      g,
      rw f run,
      record {
        gone = (r.others c.at u ∙ rw here, r.gone);
        others = λ q a. let away : (q == p) ≡ false = ground arith in r.others q a.1 ∙ rw away;
      },
    )

-- The destructor returns, and has given back every free block, and no block that is in use.
pub destroy_lem :
    (a : Allocator) (cs : List Cell) (q : Pointer)
    → Frees a cs
    → Apart q cs
    → (g : Pointer → Option Node) × (destroy a ≡ ok g)
      × All (λ (c : Cell). g c.at ≡ none) cs
      × (g q ≡ a.blocks q)
unfolding destroy
destroy_lem a cs q f apart =
    let (g, run, r) =
      destroy_from-Returned cs a.free_blocks a.free_list a.blocks f.chain f.distinct f.count in
    (g, run, r.gone, r.others q apart)
