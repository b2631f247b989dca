-- ===== src/Allocator/Expand.antt =====
-- `expand_free_list`: a `malloc` without a free block gets a chunk of them from the system.
use boost_coro.Base.{
  ℕ, suc, ◌+◌, ◌==◌, ◌≡◌, refl, ◌∙◌, ap, true, false, Option, none, some, List, [], ◌∷◌, length, ok,
  arith,
}
use boost_coro.LinkedList.{Pointer}
use boost_coro.LinkedList.Cells.{Cell, Chain, Apart, Distinct}
use boost_coro.Allocator.{
  Allocator, put, free_node, expand_from, expand_free_list, take_head, malloc_at, malloc,
}
use boost_coro.Allocator.FreeList.{Frees, take_head_lem}

abbrev pub cells : List Pointer → List Cell
cells [] = []
cells (p ∷ ps) = record { at = p; holds = 0 } ∷ cells ps

-- The system gives every block.
abbrev pub all : List Pointer → List (Option Pointer)
all [] = []
all (p ∷ ps) = some p ∷ all ps

length-all : (ps : List Pointer) → length (all ps) ≡ length ps
length-all [] = refl
length-all (p ∷ ps) = omega (arith, length-all ps)

expand_keeps :
    (ps : List Pointer) (r q : Pointer) (a : Allocator)
    → Apart q (cells (r ∷ ps))
    → (expand_from r (all ps) a).blocks q ≡ a.blocks q
unfolding expand_from
expand_keeps [] r q a (x, xs) = let away : (q == r) ≡ false = ground arith in rw away
expand_keeps (p ∷ ps) r q a (x, xs) =
    let away : (q == r) ≡ false = ground arith in
    expand_keeps ps p q
      (record a { blocks = put r (free_node (some p)) a.blocks; free_blocks = suc a.free_blocks })
      xs
    ∙ rw away

record Expanded (r : Pointer) (ps : List Pointer) (a v : Allocator) : Type 0 where
  chain : Chain v.blocks (some r) (cells (r ∷ ps))
  count : v.free_blocks ≡ a.free_blocks + length ps
  list : v.free_list ≡ a.free_list

expand_from-Expanded :
    (ps : List Pointer) (r : Pointer) (a : Allocator)
    → Distinct (cells (r ∷ ps))
    → Expanded r ps a (expand_from r (all ps) a)
unfolding expand_from
expand_from-Expanded [] r a u =
    let here : (r == r) ≡ true = ground arith in
    record {
      chain = (refl, record { next = none; datum = 0 }, rw here, refl, tt);
      count = omega arith;
      list = refl;
    }
expand_from-Expanded (p ∷ ps) r a (u, us) =
    let here : (r == r) ≡ true = ground arith in
    let a' : Allocator = record a {
      blocks = put r (free_node (some p)) a.blocks;
      free_blocks = suc a.free_blocks;
    } in
    let x = expand_from-Expanded ps p a' us in
    record {
      chain = (
        refl,
        record { next = some p; datum = 0 },
        expand_keeps ps p r a' u ∙ rw here,
        refl,
        x.chain,
      );
      count = omega (arith, x.count);
      list = x.list;
    }

-- `malloc` of the block size without a free block, when the system gives a block and `_expand_blocks`
-- more, all of them different, returns the first, and the others are then the free list.
malloc-expand :
    (a : Allocator) (r : Pointer) (ps : List Pointer)
    → a.free_list ≡ none
    → a.free_blocks ≡ 0
    → length ps ≡ a.expand_blocks
    → Distinct (cells (r ∷ ps))
    → (b : Allocator) × (malloc a.size (some r ∷ all ps) a ≡ ok (r, b)) × Frees b (cells ps)
unfolding malloc malloc_at expand_free_list take_head
malloc-expand a r ps e z chunk u =
    let a1 : Allocator = record a { free_list = some r; free_blocks = suc a.free_blocks } in
    let x = expand_from-Expanded ps r a1 u in
    let v = expand_from r (all ps) a1 in
    let right_size : (a.size == a.size) ≡ true = ground arith in
    let right_chunk : (length (all ps) == a.expand_blocks) ≡ true = ground (arith, length-all ps) in
    let (p, b, _, run, at, good) =
      take_head_lem (some r) v (record { at = r; holds = 0 }) (cells ps)
        (record {
          chain = x.chain;
          distinct = u;
          count = omega (arith, x.count, z, length-cells ps);
        }) in
    (b, rw (right_size, e) (rw right_chunk (rw x.list (run ∙ ap (λ (q : ℕ). ok (q, b)) at))), good)
  where
    length-cells : (ps : List Pointer) → length (cells ps) ≡ length ps
    length-cells [] = refl
    length-cells (p ∷ ps) = omega (arith, length-cells ps)
