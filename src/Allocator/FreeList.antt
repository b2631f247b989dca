-- ===== src/Allocator/FreeList.antt =====
-- The free list: what `malloc` takes from it and `free` puts on it.
use boost_coro.Base.{
  ℕ, suc, ◌-◌, ◌*◌, ◌<◌, ◌==◌, leb, ◌≡◌, refl, ◌∙◌, sym, ap, true, false, Option, none, some, List,
  ◌∷◌, length, ok, ◌>>=◌, arith,
}
use boost_coro.LinkedList.{Pointer, Node}
use boost_coro.LinkedList.Cells.{Cell, Chain, Apart, Distinct, Chain-update}
use boost_coro.Allocator.{Allocator, put, take_head, malloc_at, malloc, free}

-- The free list goes through the cells, none of them twice, and `_free_blocks` is their number.
pub record Frees (a : Allocator) (cs : List Cell) : Type 0 where
  pub chain : Chain a.blocks a.free_list cs
  pub distinct : Distinct cs
  pub count : a.free_blocks ≡ length cs

pub take_head_lem :
    (o : Option Pointer) (a : Allocator) (c : Cell) (cs : List Cell)
    → Frees (record a { free_list = o }) (c ∷ cs)
    → (p : Pointer) × (b : Allocator) × (o ≡ some p)
      × (take_head o a ≡ ok (p, b))
      × (p ≡ c.at)
      × Frees b cs
unfolding take_head
take_head_lem none a c cs f = elim f.chain [ ]
take_head_lem (some p) a c cs f =
    let (e, n, g, d, s) = f.chain in
    (
      p,
      record a { free_list = n.next; free_blocks = a.free_blocks - 1 },
      refl,
      rw g,
      sym e,
      record { chain = s; distinct = f.distinct.1; count = omega (arith, f.count) },
    )

-- `malloc` of the allocator's block size, while there is a free block, returns the first of them; it is
-- not among those that are still free, and `_free_blocks` is their number.
pub malloc_lem :
    (a : Allocator) (c : Cell) (cs : List Cell) (given : List (Option Pointer))
    → Frees a (c ∷ cs)
    → (b : Allocator) × (malloc a.size given a ≡ ok (c.at, b)) × Frees b cs × Apart c.at cs
unfolding malloc malloc_at
malloc_lem a c cs given f =
    let (p, b, e, run, at, good) = take_head_lem a.free_list a c cs f in
    let right_size : (a.size == a.size) ≡ true = ground arith in
    (
      b,
      rw right_size (
          ap (λ o. malloc_at o given a) e
          ∙ ap (λ o. take_head o a) (sym e)
          ∙ run
          ∙ ap (λ (q : ℕ). ok (q, b)) at),
      good,
      f.distinct.0,
    )

module _ (a : Allocator) (p : Pointer) (n : Node) (owned : a.blocks p ≡ some n)
    (few : a.free_blocks < a.expand_blocks * 2) where
  -- The allocator after `free(p)`, while it keeps blocks.
  abbrev freed : Allocator
  freed = record a {
    blocks = put p (some (record n { next = a.free_list })) a.blocks;
    free_list = some p;
    free_blocks = suc a.free_blocks;
  }

  free_run : free (some p) a ≡ ok freed
  unfolding free
  free_run =
      let few_free : leb (a.expand_blocks * 2) a.free_blocks ≡ false = ground arith in
      rw owned (rw few_free)

  put_self :
      put p (some (record n { next = a.free_list })) a.blocks p
      ≡ some (record n { next = a.free_list })
  put_self = let here : (p == p) ≡ true = ground arith in rw here

  free_Frees :
      (cs : List Cell)
      → Frees a cs
      → Apart p cs
      → Frees freed (record { at = p; holds = n.datum } ∷ cs)
  free_Frees cs f apart = record {
    chain = (
      refl,
      record n { next = a.free_list },
      put_self,
      refl,
      Chain-update p (some (record n { next = a.free_list })) a.blocks a.free_list cs apart f.chain,
    );
    distinct = (apart, f.distinct);
    count = omega (arith, f.count);
  }

-- A block that is in use, and is freed while fewer than twice `_expand_blocks` are free, is the one that
-- the next `malloc` returns. The free blocks are then as they were.
pub malloc-free :
    (a : Allocator) (p : Pointer) (n : Node) (cs : List Cell) (given : List (Option Pointer))
    → a.blocks p ≡ some n
    → a.free_blocks < a.expand_blocks * 2
    → Frees a cs
    → Apart p cs
    → (b : Allocator) × ((free (some p) a >>= malloc a.size given) ≡ ok (p, b)) × Frees b cs
malloc-free a p n cs given owned few f apart =
    let c : Cell = record { at = p; holds = n.datum } in
    let (b, run, good, _) =
      malloc_lem (freed a p n owned few) c cs given (free_Frees a p n owned few cs f apart) in
    (b, rw (free_run a p n owned few) run, good)

-- A block that is freed twice, while fewer blocks are free than the allocator keeps, is returned by each
-- of the next two calls of `malloc`.
pub double_free :
    (a : Allocator) (p : Pointer) (n : Node) (given : List (Option Pointer))
    → a.blocks p ≡ some n
    → suc a.free_blocks < a.expand_blocks * 2
    → (b c : Allocator) × ((free (some p) a >>= λ a1. free (some p) a1 >>= malloc a.size given)
        ≡ ok (p, b))
      × (malloc a.size given b ≡ ok (p, c))
unfolding malloc malloc_at take_head
double_free a p n given owned few =
    let few1 : a.free_blocks < a.expand_blocks * 2 = omega arith in
    let a1 = freed a p n owned few1 in
    let n1 : Node = record n { next = a.free_list } in
    let a2 = freed a1 p n1 (put_self a p n owned few1) few in
    let right_size : (a.size == a.size) ≡ true = ground arith in
    let at_p = put_self a1 p n1 (put_self a p n owned few1) few in
    (
      record a2 { free_list = some p; free_blocks = suc (suc a.free_blocks) - 1 },
      record a2 { free_list = some p; free_blocks = suc (suc a.free_blocks) - 1 - 1 },
      rw (free_run a p n owned few1, free_run a1 p n1 (put_self a p n owned few1) few, right_size)
          (rw at_p),
      rw right_size (rw at_p),
    )
