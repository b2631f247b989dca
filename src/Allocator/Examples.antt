-- ===== src/Allocator/Examples.antt =====
-- An allocator of two blocks a chunk: three come with the first `malloc`.
use boost_coro.Base.{◌==◌, ◌≡◌, refl, if◌then◌else◌, none, some, [], ◌∷◌, ok, ◌>>=◌, arith}
use boost_coro.Allocator.{Allocator, malloc, free}
use boost_coro.Allocator.FreeList.{Frees}
use boost_coro.Allocator.Expand.{cells}

-- Block 1 is in use; 2 and 3 are free.
abbrev in_use : Allocator
in_use = record {
  size = 512;
  expand_blocks = 2;
  free_blocks = 2;
  free_list = some 2;
  blocks = λ p.
      if p == 1
      then some (record { next = some 2; datum = 0 })
      else if p == 2
      then some (record { next = some 3; datum = 0 })
      else if p == 3
      then some (record { next = none; datum = 0 })
      else none;
}

in_use-Frees : Frees in_use (cells (2 ∷ 3 ∷ []))
in_use-Frees = record {
  chain = (
    refl,
    record { next = some 3; datum = 0 },
    refl,
    refl,
    (refl, record { next = none; datum = 0 }, refl, refl, tt),
  );
  distinct = ((ground arith, tt), (tt, tt));
  count = refl;
}

-- The first free block is handed out; one that is freed is the next.
malloc-in_use : (malloc 512 [] in_use >>= λ r. ok r.0) ≡ ok 2
unfolding malloc
malloc-in_use = refl

free-in_use : ((free (some 1) in_use >>= malloc 512 []) >>= λ r. ok r.0) ≡ ok 1
unfolding free malloc
free-in_use = refl
