-- ===== src/Coroutine/Memory/Examples.antt =====
-- Blocks of two coroutines.
use boost_coro.Base.{
  ◌==◌, ◌≡◌, refl, if◌then◌else◌, Option, none, some, [], ok, fault, assert_failed, ◌>>=◌, arith,
}
use boost_coro.LinkedList.{Pointer, Node}
use boost_coro.Allocator.{Allocator}
use boost_coro.Allocator.FreeList.{Frees}
use boost_coro.Coroutine.Memory.{
  normal_stack, Owner, context_allocator, context_block, destroy, context_block-destroy,
}

-- A coroutine with a stack of 64 KB, in a thread that has not asked for memory yet
abbrev small : Owner
small = record { stack_sz = 65536; context = none }

small_stack : context_block [] small none ≡ fault assert_failed
unfolding context_block context_allocator boost_coro.Allocator.malloc
small_stack = refl

-- One block, in use by a coroutine, and none free
abbrev one_block : Pointer → Option Node
one_block p = if p == 64 then some (record { next = none; datum = 0 }) else none

abbrev allocator : Allocator
allocator = record {
  size = normal_stack;
  expand_blocks = 32;
  free_blocks = 0;
  free_list = none;
  blocks = one_block;
}

abbrev old : Owner
old = record { stack_sz = normal_stack; context = some 64 }

abbrev young : Owner
young = record { stack_sz = normal_stack; context = none }

context_block-destroy_example :
    (b : Allocator) × ((destroy old (some allocator) >>= context_block [] young)
      ≡ ok (64, record young { context = some 64 }, some b))
    × Frees b []
context_block-destroy_example =
    context_block-destroy [] old young allocator 64 (record { next = none; datum = 0 }) [] refl refl
      refl refl refl (omega arith) (record { chain = tt; distinct = tt; count = refl }) tt
