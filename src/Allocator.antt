-- ===== src/Allocator.antt =====
-- The allocator of blocks `linked_allocator_t` of boost/coroutine/util/linked_allocator.h. What the
-- system's `::malloc` returns is an argument, a null pointer as `none`.
pub mod FreeList
pub mod Expand
pub mod Destroy
pub mod Examples
use boost_coro.Base.{
  ℕ, zero, suc, ◌+◌, ◌-◌, ◌*◌, ◌==◌, leb, Bool, true, false, if◌then◌else◌, Option, none, some,
  List, [], ◌∷◌, length, Outcome, ok, fault, dangling, null_deref, assert_failed, deep_recursion,
  ◌>>=◌,
}
use boost_coro.LinkedList.{Pointer, Node}

-- `_free_list` and `_free_blocks`, the parameters, and the blocks that the system has given. A block is
-- a node, its first bytes the `next` of a `free_node_t`.
pub record Allocator : Type 0 where
  pub size : ℕ
  pub expand_blocks : ℕ
  pub free_blocks : ℕ
  pub free_list : Option Pointer
  pub blocks : Pointer → Option Node

-- linked_allocator_t(), for the template's `block_size` and `chunk_size`
unfoldable pub new : ℕ → ℕ → Allocator
new block_size chunk_size = record {
  size = block_size;
  expand_blocks = chunk_size;
  free_blocks = 0;
  free_list = none;
  blocks = λ p. none;
}

abbrev pub put : Pointer → Option Node → (Pointer → Option Node) → Pointer → Option Node
put p o h q = if q == p then o else h q

abbrev pub free_node : Option Pointer → Option Node
free_node next = some (record { next = next; datum = 0 })

-- The loop of `expand_free_list` at the block `runner`
unfoldable pub expand_from : Pointer → List (Option Pointer) → Allocator → Allocator
expand_from runner [] a = record a { blocks = put runner (free_node none) a.blocks }
expand_from runner (none ∷ given) a =
    expand_from runner given (record a { blocks = put runner (free_node none) a.blocks })
expand_from runner (some p ∷ given) a = expand_from p given (record a {
  blocks = put runner (free_node (some p)) a.blocks;
  free_blocks = suc a.free_blocks;
})

-- `expand_free_list()`; of what the system gives it takes one block and `_expand_blocks` more.
unfoldable pub expand_free_list : List (Option Pointer) → Allocator → Outcome Allocator
unfolding expand_from
expand_free_list [] a = fault assert_failed
expand_free_list (none ∷ given) a = fault assert_failed
expand_free_list (some p ∷ given) a =
    if length given == a.expand_blocks
    then ok (expand_from p given (record a { free_list = some p; free_blocks = suc a.free_blocks }))
    else fault assert_failed

abbrev pub the_block : Option Node → Outcome Node
the_block none = fault dangling
the_block (some n) = ok n

unfoldable pub take_head : Option Pointer → Allocator → Outcome (Pointer × Allocator)
take_head none a = fault null_deref
take_head (some p) a = the_block (a.blocks p) >>= λ n.
    ok (p, record a { free_list = n.next; free_blocks = a.free_blocks - 1 })

-- `malloc(size)`
unfoldable pub malloc_at :
    Option Pointer → List (Option Pointer) → Allocator → Outcome (Pointer × Allocator)
unfolding expand_free_list take_head
malloc_at none given a = expand_free_list given a >>= λ b. take_head b.free_list b
malloc_at (some p) given a = take_head (some p) a

unfoldable pub malloc : ℕ → List (Option Pointer) → Allocator → Outcome (Pointer × Allocator)
unfolding malloc_at
malloc size given a = if size == a.size then malloc_at a.free_list given a else fault assert_failed

-- `free(ptr)` of a block, and of null. The block goes back to the system if enough of them are free.
unfoldable pub free : Option Pointer → Allocator → Outcome Allocator
free none a = ok a
free (some p) a = the_block (a.blocks p) >>= λ n.
    if leb (a.expand_blocks * 2) a.free_blocks
    then ok (record a { blocks = put p none a.blocks })
    else ok (record a {
      blocks = put p (some (record n { next = a.free_list })) a.blocks;
      free_list = some p;
      free_blocks = suc a.free_blocks;
    })

-- The loop of the destructor, on fuel: the free blocks go back to the system.
unfoldable pub destroy_from :
    ℕ → Option Pointer → (Pointer → Option Node) → Outcome (Pointer → Option Node)
destroy_from fuel none h = ok h
destroy_from zero (some p) h = fault deep_recursion
destroy_from (suc fuel) (some p) h =
    the_block (h p) >>= λ n. destroy_from fuel n.next (put p none h)

-- ~linked_allocator_t(): the blocks that are left. `_free_blocks` rounds are enough.
unfoldable pub destroy : Allocator → Outcome (Pointer → Option Node)
unfolding destroy_from
destroy a = destroy_from a.free_blocks a.free_list a.blocks
