-- ===== src/Coroutine/Memory.antt =====
-- The memory of the contexts: `malloc` and `free` of `this_cothread`, `coro_context` and the destructor
-- of a coroutine, over the thread's allocator. What the system's `::malloc` returns is an argument.
pub mod Examples
use boost_coro.Base.{
  ℕ, ◌*◌, ◌<◌, ◌==◌, ◌≡◌, ◌≢◌, refl, sym, inl, inr, true, false, Option, none, some, Option-cases,
  List, Outcome, ok, fault, assert_failed, ◌>>=◌, arith,
}
use boost_coro.LinkedList.{Pointer, Node}
use boost_coro.LinkedList.Cells.{Cell, Apart}
use boost_coro.Allocator.{Allocator}
use boost_coro.Allocator.FreeList.{Frees, malloc-free}
use boost_coro.Allocator

-- NORMAL_CORO_STACK_SIZE
abbrev pub normal_stack : ℕ
normal_stack = 1024 * 1024

-- The thread's data, null until a function first asks for it; here, its `_context_allocator`.
abbrev pub Thread : Type 0
Thread = Option Allocator

unfoldable pub context_allocator : Thread → Allocator
unfolding Allocator.new
context_allocator none = Allocator.new normal_stack 32
context_allocator (some a) = a

-- `this_cothread::malloc` and `this_cothread::free`
unfoldable pub malloc : ℕ → List (Option Pointer) → Thread → Outcome (Pointer × Thread)
malloc size given t = Allocator.malloc size given (context_allocator t) >>= λ r. ok (r.0, some r.1)

unfoldable pub free : Option Pointer → Thread → Outcome Thread
free p t = Allocator.free p (context_allocator t) >>= λ a. ok (some a)

-- Of a coroutine, `_stack_sz` and the block that `_coro_context` points to
pub record Owner : Type 0 where
  pub stack_sz : ℕ
  pub context : Option Pointer

abbrev pub owning : Owner → Pointer × Thread → Pointer × Owner × Thread
owning o r = (r.0, record o { context = some r.0 }, r.1)

-- `coro_context()`
unfoldable pub context_block :
    List (Option Pointer) → Owner → Thread → Outcome (Pointer × Owner × Thread)
unfolding malloc
context_block given o t = elim o.context [
  | some p ↦ ok (p, o, t)
  | none ↦ malloc o.stack_sz given t >>= λ r. ok (owning o r)
]

-- ~coroutine_base_t()
unfoldable pub destroy : Owner → Thread → Outcome Thread
unfolding free
destroy o t = elim o.context [ none ↦ ok t | some p ↦ free (some p) t ]

reused :
    (given : List (Option Pointer)) (u : Owner) (a : Allocator) (p : Pointer) (b : Allocator)
    (r : Outcome Allocator)
    → (r >>= Allocator.malloc a.size given) ≡ ok (p, b)
    → ((r >>= λ v. ok (some v)) >>= λ (t : Thread). malloc a.size given t >>= λ x. ok (owning u x))
      ≡ ok (p, record u { context = some p }, some b)
unfolding malloc context_allocator
reused given u a p b (ok v) e = let f : Allocator.malloc a.size given v ≡ ok (p, b) = e in rw f refl
reused given u a p b (fault x) e = cc

-- The block of a coroutine that is destroyed becomes that of the next coroutine of the normal size to
-- which there is a first transfer, and the blocks that are free are then as they were. This asks that the
-- allocator's free list is well formed and has not that block in it, and that fewer blocks are free than
-- it keeps.
pub context_block-destroy :
    (given : List (Option Pointer)) (o u : Owner) (a : Allocator) (p : Pointer) (n : Node)
    (cs : List Cell)
    → a.size ≡ normal_stack
    → o.context ≡ some p
    → u.context ≡ none
    → u.stack_sz ≡ normal_stack
    → a.blocks p ≡ some n
    → a.free_blocks < a.expand_blocks * 2
    → Frees a cs
    → Apart p cs
    → (b : Allocator) × ((destroy o (some a) >>= context_block given u)
        ≡ ok (p, record u { context = some p }, some b))
      × Frees b cs
unfolding context_block destroy context_allocator
context_block-destroy given o u a p n cs e f g h owned few free_cells apart =
    let (b, run, good) = malloc-free a p n cs given owned few free_cells apart in
    (
      b,
      rw (f, g, h, sym e)
          (reused given (record u { stack_sz = a.size; context = none }) a p b
            (Allocator.free (some p) a) run),
      good,
    )
