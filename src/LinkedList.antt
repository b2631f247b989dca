-- ===== src/LinkedList.antt =====
-- The singly linked list `list_t` of boost/coroutine/util/list.h, which holds the children of a coroutine.
pub mod Cells
pub mod Refines
pub mod Push
pub mod Examples
use boost_coro.Base.{
  ℕ, zero, suc, deep_recursion, ◌-◌, ◌==◌, Bool, true, false, if◌then◌else◌, Option, none, some,
  Outcome, ok, fault, dangling, null_deref, ◌>>=◌,
}

-- The address of a node
abbrev pub Pointer : Type 0
Pointer = ℕ

pub record Node : Type 0 where
  pub next : Option Pointer
  pub datum : ℕ

-- `_head`, `_tail`, `_size`, and the nodes of the object pool
pub record LinkedList : Type 0 where
  pub head : Option Pointer
  pub tail : Option Pointer
  pub size : ℕ
  pub nodes : Pointer → Option Node

-- list_t()
pub empty_list : LinkedList
empty_list = record { head = none; tail = none; size = 0; nodes = λ a. none }

abbrev pub the_node : Option Node → Outcome Node
the_node none = fault dangling
the_node (some n) = ok n

-- `*p`
unfoldable pub load : Pointer → LinkedList → Outcome Node
load a l = the_node (l.nodes a)

unfoldable pub set_node : Pointer → Option Node → LinkedList → LinkedList
set_node a o l = record l { nodes = λ b. if b == a then o else l.nodes b }

abbrev pub is_same : Option Pointer → Option Pointer → Bool
is_same none none = true
is_same none (some b) = false
is_same (some a) none = false
is_same (some a) (some b) = a == b

-- `front()`: 0 if there is no node
unfoldable pub front_at : Option Pointer → LinkedList → Outcome ℕ
unfolding load
front_at none l = ok 0
front_at (some a) l = load a l >>= λ n. ok n.datum

unfoldable pub front : LinkedList → Outcome ℕ
unfolding front_at
front l = front_at l.head l

-- `pop_front()`
unfoldable pub pop_at : Option Pointer → LinkedList → Outcome LinkedList
unfolding load set_node
pop_at none l = ok l
pop_at (some a) l = load a l >>= λ n. ok (
    set_node a none (record l {
      head = n.next;
      tail = if is_same l.head l.tail then none else l.tail;
      size = l.size - 1;
    }))

unfoldable pub pop_front : LinkedList → Outcome LinkedList
unfolding pop_at
pop_front l = pop_at l.head l

-- `push_front(data)`, where the pool gives the node at `a`
unfoldable pub push_front : Pointer → ℕ → LinkedList → LinkedList
unfolding set_node
push_front a x l = set_node a (some (record { next = l.head; datum = x })) (record l {
  head = some a;
  tail = if is_same l.head none then some a else l.tail;
  size = suc l.size;
})

-- `push_back(data)`, where the pool gives the node at `a`
unfoldable pub link_tail : Pointer → Option Pointer → LinkedList → Outcome LinkedList
unfolding load set_node
link_tail a none l = fault null_deref
link_tail a (some t) l = load t l >>= λ n.
    ok (record (set_node t (some (record n { next = some a })) l) { tail = some a })

unfoldable pub push_back_at : Option Pointer → Pointer → LinkedList → Outcome LinkedList
unfolding link_tail
push_back_at none a l = ok (record l { head = some a; tail = some a })
push_back_at (some h) a l = link_tail a l.tail l

unfoldable pub push_back : Pointer → ℕ → LinkedList → Outcome LinkedList
unfolding set_node push_back_at
push_back a x l =
    push_back_at l.head a (set_node a (some (record { next = none; datum = x })) l) >>= λ v.
    ok (record v { size = suc v.size })

-- `empty()`
unfoldable pub empty : LinkedList → Bool
empty l = is_same l.head none

-- The loop of `clear()`, on fuel
unfoldable pub clear_loop : ℕ → Option Pointer → LinkedList → Outcome LinkedList
unfolding load set_node
clear_loop fuel none l = ok (record l { head = none; tail = none })
clear_loop zero (some a) l = fault deep_recursion
clear_loop (suc fuel) (some a) l = load a l >>= λ n.
    clear_loop fuel n.next (set_node a none (record l { head = n.next; size = l.size - 1 }))

-- `clear()`. A round takes away one node, so that `_size` rounds are enough.
unfoldable pub clear : LinkedList → Outcome LinkedList
unfolding clear_loop
clear l = clear_loop l.size l.head l
