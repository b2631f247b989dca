-- ===== src/Coroutine/Queries.antt =====
-- The questions that a context can ask: `child()`, `parent()`, `event_chk` and `event_equal`. The main
-- context has no flags and no parent.
use boost_coro.Base.{
  ℕ, ◌==◌, ◌≡◌, ◌≢◌, refl, ap, Bool, true, false, Option, none, some, List, [], ◌∷◌, ◌++◌, Outcome,
  ok, ◌>>=◌, arith,
}
use boost_coro.Coroutine.State.{Address, Channel, Coroutine, World, deref, store, modify}
use boost_coro.Coroutine.Flags.{word, chk}
use boost_coro.Coroutine.Machine.{childs_of, set_childs, add_child}

abbrev pub some_left : List Address → Bool
some_left [] = false
some_left (_ ∷ _) = true

-- `child()`
unfoldable pub has_child : Option Address → World → Outcome Bool
unfolding childs_of
has_child ctx w = childs_of ctx w >>= λ l. ok (some_left l)

-- `parent()`
unfoldable pub parent_of : Option Address → World → Outcome (Option Address)
parent_of none w = ok none
parent_of (some i) w = deref i w >>= λ c. ok c.parent

-- `event_chk` and `msg_chk`
unfoldable pub flag_chk : Channel → Option Address → ℕ → World → Outcome Bool
flag_chk ch none flags w = ok false
flag_chk ch (some i) flags w = deref i w >>= λ c. ok (chk (word ch c) flags)

-- `event_equal`
unfoldable pub flag_equal : Channel → Option Address → ℕ → World → Outcome Bool
flag_equal ch none flags w = ok false
flag_equal ch (some i) flags w = deref i w >>= λ c. ok (word ch c == flags)

some_left-append : (l : List Address) (k : Address) → some_left (l ++ k ∷ []) ≡ true
some_left-append [] k = refl
some_left-append (_ ∷ _) k = refl

-- `child(k)` of a coroutine `p`, for another one `k`, makes `p` the parent of `k`, and then `p` has a child,
-- which is the last of its children.
pub has_child-add_child :
    (p k : Address) (c d : Coroutine) (w : World)
    → w.heap p ≡ some d
    → w.heap k ≡ some c
    → k ≢ p
    → (v : World) × (add_child (some p) k w ≡ ok v)
      × (parent_of (some k) v ≡ ok (some p))
      × (has_child (some p) v ≡ ok true)
      × (childs_of (some p) v ≡ ok (d.childs ++ k ∷ []))
unfolding add_child childs_of set_childs modify deref store parent_of has_child
has_child-add_child p k c d w e f apart =
    let here : (p == p) ≡ true = ground arith in
    let there : (k == k) ≡ true = ground arith in
    let away : (p == k) ≡ false = ground arith in
    let back : (k == p) ≡ false = ground arith in
    (
      store p (some (record d { childs = d.childs ++ k ∷ [] }))
          (store k (some (record c { parent = some p })) w),
      rw f (rw away (rw e)),
      rw (back, there),
      rw here (ap ok (some_left-append d.childs k)),
      rw here,
    )
