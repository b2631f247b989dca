-- ===== src/LinkedList/Examples.antt =====
-- Lists of one and two nodes.
use boost_coro.Base.{◌==◌, ◌≡◌, refl, if◌then◌else◌, none, some, [], ◌∷◌, ok, ◌>>=◌, arith}
use boost_coro.LinkedList.{LinkedList, push_back, pop_front, front}
use boost_coro.LinkedList.Push.{push_back-Holds}
use boost_coro.LinkedList.Refines.{Holds, pop_front-Holds}

-- The list of 7 and 8, at the addresses 3 and 5
abbrev two_nodes : LinkedList
two_nodes = record {
  head = some 3;
  tail = some 5;
  size = 2;
  nodes = λ a.
      if a == 3
      then some (record { next = some 5; datum = 7 })
      else if a == 5
      then some (record { next = none; datum = 8 })
      else none;
}

two_nodes-Holds : Holds two_nodes (7 ∷ 8 ∷ [])
two_nodes-Holds = (
  record { at = 3; holds = 7 } ∷ record { at = 5; holds = 8 } ∷ [],
  record {
    chain = (
      refl,
      record { next = some 5; datum = 7 },
      refl,
      refl,
      (refl, record { next = none; datum = 8 }, refl, refl, tt),
    );
    distinct = ((ground arith, tt), (tt, tt));
    tail = refl;
    count = refl;
  },
  refl,
)

-- A round of `resume_childs`: the front child goes to the back.
front-two_nodes : ((pop_front two_nodes >>= push_back 3 7) >>= front) ≡ ok 8
unfolding pop_front push_back front
front-two_nodes = refl

push_back-Holds_example :
    (v : LinkedList) × (push_back 9 1 two_nodes ≡ ok v) × Holds v (7 ∷ 8 ∷ 1 ∷ [])
push_back-Holds_example = push_back-Holds two_nodes (7 ∷ 8 ∷ []) 9 1 two_nodes-Holds refl

pop_front-Holds_example :
    (v : LinkedList) × (front two_nodes ≡ ok 7) × (pop_front two_nodes ≡ ok v) × Holds v (8 ∷ [])
pop_front-Holds_example = pop_front-Holds two_nodes 7 (8 ∷ []) two_nodes-Holds
