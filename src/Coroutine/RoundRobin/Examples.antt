-- ===== src/Coroutine/RoundRobin/Examples.antt =====
-- Three coroutines that yield twice, never and once.
use boost_coro.Base.{
  ◌≢◌, ◌>>=◌, ℕ, zero, suc, ◌≡◌, refl, inl, if◌then◌else◌, Option, none, some, ok, List, [], ◌∷◌,
  arith,
}
use boost_coro.Coroutine.State.{
  stat_done, Address, Call, Frame, Coroutine, World, new, deref, store, modify,
}
use boost_coro.Coroutine.Flags.{chk, clear, notify, flag_set, flag_del}
use boost_coro.Coroutine.Machine.{coro_context, step, steps}
use boost_coro.Coroutine.RoundRobin.{yields, Resting, Job, is_listed, RoundRobin, Serving, handed}
use boost_coro.Coroutine.RoundRobin.Nested.{running}
use boost_coro.Coroutine.RoundRobin.Children.{Parent, execute-RoundRobin}
use boost_coro.Coroutine.RoundRobin.Ends.{resume_all-RoundRobin}

abbrev yielders : Address → Option Coroutine
yielders zero = some (new 0 (yields 2))
yielders (suc zero) = some (new 0 (yields 0))
yielders (suc (suc zero)) = some (new 0 (yields 1))
yielders (suc (suc (suc i))) = none

abbrev jobs : List Job
jobs = (0, 2) ∷ (1, 0) ∷ (2, 1) ∷ []

abbrev start : World
start = record {
  current = none;
  main_childs = 0 ∷ 1 ∷ 2 ∷ [];
  main_context = Frame.user (Call.resume none ∷ []) ∷ [];
  heap = yielders;
  created = 3;
}

start-handed : handed none 60 start ≡ ok (0 ∷ 1 ∷ 2 ∷ 0 ∷ 2 ∷ 0 ∷ [])
unfolding handed step new deref store modify flag_set flag_del notify clear chk
start-handed = refl

new-Resting : (n : ℕ) → Resting n (new 0 (yields n))
unfolding new coro_context
new-Resting n = record { stat = inl refl; evet = refl; msg = refl; childs = refl; context = refl }

start-Serving : Serving jobs (Frame.user (Call.resume none ∷ []) ∷ []) start
start-Serving = record {
  current = refl;
  main_context = refl;
  main_childs = refl;
  waits = (
    record { object = new 0 (yields 2); here = refl; rests = new-Resting 2 },
    (
      record { object = new 0 (yields 0); here = refl; rests = new-Resting 0 },
      (record { object = new 0 (yields 1); here = refl; rests = new-Resting 1 }, tt),
    ),
  );
  apart = ground arith;
}

resume_all-RoundRobin_example :
    (n : ℕ) × (u : World) × (order : List Address) × (steps n start ≡ ok u)
    × (handed none n start ≡ ok order)
    × RoundRobin jobs order
    × (u.current ≡ none)
    × (u.main_context ≡ Frame.user [] ∷ [])
    × (u.main_childs ≡ [])
    × ((i : Address) → u.heap i ≡ (if is_listed i jobs then none else start.heap i))
resume_all-RoundRobin_example = resume_all-RoundRobin jobs [] [] start start-Serving

-- A coroutine whose function has returned, and its two children
abbrev parent : Coroutine
parent = record (new 0 []) { pre = none }

abbrev family : Address → Option Coroutine
family zero = some (running (1 ∷ 2 ∷ []) (Frame.execute_tail ∷ []) parent)
family (suc zero) = some (new 0 (yields 1))
family (suc (suc zero)) = some (new 0 (yields 0))
family (suc (suc (suc i))) = none

abbrev childs_jobs : List Job
childs_jobs = (1, 1) ∷ (2, 0) ∷ []

abbrev parent_ends : World
parent_ends = record {
  current = some 0;
  main_childs = 0 ∷ [];
  main_context = [];
  heap = family;
  created = 3;
}

parent_ends-handed :
    (steps 18 parent_ends >>= λ u. handed (some 0) 18 parent_ends) ≡ ok (1 ∷ 2 ∷ 1 ∷ [])
unfolding handed steps step new deref store modify flag_set flag_del notify clear chk
parent_ends-handed = refl

parent_ends-Parent : Parent 0 parent childs_jobs (Frame.execute_tail ∷ []) parent_ends
parent_ends-Parent = record {
  current = refl;
  here = refl;
  waits = (
    record { object = new 0 (yields 1); here = refl; rests = new-Resting 1 },
    (record { object = new 0 (yields 0); here = refl; rests = new-Resting 0 }, tt),
  );
  apart = ground arith;
  others = ground arith;
}

new_pre : (new 0 []).pre ≡ none
unfolding new
new_pre = refl

execute-RoundRobin_example :
    (n : ℕ) × (u : World) × (order : List Address) × (steps n parent_ends ≡ ok u)
    × (handed (some 0) n parent_ends ≡ ok order)
    × RoundRobin childs_jobs order
    × (u.current ≡ none)
    × (u.heap 0 ≡ some (record (running [] [] parent) { stat = stat_done }))
    × ((i : Address)
        → i ≢ 0
        → u.heap i ≡ (if is_listed i childs_jobs then none else parent_ends.heap i))
execute-RoundRobin_example =
    execute-RoundRobin 0 parent childs_jobs [] parent_ends parent_ends-Parent refl
