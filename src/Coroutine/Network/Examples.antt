-- ===== src/Coroutine/Network/Examples.antt =====
-- A question and its answer, a message to a coroutine that has ended, and two that wait for each other.
use boost_coro.Base.{
  zero, suc, ◌≡◌, ◌≢◌, refl, inl, Option, none, some, ok, fault, dangling, ◌>>=◌, List, [], ◌∷◌,
  arith,
}
use boost_coro.Coroutine.State.{Address, Call, Frame, Coroutine, World, new, deref, store, modify}
use boost_coro.Coroutine.Flags.{chk, clear, notify, flag_set, flag_del}
use boost_coro.Coroutine.Machine.{coro_context, mput, mget_loop, step, steps}
use boost_coro.Coroutine.Network.{
  Action, nothing, await, fire, give_way, receive, send, Process, update, run, turn_of, turns,
  calls_of, in_front, Here, Network,
}
use boost_coro.Coroutine.Network.Refines.{Serves, resume_all-turns}
use boost_coro.Coroutine.Network.Deadlock.{Outcomes, resume_all-Outcomes}

abbrev begins : Address → List Action → Process
begins k s = record { address = k; script = s; waits = nothing; mail = []; received = [] }

abbrev two : List Action → List Action → Address → Option Coroutine
two s t zero = some (new 0 (calls_of 0 s))
two s t (suc zero) = some (new 0 (calls_of 1 t))
two s t (suc (suc i)) = none

abbrev start : List Action → List Action → World
start s t = record {
  current = none;
  main_childs = 0 ∷ 1 ∷ [];
  main_context = Frame.user (Call.resume none ∷ []) ∷ [];
  heap = two s t;
  created = 2;
}

abbrev pair : List Action → List Action → List Process
pair s t = begins 0 s ∷ begins 1 t ∷ []

new_here :
    (k : Address) (s : List Action) (w : World)
    → w.heap k ≡ some (new 0 (calls_of k s))
    → Here w (begins k s)
unfolding new coro_context
new_here k s w e = record {
  object = new 0 (calls_of k s);
  frames = Frame.user (calls_of k s) ∷ Frame.execute_tail ∷ [];
  here = e;
  childs = refl;
  parent = refl;
  messages = refl;
  received = refl;
  context = refl;
  stands = in_front (inl refl);
}

nobody_else : (s t : List Action) (i : Address) → 0 ≢ i → 1 ≢ i → two s t i ≡ none
nobody_else s t zero a b = absurd (a refl)
nobody_else s t (suc zero) a b = absurd (b refl)
nobody_else s t (suc (suc i)) a b = refl

start-Network :
    (s t : List Action) → Network (pair s t) (Frame.user (Call.resume none ∷ []) ∷ []) (start s t)
start-Network s t = record {
  current = refl;
  main_context = refl;
  main_childs = refl;
  all = (new_here 0 s (start s t) refl, (new_here 1 t (start s t) refl, tt));
  apart = ground arith;
  only = λ i (a, (b, c)). nobody_else s t i a b;
}

-- The first asks the second one, and waits for what it says.
abbrev asks : List Action
asks = send 1 7 ∷ receive ∷ []

abbrev answers : List Action
answers = give_way ∷ receive ∷ send 0 8 ∷ []

asks-turns : turns 5 (pair asks answers) ≡ ok []
unfolding turns turn_of run update
asks-turns = refl

asks-steps : (steps 40 (start asks answers) >>= λ w. ok w.main_childs) ≡ ok []
unfolding steps step new deref store modify mput mget_loop flag_set flag_del notify clear chk
asks-steps = refl

resume_all-turns_example : Serves [] [] (start asks answers) (turns 3 (pair asks answers))
resume_all-turns_example =
    resume_all-turns 3 (pair asks answers) [] [] (start asks answers) (start-Network asks answers)

-- A reader waits for its event, and tells the one that has it what it has read.
abbrev reads : List Action
reads = await ∷ send 1 9 ∷ []

abbrev reacts : List Action
reacts = give_way ∷ fire 0 ∷ receive ∷ []

reads-turns : turns 6 (pair reads reacts) ≡ ok []
unfolding turns turn_of run update
reads-turns = refl

reads-steps : (steps 50 (start reads reacts) >>= λ w. ok w.main_childs) ≡ ok []
unfolding steps step new deref store modify mput mget_loop flag_set flag_del notify clear chk
reads-steps = refl

-- Each waits for the other one to begin.
abbrev waits_for_first : List Action
waits_for_first = receive ∷ send 0 8 ∷ []

abbrev waits_for_second : List Action
waits_for_second = receive ∷ send 1 7 ∷ []

abbrev locked : World
locked = start waits_for_second waits_for_first

resume_all-Outcomes_example : Outcomes [] [] locked
resume_all-Outcomes_example =
    resume_all-Outcomes (pair waits_for_second waits_for_first) [] [] locked
      (start-Network waits_for_second waits_for_first)

-- The first ends before the second one writes to it.
late-turns : turns 5 (pair (give_way ∷ []) (give_way ∷ give_way ∷ send 0 8 ∷ [])) ≡ fault dangling
unfolding turns turn_of run update
late-turns = refl
