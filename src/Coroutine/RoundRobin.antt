-- ===== src/Coroutine/RoundRobin.antt =====
-- The main context's `resume(0)` over coroutines that give up the thread by `yield` alone: the worlds
-- it meets, and the round robin that it is compared with.
pub mod Hands
pub mod Loop
pub mod Turn
pub mod Queue
pub mod Ends
pub mod Nested
pub mod Children
pub mod Examples
use boost_coro.Base.{
  if◌then◌else◌, ◌&&◌, not, ℕ, zero, suc, ◌≡◌, ◌≢◌, refl, ◌⊎◌, Option, none, some, Outcome, ok,
  fault, ◌>>=◌, List, [], ◌∷◌, ◌++◌, All, map, Bool, false, ◌||◌, ◌==◌,
}
use boost_coro.Coroutine.State.{
  Address, stat_init, stat_wait, Call, Frame, Coroutine, World, deref, store, modify,
}
use boost_coro.Coroutine.Machine.{coro_context, step, steps}

-- `n` times `yield`: what the library sees of a function that calls nothing else of it.
abbrev pub yields : ℕ → List Call
yields zero = []
yields (suc n) = Call.yield ∷ yields n

-- The coroutine has not the thread, waits for nothing, has no children, and `n` calls of `yield` are
-- left of its function.
pub record Resting (n : ℕ) (c : Coroutine) : Type 0 where
  pub stat : (c.stat ≡ stat_init) ⊎ (c.stat ≡ stat_wait)
  pub evet : c.evet ≡ 0
  pub msg : c.msg ≡ 0
  pub childs : c.childs ≡ []
  pub context : coro_context c ≡ some (Frame.user (yields n) ∷ Frame.execute_tail ∷ [])

-- A coroutine and how often it still yields.
abbrev pub Job : Type 0
Job = Address × ℕ

-- The coroutine of the job is there, and rests.
pub record Waits (w : World) (j : Job) : Type 0 where
  pub object : Coroutine
  pub here : w.heap j.0 ≡ some object
  pub rests : Resting j.1 object

-- No coroutine is in the list twice.
abbrev pub Apart : List Job → Type 0
Apart [] = Unit
Apart (j ∷ jobs) = All (λ (i : Job). i.0 ≢ j.0) jobs × Apart jobs

abbrev pub is_listed : Address → List Job → Bool
is_listed i [] = false
is_listed i (j ∷ jobs) = (i == j.0) || is_listed i jobs

-- The turns of a round robin: the first of the queue has a turn, and goes to the end of the queue if
-- it has not ended by it.
pub data RoundRobin : List Job → List Address → Type 0 where
  all_ended : RoundRobin [] []
  ends :
      {k : Address} {queue : List Job} {order : List Address}
      → RoundRobin queue order
      → RoundRobin ((k, 0) ∷ queue) (k ∷ order)
  yields_again :
      {k : Address} {n : ℕ} {queue : List Job} {order : List Address}
      → RoundRobin (queue ++ (k, n) ∷ []) order
      → RoundRobin ((k, suc n) ∷ queue) (k ∷ order)

-- The main context has the thread and the frames `fs`, and its children are those of the jobs.
pub record Serving (jobs : List Job) (fs : List Frame) (w : World) : Type 0 where
  pub current : w.current ≡ none
  pub main_context : w.main_context ≡ fs
  pub main_childs : w.main_childs ≡ map (λ (j : Job). j.0) jobs
  pub waits : All (Waits w) jobs
  pub apart : Apart jobs

-- The coroutine that has got the thread from the context `ctx` by a step.
abbrev pub entered_by : Option Address → Option Address → Option Address → List Address
entered_by none none (some k) = k ∷ []
entered_by (some p) (some c) (some k) = if (c == p) && not (k == p) then k ∷ [] else []
entered_by _ _ _ = []

-- The coroutines to which the context `ctx` hands the thread in `n` steps, in order.
unfoldable pub handed : Option Address → ℕ → World → Outcome (List Address)
unfolding step
handed ctx zero w = ok []
handed ctx (suc n) w =
    step w >>= λ v. handed ctx n v >>= λ l. ok (entered_by ctx w.current v.current ++ l)
