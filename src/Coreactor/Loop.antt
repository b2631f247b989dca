-- ===== src/Coreactor/Loop.antt =====
-- `coreactor_t::run`. What `event_base_loop` and the `yield` do, and whether `_triggers` is empty, are
-- parameters.
use boost_coro.Base.{
  ℕ, zero, suc, ◌<◌, ◌≡◌, Bool, true, false, if◌then◌else◌, Outcome, ok, fault, deep_recursion,
  ◌>>=◌, arith,
}
use boost_coro.Coroutine.State.{World}
use boost_coro.Coreactor.{Coreactor}

module _ {Library : Type 0}
    (event_base_loop : Bool → World × Coreactor Library → World × Coreactor Library)
    (yield : World × Coreactor Library → Outcome (World × Coreactor Library))
    (is_empty : Coreactor Library → Bool) where
  -- A round of the loop; with `block`, it waits for an event.
  unfoldable pub round : Bool → World × Coreactor Library → Outcome (World × Coreactor Library)
  round block s = yield (event_base_loop block s)

  -- `run(block)`, on fuel
  unfoldable pub run : ℕ → Bool → World × Coreactor Library → Outcome (World × Coreactor Library)
  unfolding round
  run zero block s = fault deep_recursion
  run (suc fuel) block s =
      round block s >>= λ t. let rest = run fuel block t in if is_empty t.1 then ok t else rest

  -- There are `k` rounds and one more from `s` to `t`, and only the last leaves no trigger.
  pub data Rounds (block : Bool)
      : ℕ → World × Coreactor Library → World × Coreactor Library → Type 0 where
    last :
        {s t : World × Coreactor Library}
        → round block s ≡ ok t
        → is_empty t.1 ≡ true
        → Rounds block 0 s t
    more :
        {k : ℕ} {s t u : World × Coreactor Library}
        → round block s ≡ ok t
        → is_empty t.1 ≡ false
        → Rounds block k t u
        → Rounds block (suc k) s u

  -- `run` returns after the first round that leaves no trigger.
  pub run_returns :
      (block : Bool) (k fuel : ℕ) (s t : World × Coreactor Library)
      → Rounds block k s t
      → k < fuel
      → run fuel block s ≡ ok t
  unfolding run
  run_returns block k zero s t rounds h = absurd (omega arith)
  run_returns block zero (suc fuel) s t (last e done) h = rw (e, done)
  run_returns block (suc k) (suc fuel) s t (more e going rest) h =
      rw (e, going, run_returns block k fuel _ t rest (omega arith))
