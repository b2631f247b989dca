-- ===== src/Coasio/Service/Stop.antt =====
-- `acceptor_t::stop()`, over the reactor's `cancel`.
use boost_coro.Base.{◌≡◌, Bool, true, Option, none, some, Outcome, ok, ◌>>=◌}
use boost_coro.Coroutine.State.{Address, World}
use boost_coro.Coreactor.{Event, Coreactor, cancel_at, cancel}

module _ {Library : Type 0} (arm : Event → Address → Library → Library)
    (disarm : Event → Library → Library) where
  -- `_coreactor->cancel(0)`: the coroutine is the one that calls. In the main program it is null, which has
  -- no trigger, since `set_io` and its kin use the pointer.
  unfoldable pub cancel_current :
      Option Address → World × Coreactor Library → Outcome (World × Coreactor Library)
  unfolding cancel
  cancel_current none s = ok s
  cancel_current (some c) s = cancel arm disarm c s

  -- `stop()`: the world, the reactor, and `_stopped`
  unfoldable pub stop : World × Coreactor Library → Outcome (World × Coreactor Library × Bool)
  unfolding cancel_current
  stop (w, r) = cancel_current w.current (w, r) >>= λ s. ok (s.0, s.1, true)

  -- `stop` that is called by a coroutine without a trigger of its own sets `_stopped` and does nothing
  -- else: no flag and no trigger of the coroutine that accepts is changed.
  pub stop_wakes_nobody :
      (c : Address) (w : World) (r : Coreactor Library)
      → w.current ≡ some c
      → r.triggers c ≡ none
      → stop (w, r) ≡ ok (w, r, true)
  unfolding stop cancel_current cancel cancel_at
  stop_wakes_nobody c w r now no_trigger = rw (now, no_trigger)
