-- ===== src/Coreactor/Timeouts.antt =====
-- Timeouts, in milliseconds: the `timeval` that the event library is given, and `set_timeout`.
use boost_coro.Base.{
  ℕ, zero, suc, ◌+◌, ◌*◌, ◌/◌, ◌%◌, ◌<◌, ◌≡◌, refl, ap, Option, none, some, Outcome, ok, fault,
  assert_failed, ◌>>=◌, ℤ, pos, negsuc, arith,
}
use boost_coro.Coroutine.State.{Address, World}
use boost_coro.Coreactor.{Event, Coreactor, set_signal}

pub record Timeval : Type 0 where
  pub sec : ℕ
  pub usec : ℕ

-- `{timeout / 1000, (timeout % 1000) * 1000}` of a timeout that is above 0
unfoldable pub timeval : ℕ → Timeval
timeval timeout = record { sec = timeout / 1000; usec = timeout % 1000 * 1000 }

-- The time that `set_io` gives to `event_add`: none, unless the timeout is above 0.
unfoldable pub io_time : ℤ → Option Timeval
unfolding timeval
io_time (negsuc n) = none
io_time (pos zero) = none
io_time (pos (suc n)) = some (timeval (suc n))

module _ {Library : Type 0} (timer : Timeval → Event → Address → Library → Library)
    (disarm : Event → Library → Library) where
  -- `set_timeout(timeout, coro)` up to its `yield`; `none` is the return before there is an event.
  unfoldable pub set_timeout :
      ℤ → Event → Address → World × Coreactor Library → Outcome (Option (World × Coreactor Library))
  unfolding timeval set_signal
  set_timeout (negsuc n) e c s = ok none
  set_timeout (pos zero) e c s = ok none
  set_timeout (pos (suc n)) e c s =
      set_signal (timer (timeval (suc n))) disarm e c s >>= λ t. ok (some t)

  -- `usleep(coreactor, usec)` of the coroutine at `c`, up to the `yield`: the number is a timeout in
  -- milliseconds.
  unfoldable pub usleep :
      Option (Coreactor Library)
      → ℤ
      → Event
      → Address
      → World
      → Outcome (Option (World × Coreactor Library))
  unfolding set_timeout
  usleep none usec e c w = fault assert_failed
  usleep (some r) usec e c w = set_timeout usec e c (w, r)

-- When `set_io` limits its wait, the timeout is above 0, the microseconds of the time are less than a
-- second, and all of it, in microseconds, is 1000 times the timeout.
pub io_time_lem :
    (timeout : ℤ) (tv : Timeval)
    → io_time timeout ≡ some tv
    → (n : ℕ) × (timeout ≡ pos n)
      × (0 < n)
      × (tv.usec < 1000000)
      × (tv.sec * 1000000 + tv.usec ≡ n * 1000)
unfolding io_time
io_time_lem (negsuc n) tv e = cc
io_time_lem (pos zero) tv e = cc
io_time_lem (pos (suc n)) tv e =
    let f : timeval (suc n) ≡ tv = cc in
    let u : suc n % 1000 * 1000 ≡ tv.usec = unfold timeval in ap (λ (t : Timeval). t.usec) f in
    let v : suc n / 1000 ≡ tv.sec = unfold timeval in ap (λ (t : Timeval). t.sec) f in
    (suc n, refl, omega arith, omega (arith, u), omega (arith, u, v))
