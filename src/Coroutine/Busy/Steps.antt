-- ===== src/Coroutine/Busy/Steps.antt =====
-- Every step keeps exactly the current coroutine BUSY.
use boost_coro.Base.{
  ℕ, zero, suc, ◌≡◌, refl, Option, none, some, ok, Ensures, ensures, bind, of_ok, arith,
}
use boost_coro.Coroutine.State.{Address, stat_done, Coroutine, World}
use boost_coro.Coroutine.Machine.{step, steps}
use boost_coro.Coroutine.Busy.{Stepped, OneBusy, Kept, Edge, stat_of, store-Busy, Busy-walk}
use boost_coro.Coroutine.Walk.Steps.{step-Walked}

Kept-self : (o : Option Coroutine) → Kept (stat_of o) o
Kept-self none = refl
Kept-self (some c) = refl

step-Stepped : (w : World) → OneBusy w → Ensures (Stepped (λ i. stat_of (w.heap i))) (step w)
step-Stepped w o =
    step-Walked Busy-walk w (λ v i m c e b. store-Busy b i c _ e refl)
      (record { current = refl; agrees = o.agrees; kept = λ i. Kept-self (w.heap i) })

-- A step from a world where the current coroutine, and no other, is BUSY leads to such a world, and takes
-- each coroutine along one edge of its life at most: INIT or WAIT to BUSY, BUSY to WAIT or to DONE. It
-- is destroyed in DONE only, and no object comes back.
pub step_life :
    {w w' : World}
    → OneBusy w
    → step w ≡ ok w'
    → OneBusy w' × ((i : Address) → Edge (stat_of (w.heap i)) (w'.heap i))
step_life {w} o e = let s = of_ok (step-Stepped w o) e in (s.busy, s.edges)

-- Over any number of steps: if at first the current coroutine is BUSY and all the others are in another
-- state, then that is so of the world that the steps lead to.
pub steps-OneBusy : (n : ℕ) {w w' : World} → OneBusy w → steps n w ≡ ok w' → OneBusy w'
unfolding steps
steps-OneBusy n o e = of_ok (go n o) e
  where
    go : (n : ℕ) {w : World} → OneBusy w → Ensures OneBusy (steps n w)
    go zero o = ensures o
    go (suc n) {w} o = bind (step-Stepped w o) λ v s. go n s.busy

-- No coroutine, or one that is DONE.
abbrev Gone : Option Coroutine → Type 0
Gone none = Unit {0}
Gone (some c) = c.stat ≡ stat_done

Gone-step : (o p : Option Coroutine) → Gone o → Edge (stat_of o) p → Gone p
Gone-step none none g e = tt
Gone-step none (some d) g e = cc
Gone-step (some c) none g e = tt
Gone-step (some c) (some d) g e = ground arith

-- A coroutine that is DONE or destroyed stays so over any number of steps, from a world where the current
-- coroutine, and no other, is BUSY.
steps-Gone :
    (n : ℕ) (i : Address) {w w' : World}
    → OneBusy w
    → Gone (w.heap i)
    → steps n w ≡ ok w'
    → Gone (w'.heap i)
unfolding steps
steps-Gone n i o g e = of_ok (go n o g) e
  where
    go :
        (n : ℕ) {w : World}
        → OneBusy w
        → Gone (w.heap i)
        → Ensures (λ v. Gone (v.heap i)) (steps n w)
    go zero o g = ensures g
    go (suc n) {w} o g =
        bind (step-Stepped w o) λ v s. go n s.busy (Gone-step (w.heap i) (v.heap i) g (s.edges i))
