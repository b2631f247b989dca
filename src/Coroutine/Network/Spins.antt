-- ===== src/Coroutine/Network/Spins.antt =====
-- Worlds in which `resume(0)` goes round its children for ever, since all of them wait.
use boost_coro.Base.{
  ℕ, zero, suc, ◌≤◌, ◌≡◌, refl, ◌∙◌, inl, inr, none, some, ok, List, [], ◌∷◌, ◌++◌, All, All-append,
  length, length-append, arith,
}
use boost_coro.Coroutine.State.{
  Address, stat_wait, Call, Frame, Coroutine, World, deref, store, modify,
}
use boost_coro.Coroutine.Flags.{chk}
use boost_coro.Coroutine.Machine.{step, steps}
use boost_coro.Coroutine.RoundRobin.Queue.{framed}
use boost_coro.Coroutine.RoundRobin.Turn.{goes_back}
use boost_coro.Coroutine.Network.First.{Held}
use boost_coro.Coroutine.Network.{
  Waiting, message, event, awaiting, Action, Process, Stands, in_front, blocked, woken, Here,
  addresses, serving,
}
use boost_coro.Coroutine.Network.Settles.{Stuck, no_message, no_event_yet}

-- The coroutine at `k` waits for a message or an event.
pub record Asleep (w : World) (k : Address) : Type 0 where
  pub object : Coroutine
  pub here : w.heap k ≡ some object
  pub stat : object.stat ≡ stat_wait
  pub held : Held object.evet object.msg

no_mail :
    {k : Address} {s : List Action} {b : Waiting} {mail : List ℕ} {stat ev word : ℕ}
    {gs : List Frame}
    → Stands k s b mail stat ev word gs
    → b ≡ message
    → mail ≡ []
    → (stat ≡ stat_wait) × Held ev word
no_mail (in_front h) e f = cc
no_mail blocked e f = (refl, inl (refl, refl))
no_mail woken e f = cc
no_mail awaiting e f = cc

no_event_come :
    {k : Address} {s : List Action} {b : Waiting} {mail : List ℕ} {stat ev word : ℕ}
    {gs : List Frame}
    → Stands k s b mail stat ev word gs
    → b ≡ event
    → (stat ≡ stat_wait) × Held ev word
no_event_come (in_front h) e = cc
no_event_come blocked e = cc
no_event_come woken e = cc
no_event_come awaiting e = (refl, inr (refl, refl))

Held-back :
    (p : Process) (w : World) (h : Here w p)
    → Stuck p
    → (h.object.stat ≡ stat_wait) × Held h.object.evet h.object.msg
Held-back p w h (no_message s e f g) = no_mail h.stands f g
Held-back p w h (no_event_yet e) = no_event_come h.stands e

pub Stuck-Asleep :
    (w : World) (q : List Process) → All (Here w) q → All Stuck q → All (Asleep w) (addresses q)
Stuck-Asleep w [] a b = tt
Stuck-Asleep w (p ∷ q) (h, a) (s, b) =
    let (e, f) = Held-back p w h s in
    (record { object = h.object; here = h.here; stat = e; held = f }, Stuck-Asleep w q a b)

Asleep-same :
    (w v : World) (l : List Address)
    → ((i : Address) → v.heap i ≡ w.heap i)
    → All (Asleep w) l
    → All (Asleep v) l
Asleep-same w v [] same a = tt
Asleep-same w v (k ∷ l) same (a, b) = (
  record { object = a.object; here = same k ∙ a.here; stat = a.stat; held = a.held },
  Asleep-same w v l same b,
)

module _ (cs : List Call) (fs : List Frame) where
  abbrev still : List Frame
  still = Frame.resume_all ∷ Frame.user cs ∷ fs

  -- Where the main context can be in its loop; its children all wait.
  pub data Spins (w : World) : Type 0 where
    in_round :
        (m : ℕ) (k : Address) (l : List Address)
        → w.current ≡ none
        → w.main_context ≡ serving cs fs m
        → w.main_childs ≡ k ∷ l
        → m ≤ suc (length l)
        → All (Asleep w) (k ∷ l)
        → Spins w
    at_child :
        (m : ℕ) (k : Address) (l : List Address)
        → w.current ≡ none
        → w.main_context ≡ Frame.childs_check none k m ∷ still
        → w.main_childs ≡ l
        → m ≤ length l
        → All (Asleep w) (k ∷ l)
        → Spins w
    between :
        (k : Address) (l : List Address)
        → w.current ≡ none
        → w.main_context ≡ still
        → w.main_childs ≡ k ∷ l
        → All (Asleep w) (k ∷ l)
        → Spins w

  abbrev passed : Address → ℕ → List Address → World → World
  passed k m l w = record w { main_childs = l; main_context = Frame.childs_check none k m ∷ still }

  passes :
      (k m : ℕ) (l : List Address) (c : Coroutine) (w : World)
      → w.heap k ≡ some c
      → c.stat ≡ stat_wait
      → Held c.evet c.msg
      → w.current ≡ none
      → w.main_context ≡ serving cs fs (suc m)
      → w.main_childs ≡ k ∷ l
      → step w ≡ ok (passed k m l w)
  unfolding step deref modify store chk
  passes k m l c w h s (inl (x, y)) e f g = rw (e, f, g, h) (ground (arith, s, x, y))
  passes k m l c w h s (inr (x, y)) e f g = rw (e, f, g, h) (ground (arith, s, x, y))

  to_back : Address → ℕ → List Address → World → World
  to_back k m l w = record w {
    main_childs = l ++ k ∷ [];
    main_context = Frame.childs_loop none m ∷ still;
  }

  back_in_round :
      (m : ℕ) (k : Address) (l : List Address) (w : World)
      → w.current ≡ none
      → m ≤ length l
      → All (Asleep w) (k ∷ l)
      → Spins (to_back k m l w)
  unfolding to_back
  back_in_round m k [] w e a (b, c) =
      in_round m k [] e refl refl (omega arith) (Asleep-same w _ (k ∷ []) (λ i. refl) (b, tt))
  back_in_round m k (j ∷ l) w e a (b, (c, d)) =
      in_round m j (l ++ k ∷ []) e refl refl (omega (arith, length-append l (k ∷ []), a))
        (Asleep-same w _ (j ∷ l ++ k ∷ []) (λ i. refl) (c, All-append _ l _ d (b, tt)))

  step-Spins : (w : World) → Spins w → (v : World) × (step w ≡ ok v) × (v.heap ≡ w.heap) × Spins v
  unfolding step to_back
  step-Spins w (in_round zero k l e f g a b) = (
    framed still w,
    rw (e, f) refl,
    refl,
    between k l e refl g (Asleep-same w _ (k ∷ l) (λ i. refl) b),
  )
  step-Spins w (in_round (suc m) k l e f g a (b, c)) = (
    passed k m l w,
    passes k m l b.object w b.here b.stat b.held e f g,
    refl,
    at_child m k l e refl refl (omega (arith, a)) (Asleep-same w _ (k ∷ l) (λ i. refl) (b, c)),
  )
  step-Spins w (at_child m k l e f g a (b, c)) = (
    to_back k m l w,
    goes_back k l m still b.object w e f g b.here b.stat,
    refl,
    back_in_round m k l w e a (b, c),
  )
  step-Spins w (between k l e f g b) = (
    framed (serving cs fs (suc (length l))) w,
    rw (e, f, g) (ground arith),
    refl,
    in_round (suc (length l)) k l e refl g (omega arith) (Asleep-same w _ (k ∷ l) (λ i. refl) b),
  )

  -- After any number of steps more, no coroutine has the thread, no object has changed, and `resume(0)`
  -- has not returned.
  abbrev pub Forever : World → Type 0
  Forever w =
      (n : ℕ)
      → (v : World) × (gs : List Frame) × (steps n w ≡ ok v)
        × (v.heap ≡ w.heap)
        × (v.current ≡ none)
        × (v.main_context ≡ gs ++ Frame.resume_all ∷ Frame.user cs ∷ fs)

  Spins-now :
      (w : World)
      → Spins w
      → (gs : List Frame) × (w.current ≡ none)
        × (w.main_context ≡ gs ++ Frame.resume_all ∷ Frame.user cs ∷ fs)
  Spins-now w (in_round m k l e f g a b) = (Frame.childs_loop none m ∷ [], e, f)
  Spins-now w (at_child m k l e f g a b) = (Frame.childs_check none k m ∷ [], e, f)
  Spins-now w (between k l e f g b) = ([], e, f)

  pub Spins-Forever : (w : World) → Spins w → Forever w
  unfolding steps
  Spins-Forever w s zero = let (gs, e, f) = Spins-now w s in (w, gs, refl, refl, e, f)
  Spins-Forever w s (suc n) =
      let (v, e, f, t) = step-Spins w s in
      let (u, gs, g, h, i, j) = Spins-Forever v t n in (u, gs, rw e g, h ∙ f, i, j)
