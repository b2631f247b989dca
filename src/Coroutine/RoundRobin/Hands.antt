-- ===== src/Coroutine/RoundRobin/Hands.antt =====
-- Runs of the machine with the order in which a context hands out the thread.
use mathlib.Core.List.{append_assoc, append-nil}
use boost_coro.Base.{ℕ, suc, ◌≡◌, refl, Option, ok, List, [], ◌∷◌, ◌++◌, sym, subst}
use boost_coro.Coroutine.State.{Address, World}
use boost_coro.Coroutine.Machine.{step, steps}
use boost_coro.Coroutine.RoundRobin.{entered_by, handed}

-- `w` becomes `u` step by step, and these are the coroutines that the context hands the thread to on
-- the way.
pub data Hands (ctx : Option Address) : List Address → World → World → Type 0 where
  arrived : {w : World} → Hands ctx [] w w
  next :
      {w v u : World} {l : List Address}
      → step w ≡ ok v
      → Hands ctx l v u
      → Hands ctx (entered_by ctx w.current v.current ++ l) w u

pub Hands-trans :
    {ctx : Option Address} {w v u : World} {k l : List Address}
    → Hands ctx k w v
    → Hands ctx l v u
    → Hands ctx (k ++ l) w u
Hands-trans arrived h = h
Hands-trans {ctx} {u = u} {l = l} (next {w} {v} {l = k} e g) h =
    subst (λ x. Hands ctx x w u) (sym (append_assoc (entered_by ctx w.current v.current) k l))
      (next e (Hands-trans g h))

pub count_steps :
    {ctx : Option Address} {w u : World} {l : List Address}
    → Hands ctx l w u
    → (n : ℕ) × (steps n w ≡ ok u) × (handed ctx n w ≡ ok l)
unfolding steps handed
count_steps arrived = (0, refl, refl)
count_steps (next e h) = let (n, f, g) = count_steps h in (suc n, rw (e, f) refl, rw (e, g) refl)

-- A step that hands the thread to nobody, and one that does.
pub silent :
    {ctx : Option Address} {w v u : World} {l : List Address}
    → step w ≡ ok v
    → entered_by ctx w.current v.current ≡ []
    → Hands ctx l v u
    → Hands ctx l w u
silent {ctx} {w} {v} {u} {l} e f h = subst (λ k. Hands ctx (k ++ l) w u) f (next e h)

pub handing :
    {ctx : Option Address} {w v u : World} {l : List Address} (k : Address)
    → step w ≡ ok v
    → entered_by ctx w.current v.current ≡ k ∷ []
    → Hands ctx l v u
    → Hands ctx (k ∷ l) w u
handing {ctx} {w} {v} {u} {l} k e f h = subst (λ x. Hands ctx (x ++ l) w u) f (next e h)

pub ending :
    {ctx : Option Address} {w v u : World}
    → step w ≡ ok v
    → entered_by ctx w.current v.current ≡ []
    → v ≡ u
    → Hands ctx [] w u
ending {ctx} {w} {v} {u} e f g = subst (λ x. Hands ctx [] w x) g (silent e f arrived)

-- Steps at the end in which the context hands the thread to nobody
pub silent_end :
    {ctx : Option Address} {w v u : World} {l : List Address}
    → Hands ctx l w v
    → Hands ctx [] v u
    → Hands ctx l w u
silent_end {ctx} {w} {v} {u} {l} h g = subst (λ x. Hands ctx x w u) (append-nil l) (Hands-trans h g)
