-- ===== src/Coroutine/RoundRobin/Queue.antt =====
-- The worlds that `resume(0)` of the main context meets, from one turn to the next.
use boost_coro.Base.{
  All-append, suc, ◌≡◌, ◌≢◌, refl, sym, ap, ◌∙◌, ℕ, Option, none, some, inr, List, [], ◌∷◌, ◌++◌,
  All, map, arith,
}
use boost_coro.Coroutine.State.{Address, stat_wait, Frame, Coroutine, World, store}
use boost_coro.Coroutine.Machine.{coro_context}
use boost_coro.Coroutine.RoundRobin.{yields, Resting, Job, Waits, Apart, Serving}
use boost_coro.Coroutine.RoundRobin.Turn.{turned, context_of, yielded}

pub keys-append :
    (q : List Job) (k : Address) (n : ℕ)
    → map (λ (j : Job). j.0) (q ++ (k, n) ∷ []) ≡ map (λ (j : Job). j.0) q ++ k ∷ []
keys-append [] k n = refl
keys-append (j ∷ q) k n = ap (λ r. j.0 ∷ r) (keys-append q k n)

pub Apart-append :
    (q : List Job) (k : Address) (n : ℕ)
    → All (λ (i : Job). i.0 ≢ k) q
    → Apart q
    → Apart (q ++ (k, n) ∷ [])
Apart-append [] k n a b = (tt, tt)
Apart-append (j ∷ q) k n (a, as') (b, bs) =
    (All-append _ q _ b ((λ e. a (sym e)), tt), Apart-append q k n as' bs)

pub All-both {ℓ κ} :
    {A : Type ℓ} (P Q : A → Type κ) (xs : List A) → All P xs → All Q xs → All (λ x. P x × Q x) xs
All-both P Q [] a b = tt
All-both P Q (x ∷ xs) (a, c) (b, d) = ((a, b), All-both P Q xs c d)

-- The coroutines that are left alone go on waiting.
pub Waits-kept :
    (P : Address → Type 0) (w v : World) (q : List Job)
    → ((i : Address) → P i → v.heap i ≡ w.heap i)
    → All (λ (j : Job). P j.0) q
    → All (Waits w) q
    → All (Waits v) q
Waits-kept P w v [] same a b = tt
Waits-kept P w v (j ∷ q) same (a, c) (b, d) = (
  record { object = b.object; here = same j.0 a ∙ b.here; rests = b.rests },
  Waits-kept P w v q same c d,
)

-- A coroutine that has yielded is one that waits with one call of `yield` less.
pub yielded-Resting :
    (n : ℕ) (pre : Option Address) (c : Coroutine)
    → Resting (suc n) c
    → Resting n (record c { stat = stat_wait; pre = pre; context = context_of (yields n) })
unfolding coro_context
yielded-Resting n pre c r = record {
  stat = inr refl;
  evet = r.evet;
  msg = r.msg;
  childs = r.childs;
  context = refl;
}

module _ (k : Address) (q : List Job) (m : ℕ) (fs : List Frame) (w : World) where
  pub yielded-Serving :
      (n : ℕ) (c : Coroutine)
      → Serving ((k, suc n) ∷ q) (Frame.childs_loop none (suc m) ∷ fs) w
      → w.heap k ≡ some c
      → Resting (suc n) c
      → Serving (q ++ (k, n) ∷ []) (Frame.childs_loop none m ∷ fs) (
          store k
            (some (yielded (yields n) c))
            (turned none (map (λ (j : Job). j.0) q ++ k ∷ []) (Frame.childs_loop none m ∷ fs) w))
  unfolding store coro_context
  yielded-Serving n c s h r = record {
    current = refl;
    main_context = refl;
    main_childs = sym (keys-append q k n);
    waits =
        All-append _ q _ (Waits-kept (λ i. i ≢ k) w _ q (λ i e. ground arith) s.apart.0 s.waits.1) (
          record {
            object = yielded (yields n) c;
            here = ground arith;
            rests = yielded-Resting n none c r;
          },
          tt,
        );
    apart = Apart-append q k n s.apart.0 s.apart.1;
  }

  pub ended-Serving :
      Serving ((k, 0) ∷ q) (Frame.childs_loop none (suc m) ∷ fs) w
      → Serving q
          (Frame.childs_loop none m ∷ fs)
          (store k none (turned none (map (λ (j : Job). j.0) q) (Frame.childs_loop none m ∷ fs) w))
  unfolding store
  ended-Serving s = record {
    current = refl;
    main_context = refl;
    main_childs = refl;
    waits = Waits-kept (λ i. i ≢ k) w _ q (λ i e. ground arith) s.apart.0 s.waits.1;
    apart = s.apart.1;
  }

abbrev pub framed : List Frame → World → World
framed fs w = record w { main_context = fs }

pub framed-Serving :
    {q : List Job} {gs : List Frame} {w : World} (fs : List Frame)
    → Serving q gs w
    → Serving q fs (framed fs w)
framed-Serving {q} {gs} {w} fs s = record {
  current = s.current;
  main_context = refl;
  main_childs = s.main_childs;
  waits = Waits-kept (λ i. Unit {0}) w (framed fs w) q (λ i u. refl) (any q) s.waits;
  apart = s.apart;
}
  where
    any : (q : List Job) → All (λ (j : Job). Unit {0}) q
    any [] = tt
    any (j ∷ q) = (tt, any q)
