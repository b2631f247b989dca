-- ===== src/Coroutine/RoundRobin/Loop.antt =====
-- A loop that serves a queue round after round ends, whichever context runs it.
use boost_coro.Base.{
  ℕ, zero, suc, ◌+◌, ◌≤◌, ◌==◌, ◌≡◌, ◌≢◌, refl, ◌||◌, if◌then◌else◌, Option, none, List, [], ◌∷◌,
  ◌++◌, length, length-append, arith,
}
use boost_coro.Coroutine.State.{Address, World}
use boost_coro.Coroutine.RoundRobin.{Job, is_listed, RoundRobin, all_ended, ends, yields_again}
use boost_coro.Coroutine.RoundRobin.Hands.{Hands, Hands-trans}

pub is_listed-append :
    (i : Address) (q : List Job) (k : Address) (n : ℕ)
    → is_listed i (q ++ (k, n) ∷ []) ≡ ((i == k) || is_listed i q)
is_listed-append i [] k n = refl
is_listed-append i (j ∷ q) k n = ground (arith, is_listed-append i q k n)

-- How many turns the jobs need.
abbrev work : List Job → ℕ
work [] = 0
work (j ∷ q) = suc (j.1 + work q)

work-append : (q : List Job) (k : Address) (n : ℕ) → work (q ++ (k, n) ∷ []) ≡ suc (n + work q)
work-append [] k n = omega arith
work-append (j ∷ q) k n = omega (arith, work-append q k n)

-- The parts of the loop: `Within q m w` says that `m` children are left of a round, `Between` that a
-- round is over. Of the objects, those that are `Other` are not touched but for the children.
pub record Server (ctx : Option Address) : Type 1 where
  pub Within : List Job → ℕ → World → Type 0
  pub Between : List Job → World → Type 0
  pub Other : Address → Type 0
  pub turn_ends :
      (k : Address) (q : List Job) (m : ℕ) (w : World)
      → Within ((k, 0) ∷ q) (suc m) w
      → (v : World) × Hands ctx (k ∷ []) w v
        × Within q m v
        × ((i : Address) → Other i → v.heap i ≡ (if i == k then none else w.heap i))
  pub turn_yields :
      (k : Address) (n : ℕ) (q : List Job) (m : ℕ) (w : World)
      → Within ((k, suc n) ∷ q) (suc m) w
      → (v : World) × Hands ctx (k ∷ []) w v
        × Within (q ++ (k, n) ∷ []) m v
        × ((i : Address) → Other i → i ≢ k → v.heap i ≡ w.heap i)
  pub round_ends :
      (q : List Job) (w : World)
      → Within q 0 w
      → (v : World) × Hands ctx [] w v
        × Between q v
        × ((i : Address) → Other i → v.heap i ≡ w.heap i)
  pub round_begins :
      (j : Job) (q : List Job) (w : World)
      → Between (j ∷ q) w
      → (v : World) × Hands ctx [] w v
        × Within (j ∷ q) (suc (length q)) v
        × ((i : Address) → Other i → v.heap i ≡ w.heap i)

module _ {ctx : Option Address} (server : Server ctx) where
  -- What the loop comes to from a world `w` where its children are those of the jobs: by a round robin it
  -- gets to where nothing is left of them.
  pub record Served (jobs : List Job) (w : World) : Type 0 where
    pub order : List Address
    pub last : World
    pub hands : Hands ctx order w last
    pub schedule : RoundRobin jobs order
    pub between : server.Between [] last
    pub objects :
        (i : Address) → server.Other i → last.heap i ≡ (if is_listed i jobs then none else w.heap i)

  -- Steps in which nobody has a turn, before the rest
  pub silent-Served :
      {q : List Job} {w v : World}
      → Hands ctx [] w v
      → ((i : Address) → server.Other i → v.heap i ≡ w.heap i)
      → Served q v
      → Served q w
  silent-Served {q} {w} {v} h same r = record {
    order = r.order;
    last = r.last;
    hands = Hands-trans h r.hands;
    schedule = r.schedule;
    between = r.between;
    objects = λ i o. ground (arith, r.objects i o, same i o);
  }

  last_turn :
      (k : Address) (q : List Job) (m : ℕ) (w : World)
      → server.Within ((k, 0) ∷ q) (suc m) w
      → ((v : World) → server.Within q m v → Served q v)
      → Served ((k, 0) ∷ q) w
  last_turn k q m w s next =
      let (v, h, t, same) = server.turn_ends k q m w s in
      let r = next v t in
      record {
        order = k ∷ r.order;
        last = r.last;
        hands = Hands-trans h r.hands;
        schedule = ends r.schedule;
        between = r.between;
        objects = λ i o. ground (arith, r.objects i o, same i o);
      }

  another_turn :
      (k : Address) (n : ℕ) (q : List Job) (m : ℕ) (w : World)
      → server.Within ((k, suc n) ∷ q) (suc m) w
      → ((v : World) → server.Within (q ++ (k, n) ∷ []) m v → Served (q ++ (k, n) ∷ []) v)
      → Served ((k, suc n) ∷ q) w
  another_turn k n q m w s next =
      let (v, h, t, same) = server.turn_yields k n q m w s in
      let r = next v t in
      record {
        order = k ∷ r.order;
        last = r.last;
        hands = Hands-trans h r.hands;
        schedule = yields_again r.schedule;
        between = r.between;
        objects = λ i o. ground (arith, r.objects i o, same i o, is_listed-append i q k n);
      }

  serve_round :
      (fuel m : ℕ) (q : List Job) (w : World)
      → server.Within q m w
      → m ≤ length q
      → work q + work q + (if m == 0 then 1 else 0) ≤ fuel
      → Served q w
  serve_round fuel zero [] w s a b =
      let (v, h, t, same) = server.round_ends [] w s in
      record { order = []; last = v; hands = h; schedule = all_ended; between = t; objects = same }
  serve_round zero zero (j ∷ q) w s a b = absurd (omega arith)
  serve_round (suc fuel) zero (j ∷ q) w s a b =
      let (v, h, t, same) = server.round_ends (j ∷ q) w s in
      let (u, g, x, alike) = server.round_begins j q v t in
      silent-Served h same (
        silent-Served g alike
          (serve_round fuel (suc (length q)) (j ∷ q) u x (omega arith) (ground arith)))
  serve_round fuel (suc m) [] w s a b = absurd (omega arith)
  serve_round zero (suc m) ((k, n) ∷ q) w s a b = absurd (omega arith)
  serve_round (suc fuel) (suc m) ((k, zero) ∷ q) w s a b =
      last_turn k q m w s λ v t. serve_round fuel m q v t (omega arith) (ground arith)
  serve_round (suc fuel) (suc m) ((k, suc n) ∷ q) w s a b = another_turn k n q m w s λ v t.
      serve_round fuel m (q ++ (k, n) ∷ []) v t (omega (arith, length-append q ((k, n) ∷ [])))
        (ground (arith, work-append q k n))

  -- From the beginning of a round
  pub serve_all : (q : List Job) (w : World) → server.Within q (length q) w → Served q w
  serve_all q w s = serve_round (work q + work q + 1) (length q) q w s (omega arith) (ground arith)
