-- ===== src/Coroutine/RoundRobin/Children.antt =====
-- The end of `execute` returns, after a round robin of the coroutine's children.
use boost_coro.Base.{
  ℕ, suc, ◌≡◌, ◌≢◌, refl, ◌∙◌, ap, Bool, true, false, if◌then◌else◌, none, some, ok, List, [], ◌∷◌,
  ◌++◌, All, All-append, map, length, arith,
}
use boost_coro.Coroutine.State.{Address, stat_done, Frame, Coroutine, World, deref, store, modify}
use boost_coro.Coroutine.Flags.{chk, clear, flag_del}
use boost_coro.Coroutine.Machine.{step, steps}
use boost_coro.Coroutine.RoundRobin.{
  yields, Resting, Job, Waits, Apart, is_listed, RoundRobin, all_ended, handed,
}
use boost_coro.Coroutine.RoundRobin.Hands.{count_steps, silent_end, ending}
use boost_coro.Coroutine.RoundRobin.Loop.{Server, Served, silent-Served, serve_all}
use boost_coro.Coroutine.RoundRobin.Queue.{
  keys-append, Apart-append, All-both, Waits-kept, yielded-Resting,
}
use boost_coro.Coroutine.RoundRobin.Turn.{loop_ends}
use boost_coro.Coroutine.RoundRobin.Nested.{running, yielded, turned, turn_yields, turn_ends}

-- The coroutine `p` has the thread and the frames `fs`, waits for nothing, and its children are those of
-- the jobs. It is `d` in all that `running` does not say.
pub record Parent (p : Address) (d : Coroutine) (jobs : List Job) (fs : List Frame) (w : World)
    : Type 0 where
  pub current : w.current ≡ some p
  pub here : w.heap p ≡ some (running (map (λ (j : Job). j.0) jobs) fs d)
  pub waits : All (Waits w) jobs
  pub apart : Apart jobs
  pub others : All (λ (j : Job). j.0 ≢ p) jobs

module _ (p : Address) (d : Coroutine) where
  length-keys : (q : List Job) → length (map (λ (j : Job). j.0) q) ≡ length q
  length-keys [] = refl
  length-keys (j ∷ q) = ap suc (length-keys q)

  -- `execute` after the function, and after a round.
  abbrev executes : Bool → List Frame → List Frame
  executes true fs = Frame.execute_tail ∷ fs
  executes false fs = Frame.execute_loop ∷ fs

  abbrev reframed : List Job → List Frame → World → World
  reframed q fs w = store p (some (running (map (λ (j : Job). j.0) q) fs d)) w

  round_begins :
      (first : Bool) (j : Job) (q : List Job) (fs : List Frame) (w : World)
      → Parent p d (j ∷ q) (executes first fs) w
      → step w
        ≡ ok (
            reframed
              (j ∷ q)
              (Frame.childs_loop (some p) (suc (length q)) ∷ Frame.execute_loop ∷ fs)
              w)
  unfolding step deref modify store flag_del chk clear
  round_begins true j q fs w s = rw (s.current, s.here) (ground (arith, length-keys q))
  round_begins false j q fs w s = rw (s.current, s.here) (ground (arith, length-keys q))

  abbrev ended : List Frame → World → World
  ended fs w = record (store p (some (record (running [] fs d) { stat = stat_done })) w) {
    current = none;
  }

  execute_ends :
      (first : Bool) (fs : List Frame) (w : World)
      → Parent p d [] (executes first fs) w
      → d.pre ≡ none
      → step w ≡ ok (ended fs w)
  unfolding step deref modify store
  execute_ends true fs w s e = rw (s.current, s.here) (ground arith)
  execute_ends false fs w s e = rw (s.current, s.here) (ground arith)

  ended_here :
      (fs : List Frame) (w : World)
      → (ended fs w).heap p ≡ some (record (running [] fs d) { stat = stat_done })
  unfolding store
  ended_here fs w = ground arith

  ended_other : (fs : List Frame) (w : World) (i : Address) → i ≢ p → (ended fs w).heap i ≡ w.heap i
  unfolding store
  ended_other fs w i o = ground arith

  reframed-Parent :
      {q : List Job} {gs : List Frame} {w : World} (fs : List Frame)
      → Parent p d q gs w
      → Parent p d q fs (reframed q fs w)
  unfolding store
  reframed-Parent {q} {gs} {w} fs s = record {
    current = s.current;
    here = ground arith;
    waits = Waits-kept (λ i. i ≢ p) w (reframed q fs w) q (λ i e. ground arith) s.others s.waits;
    apart = s.apart;
    others = s.others;
  }

  module _ (k : Address) (q : List Job) (fs gs : List Frame) (w : World) where
    yielded-Parent :
        (n : ℕ) (c : Coroutine)
        → Parent p d ((k, suc n) ∷ q) gs w
        → Resting (suc n) c
        → Parent p d (q ++ (k, n) ∷ []) fs (
            turned p
              (running (map (λ (j : Job). j.0) q ++ k ∷ []) fs d)
              k
              (some (yielded p (yields n) c))
              w)
    unfolding store
    yielded-Parent n c s r =
        let apart : k ≢ p = s.others.0 in
        record {
          current = refl;
          here = rw (keys-append q k n) (ground arith);
          waits =
              All-append _ q _
                (Waits-kept (λ i. (i ≢ k) × (i ≢ p)) w _ q (λ i e. ground arith)
                  (All-both _ _ q s.apart.0 s.others.1) s.waits.1)
                (
                  record {
                    object = yielded p (yields n) c;
                    here = ground arith;
                    rests = yielded-Resting n (some p) c r;
                  },
                  tt,
                );
          apart = Apart-append q k n s.apart.0 s.apart.1;
          others = All-append _ q _ s.others.1 (apart, tt);
        }

    ended-Parent :
        Parent p d ((k, 0) ∷ q) gs w
        → Parent p d q fs (turned p (running (map (λ (j : Job). j.0) q) fs d) k none w)
    unfolding store
    ended-Parent s = record {
      current = refl;
      here = ground arith;
      waits =
          Waits-kept (λ i. (i ≢ k) × (i ≢ p)) w _ q (λ i e. ground arith)
            (All-both _ _ q s.apart.0 s.others.1) s.waits.1;
      apart = s.apart.1;
      others = s.others.1;
    }

  module _ (fs : List Frame) where
    children_server : Server (some p)
    unfolding store
    children_server = record {
      Within = λ q m w. Parent p d q (Frame.childs_loop (some p) m ∷ Frame.execute_loop ∷ fs) w;
      Between = λ q w. Parent p d q (Frame.execute_loop ∷ fs) w;
      Other = λ i. i ≢ p;
      turn_ends = λ k q m w s.
          let c = s.waits.0 in
          (
            _,
            turn_ends p k _ m _ c.object d w s.current s.here c.here s.others.0 c.rests,
            ended-Parent k q _ _ w s,
            λ i o. ground arith,
          );
      turn_yields = λ k n q m w s.
          let c = s.waits.0 in
          (
            _,
            turn_yields p k _ m _ c.object d w s.current s.here c.here s.others.0 n c.rests,
            yielded-Parent k q _ _ w n c.object s c.rests,
            λ i o e. ground arith,
          );
      round_ends = λ q w s. (
        reframed q (Frame.execute_loop ∷ fs) w,
        ending (loop_ends p _ _ w s.current s.here refl) (rw s.current (ground arith)) refl,
        reframed-Parent _ s,
        λ i o. ground arith,
      );
      round_begins = λ j q w s. (
        _,
        ending (round_begins false j q fs w s) (rw s.current (ground arith)) refl,
        reframed-Parent _ s,
        λ i o. ground arith,
      );
    }

serve_childs :
    (p : Address) (d : Coroutine) (j : Job) (q : List Job) (fs : List Frame) (w : World)
    → Parent p d (j ∷ q) (Frame.execute_tail ∷ fs) w
    → Served (children_server p d fs) (j ∷ q) w
unfolding children_server store
serve_childs p d j q fs w s =
    let gs = Frame.childs_loop (some p) (suc (length q)) ∷ Frame.execute_loop ∷ fs in
    let same : (i : Address) → i ≢ p → (reframed p d (j ∷ q) gs w).heap i ≡ w.heap i =
      λ i o. ground arith in
    let starts = ending (round_begins p d true j q fs w s) (rw s.current (ground arith)) refl in
    silent-Served (children_server p d fs) starts same (
      serve_all (children_server p d fs) (j ∷ q) (reframed p d (j ∷ q) gs w)
        (reframed-Parent p d gs s))

-- If the function of a coroutine has returned that the main context had resumed, and its children, no two
-- of them the same and none of them itself, only yield and wait for nothing, each as often as its job
-- says, then the end of `execute` gives the thread back to the main context after some number of steps.
-- In these the coroutine hands the thread to its children in the order of a round robin. Then it is DONE
-- and has no child left, every child is destroyed, and every other object is as it was.
pub execute-RoundRobin :
    (p : Address) (d : Coroutine) (jobs : List Job) (fs : List Frame) (w : World)
    → Parent p d jobs (Frame.execute_tail ∷ fs) w
    → d.pre ≡ none
    → (n : ℕ) × (u : World) × (order : List Address) × (steps n w ≡ ok u)
      × (handed (some p) n w ≡ ok order)
      × RoundRobin jobs order
      × (u.current ≡ none)
      × (u.heap p ≡ some (record (running [] fs d) { stat = stat_done }))
      × ((i : Address) → i ≢ p → u.heap i ≡ (if is_listed i jobs then none else w.heap i))
unfolding children_server
execute-RoundRobin p d [] fs w s e =
    let run = ending (execute_ends p d true fs w s e) (rw s.current refl) refl in
    let (n, f, g) = count_steps run in
    (
      n,
      ended p d fs w,
      [],
      f,
      g,
      all_ended,
      refl,
      ended_here p d fs w,
      λ i o. ended_other p d fs w i o,
    )
execute-RoundRobin p d (j ∷ q) fs w s e =
    let r = serve_childs p d j q fs w s in
    let stops =
      ending (execute_ends p d false fs r.last r.between e) (rw r.between.current refl) refl in
    let (n, f, g) = count_steps (silent_end r.hands stops) in
    (
      n,
      ended p d fs r.last,
      r.order,
      f,
      g,
      r.schedule,
      refl,
      ended_here p d fs r.last,
      λ i o. ended_other p d fs r.last i o ∙ r.objects i o,
    )
