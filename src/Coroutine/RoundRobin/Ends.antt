-- ===== src/Coroutine/RoundRobin/Ends.antt =====
-- `resume(0)` of the main context returns, after a round robin of its children.
use boost_coro.Base.{
  ℕ, suc, ◌≡◌, refl, ap, Bool, true, false, if◌then◌else◌, none, ok, List, [], ◌∷◌, map, length,
  arith,
}
use boost_coro.Coroutine.State.{Address, Call, Frame, World, store}
use boost_coro.Coroutine.Machine.{step, steps}
use boost_coro.Coroutine.RoundRobin.{Job, is_listed, RoundRobin, all_ended, Serving, handed}
use boost_coro.Coroutine.RoundRobin.Hands.{count_steps, silent_end, ending}
use boost_coro.Coroutine.RoundRobin.Loop.{Server, Served, silent-Served, serve_all}
use boost_coro.Coroutine.RoundRobin.Turn.{turn_yields, turn_ends}
use boost_coro.Coroutine.RoundRobin.Queue.{framed, framed-Serving, yielded-Serving, ended-Serving}

round_ends :
    (fs : List Frame) (w : World)
    → w.current ≡ none
    → w.main_context ≡ Frame.childs_loop none 0 ∷ fs
    → step w ≡ ok (framed fs w)
unfolding step
round_ends fs w e f = rw (e, f) refl

length-keys : (q : List Job) → length (map (λ (j : Job). j.0) q) ≡ length q
length-keys [] = refl
length-keys (j ∷ q) = ap suc (length-keys q)

-- `resume(0)` as the client calls it, and as it goes on after a round.
abbrev resumes : Bool → List Call → List Frame → List Frame
resumes true cs fs = Frame.user (Call.resume none ∷ cs) ∷ fs
resumes false cs fs = Frame.resume_all ∷ Frame.user cs ∷ fs

round_begins :
    (first : Bool) (j : Job) (q : List Job) (cs : List Call) (fs : List Frame) (w : World)
    → Serving (j ∷ q) (resumes first cs fs) w
    → step w
      ≡ ok (
          framed
            (Frame.childs_loop none (suc (length q)) ∷ Frame.resume_all ∷ Frame.user cs ∷ fs)
            w)
unfolding step
round_begins true j q cs fs w s =
    rw (s.current, s.main_context, s.main_childs) (ground (arith, length-keys q))
round_begins false j q cs fs w s =
    rw (s.current, s.main_context, s.main_childs) (ground (arith, length-keys q))

resume_all_ends :
    (first : Bool) (cs : List Call) (fs : List Frame) (w : World)
    → Serving [] (resumes first cs fs) w
    → step w ≡ ok (framed (Frame.user cs ∷ fs) w)
unfolding step
resume_all_ends true cs fs w s = rw (s.current, s.main_context, s.main_childs) (ground arith)
resume_all_ends false cs fs w s = rw (s.current, s.main_context, s.main_childs) (ground arith)

module _ (cs : List Call) (fs : List Frame) where
  abbrev still : List Frame
  still = Frame.resume_all ∷ Frame.user cs ∷ fs

  main_server : Server none
  unfolding store
  main_server = record {
    Within = λ q m w. Serving q (Frame.childs_loop none m ∷ still) w;
    Between = λ q w. Serving q still w;
    Other = λ i. Unit {0};
    turn_ends = λ k q m w s.
        let c = s.waits.0 in
        (
          _,
          turn_ends k _ m still c.object w s.current s.main_context s.main_childs c.here c.rests,
          ended-Serving k q m still w s,
          λ i o. refl,
        );
    turn_yields = λ k n q m w s.
        let c = s.waits.0 in
        (
          _,
          turn_yields k _ m still c.object w s.current s.main_context s.main_childs c.here n
              c.rests,
          yielded-Serving k q m still w n c.object s c.here c.rests,
          λ i o e. ground arith,
        );
    round_ends = λ q w s. (
      framed still w,
      ending (round_ends still w s.current s.main_context) (rw s.current refl) refl,
      framed-Serving still s,
      λ i o. refl,
    );
    round_begins = λ j q w s. (
      _,
      ending (round_begins false j q cs fs w s) (rw s.current refl) refl,
      framed-Serving (Frame.childs_loop none (suc (length q)) ∷ still) s,
      λ i o. refl,
    );
  }

serve_childs :
    (j : Job) (q : List Job) (cs : List Call) (fs : List Frame) (w : World)
    → Serving (j ∷ q) (Frame.user (Call.resume none ∷ cs) ∷ fs) w
    → Served (main_server cs fs) (j ∷ q) w
unfolding main_server
serve_childs j q cs fs w s =
    let starts = ending (round_begins true j q cs fs w s) (rw s.current refl) refl in
    silent-Served (main_server cs fs) starts (λ i o. refl)
      (serve_all (main_server cs fs) (j ∷ q) _ (framed-Serving _ s))

-- If the main context calls `resume(0)`, and its children, no two of them the same, only yield and wait
-- for nothing, each as often as its job says, then the call returns after some number of steps. In these
-- the main context hands the thread to the children in the order of a round robin. Then no child is
-- left in its list, every child is destroyed, and every other object is as it was.
pub resume_all-RoundRobin :
    (jobs : List Job) (cs : List Call) (fs : List Frame) (w : World)
    → Serving jobs (Frame.user (Call.resume none ∷ cs) ∷ fs) w
    → (n : ℕ) × (u : World) × (order : List Address) × (steps n w ≡ ok u)
      × (handed none n w ≡ ok order)
      × RoundRobin jobs order
      × (u.current ≡ none)
      × (u.main_context ≡ Frame.user cs ∷ fs)
      × (u.main_childs ≡ [])
      × ((i : Address) → u.heap i ≡ (if is_listed i jobs then none else w.heap i))
unfolding main_server
resume_all-RoundRobin [] cs fs w s =
    let run = ending (resume_all_ends true cs fs w s) (rw s.current refl) refl in
    let (n, e, f) = count_steps run in
    (
      n,
      framed (Frame.user cs ∷ fs) w,
      [],
      e,
      f,
      all_ended,
      s.current,
      refl,
      s.main_childs,
      λ i. refl,
    )
resume_all-RoundRobin (j ∷ q) cs fs w s =
    let r = serve_childs j q cs fs w s in
    let stops =
      ending (resume_all_ends false cs fs r.last r.between) (rw r.between.current refl) refl in
    let (n, e, f) = count_steps (silent_end r.hands stops) in
    (
      n,
      framed (Frame.user cs ∷ fs) r.last,
      r.order,
      e,
      f,
      r.schedule,
      r.between.current,
      refl,
      r.between.main_childs,
      λ i. r.objects i tt,
    )
