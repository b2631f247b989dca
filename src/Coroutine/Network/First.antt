-- ===== src/Coroutine/Network/First.antt =====
-- The first of the queue gets its turn from `resume(0)`.
use boost_coro.Base.{
  ℕ, suc, ◌≤◌, ◌≡◌, ◌≢◌, refl, sym, ap, ◌⊎◌, inl, inr, none, some, ok, List, [], ◌∷◌, ◌++◌,
  All-append, length, length-append, arith,
}
use boost_coro.Coroutine.State.{
  Address, stat_init, stat_wait, Call, Frame, Coroutine, World, deref, store, modify,
}
use boost_coro.Coroutine.Flags.{chk}
use boost_coro.Coroutine.Machine.{coro_context, step}
use boost_coro.Coroutine.RoundRobin.Turn.{goes_back}
use boost_coro.Coroutine.Network.{
  Action, receive, Process, run, turn, Stands, in_front, nothing, message, event, Waiting, turn_of,
  awaiting, blocked, woken, addresses, Network, serving,
}
use boost_coro.Coroutine.Network.Queue.{addresses_append, Apart-append, All-front, All-last}
use boost_coro.Coroutine.Network.Mail.{Here-at, Here-kept}
use boost_coro.Coroutine.Network.Steps.{leads, one_step, going, woken_takes}
use boost_coro.Coroutine.Network.Turn.{Running, Running-next, Meets, meets}
use boost_coro.Coroutine.Network.Run.{at, run-Meets}

-- The flags of a coroutine that waits for a message or for an event
abbrev pub Held : ℕ → ℕ → Type 0
Held v x = ((v ≡ 0) × (x ≡ 1)) ⊎ ((v ≡ 1) × (x ≡ 0))

module _ (cs : List Call) (fs : List Frame) where
  abbrev still : List Frame
  still = Frame.resume_all ∷ Frame.user cs ∷ fs

  module _ (k m : ℕ) (ks : List Address) (c : Coroutine) (w : World) (e : w.current ≡ none)
      (f : w.main_context ≡ Frame.childs_loop none (suc m) ∷ still) (g : w.main_childs ≡ k ∷ ks)
      (h : w.heap k ≡ some c) where
    -- The first child gets the thread, or it is passed over.
    abbrev given : List Frame → World
    given gs = store k (some (going gs c)) (record w {
      current = some k;
      main_childs = ks;
      main_context = Frame.childs_check none k m ∷ still;
    })

    gives :
        (gs : List Frame)
        → (c.stat ≡ stat_init) ⊎ (c.stat ≡ stat_wait)
        → c.evet ≡ 0
        → c.msg ≡ 0
        → c.childs ≡ []
        → c.parent ≡ none
        → coro_context c ≡ some gs
        → step w ≡ ok (given gs)
    unfolding step deref modify store chk
    gives gs s v x l p t = rw (e, f, g, h) (ground (arith, s, v, x, l, p, t))

    abbrev passed : World
    passed = record w { main_childs = ks; main_context = Frame.childs_check none k m ∷ still }

    passes : c.stat ≡ stat_wait → Held c.evet c.msg → step w ≡ ok passed
    unfolding step deref modify store chk
    passes s (inl (v, x)) = rw (e, f, g, h) (ground (arith, s, v, x))
    passes s (inr (v, x)) = rw (e, f, g, h) (ground (arith, s, v, x))

  module _ (s : List Action) (x : Waiting) (mail got : List ℕ) (k m : ℕ) (q : List Process)
      (w : World) where
    abbrev first : Process
    first = record { address = k; script = s; waits = x; mail = mail; received = got }

    module _ (n : Network (first ∷ q) (serving cs fs (suc m)) w) (left : m ≤ length q) where
      given-Running :
          (gs : List Frame)
          → Running k m cs fs gs mail got q (
              given k m
                (addresses q)
                n.all.0.object
                w
                n.current
                n.main_context
                n.main_childs
                n.all.0.here
                gs)
      unfolding store
      given-Running gs =
          let b = n.all.0 in
          record {
            object = b.object;
            current = refl;
            main_context = refl;
            main_childs = refl;
            here = ground arith;
            messages = b.messages;
            received = b.received;
            all = Here-kept (λ i. i ≢ k) w _ q (λ i o. ground arith) n.apart.0 n.all.1;
            others = n.apart.0;
            apart = n.apart.1;
            only = λ i o a. ground (arith, n.only i ((λ e. o (sym e)), a));
            left = left;
          }

      abbrev rotated : World
      rotated = record w {
        main_childs = addresses q ++ k ∷ [];
        main_context = Frame.childs_loop none m ∷ still;
      }

      rotated-Network : Network (q ++ first ∷ []) (serving cs fs m) rotated
      rotated-Network = record {
        current = n.current;
        main_context = refl;
        main_childs = sym (addresses_append q first);
        all =
            All-append _ q _ (Here-kept (λ i. i ≢ k) w _ q (λ i o. refl) n.apart.0 n.all.1)
              (Here-at _ n.all.0 refl, tt);
        apart = Apart-append q first n.apart.0 n.apart.1;
        only = λ i a. n.only i (All-last _ q first a, All-front _ q _ a);
      }

  passed_over :
      (s : List Action) (x : Waiting) (mail got : List ℕ) (k m : ℕ) (q : List Process) (w : World)
      (n : Network (first s x mail got k m q w ∷ q) (serving cs fs (suc m)) w)
      → m ≤ length q
      → n.all.0.object.stat ≡ stat_wait
      → Held n.all.0.object.evet n.all.0.object.msg
      → Meets m cs fs (ok (q ++ first s x mail got k m q w ∷ [])) w
  passed_over s x mail got k m q w n left e f =
      let b = n.all.0 in
      let w1 = passed k m (addresses q) b.object w n.current n.main_context n.main_childs b.here in
      (
        rotated s x mail got k m q w n left,
        leads w w1 _
            (passes k m (addresses q) b.object w n.current n.main_context n.main_childs b.here e f)
            (one_step w1 _
              (goes_back k (addresses q) m still b.object w1 n.current refl refl b.here e)),
        rotated-Network s x mail got k m q w n left,
        omega (arith, length-append q (first s x mail got k m q w ∷ []), left),
      )

  starts :
      (s : List Action) (x : Waiting) (mail got : List ℕ) (k m : ℕ) (q : List Process) (w : World)
      (n : Network (first s x mail got k m q w ∷ q) (serving cs fs (suc m)) w)
      → m ≤ length q
      → (stat ev word : ℕ) (gs : List Frame) → Stands k s x mail stat ev word gs
      → n.all.0.object.stat ≡ stat
      → n.all.0.object.evet ≡ ev
      → n.all.0.object.msg ≡ word
      → coro_context n.all.0.object ≡ some gs
      → Meets m cs fs (turn_of x (first s x mail got k m q w) q) w
  unfolding turn_of run given-Running
  starts s _ mail got k m q w n left _ _ _ _ (in_front a) e v f g =
      let b = n.all.0 in
      let h =
        gives k m (addresses q) b.object w n.current n.main_context n.main_childs b.here (at k s)
          (ground (arith, a, e)) v f b.childs b.parent g in
      meets m cs fs w _ _ (one_step w _ h) (
        run-Meets k m cs fs s mail got q _
          (given-Running s nothing mail got k m q w n left (at k s)))
  starts (receive ∷ s) _ [] got k m q w n left _ _ _ _ blocked e v f g =
      passed_over (receive ∷ s) message [] got k m q w n left e (inl (v, f))
  starts (receive ∷ s) _ (i ∷ mail) got k m q w n left _ _ _ _ woken e v f g =
      let b = n.all.0 in
      let gs = Frame.mget_loop ∷ at k s in
      let h =
        gives k m (addresses q) b.object w n.current n.main_context n.main_childs b.here gs (inr e)
          v f b.childs b.parent g in
      let r = given-Running (receive ∷ s) message (i ∷ mail) got k m q w n left gs in
      let c : Coroutine = record b.object { messages = mail; received = i ∷ b.object.received } in
      meets m cs fs w _ _
        (leads w _ _ h
          (one_step _ _ (woken_takes k (at k s) b.object _ r.current i mail r.here r.messages)))
        (run-Meets k m cs fs s mail (i ∷ got) q _
          (Running-next k m cs fs (at k s) c mail (i ∷ got) r refl (ap (λ l. i ∷ l) r.received)))
  starts s _ mail got k m q w n left _ _ _ _ awaiting e v f g =
      passed_over s event mail got k m q w n left e (inr (v, f))

  pub turn-Meets :
      (p : Process) (q : List Process) (m : ℕ) (w : World)
      → Network (p ∷ q) (serving cs fs (suc m)) w
      → m ≤ length q
      → Meets m cs fs (turn (p ∷ q)) w
  unfolding turn
  turn-Meets p q m w n left =
      let b = n.all.0 in
      starts p.script p.waits p.mail p.received p.address m q w n left b.object.stat b.object.evet
        b.object.msg b.frames b.stands refl refl refl b.context
