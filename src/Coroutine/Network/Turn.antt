-- ===== src/Coroutine/Network/Turn.antt =====
-- The turn of a process.
use boost_coro.Base.{
  ℕ, ◌≤◌, ◌==◌, ◌≡◌, ◌≢◌, refl, sym, ap, ◌∙◌, inl, inr, Bool-cases, none, some, Outcome, ok, fault,
  List, [], ◌∷◌, ◌++◌, All, All-append, length, length-append, arith,
}
use boost_coro.Coroutine.State.{
  Address, stat_wait, stat_busy, stat_done, Call, Frame, Coroutine, World, store,
}
use boost_coro.Coroutine.Machine.{coro_context}
use boost_coro.Coroutine.RoundRobin.Turn.{
  loop_ends, yield_ends, function_ends, execute_ends, goes_back, destroyed,
}
use boost_coro.Coroutine.Network.{
  Action, Waiting, Process, Stands, Here, Apart, addresses, Network, serving, Leads,
}
use boost_coro.Coroutine.Network.Queue.{addresses_append, Apart-append, All-front, All-last}
use boost_coro.Coroutine.Network.Mail.{Here-kept}
use boost_coro.Coroutine.Network.Steps.{leads, onwards, arrives, going}

module _ (m : ℕ) (cs : List Call) (fs : List Frame) where
  -- What comes of a turn with a queue, or with a fault, as its outcome.
  abbrev pub Meets : Outcome (List Process) → World → Type 0
  Meets (fault x) w = Leads w (fault x)
  Meets (ok q) w = (u : World) × Leads w (ok u) × Network q (serving cs fs m) u × (m ≤ length q)

  pub meets : (w v : World) (o : Outcome (List Process)) → Leads w (ok v) → Meets o v → Meets o w
  meets w v (fault x) e f = onwards w v (fault x) e f
  meets w v (ok q) e (u, f, n, l) = (u, onwards w v (ok u) e f, n, l)

module _ (k m : ℕ) (cs : List Call) (fs : List Frame) where
  -- The process at `k` has the thread, and these frames, mail and messages received.
  pub record Running (gs : List Frame) (mail got : List ℕ) (q : List Process) (w : World)
      : Type 0 where
    pub object : Coroutine
    pub current : w.current ≡ some k
    pub main_context :
        w.main_context ≡ Frame.childs_check none k m ∷ Frame.resume_all ∷ Frame.user cs ∷ fs
    pub main_childs : w.main_childs ≡ addresses q
    pub here : w.heap k ≡ some (going gs object)
    pub messages : object.messages ≡ mail
    pub received : object.received ≡ got
    pub all : All (Here w) q
    pub others : All (λ (p : Process). p.address ≢ k) q
    pub apart : Apart q
    pub only : (i : Address) → i ≢ k → All (λ (p : Process). p.address ≢ i) q → w.heap i ≡ none
    pub left : m ≤ length q

  -- The process goes on, with other frames and messages.
  pub Running-next :
      {gs : List Frame} {mail got : List ℕ} {q : List Process} {w : World} (hs : List Frame)
      (c : Coroutine) (mail' got' : List ℕ)
      → Running gs mail got q w
      → c.messages ≡ mail'
      → c.received ≡ got'
      → Running hs mail' got' q (store k (some (going hs c)) w)
  unfolding store
  Running-next {q = q} {w} hs c mail' got' r a b = record {
    object = c;
    current = r.current;
    main_context = r.main_context;
    main_childs = r.main_childs;
    here = ground arith;
    messages = a;
    received = b;
    all = Here-kept (λ i. i ≢ k) w _ q (λ i o. ground arith) r.others r.all;
    others = r.others;
    apart = r.apart;
    only = λ i o a. ground (arith, r.only i o a);
    left = r.left;
  }

  abbrev still : List Frame
  still = Frame.resume_all ∷ Frame.user cs ∷ fs

  -- The world after the turn of a process that goes back into the queue
  abbrev back : List Frame → Coroutine → World → World
  back gs c w = record (store k (some (record c { stat = stat_wait; context = some gs })) w) {
    current = none;
    main_childs = w.main_childs ++ k ∷ [];
    main_context = Frame.childs_loop none m ∷ still;
  }

  goes_to_back :
      (gs : List Frame) (c : Coroutine) (w : World)
      → w.current ≡ some k
      → w.main_context ≡ Frame.childs_check none k m ∷ still
      → w.heap k ≡ some c
      → c.context ≡ some (Frame.childs_loop (some k) 0 ∷ Frame.yield_tail ∷ gs)
      → c.stat ≡ stat_busy
      → c.pre ≡ none
      → Leads w (ok (back gs c w))
  unfolding store
  goes_to_back gs c w e f h g s p =
      let c1 : Coroutine = record c { context = some (Frame.yield_tail ∷ gs) } in
      let w1 = store k (some c1) w in
      let c2 : Coroutine = record c { stat = stat_wait; context = some gs } in
      let w2 : World = record (store k (some c2) w1) { current = none } in
      let w3 : World = record w2 {
        main_childs = w.main_childs ++ k ∷ [];
        main_context = Frame.childs_loop none m ∷ still;
      } in
      leads w w1 _ (loop_ends k _ c w e h g) (
        leads w1 w2 _ (yield_ends k gs c1 w1 e (ground arith) refl s p) (
          leads w2 w3 _ (goes_back k w.main_childs m still c2 w2 refl f refl (ground arith) refl)
            (arrives _ _ (ground arith))))

  -- The world after the turn of a process that has ended
  abbrev gone : World → World
  gone w = record (store k none w) {
    current = none;
    main_context = Frame.childs_loop none m ∷ still;
  }

  ends_and_goes :
      (c : Coroutine) (w : World)
      → w.current ≡ some k
      → w.main_context ≡ Frame.childs_check none k m ∷ still
      → w.heap k ≡ some (going (Frame.user [] ∷ Frame.execute_tail ∷ []) c)
      → Leads w (ok (gone w))
  unfolding store
  ends_and_goes c w e f h =
      let c1 : Coroutine = going (Frame.execute_tail ∷ []) c in
      let w1 = store k (some c1) w in
      let c2 : Coroutine = record c1 { stat = stat_done; context = some [] } in
      let w2 : World = record (store k (some c2) w1) { current = none } in
      let w3 : World = record (store k none w2) {
        main_context = Frame.childs_loop none m ∷ still;
      } in
      leads w w1 _ (function_ends k _ _ w e h refl) (
        leads w1 w2 _ (execute_ends k [] c1 w1 e (ground arith) refl refl refl refl) (
          leads w2 w3 _ (destroyed k m still c2 w2 refl f (ground arith) refl)
            (arrives _ _ (ground arith))))

  -- A process that yields, with these flags and frames
  abbrev stopping : ℕ → ℕ → List Frame → Coroutine → Coroutine
  stopping ev word hs c = record (going (Frame.childs_loop (some k) 0 ∷ Frame.yield_tail ∷ hs) c) {
    evet = ev;
    msg = word;
  }

  module _ {gs : List Frame} {mail got : List ℕ} {q : List Process} {w : World}
      (r : Running gs mail got q w) where
    -- The process yields where its actions left are `s`.
    pub stops :
        (s : List Action) (x : Waiting) (ev word : ℕ) (hs : List Frame)
        → Stands k s x mail stat_wait ev word hs
        → Leads w (ok (store k (some (stopping ev word hs r.object)) w))
        → Meets m cs fs
            (ok (
              q ++ record { address = k; script = s; waits = x; mail = mail; received = got } ∷ []))
            w
    unfolding store coro_context
    stops s x ev word hs y e =
        let c = stopping ev word hs r.object in
        let p : Process = record {
          address = k;
          script = s;
          waits = x;
          mail = mail;
          received = got;
        } in
        let w1 = store k (some c) w in
        (
          back hs c w1,
          onwards w w1 _ e
              (goes_to_back hs c w1 r.current r.main_context (ground arith) refl refl refl),
          record {
            current = refl;
            main_context = refl;
            main_childs = ap (λ l. l ++ k ∷ []) r.main_childs ∙ sym (addresses_append q p);
            all =
                All-append _ q _ (Here-kept (λ i. i ≢ k) w _ q (λ i o. ground arith) r.others r.all)
                  (
                    record {
                      object = record c { stat = stat_wait; context = some hs };
                      frames = hs;
                      here = ground arith;
                      childs = refl;
                      parent = refl;
                      messages = r.messages;
                      received = r.received;
                      context = refl;
                      stands = y;
                    },
                    tt,
                  );
            apart = Apart-append q p r.others r.apart;
            only = λ i a.
                let o : k ≢ i = All-last _ q p a in
                ground (arith, o, r.only i (λ e. o (sym e)) (All-front _ q _ a));
          },
          omega (arith, length-append q (p ∷ []), r.left),
        )

  pub ends :
      {mail got : List ℕ} {q : List Process} {w : World}
      → Running (Frame.user [] ∷ Frame.execute_tail ∷ []) mail got q w
      → Meets m cs fs (ok q) w
  unfolding store
  ends {q = q} {w} r = (
    gone w,
    ends_and_goes r.object w r.current r.main_context r.here,
    record {
      current = refl;
      main_context = refl;
      main_childs = r.main_childs;
      all = Here-kept (λ i. i ≢ k) w _ q (λ i o. ground arith) r.others r.all;
      apart = r.apart;
      only = λ i a. elim (Bool-cases (i == k)) [
        | inl e ↦ ground (arith, e)
        | inr e ↦ ground (arith, e, r.only i (ground (arith, e)) a)
      ];
    },
    r.left,
  )
