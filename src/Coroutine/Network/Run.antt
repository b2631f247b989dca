-- ===== src/Coroutine/Network/Run.antt =====
-- A process runs as the network says, whatever its actions are.
use boost_coro.Base.{
  ℕ, ◌==◌, ◌≡◌, ◌≢◌, refl, sym, ap, ◌∙◌, inl, inr, Bool-cases, ==_iff, subst, none, some, ok, fault,
  dangling, ◌⊎◌, ◌>>=◌, List, [], ◌∷◌, ◌++◌, All, length, arith,
}
use boost_coro.Coroutine.State.{Channel, Address, evet_wait, Call, Frame, Coroutine, World, store}
use boost_coro.Coroutine.Machine.{step}
use boost_coro.Coroutine.Network.{
  Action, give_way, receive, send, Process, update, given, released, nothing, message, event, await,
  fire, awaiting, run, calls_of, in_front, blocked, Here, addresses,
}
use boost_coro.Coroutine.Network.Queue.{All-same, Apart-same, length-addresses}
use boost_coro.Coroutine.Network.Mail.{
  with_mail, Comes, changed, nobody, mail-Change, event-Change, with_event, change-Comes,
}
use boost_coro.Coroutine.Network.Steps.{
  leads, arrives, one_fault, one_step, going, send_self, send_other, send_nobody, sets_wait,
  waits_yield, fire_self, fire_other, fire_nobody, receive_some, receive_none, gives_way,
}
use boost_coro.Coroutine.Network.Turn.{Running, Running-next, Meets, meets, stops, ends}

abbrev pub tail : List Frame
tail = Frame.execute_tail ∷ []

abbrev pub at : Address → List Action → List Frame
at k s = Frame.user (calls_of k s) ∷ tail

module _ (k m : ℕ) (cs : List Call) (fs : List Frame) where
  -- After a message to another process
  abbrev sent : List Action → Coroutine → World → World
  sent s c w = store k (some (going (at k s) c)) w

  changed-Running :
      (s : List Action) (j : Address) (mail got : List ℕ) (l q : List Process) (c d d' : Coroutine)
      (w : World)
      → Running k m cs fs (at k s) mail got q (sent s c w)
      → w.heap j ≡ some d
      → k ≢ j
      → addresses l ≡ addresses q
      → All (Here (store j (some d') (sent s c w))) l
      → Running k m cs fs (at k s) mail got l (store j (some d') (sent s c w))
  unfolding store
  changed-Running s j mail got l q c d d' w r h apart e a = record {
    object = r.object;
    current = r.current;
    main_context = r.main_context;
    main_childs = r.main_childs ∙ sym e;
    here = ground (arith, r.here);
    messages = r.messages;
    received = r.received;
    all = a;
    others = All-same (λ i. i ≢ k) l q e r.others;
    apart = Apart-same l q e r.apart;
    only =
        λ i o b. let b' = All-same (λ x. x ≢ i) q l (sym e) b in ground (arith, r.only i o b', h);
    left = omega (arith, r.left, ap length e, length-addresses l, length-addresses q);
  }

  -- What the rest of the turn comes to
  abbrev Rest : List Action → List ℕ → List ℕ → List Process → Type 0
  Rest s mail got q =
      (w : World) → Running k m cs fs (at k s) mail got q w → Meets m cs fs (run k s mail got q) w

  -- The process at `k` does something to another one.
  changes_on :
      (f : Process → Process) (g : Coroutine → Coroutine) (b : Action) (s : List Action)
      (j : Address) (mail got : List ℕ) (q : List Process) (w : World)
      (r : Running k m cs fs (at k (b ∷ s)) mail got q w)
      → k ≢ j
      → Comes f g j q (sent s r.object w)
      → ((d : Coroutine)
          → w.heap j ≡ some d
          → d.parent ≡ none
          → (d.evet ≡ 0) ⊎ (d.evet ≡ 1)
          → (d.msg ≡ 0) ⊎ (d.msg ≡ 1)
          → step w ≡ ok (store j (some (g d)) (sent s r.object w)))
      → (w.heap j ≡ none → step w ≡ fault dangling)
      → ((l : List Process) → Rest s mail got l)
      → Meets m cs fs (update f j q >>= run k s mail got) w
  unfolding store
  changes_on f g b s j mail got q w r o (changed l d e h p x y t a) does fails next =
      let there : w.heap j ≡ some d = ground (arith, h) in
      let r' = Running-next k m cs fs (at k s) r.object mail got r r.messages r.received in
      rw e (
        meets m cs fs w _ _ (one_step w _ (does d there p x y))
          (next l _ (changed-Running s j mail got l q r.object d (g d) w r' there o t a)))
  changes_on f g b s j mail got q w r o (nobody e a) does fails next =
      rw e (one_fault w _ (fails (r.only j (ground (arith, o)) a)))

  pub run-Meets : (s : List Action) (mail got : List ℕ) (q : List Process) → Rest s mail got q
  unfolding run store
  run-Meets [] mail got q w r = ends k m cs fs r
  run-Meets (give_way ∷ s) mail got q w r =
      stops k m cs fs r s nothing 0 0 _ (in_front (inr refl))
        (one_step w _ (gives_way k _ r.object w r.current _ r.here))
  run-Meets (receive ∷ s) [] got q w r =
      stops k m cs fs r (receive ∷ s) message 0 1 _ blocked
        (one_step w _ (receive_none k _ r.object w r.current _ r.here r.messages))
  run-Meets (receive ∷ s) (n ∷ mail) got q w r =
      let c : Coroutine = record r.object { messages = mail; received = n ∷ r.object.received } in
      meets m cs fs w (store k (some (going (at k s) c)) w) _
        (one_step w _ (receive_some k tail r.object w r.current n mail _ r.here r.messages))
        (run-Meets s mail (n ∷ got) q _
          (Running-next k m cs fs (at k s) c mail (n ∷ got) r refl (ap (λ l. n ∷ l) r.received)))
  run-Meets (send j n ∷ s) mail got q w r = elim (Bool-cases (k == j)) [
    | inl e ↦
        let c : Coroutine = record r.object { messages = r.object.messages ++ n ∷ [] } in
        let to_itself : w.heap k
            ≡ some (going (Frame.user (Call.mput k n ∷ calls_of k s) ∷ tail) r.object) =
          subst
            (λ i.
              w.heap k ≡ some (going (Frame.user (Call.mput i n ∷ calls_of k s) ∷ tail) r.object))
            (sym ((==_iff k j).0 e)) r.here in
        rw e (
          meets m cs fs w (store k (some (going (at k s) c)) w) _
            (one_step w _ (send_self k tail r.object w r.current n _ to_itself))
            (run-Meets s (mail ++ n ∷ []) got q _ (
              Running-next k m cs fs (at k s) c (mail ++ n ∷ []) got r
                (ap (λ l. l ++ n ∷ []) r.messages) r.received)))
    | inr e ↦
        let r' = Running-next k m cs fs (at k s) r.object mail got r r.messages r.received in
        let o : j ≢ k = ground (arith, e) in
        rw e (
          changes_on (given n) (with_mail n) (send j n) s j mail got q w r (ground (arith, o))
            (change-Comes (given n) (with_mail n) (mail-Change n) j q _ r'.all r.apart)
            (λ d h p x y. send_other k tail r.object w r.current j n _ d r.here o h p y)
            (λ h. send_nobody k tail r.object w r.current j n _ r.here o h)
            λ l. run-Meets s mail got l)
  ]
  run-Meets (fire j ∷ s) mail got q w r = elim (Bool-cases (k == j)) [
    | inl e ↦
        let to_itself : w.heap k
            ≡ some (
                going (Frame.user (Call.flag_del Channel.evet k evet_wait ∷ calls_of k s) ∷ tail)
                  r.object) =
          subst
            (λ i.
              w.heap k
              ≡ some (
                  going (Frame.user (Call.flag_del Channel.evet i evet_wait ∷ calls_of k s) ∷ tail)
                    r.object))
            (sym ((==_iff k j).0 e)) r.here in
        rw e (
          meets m cs fs w (sent s r.object w) _
            (one_step w _ (fire_self k tail r.object w r.current _ to_itself))
            (run-Meets s mail got q _
              (Running-next k m cs fs (at k s) r.object mail got r r.messages r.received)))
    | inr e ↦
        let r' = Running-next k m cs fs (at k s) r.object mail got r r.messages r.received in
        let o : j ≢ k = ground (arith, e) in
        rw e (
          changes_on released with_event (fire j) s j mail got q w r (ground (arith, o))
            (change-Comes released with_event event-Change j q _ r'.all r.apart)
            (λ d h p x y. fire_other k tail r.object w r.current j _ d r.here o h p x)
            (λ h. fire_nobody k tail r.object w r.current j _ r.here o h)
            λ l. run-Meets s mail got l)
  ]
  run-Meets (await ∷ s) mail got q w r =
      let c1 : Coroutine = record (going (Frame.user (Call.yield ∷ calls_of k s) ∷ tail) r.object) {
        evet = evet_wait;
      } in
      let w1 = store k (some c1) w in
      stops k m cs fs r s event 1 0 _ awaiting (
        leads w w1 _ (sets_wait k tail r.object w r.current _ r.here) (
          leads w1 _ _ (waits_yield k tail r.object w1 r.current (calls_of k s) (ground arith))
            (arrives _ _ (ground arith))))
