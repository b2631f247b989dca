-- ===== src/Coroutine/RoundRobin/Nested.antt =====
-- One turn of a child of a coroutine that is at the end of `execute`.
use boost_coro.Base.{ℕ, suc, ◌≡◌, ◌≢◌, Option, none, some, ok, List, [], ◌∷◌, ◌++◌, refl, arith}
use boost_coro.Coroutine.State.{
  Address, stat_wait, stat_busy, stat_done, Call, Frame, Coroutine, World, deref, store, modify,
}
use boost_coro.Coroutine.Flags.{chk}
use boost_coro.Coroutine.Machine.{coro_context, step}
use boost_coro.Coroutine.RoundRobin.{yields, Resting, entered_by}
use boost_coro.Coroutine.RoundRobin.Hands.{Hands, silent, handing, ending}
use boost_coro.Coroutine.RoundRobin.Turn.{context_of, yield_begins, loop_ends, function_ends}

-- A parent that runs, with nothing to wait for.
abbrev pub running : List Address → List Frame → Coroutine → Coroutine
running l fs d = record d { stat = stat_busy; evet = 0; msg = 0; context = some fs; childs = l }

give :
    (p k : Address) (ks : List Address) (m n : ℕ) (fs : List Frame) (c d : Coroutine) (w : World)
    → w.current ≡ some p
    → w.heap p ≡ some (running (k ∷ ks) (Frame.childs_loop (some p) (suc m) ∷ fs) d)
    → w.heap k ≡ some c
    → k ≢ p
    → Resting n c
    → step w
      ≡ ok
          (record (store p
            (some
              (record (running ks (Frame.childs_check (some p) k m ∷ fs) d) { stat = stat_wait }))
            (store k
              (some (record c { stat = stat_busy; pre = some p; context = coro_context c }))
              w)) { current = some k })
unfolding step deref modify store chk
give p k ks m n fs c d w e f h apart r = rw (e, f) (ground (arith, r.stat, r.evet, r.msg))

goes_back :
    (p k : Address) (ks : List Address) (m : ℕ) (fs : List Frame) (c d : Coroutine) (w : World)
    → w.current ≡ some p
    → w.heap p ≡ some (running ks (Frame.childs_check (some p) k m ∷ fs) d)
    → w.heap k ≡ some c
    → k ≢ p
    → c.stat ≡ stat_wait
    → step w ≡ ok (store p (some (running (ks ++ k ∷ []) (Frame.childs_loop (some p) m ∷ fs) d)) w)
unfolding step deref modify store
goes_back p k ks m fs c d w e f h apart s = rw (e, f) (ground arith)

yield_ends :
    (p k : Address) (fs : List Frame) (c d : Coroutine) (w : World)
    → w.current ≡ some k
    → w.heap k ≡ some c
    → w.heap p ≡ some d
    → k ≢ p
    → c.context ≡ some (Frame.yield_tail ∷ fs)
    → c.stat ≡ stat_busy
    → c.pre ≡ some p
    → d.stat ≡ stat_wait
    → step w
      ≡ ok
          (record (store p
            (some (record d { stat = stat_busy }))
            (store k (some (record c { stat = stat_wait; context = some fs })) w)) {
              current = some p;
            })
unfolding step deref modify store
yield_ends p k fs c d w e h f apart g s x y = rw (e, h, g) (ground arith)

execute_ends :
    (p k : Address) (fs : List Frame) (c d : Coroutine) (w : World)
    → w.current ≡ some k
    → w.heap k ≡ some c
    → w.heap p ≡ some d
    → k ≢ p
    → c.context ≡ some (Frame.execute_tail ∷ fs)
    → c.stat ≡ stat_busy
    → c.childs ≡ []
    → c.pre ≡ some p
    → d.stat ≡ stat_wait
    → step w
      ≡ ok
          (record (store p
            (some (record d { stat = stat_busy }))
            (store k (some (record c { stat = stat_done; context = some fs })) w)) {
              current = some p;
            })
unfolding step deref modify store
execute_ends p k fs c d w e h f apart g s l x y = rw (e, h, g) (ground arith)

destroyed :
    (p k : Address) (ks : List Address) (m : ℕ) (fs : List Frame) (c d : Coroutine) (w : World)
    → w.current ≡ some p
    → w.heap p ≡ some (running ks (Frame.childs_check (some p) k m ∷ fs) d)
    → w.heap k ≡ some c
    → k ≢ p
    → c.stat ≡ stat_done
    → step w
      ≡ ok (store p (some (running ks (Frame.childs_loop (some p) m ∷ fs) d)) (store k none w))
unfolding step deref modify store
destroyed p k ks m fs c d w e f h apart s = rw (e, f) (ground arith)

-- The child after a turn that ends with `yield`, with the calls `cs` left to make.
abbrev pub yielded : Address → List Call → Coroutine → Coroutine
yielded p cs c = record c { stat = stat_wait; pre = some p; context = context_of cs }

-- The world with other objects at `p` and `k`, when `p` has the thread
abbrev pub turned : Address → Coroutine → Address → Option Coroutine → World → World
turned p d k o w = record (store p (some d) (store k o w)) { current = some p }

module _ (p k : Address) (ks : List Address) (m : ℕ) (fs : List Frame) (c d : Coroutine) (w : World)
    (e : w.current ≡ some p)
    (f : w.heap p ≡ some (running (k ∷ ks) (Frame.childs_loop (some p) (suc m) ∷ fs) d))
    (h : w.heap k ≡ some c) (apart : k ≢ p) where
  abbrev given : World
  given =
      record (store p
        (some (record (running ks (Frame.childs_check (some p) k m ∷ fs) d) { stat = stat_wait }))
        (store k (some (record c { stat = stat_busy; pre = some p; context = coro_context c }))
          w)) { current = some k }

  entering : entered_by (some p) w.current (some k) ≡ k ∷ []
  entering = rw e (ground arith)

  inside : (i : Option Address) → entered_by (some p) (some k) i ≡ []
  inside none = refl
  inside (some i) = ground arith

  staying : entered_by (some p) (some p) (some p) ≡ []
  staying = ground arith

  -- A child that yields is put behind the others.
  pub turn_yields :
      (n : ℕ)
      → Resting (suc n) c
      → Hands (some p) (k ∷ []) w (
          turned p
            (running (ks ++ k ∷ []) (Frame.childs_loop (some p) m ∷ fs) d)
            k
            (some (yielded p (yields n) c))
            w)
  unfolding store
  turn_yields n r =
      let c1 : Coroutine = record c { stat = stat_busy; pre = some p; context = coro_context c } in
      let d1 : Coroutine = record (running ks (Frame.childs_check (some p) k m ∷ fs) d) {
        stat = stat_wait;
      } in
      let rest = Frame.user (yields n) ∷ Frame.execute_tail ∷ [] in
      let c2 : Coroutine = record c1 {
        context = some (Frame.childs_loop (some k) 0 ∷ Frame.yield_tail ∷ rest);
      } in
      let c3 : Coroutine = record c2 { context = some (Frame.yield_tail ∷ rest) } in
      let w2 = store k (some c2) given in
      let w3 = store k (some c3) w2 in
      let w4 : World =
        record (store p (some (record d1 { stat = stat_busy }))
          (store k (some (yielded p (yields n) c)) w3)) { current = some p } in
      let e2 : step given ≡ ok w2 =
        yield_begins k (yields n) _ c1 given refl (ground arith) r.context r.evet r.msg r.childs in
      let e3 : step w2 ≡ ok w3 = loop_ends k _ c2 w2 refl (ground arith) refl in
      let e4 : step w3 ≡ ok w4 =
        yield_ends p k _ c3 d1 w3 refl (ground arith) (ground arith) apart refl refl refl refl in
      let e5 =
        goes_back p k ks m fs (yielded p (yields n) c) d w4 refl (ground arith) (ground arith) apart
          refl in
      handing k (give p k ks m (suc n) fs c d w e f h apart r) entering (
        silent e2 (inside (some k)) (
          silent e3 (inside (some k))
            (silent e4 (inside (some p)) (ending e5 staying (ground arith)))))

  -- A child whose function returns is destroyed.
  pub turn_ends :
      Resting 0 c
      → Hands
          (some p)
          (k ∷ [])
          w
          (turned p (running ks (Frame.childs_loop (some p) m ∷ fs) d) k none w)
  unfolding store
  turn_ends r =
      let c1 : Coroutine = record c { stat = stat_busy; pre = some p; context = coro_context c } in
      let d1 : Coroutine = record (running ks (Frame.childs_check (some p) k m ∷ fs) d) {
        stat = stat_wait;
      } in
      let c2 : Coroutine = record c1 { context = some (Frame.execute_tail ∷ []) } in
      let c3 : Coroutine = record c2 { stat = stat_done; context = some [] } in
      let w2 = store k (some c2) given in
      let w3 : World =
        record (store p (some (record d1 { stat = stat_busy })) (store k (some c3) w2)) {
          current = some p;
        } in
      let e2 : step given ≡ ok w2 = function_ends k _ c1 given refl (ground arith) r.context in
      let e3 : step w2 ≡ ok w3 =
        execute_ends p k _ c2 d1 w2 refl (ground arith) (ground arith) apart refl refl r.childs refl
          refl in
      let e4 = destroyed p k ks m fs c3 d w3 refl (ground arith) (ground arith) apart refl in
      handing k (give p k ks m 0 fs c d w e f h apart r) entering (
        silent e2 (inside (some k))
          (silent e3 (inside (some p)) (ending e4 staying (ground arith))))
