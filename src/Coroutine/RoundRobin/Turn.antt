-- ===== src/Coroutine/RoundRobin/Turn.antt =====
-- One turn of a child of the main context.
use boost_coro.Base.{ℕ, suc, ◌≡◌, refl, Option, none, some, ok, List, [], ◌∷◌, ◌++◌, arith}
use boost_coro.Coroutine.State.{
  Address, stat_wait, stat_busy, stat_done, Call, Frame, Coroutine, World, deref, store, modify,
}
use boost_coro.Coroutine.Flags.{chk, clear, flag_del}
use boost_coro.Coroutine.Machine.{coro_context, step}
use boost_coro.Coroutine.RoundRobin.Hands.{Hands, silent, handing, ending}
use boost_coro.Coroutine.RoundRobin.{yields, Resting}

-- The world `w` with other fields.
abbrev pub turned : Option Address → List Address → List Frame → World → World
turned cur l fs w = record w { current = cur; main_childs = l; main_context = fs }

give :
    (k : Address) (ks : List Address) (m n : ℕ) (fs : List Frame) (c : Coroutine) (w : World)
    → w.current ≡ none
    → w.main_context ≡ Frame.childs_loop none (suc m) ∷ fs
    → w.main_childs ≡ k ∷ ks
    → w.heap k ≡ some c
    → Resting n c
    → step w
      ≡ ok (
          store k
            (some (record c { stat = stat_busy; pre = none; context = coro_context c }))
            (turned (some k) ks (Frame.childs_check none k m ∷ fs) w))
unfolding step deref modify store chk
give k ks m n fs c w e f g h r = rw (e, f, g, h) (ground (arith, r.stat, r.evet, r.msg))

pub yield_begins :
    (k : Address) (cs : List Call) (fs : List Frame) (c : Coroutine) (w : World)
    → w.current ≡ some k
    → w.heap k ≡ some c
    → c.context ≡ some (Frame.user (Call.yield ∷ cs) ∷ fs)
    → c.evet ≡ 0
    → c.msg ≡ 0
    → c.childs ≡ []
    → step w
      ≡ ok (
          store k
            (some (record c {
              context = some (Frame.childs_loop (some k) 0 ∷ Frame.yield_tail ∷ Frame.user cs ∷ fs);
            }))
            w)
unfolding step deref modify store flag_del chk clear
yield_begins k cs fs c w e h g a b l = rw (e, h, g) (ground (arith))

pub loop_ends :
    (k : Address) (fs : List Frame) (c : Coroutine) (w : World)
    → w.current ≡ some k
    → w.heap k ≡ some c
    → c.context ≡ some (Frame.childs_loop (some k) 0 ∷ fs)
    → step w ≡ ok (store k (some (record c { context = some fs })) w)
unfolding step deref modify store
loop_ends k fs c w e h g = rw (e, h, g) (ground arith)

pub yield_ends :
    (k : Address) (fs : List Frame) (c : Coroutine) (w : World)
    → w.current ≡ some k
    → w.heap k ≡ some c
    → c.context ≡ some (Frame.yield_tail ∷ fs)
    → c.stat ≡ stat_busy
    → c.pre ≡ none
    → step w
      ≡ ok (record (store k (some (record c { stat = stat_wait; context = some fs })) w) {
        current = none;
      })
unfolding step deref modify store
yield_ends k fs c w e h g s p = rw (e, h, g) (ground arith)

pub function_ends :
    (k : Address) (fs : List Frame) (c : Coroutine) (w : World)
    → w.current ≡ some k
    → w.heap k ≡ some c
    → c.context ≡ some (Frame.user [] ∷ fs)
    → step w ≡ ok (store k (some (record c { context = some fs })) w)
unfolding step deref modify store
function_ends k fs c w e h g = rw (e, h, g) (ground arith)

pub execute_ends :
    (k : Address) (fs : List Frame) (c : Coroutine) (w : World)
    → w.current ≡ some k
    → w.heap k ≡ some c
    → c.context ≡ some (Frame.execute_tail ∷ fs)
    → c.stat ≡ stat_busy
    → c.childs ≡ []
    → c.pre ≡ none
    → step w
      ≡ ok (record (store k (some (record c { stat = stat_done; context = some fs })) w) {
        current = none;
      })
unfolding step deref modify store
execute_ends k fs c w e h g s l p = rw (e, h, g) (ground arith)

pub goes_back :
    (k : Address) (ks : List Address) (m : ℕ) (fs : List Frame) (c : Coroutine) (w : World)
    → w.current ≡ none
    → w.main_context ≡ Frame.childs_check none k m ∷ fs
    → w.main_childs ≡ ks
    → w.heap k ≡ some c
    → c.stat ≡ stat_wait
    → step w
      ≡ ok (record w { main_childs = ks ++ k ∷ []; main_context = Frame.childs_loop none m ∷ fs })
unfolding step deref modify store
goes_back k ks m fs c w e f g h s = rw (e, f, g, h) (ground arith)

pub destroyed :
    (k : Address) (m : ℕ) (fs : List Frame) (c : Coroutine) (w : World)
    → w.current ≡ none
    → w.main_context ≡ Frame.childs_check none k m ∷ fs
    → w.heap k ≡ some c
    → c.stat ≡ stat_done
    → step w ≡ ok (record (store k none w) { main_context = Frame.childs_loop none m ∷ fs })
unfolding step deref modify store
destroyed k m fs c w e f h s = rw (e, f, h) (ground arith)

abbrev pub context_of : List Call → Option (List Frame)
context_of cs = some (Frame.user cs ∷ Frame.execute_tail ∷ [])

-- The coroutine after a turn that ends with `yield`, with the calls `cs` left to make.
abbrev pub yielded : List Call → Coroutine → Coroutine
yielded cs c = record c { stat = stat_wait; pre = none; context = context_of cs }

module _ (k : Address) (ks : List Address) (m : ℕ) (fs : List Frame) (c : Coroutine) (w : World)
    (e : w.current ≡ none) (f : w.main_context ≡ Frame.childs_loop none (suc m) ∷ fs)
    (g : w.main_childs ≡ k ∷ ks) (h : w.heap k ≡ some c) where
  abbrev given : World
  given =
      store k (some (record c { stat = stat_busy; pre = none; context = coro_context c }))
        (turned (some k) ks (Frame.childs_check none k m ∷ fs) w)

  -- A child that yields is put behind the others.
  pub turn_yields :
      (n : ℕ)
      → Resting (suc n) c
      → Hands none (k ∷ []) w (
          store k
            (some (yielded (yields n) c))
            (turned none (ks ++ k ∷ []) (Frame.childs_loop none m ∷ fs) w))
  unfolding store
  turn_yields n r =
      let c1 : Coroutine = record c { stat = stat_busy; pre = none; context = coro_context c } in
      let rest = Frame.user (yields n) ∷ Frame.execute_tail ∷ [] in
      let c2 : Coroutine = record c1 {
        context = some (Frame.childs_loop (some k) 0 ∷ Frame.yield_tail ∷ rest);
      } in
      let c3 : Coroutine = record c2 { context = some (Frame.yield_tail ∷ rest) } in
      let w2 = store k (some c2) given in
      let w3 = store k (some c3) w2 in
      let w4 : World = record (store k (some (yielded (yields n) c)) w3) { current = none } in
      let e2 : step given ≡ ok w2 =
        yield_begins k (yields n) _ c1 given refl (ground arith) r.context r.evet r.msg r.childs in
      let e3 : step w2 ≡ ok w3 = loop_ends k _ c2 w2 refl (ground arith) refl in
      let e4 : step w3 ≡ ok w4 = yield_ends k _ c3 w3 refl (ground arith) refl refl refl in
      let e5 = goes_back k ks m fs (yielded (yields n) c) w4 refl refl refl (ground arith) refl in
      handing k (give k ks m (suc n) fs c w e f g h r) (rw e refl)
        (silent e2 refl (silent e3 refl (silent e4 refl (ending e5 refl (ground arith)))))

  -- A child whose function returns is destroyed.
  pub turn_ends :
      Resting 0 c
      → Hands none (k ∷ []) w (store k none (turned none ks (Frame.childs_loop none m ∷ fs) w))
  unfolding store
  turn_ends r =
      let c1 : Coroutine = record c { stat = stat_busy; pre = none; context = coro_context c } in
      let c2 : Coroutine = record c1 { context = some (Frame.execute_tail ∷ []) } in
      let c3 : Coroutine = record c2 { stat = stat_done; context = some [] } in
      let w2 = store k (some c2) given in
      let w3 : World = record (store k (some c3) w2) { current = none } in
      let e2 : step given ≡ ok w2 = function_ends k _ c1 given refl (ground arith) r.context in
      let e3 : step w2 ≡ ok w3 =
        execute_ends k _ c2 w2 refl (ground arith) refl refl r.childs refl in
      let e4 = destroyed k m fs c3 w3 refl refl (ground arith) refl in
      handing k (give k ks m 0 fs c w e f g h r) (rw e refl)
        (silent e2 refl (silent e3 refl (ending e4 refl (ground arith))))
