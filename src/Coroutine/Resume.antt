-- ===== src/Coroutine/Resume.antt =====
-- `resume`, `transfer` and `transfer_pre`: what a switch does, when there is one, and the way back.
use boost_coro.Base.{
  ℕ, ◌==◌, ◌≡◌, refl, ◌≢◌, ◌⊎◌, true, false, ◌||◌, if◌then◌else◌, Option, none, some, ok, arith,
  ◌/◌,
}
use boost_coro.Coroutine.State.{
  Address, stat_init, stat_busy, stat_wait, stat_done, evet_wait, evet_chld, mesg_wait, mesg_chld,
  Coroutine, World, deref, store, modify,
}
use boost_coro.Coroutine.Flags.{chk}
use boost_coro.Coroutine.Machine.{coro_context, transfer_pre, resume_begin}
use boost_coro.Coroutine.Busy.{OneBusy}

-- Ready: in INIT or WAIT, and waiting for no event and no message, with none of its children's either.
pub record IsReady (c : Coroutine) : Type 0 where
  pub stat : (c.stat ≡ stat_init) ⊎ (c.stat ≡ stat_wait)
  pub evet_free : chk c.evet evet_wait ≡ false
  pub msg_free : chk c.msg mesg_wait ≡ false
  pub evet_quiet : chk c.evet evet_chld ≡ false
  pub msg_quiet : chk c.msg mesg_chld ≡ false

abbrev pub entered : Option Address → Coroutine → Coroutine
entered ctx c = record c { stat = stat_busy; pre = ctx; context = coro_context c }

abbrev pub with_stat : ℕ → Coroutine → Coroutine
with_stat s c = record c { stat = s }

abbrev pub switched : Option Address → Address → Coroutine → World → World
switched ctx i c w = record (store i (some (entered ctx c)) w) { current = some i }

resume-none :
    (i : Address) (c : Coroutine) (w : World)
    → w.heap i ≡ some c
    → IsReady c
    → resume_begin none i w ≡ ok (switched none i c w)
unfolding resume_begin deref
resume-none i c w e r = rw e (ground arith)

resume-some :
    (p i : Address) (c d : Coroutine) (w : World)
    → w.heap i ≡ some c
    → w.heap p ≡ some d
    → p ≢ i
    → IsReady c
    → resume_begin (some p) i w
      ≡ ok (store p (some (with_stat (d.stat / 2) d)) (switched (some p) i c w))
unfolding resume_begin deref modify store
resume-some p i c d w e f apart r = rw e (ground arith)

-- `resume` does nothing to a coroutine that is DONE or BUSY, nor to one that waits for an event or a
-- message while none of its children has anything to do.
pub resume-blocked :
    (ctx : Option Address) (i : Address) (c : Coroutine) (w : World)
    → w.heap i ≡ some c
    → (c.stat ≡ stat_done)
      ⊎ (c.stat ≡ stat_busy)
      ⊎ (((chk c.evet evet_wait || chk c.msg mesg_wait) ≡ true)
          × ((chk c.evet evet_chld || chk c.msg mesg_chld) ≡ false))
    → resume_begin ctx i w ≡ ok w
unfolding resume_begin deref
resume-blocked ctx i c w e h = rw e (ground arith)

-- The way back.
return-some :
    (p i : Address) (c d : Coroutine) (w : World)
    → w.heap i ≡ some c
    → w.heap p ≡ some d
    → p ≢ i
    → c.pre ≡ some p
    → d.stat ≡ stat_wait
    → transfer_pre i w
      ≡ ok
          (record (store p
            (some (with_stat stat_busy d))
            (store i (some (with_stat (if c.stat == stat_busy then stat_wait else c.stat) c)) w)) {
              current = some p;
            })
unfolding transfer_pre deref store
return-some p i c d w e f apart g s = rw e (ground arith)

distinct :
    (p i : Address) (c d : Coroutine) (w : World)
    → OneBusy w
    → w.current ≡ some p
    → w.heap p ≡ some d
    → w.heap i ≡ some c
    → IsReady c
    → p ≢ i
distinct p i c d w o now f e r = ground (arith, o.agrees p, o.agrees i, r.stat)

-- Where `OneBusy` holds, `resume(i)` by the current coroutine `p`, of a coroutine that is ready, gives
-- `i` the thread, and `transfer_pre` of `i` gives it back to `p`. Then every object is as it was before,
-- but that `i` is in WAIT, has `p` for its `_coro_pre`, and has a context.
pub resume_returns :
    (p i : Address) (c d : Coroutine) (w : World)
    → OneBusy w
    → w.current ≡ some p
    → w.heap p ≡ some d
    → w.heap i ≡ some c
    → IsReady c
    → (v u : World) × (resume_begin (some p) i w ≡ ok v)
      × (v.current ≡ some i)
      × (transfer_pre i v ≡ ok u)
      × (u.current ≡ some p)
      × ((j : Address)
          → u.heap j
            ≡ (if j == i then some (with_stat stat_wait (entered (some p) c)) else w.heap j))
unfolding store
resume_returns p i c d w o now f e r =
    let apart : p ≢ i = distinct p i c d w o now f e r in
    let busy : d.stat ≡ stat_busy = ground (arith, o.agrees p) in
    let d' = with_stat (d.stat / 2) d in
    let c' = entered (some p) c in
    let v : World = store p (some d') (switched (some p) i c w) in
    let u : World =
      record (store p (some (with_stat stat_busy d')) (store i (some (with_stat stat_wait c')) v)) {
        current = some p;
      } in
    (
      v,
      u,
      resume-some p i c d w e f apart r,
      refl,
      return-some p i c' d' v (ground arith) (ground arith) apart refl (omega arith),
      refl,
      λ j. ground arith,
    )

-- `resume(a)` by the current coroutine `p`, where `a` is the one that resumed `p` (its `_coro_pre`), and
-- is ready, is not refused. After it `p` is the `_coro_pre` of `a` while `a` is still that of `p`, so
-- that the ways back go round in a circle and never lead to the context that had resumed `a`.
pub resume_ancestor :
    (p a : Address) (c d : Coroutine) (w : World)
    → OneBusy w
    → w.current ≡ some p
    → w.heap p ≡ some d
    → d.pre ≡ some a
    → w.heap a ≡ some c
    → IsReady c
    → (v : World) × (x y : Coroutine) × (resume_begin (some p) a w ≡ ok v)
      × (v.heap a ≡ some x)
      × (x.pre ≡ some p)
      × (v.heap p ≡ some y)
      × (y.pre ≡ some a)
unfolding store
resume_ancestor p a c d w o now f g e r =
    let apart : p ≢ a = distinct p a c d w o now f e r in
    let d' = with_stat (d.stat / 2) d in
    (
      store p (some d') (switched (some p) a c w),
      entered (some p) c,
      d',
      resume-some p a c d w e f apart r,
      ground arith,
      refl,
      ground arith,
      g,
    )
