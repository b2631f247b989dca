-- ===== src/Coroutine/Network/Steps.antt =====
-- The steps of which the turn of a process consists.
use boost_coro.Base.{
  ℕ, zero, suc, ◌+◌, ◌≡◌, ◌≢◌, refl, ap, ◌⊎◌, none, some, Outcome, ok, fault, Fault, ◌∙◌, dangling,
  ◌>>=◌, List, [], ◌∷◌, ◌++◌, arith,
}
use boost_coro.Coroutine.State.{
  Address, stat_busy, mesg_wait, evet_wait, evet, Call, Frame, Coroutine, World, deref, store,
  modify,
}
use boost_coro.Coroutine.Flags.{chk, clear, notify, flag_set, flag_del}
use boost_coro.Coroutine.Machine.{mput, mget_loop, step, steps}
use boost_coro.Coroutine.Network.{Leads}

-- One step and those after it
pub leads : (w v : World) (o : Outcome World) → step w ≡ ok v → Leads v o → Leads w o
unfolding steps
leads w v o e (n, f) = (suc n, rw (e, f) refl)

pub arrives : (w v : World) → w ≡ v → Leads w (ok v)
unfolding steps
arrives w v e = (0, ap ok e)

pub one_step : (w v : World) → step w ≡ ok v → Leads w (ok v)
one_step w v e = leads w v (ok v) e (arrives v v refl)

pub one_fault : (w : World) (x : Fault) → step w ≡ fault x → Leads w (fault x)
unfolding steps
one_fault w x e = (1, rw e refl)

bind_each :
    (o : Outcome World) (f g h : World → Outcome World)
    → ((v : World) → f v ≡ (g v >>= h))
    → (o >>= f) ≡ ((o >>= g) >>= h)
bind_each (ok v) f g h e = e v
bind_each (fault x) f g h e = refl

steps_append : (n k : ℕ) (w : World) → steps (n + k) w ≡ (steps n w >>= steps k)
unfolding steps
steps_append zero k w = ap (λ x. steps x w) (omega arith)
steps_append (suc n) k w =
    let same : suc n + k ≡ suc (n + k) = omega arith in
    ap (λ x. steps x w) same
    ∙ bind_each (step w) (steps (n + k)) (steps n) (steps k) (steps_append n k)

-- The steps after these
pub onwards : (w v : World) (o : Outcome World) → Leads w (ok v) → Leads v o → Leads w o
onwards w v o (n, e) (k, f) = (n + k, steps_append n k w ∙ ap (λ x. x >>= steps k) e ∙ f)

-- The coroutine `c` while it has the thread, with the frames `fs`.
abbrev pub going : List Frame → Coroutine → Coroutine
going fs c = record c {
  stat = stat_busy;
  evet = 0;
  msg = 0;
  context = some fs;
  pre = none;
  parent = none;
  childs = [];
}

module _ (k : Address) (fs : List Frame) (c : Coroutine) (w : World) (e : w.current ≡ some k) where
  pub send_self :
      (m : ℕ) (cs : List Call)
      → w.heap k ≡ some (going (Frame.user (Call.mput k m ∷ cs) ∷ fs) c)
      → step w
        ≡ ok (
            store k
              (some (record (going (Frame.user cs ∷ fs) c) { messages = c.messages ++ m ∷ [] }))
              w)
  unfolding step mput deref modify store flag_del notify chk clear
  send_self m cs h = rw (e, h) (ground arith)

  pub send_other :
      (j m : ℕ) (cs : List Call) (d : Coroutine)
      → w.heap k ≡ some (going (Frame.user (Call.mput j m ∷ cs) ∷ fs) c)
      → j ≢ k
      → w.heap j ≡ some d
      → d.parent ≡ none
      → (d.msg ≡ 0) ⊎ (d.msg ≡ 1)
      → step w
        ≡ ok (
            store j
              (some (record d { msg = 0; messages = d.messages ++ m ∷ [] }))
              (store k (some (going (Frame.user cs ∷ fs) c)) w))
  unfolding step mput deref modify store flag_del notify chk clear
  send_other j m cs d h apart g p x = rw (e, h) (ground arith)

  pub send_nobody :
      (j m : ℕ) (cs : List Call)
      → w.heap k ≡ some (going (Frame.user (Call.mput j m ∷ cs) ∷ fs) c)
      → j ≢ k
      → w.heap j ≡ none
      → step w ≡ fault dangling
  unfolding step mput deref modify store flag_del notify chk clear
  send_nobody j m cs h apart g = rw (e, h) (ground arith)

  pub receive_some :
      (m : ℕ) (ms : List ℕ) (cs : List Call)
      → w.heap k ≡ some (going (Frame.user (Call.mget_yield ∷ cs) ∷ fs) c)
      → c.messages ≡ m ∷ ms
      → step w
        ≡ ok (
            store k
              (some (record (going (Frame.user cs ∷ fs) c) {
                messages = ms;
                received = m ∷ c.received;
              }))
              w)
  unfolding step deref modify store mget_loop
  receive_some m ms cs h q = rw (e, h, q) (ground arith)

  -- `mget(msg, true)` goes on with its loop, and there is a message.
  pub woken_takes :
      (m : ℕ) (ms : List ℕ)
      → w.heap k ≡ some (going (Frame.mget_loop ∷ fs) c)
      → c.messages ≡ m ∷ ms
      → step w
        ≡ ok (store k (some (record (going fs c) { messages = ms; received = m ∷ c.received })) w)
  unfolding step deref modify store mget_loop
  woken_takes m ms h q = rw (e, h, q) (ground arith)

  pub receive_none :
      (cs : List Call)
      → w.heap k ≡ some (going (Frame.user (Call.mget_yield ∷ cs) ∷ fs) c)
      → c.messages ≡ []
      → step w
        ≡ ok (
            store k
              (some
                (record (going
                  (Frame.childs_loop (some k) 0
                    ∷ Frame.yield_tail
                    ∷ Frame.mget_loop
                    ∷ Frame.user cs
                    ∷ fs)
                  c) { msg = mesg_wait }))
              w)
  unfolding step deref modify store mget_loop flag_set flag_del notify chk clear
  receive_none cs h q = rw (e, h, q) (ground arith)

  pub gives_way :
      (cs : List Call)
      → w.heap k ≡ some (going (Frame.user (Call.yield ∷ cs) ∷ fs) c)
      → step w
        ≡ ok (
            store k
              (some
                (going (Frame.childs_loop (some k) 0 ∷ Frame.yield_tail ∷ Frame.user cs ∷ fs) c))
              w)
  unfolding step deref modify store flag_del notify chk clear
  gives_way cs h = rw (e, h) (ground arith)

  -- The two calls of a coroutine that waits for an event
  pub sets_wait :
      (cs : List Call)
      → w.heap k ≡ some (going (Frame.user (Call.flag_set evet k evet_wait ∷ cs) ∷ fs) c)
      → step w ≡ ok (store k (some (record (going (Frame.user cs ∷ fs) c) { evet = evet_wait })) w)
  unfolding step deref modify store flag_set notify chk clear
  sets_wait cs h = rw (e, h) (ground arith)

  pub waits_yield :
      (cs : List Call)
      → w.heap k ≡ some (record (going (Frame.user (Call.yield ∷ cs) ∷ fs) c) { evet = evet_wait })
      → step w
        ≡ ok (
            store k
              (some
                (record (going
                  (Frame.childs_loop (some k) 0 ∷ Frame.yield_tail ∷ Frame.user cs ∷ fs)
                  c) { evet = evet_wait }))
              w)
  unfolding step deref modify store flag_del notify chk clear
  waits_yield cs h = rw (e, h) (ground arith)

  pub fire_self :
      (cs : List Call)
      → w.heap k ≡ some (going (Frame.user (Call.flag_del evet k evet_wait ∷ cs) ∷ fs) c)
      → step w ≡ ok (store k (some (going (Frame.user cs ∷ fs) c)) w)
  unfolding step deref modify store flag_del notify chk clear
  fire_self cs h = rw (e, h) (ground arith)

  pub fire_other :
      (j : Address) (cs : List Call) (d : Coroutine)
      → w.heap k ≡ some (going (Frame.user (Call.flag_del evet j evet_wait ∷ cs) ∷ fs) c)
      → j ≢ k
      → w.heap j ≡ some d
      → d.parent ≡ none
      → (d.evet ≡ 0) ⊎ (d.evet ≡ 1)
      → step w
        ≡ ok (
            store j
              (some (record d { evet = 0 }))
              (store k (some (going (Frame.user cs ∷ fs) c)) w))
  unfolding step deref modify store flag_del notify chk clear
  fire_other j cs d h apart g p x = rw (e, h) (ground arith)

  pub fire_nobody :
      (j : Address) (cs : List Call)
      → w.heap k ≡ some (going (Frame.user (Call.flag_del evet j evet_wait ∷ cs) ∷ fs) c)
      → j ≢ k
      → w.heap j ≡ none
      → step w ≡ fault dangling
  unfolding step deref modify store flag_del notify chk clear
  fire_nobody j cs h apart g = rw (e, h) (ground arith)
