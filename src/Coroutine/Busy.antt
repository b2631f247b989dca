-- ===== src/Coroutine/Busy.antt =====
-- Which coroutine is BUSY: the states of `_stat` across every step of the runtime.
pub mod Steps
use boost_coro.Base.{
  ℕ, ◌==◌, ◌≡◌, refl, sym, subst, ◌⊎◌, inl, inr, Bool, true, false, ◌||◌, Bool-cases, Option, none,
  some, Ensures, ensures, faulted, bind, List, [], arith,
}
use boost_coro.Coroutine.State.{
  Address, stat_init, stat_busy, stat_wait, stat_done, Frame, Coroutine, World, store, modify,
}
use boost_coro.Coroutine.Walk.{Walk, deref_lem}
use boost_coro.Coroutine.Machine.{suspend, transfer, switch_back, transfer_pre, wake}

abbrev pub is_current : Option Address → Address → Bool
is_current none i = false
is_current (some k) i = k == i

-- One of the four states, INIT, WAIT, BUSY and DONE.
abbrev pub IsStat : ℕ → Type 0
IsStat s = (s ≡ 0x01) ⊎ (s ≡ 0x02) ⊎ (s ≡ 0x04) ⊎ (s ≡ 0x08)

-- A coroutine is BUSY if it is the current one, and in another state if it is not.
abbrev pub Agrees : Bool → Option Coroutine → Type 0
Agrees cur none = cur ≡ false
Agrees cur (some c) = IsStat c.stat × ((c.stat == stat_busy) ≡ cur)

-- `_stat` of a coroutine, if it is there.
abbrev pub stat_of : Option Coroutine → Option ℕ
stat_of none = none
stat_of (some c) = some c.stat

-- From before the step until now: the same state, or destroyed when DONE.
abbrev pub Kept : Option ℕ → Option Coroutine → Type 0
Kept none o = o ≡ none
Kept (some s) none = s ≡ stat_done
Kept (some s) (some c) = c.stat ≡ s

-- One step of the life of a coroutine: INIT or WAIT => BUSY, BUSY => WAIT, BUSY => DONE, and DONE until
-- it is destroyed. An object that is not there does not come back.
abbrev pub Edge : Option ℕ → Option Coroutine → Type 0
Edge none o = o ≡ none
Edge (some s) none = s ≡ stat_done
Edge (some s) (some c) =
    (c.stat ≡ s)
    ⊎ (((s ≡ stat_init) ⊎ (s ≡ stat_wait)) × (c.stat ≡ stat_busy))
    ⊎ ((s ≡ stat_busy) × ((c.stat ≡ stat_wait) ⊎ (c.stat ≡ stat_done)))

-- The states agree with `ctx` being the current coroutine.
pub record OneBusy (w : World) : Type 0 where
  pub agrees : (i : Address) → Agrees (is_current w.current i) (w.heap i)

-- In the middle of a step that began with the states `old`, and has not switched yet.
pub record Busy (old : Address → Option ℕ) (ctx : Option Address) (w : World) : Type 0 where
  pub current : w.current ≡ ctx
  pub agrees : (i : Address) → Agrees (is_current ctx i) (w.heap i)
  pub kept : (i : Address) → Kept (old i) (w.heap i)

-- At the end of such a step.
pub record Stepped (old : Address → Option ℕ) (w : World) : Type 0 where
  pub busy : OneBusy w
  pub edges : (i : Address) → Edge (old i) (w.heap i)

OneBusy-at :
    (ctx : Option Address) (w : World)
    → w.current ≡ ctx
    → ((i : Address) → Agrees (is_current ctx i) (w.heap i))
    → OneBusy w
OneBusy-at ctx w e h = record {
  agrees = subst (λ k. (i : Address) → Agrees (is_current k i) (w.heap i)) (sym e) h;
}

pub Busy-Stepped :
    {old : Address → Option ℕ} {ctx : Option Address} {w : World} → Busy old ctx w → Stepped old w
Busy-Stepped {old} {ctx} {w} b = record {
  busy = OneBusy-at ctx w b.current b.agrees;
  edges = λ i. edge (old i) (w.heap i) (b.kept i);
}
  where
    edge : (s : Option ℕ) (o : Option Coroutine) → Kept s o → Edge s o
    edge none o k = k
    edge (some s) none k = k
    edge (some s) (some c) k = inl k

module _ {old : Address → Option ℕ} {ctx : Option Address} {w : World} (b : Busy old ctx w) where
  -- A write that leaves `_stat` as it was.
  pub store-Busy :
      (i : Address) (c d : Coroutine)
      → w.heap i ≡ some c
      → d.stat ≡ c.stat
      → Busy old ctx (store i (some d) w)
  unfolding store
  store-Busy i c d e keep = record {
    current = b.current;
    agrees = λ j. ground (arith, b.agrees j, b.agrees i);
    kept = λ j. ground (arith, b.kept j, b.kept i);
  }

  pub destroy-Busy :
      (i : Address) (c : Coroutine)
      → w.heap i ≡ some c
      → (c.stat == stat_done) ≡ true
      → Busy old ctx (store i none w)
  unfolding store
  destroy-Busy i c e done = record {
    current = b.current;
    agrees = λ j. ground (arith, b.agrees j, b.agrees i);
    kept = λ j. ground (arith, b.kept j, b.kept i);
  }

  pub main-Busy :
      (l : List Address) (fs : List Frame)
      → Busy old ctx (record w { main_childs = l; main_context = fs })
  main-Busy l fs = record { current = b.current; agrees = b.agrees; kept = b.kept }

-- Between the two halves of `transfer` both coroutines are BUSY.
abbrev Entered : (Address → Option ℕ) → Option Address → Address → World → Type 0
Entered old ctx i v =
    (j : Address) → Agrees ((i == j) || is_current ctx j) (v.heap j) × Edge (old j) (v.heap j)

suspend-Stepped :
    {old : Address → Option ℕ} (ctx : Option Address) (i : Address) (v : World)
    → v.current ≡ some i
    → is_current ctx i ≡ false
    → ((j : Address) → is_current ctx j ≡ true → old j ≡ some stat_busy)
    → Entered old ctx i v
    → Ensures (Stepped old) (suspend ctx v)
unfolding suspend modify store
suspend-Stepped none i v e apart was h =
    ensures
      (record { busy = OneBusy-at (some i) v e (λ j. ground (arith, h j)); edges = λ j. (h j).1 })
suspend-Stepped (some p) i v e apart was h = bind (deref_lem p v) λ d f. ensures (record {
  busy = OneBusy-at (some i) _ e (λ j. ground (arith, h j, h p));
  edges = λ j. ground (arith, h j, h p, was p);
})

-- `transfer` makes the coroutine that it enters BUSY and the one that it leaves WAIT.
pub transfer-Stepped :
    {old : Address → Option ℕ} (ctx : Option Address) {w : World} (i : Address)
    → Busy old ctx w
    → Ensures (Stepped old) (transfer ctx i w)
unfolding transfer store
transfer-Stepped ctx {w} i b = bind (deref_lem i w) λ c e.
    elim (Bool-cases (wake c.stat == stat_wait)) [
      | inr no_wait ↦ rw no_wait faulted
      | inl waits ↦ rw waits (
          suspend-Stepped ctx i _ refl (ground (arith, b.agrees i))
            (λ j here. ground (arith, b.agrees j, b.kept j))
            λ j. (
              ground (arith, b.agrees j, b.agrees i),
              ground (arith, b.agrees j, b.agrees i, b.kept j, b.kept i),
            ))
    ]

-- Between the two halves of `transfer_pre` nothing is BUSY.
switch_back-Stepped :
    {old : Address → Option ℕ} (pre : Option Address) (v : World)
    → ((j : Address) → Agrees false (v.heap j))
    → ((j : Address) → Edge (old j) (v.heap j))
    → Ensures (Stepped old) (switch_back pre v)
unfolding switch_back store
switch_back-Stepped none v h g = ensures (record { busy = record { agrees = h }; edges = g })
switch_back-Stepped (some p) v h g = bind (deref_lem p v) λ d f.
    elim (Bool-cases (d.stat == stat_wait)) [
      | inr no_wait ↦ rw no_wait faulted
      | inl waits ↦ rw waits (
          ensures (record {
            busy = OneBusy-at (some p) _ refl (λ j. ground (arith, h j, h p));
            edges = λ j. ground (arith, g j, g p);
          }))
    ]

pub transfer_pre-Stepped :
    {old : Address → Option ℕ} {i : Address} {w : World}
    → Busy old (some i) w
    → Ensures (Stepped old) (transfer_pre i w)
unfolding transfer_pre store
transfer_pre-Stepped {i} {w} b = bind (deref_lem i w) λ c e.
    switch_back-Stepped c.pre _ (λ j. ground (arith, b.agrees j, b.agrees i))
      λ j. ground (arith, b.agrees j, b.agrees i, b.kept j, b.kept i)

-- `execute` ends with the coroutine DONE.
pub finish-Stepped :
    {old : Address → Option ℕ} {i : Address} {w : World} (c : Coroutine)
    → w.heap i ≡ some c
    → Busy old (some i) w
    → Ensures (Stepped old) (transfer_pre i (store i (some (record c { stat = stat_done })) w))
unfolding transfer_pre store
finish-Stepped {i} {w} c e b = bind (deref_lem i _) λ d f.
    switch_back-Stepped d.pre _ (λ j. ground (arith, b.agrees j, b.agrees i))
      λ j. ground (arith, b.agrees j, b.agrees i, b.kept j, b.kept i)

pub Busy-walk : {old : Address → Option ℕ} → Walk (Busy old) (Stepped old)
Busy-walk = record {
  writes = λ ctx. record {
    main = λ w l fs b. main-Busy b l fs;
    write = λ w i c d e q b. store-Busy b i c d e q.stat;
  };
  destroy = λ ctx w i c e d b. destroy-Busy b i c e d;
  stays = λ ctx w b. Busy-Stepped b;
  enters = λ ctx w i b. transfer-Stepped ctx i b;
  leaves = λ w i b. transfer_pre-Stepped b;
  finishes = λ w i c e b. finish-Stepped c e b;
}
