-- ===== src/Coreactor/Triggers.antt =====
-- What `set_io` and `cancel` leave in the map of triggers.
use boost_coro.Base.{
  ℕ, suc, ◌==◌, ◌≡◌, refl, true, false, Option, none, some, ok, fault, dangling, null_deref, ◌>>=◌,
  arith,
}
use boost_coro.Coroutine.State.{Address, evet, evet_wait, evet_cancel, World}
use boost_coro.Coroutine.Flags.{flag_add, flag_set, flag_del}
use boost_coro.Coreactor.{
  Event, Coreactor, set_trigger, insert_at, insert_trigger, io_at, cancel_at, set_allocated,
  free_event, set_io, set_end, set_io_end, cancel, cancel_trigger, delete_event,
}

self : (i : ℕ) → (i == i) ≡ true
self i = ground arith

module _ {Library : Type 0} (arm : Event → Address → Library → Library)
    (disarm : Event → Library → Library) (e : Event) (c : Address) (w w1 : World)
    (r : Coreactor Library) where
  -- `set_io` without EV_PERSIST, for a coroutine that has no trigger, arms an event for it, and takes it
  -- away again after the `yield`, if nothing else has happened to the reactor. The map and the allocated
  -- events are then as before.
  pub set_io_end-set_io :
      flag_set evet c evet_wait w ≡ ok w1
      → r.triggers c ≡ none
      → r.allocated e ≡ false
      → (s t : Coreactor Library) × (set_io arm disarm e c (w, r) ≡ ok (w1, s))
        × (s.triggers c ≡ some (some e))
        × (set_io_end arm disarm false e c s ≡ ok t)
        × (t.base ≡ disarm e (arm e c r.base))
        × ((d : Address) → t.triggers d ≡ r.triggers d)
        × ((f : Event) → t.allocated f ≡ r.allocated f)
  unfolding set_io io_at set_io_end set_end set_trigger insert_trigger insert_at set_allocated
      free_event
  set_io_end-set_io run no_trigger unused =
      let s : Coreactor Library =
        set_trigger c (some (some e)) (record (set_allocated e true r) { base = arm e c r.base }) in
      let t : Coreactor Library =
        set_allocated e false (record (set_trigger c none s) { base = disarm e s.base }) in
      (
        s,
        t,
        rw run (rw no_trigger (rw no_trigger)),
        rw (self c),
        rw (self e),
        refl,
        (λ d. ground arith),
        (λ f. ground arith),
      )

  -- `set_io` without EV_PERSIST, for a coroutine that has a trigger, as one with EV_PERSIST leaves it,
  -- and whose flags can be set, keeps the trigger, gives its new event back before the `yield`, and
  -- once more after it, which is a fault, if nothing else has happened to the reactor.
  pub set_io_frees_twice :
      flag_set evet c evet_wait w ≡ ok w1
      → (old : Option Event) → r.triggers c ≡ some old
      → (s : Coreactor Library) × (set_io arm disarm e c (w, r) ≡ ok (w1, s))
        × (s.triggers c ≡ some old)
        × (set_io_end arm disarm false e c s ≡ fault dangling)
  unfolding set_io io_at set_io_end set_end set_trigger set_allocated free_event
  set_io_frees_twice run old has_trigger = (
    set_allocated e false (set_allocated e true r),
    rw (run, has_trigger, self e),
    has_trigger,
    rw (self e),
  )

  -- `cancel` of a coroutine whose trigger has an event, where the flags of the coroutine can be changed,
  -- leaves a trigger with a null pointer, and the event allocated.
  pub cancel_leaks :
      flag_del evet c evet_wait w ≡ ok w1
      → (w2 : World) → flag_add (suc w1.created) evet c evet_cancel w1 ≡ ok w2
      → r.triggers c ≡ some (some e)
      → (s : Coreactor Library) × (cancel arm disarm c (w, r) ≡ ok (w2, s))
        × (s.triggers c ≡ some none)
        × ((f : Event) → s.allocated f ≡ r.allocated f)
        × (s.base ≡ disarm e r.base)
  unfolding cancel cancel_at cancel_trigger delete_event set_trigger free_event
  cancel_leaks run w2 run2 at_c = (
    set_trigger c (some none) (set_trigger c none (record r { base = disarm e r.base })),
    rw at_c (rw run (rw run2)),
    rw (self c),
    (λ f. refl),
    refl,
  )

  -- A second `cancel` after the first dereferences the null pointer that the first has left in the map,
  -- where the flags of the coroutine can be changed each time.
  pub cancel_twice :
      flag_del evet c evet_wait w ≡ ok w1
      → (w2 w3 w4 : World) → flag_add (suc w1.created) evet c evet_cancel w1 ≡ ok w2
      → flag_del evet c evet_wait w2 ≡ ok w3
      → flag_add (suc w3.created) evet c evet_cancel w3 ≡ ok w4
      → r.triggers c ≡ some (some e)
      → (cancel arm disarm c (w, r) >>= cancel arm disarm c) ≡ fault null_deref
  unfolding cancel cancel_at cancel_trigger delete_event
  cancel_twice run w2 w3 w4 run2 run3 run4 at_c =
      let (s, first, null_trigger, _, _) = cancel_leaks run w2 run2 at_c in
      rw first (rw null_trigger (rw run3 (rw run4)))
