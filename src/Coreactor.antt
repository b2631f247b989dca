-- ===== src/Coreactor.antt =====
-- The reactor of boost/coroutine/coroutine/coreactor.h and coreactor.cpp, over the event library libevent
-- of which it uses `event_add` and its kin to arm an event for a coroutine, and `event_del`. Each function
-- that yields is cut in two, before and after its `yield`.
pub mod Triggers
pub mod Timeouts
pub mod Calls
pub mod Loop
pub mod Examples
use boost_coro.Base.{
  ℕ, suc, ◌==◌, Bool, true, false, if◌then◌else◌, bit_and, Option, none, some, Outcome, ok, fault,
  dangling, null_deref, ◌>>=◌,
}
use boost_coro.Coroutine.State.{Address, evet, evet_wait, evet_time, evet_cancel, World}
use boost_coro.Coroutine.Flags.{flag_add, flag_set, flag_del}

-- The address of an `event_t`
abbrev pub Event : Type 0
Event = ℕ

-- `EV_TIMEOUT`
abbrev pub ev_timeout : ℕ
ev_timeout = 0x01

-- `_triggers`, a map to pointers that may be null; the events that `_event_allocator` has given out; and
-- the state of the event library, `_event_base`
pub record Coreactor (Library : Type 0) : Type 0 where
  pub triggers : Address → Option (Option Event)
  pub allocated : Event → Bool
  pub base : Library

module _ {Library : Type 0} where
  unfoldable pub set_trigger :
      Address → Option (Option Event) → Coreactor Library → Coreactor Library
  set_trigger c t r = record r { triggers = λ d. if d == c then t else r.triggers d }

  -- `_triggers.insert`, which leaves an entry that is there
  unfoldable pub insert_at :
      Option (Option Event) → Address → Event → Coreactor Library → Coreactor Library
  unfolding set_trigger
  insert_at none c e r = set_trigger c (some (some e)) r
  insert_at (some t) c e r = r

  unfoldable pub insert_trigger : Address → Event → Coreactor Library → Coreactor Library
  unfolding insert_at
  insert_trigger c e r = insert_at (r.triggers c) c e r

  unfoldable pub set_allocated : Event → Bool → Coreactor Library → Coreactor Library
  set_allocated e b r = record r { allocated = λ f. if f == e then b else r.allocated f }

  -- `_event_allocator.free`, of an event or of null
  unfoldable pub free_event : Option Event → Coreactor Library → Outcome (Coreactor Library)
  unfolding set_allocated
  free_event none r = ok r
  free_event (some e) r = if r.allocated e then ok (set_allocated e false r) else fault dangling

-- `_cb_evt(fd, events, arg)`
unfoldable pub cb_evt : ℕ → Address → World → Outcome World
cb_evt events c w = flag_del evet c evet_wait w >>= λ w1.
    if bit_and events ev_timeout == 0 then ok w1 else flag_add (suc w1.created) evet c evet_time w1

-- The event library: `arm` sets an event up for a coroutine, and adds it; `disarm` is `event_del`.
module _ {Library : Type 0} (arm : Event → Address → Library → Library)
    (disarm : Event → Library → Library) where
  -- `set_io` up to its `yield`, where the allocator gives the event at `e`. The event of a coroutine that
  -- has a trigger is given back.
  unfoldable pub io_at :
      Option (Option Event) → Event → Address → Coreactor Library → Outcome (Coreactor Library)
  unfolding insert_trigger free_event
  io_at none e c r = ok (insert_trigger c e (record r { base = arm e c r.base }))
  io_at (some t) e c r = free_event (some e) r

  unfoldable pub set_io :
      Event → Address → World × Coreactor Library → Outcome (World × Coreactor Library)
  unfolding set_allocated io_at
  set_io e c (w, r) = flag_set evet c evet_wait w >>= λ w1.
      io_at (r.triggers c) e c (set_allocated e true r) >>= λ r1. ok (w1, r1)

  -- The end of `set_timeout` and of `set_signal`, and of `set_io` without EV_PERSIST
  unfoldable pub set_end : Event → Address → Coreactor Library → Outcome (Coreactor Library)
  unfolding set_trigger free_event
  set_end e c r = free_event (some e) (record (set_trigger c none r) { base = disarm e r.base })

  -- `set_io` after its `yield`
  unfoldable pub set_io_end :
      Bool → Event → Address → Coreactor Library → Outcome (Coreactor Library)
  unfolding set_end
  set_io_end persist e c r = if persist then ok r else set_end e c r

  -- `set_signal` up to its `yield`, and `set_timeout` with a timeout above 0
  unfoldable pub set_signal :
      Event → Address → World × Coreactor Library → Outcome (World × Coreactor Library)
  unfolding set_allocated insert_trigger
  set_signal e c (w, r) = flag_set evet c evet_wait w >>= λ w1.
      ok (w1, insert_trigger c e (record (set_allocated e true r) { base = arm e c r.base }))

  unfoldable pub delete_event : Option Event → Coreactor Library → Outcome (Coreactor Library)
  delete_event none r = fault null_deref
  delete_event (some e) r = ok (record r { base = disarm e r.base })

  -- The end of `cancel`: after `erase`, `_triggers[c]` makes an entry with a null pointer.
  unfoldable pub cancel_trigger :
      Option Event → Address → Coreactor Library → Outcome (Coreactor Library)
  unfolding delete_event set_trigger free_event
  cancel_trigger t c r =
      delete_event t r >>= λ r1. free_event none (set_trigger c (some none) (set_trigger c none r1))

  -- `cancel(coro)`
  unfoldable pub cancel_at :
      Option (Option Event)
      → Address
      → World × Coreactor Library
      → Outcome (World × Coreactor Library)
  unfolding cancel_trigger
  cancel_at none c (w, r) = ok (w, r)
  cancel_at (some t) c (w, r) = do
    w1 ← flag_del evet c evet_wait w
    w2 ← flag_add (suc w1.created) evet c evet_cancel w1
    r1 ← cancel_trigger t c r
    ok (w2, r1)

  unfoldable pub cancel : Address → World × Coreactor Library → Outcome (World × Coreactor Library)
  unfolding cancel_at
  cancel c (w, r) = cancel_at (r.triggers c) c (w, r)
