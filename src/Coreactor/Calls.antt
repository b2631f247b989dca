-- ===== src/Coreactor/Calls.antt =====
-- What the reactor does to the flags of a coroutine, as calls of the runtime's interface.
use boost_coro.Base.{ℕ, ◌≡◌, refl, true, bit_and, Option, Outcome, ok, fault, ◌>>=◌}
use boost_coro.Coroutine.State.{Address, evet, evet_wait, Call, World}
use boost_coro.Coroutine.Flags.{flag_del}
use boost_coro.Coroutine.Machine.{call}
use boost_coro.Coreactor.{Event, Coreactor, ev_timeout, cb_evt, io_at, set_allocated, set_io}

and_no_more : (o : Outcome World) → (o >>= ok) ≡ o
and_no_more (ok w) = refl
and_no_more (fault x) = refl

-- The callback of an event that is not a timeout is `event_del(CORO_EVET_WAIT)` of the coroutine.
cb_evt-call :
    (ctx : Option Address) (events : ℕ) (c : Address) (w : World)
    → bit_and events ev_timeout ≡ 0
    → cb_evt events c w ≡ call ctx (Call.flag_del evet c evet_wait) w
unfolding cb_evt call
cb_evt-call ctx events c w e = rw e (and_no_more (flag_del evet c evet_wait w))

-- Before its `yield`, `set_io` is `event_set(CORO_EVET_WAIT)`, and what it does to the reactor alone.
set_io-call :
    {Library : Type 0} (arm : Event → Address → Library → Library)
    (disarm : Event → Library → Library) (ctx : Option Address) (e : Event) (c : Address)
    (w : World) (r : Coreactor Library)
    → set_io arm disarm e c (w, r) ≡ (
        call ctx (Call.flag_set evet c evet_wait) w >>= λ w1.
        io_at arm disarm (r.triggers c) e c (set_allocated e true r) >>= λ r1. ok (w1, r1))
unfolding set_io call
set_io-call arm disarm ctx e c w r = refl
