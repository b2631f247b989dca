-- ===== src/Coroutine/Network/Deadlock.antt =====
-- What a call of `resume(0)` comes to in the end.
use boost_coro.Base.{◌≡◌, subst, none, Outcome, ok, fault, dangling, List, [], ◌∷◌, All, arith}
use boost_coro.Coroutine.State.{Address, Call, Frame, World}
use boost_coro.Coroutine.Network.{Process, addresses, Network, Leads}
use boost_coro.Coroutine.Network.Queue.{length-addresses}
use boost_coro.Coroutine.Network.Refines.{Serves, crashes, returns, serves, resume_all-turns}
use boost_coro.Coroutine.Network.Settles.{Stuck, Settles, ended, crashed, deadlocked, settles}
use boost_coro.Coroutine.Network.Spins.{Stuck-Asleep, in_round, Forever, Spins-Forever}

-- What a call of `resume(0)` can come to
pub data Outcomes (cs : List Call) (fs : List Frame) (w : World) : Type 0 where
  it_returns :
      (u : World)
      → Leads w (ok u)
      → u.main_context ≡ Frame.user cs ∷ fs
      → u.main_childs ≡ []
      → ((i : Address) → u.heap i ≡ none)
      → Outcomes cs fs w
  it_crashes : Leads w (fault dangling) → Outcomes cs fs w
  it_spins : (u : World) → Leads w (ok u) → Forever cs fs u → Outcomes cs fs w

at_end :
    (cs : List Call) (fs : List Frame) (w : World) (o : Outcome (List Process))
    → Serves cs fs w o
    → o ≡ ok []
    → Outcomes cs fs w
at_end cs fs w _ (crashes c) e = cc
at_end cs fs w _ (returns u l n) e = it_returns u l n.main_context n.main_childs λ i. n.only i tt
at_end cs fs w _ (serves m u l n a) e = cc

at_crash :
    (cs : List Call) (fs : List Frame) (w : World) (o : Outcome (List Process))
    → Serves cs fs w o
    → o ≡ fault dangling
    → Outcomes cs fs w
at_crash cs fs w _ (crashes {x} l) e =
    let same : x ≡ dangling = cc in it_crashes (subst (λ y. Leads w (fault y)) same l)
at_crash cs fs w _ (returns u l n) e = cc
at_crash cs fs w _ (serves m u l n a) e = cc

at_deadlock :
    (cs : List Call) (fs : List Frame) (w : World) (p : Process) (r : List Process)
    → Serves cs fs w (ok (p ∷ r))
    → All Stuck (p ∷ r)
    → Outcomes cs fs w
at_deadlock cs fs w p r (serves m u l n a) b = it_spins u l (
    Spins-Forever cs fs u (
      in_round m p.address (addresses r) n.current n.main_context n.main_childs
        (omega (arith, a, length-addresses r)) (Stuck-Asleep u (p ∷ r) n.all b)))

-- Let the children of the main context be coroutines, no two of them the same and no others there,
-- whose functions yield, send each other messages by `mput` and take them by `mget(msg, true)`, and
-- wait for events and tell each other that these have come, by the flags and the `yield` that
-- `set_io` and the reactor's callback use. Then a call of `resume(0)` does one of three things after
-- some number of steps: it returns, and all children are destroyed; or it uses a destroyed object,
-- for which a message or an event is; or it goes round for ever, as all children left wait for a
-- message or an event: however many steps follow, none of them gets the thread, no object changes
-- and the call does not return.
pub resume_all-Outcomes :
    (q : List Process) (cs : List Call) (fs : List Frame) (w : World)
    → Network q (Frame.user (Call.resume none ∷ cs) ∷ fs) w
    → Outcomes cs fs w
resume_all-Outcomes q cs fs w s = go (settles q)
  where
    go : Settles q → Outcomes cs fs w
    go (ended n e) = at_end cs fs w _ (resume_all-turns n q cs fs w s) e
    go (crashed n e) = at_crash cs fs w _ (resume_all-turns n q cs fs w s) e
    go (deadlocked n p r e a) =
        at_deadlock cs fs w p r (subst (Serves cs fs w) e (resume_all-turns n q cs fs w s)) a
