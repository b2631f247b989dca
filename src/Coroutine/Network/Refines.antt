-- ===== src/Coroutine/Network/Refines.antt =====
-- `resume(0)` of the main context does to its children what the network does.
use boost_coro.Base.{
  ℕ, zero, suc, ◌≤◌, ◌≡◌, refl, none, Outcome, ok, fault, Fault, ◌>>=◌, List, [], ◌∷◌, length,
  arith,
}
use boost_coro.Coroutine.State.{Call, Frame, World}
use boost_coro.Coroutine.Machine.{step}
use boost_coro.Coroutine.RoundRobin.Queue.{framed}
use boost_coro.Coroutine.Network.{Process, turn, turns, Network, serving, Leads}
use boost_coro.Coroutine.Network.Queue.{length-addresses}
use boost_coro.Coroutine.Network.Steps.{leads, onwards, one_step, arrives}
use boost_coro.Coroutine.Network.Mail.{Here-same}
use boost_coro.Coroutine.Network.Turn.{Meets}
use boost_coro.Coroutine.Network.First.{turn-Meets}

pub framed-Network :
    {q : List Process} {gs : List Frame} {w : World} (hs : List Frame)
    → Network q gs w
    → Network q hs (framed hs w)
framed-Network {q} {gs} {w} hs n = record {
  current = n.current;
  main_context = refl;
  main_childs = n.main_childs;
  all = Here-same w (framed hs w) q (λ i. refl) n.all;
  apart = n.apart;
  only = n.only;
}

-- What a call of `resume(0)` comes to, when the network comes to this queue or fault: it crashes with
-- the network, returns when no process is left, and serves the processes that are left.
pub data Serves (cs : List Call) (fs : List Frame) (w : World)
    : Outcome (List Process) → Type 0 where
  crashes : {x : Fault} → Leads w (fault x) → Serves cs fs w (fault x)
  returns :
      (u : World) → Leads w (ok u) → Network [] (Frame.user cs ∷ fs) u → Serves cs fs w (ok [])
  serves :
      {p : Process} {q : List Process} (m : ℕ) (u : World)
      → Leads w (ok u)
      → Network (p ∷ q) (serving cs fs m) u
      → m ≤ suc (length q)
      → Serves cs fs w (ok (p ∷ q))

module _ (cs : List Call) (fs : List Frame) where
  round_ends :
      (q : List Process) (w : World)
      → Network q (serving cs fs 0) w
      → step w ≡ ok (framed (Frame.resume_all ∷ Frame.user cs ∷ fs) w)
  unfolding step
  round_ends q w n = rw (n.current, n.main_context) refl

  round_begins :
      (p : Process) (q : List Process) (w : World)
      → Network (p ∷ q) (Frame.resume_all ∷ Frame.user cs ∷ fs) w
      → step w ≡ ok (framed (serving cs fs (suc (length q))) w)
  unfolding step
  round_begins p q w n =
      rw (n.current, n.main_context, n.main_childs) (ground (arith, length-addresses q))

  resume_begins :
      (p : Process) (q : List Process) (w : World)
      → Network (p ∷ q) (Frame.user (Call.resume none ∷ cs) ∷ fs) w
      → step w ≡ ok (framed (serving cs fs (suc (length q))) w)
  unfolding step
  resume_begins p q w n =
      rw (n.current, n.main_context, n.main_childs) (ground (arith, length-addresses q))

  resume_all_ends :
      (w : World)
      → Network [] (Frame.resume_all ∷ Frame.user cs ∷ fs) w
      → step w ≡ ok (framed (Frame.user cs ∷ fs) w)
  unfolding step
  resume_all_ends w n = rw (n.current, n.main_context, n.main_childs) (ground arith)

  resume_nobody :
      (w : World)
      → Network [] (Frame.user (Call.resume none ∷ cs) ∷ fs) w
      → step w ≡ ok (framed (Frame.user cs ∷ fs) w)
  unfolding step
  resume_nobody w n = rw (n.current, n.main_context, n.main_childs) (ground arith)

  Serves-before :
      {o : Outcome (List Process)} (w v : World)
      → Leads w (ok v)
      → Serves cs fs v o
      → Serves cs fs w o
  Serves-before w v l (crashes {x} c) = crashes (onwards w v (fault x) l c)
  Serves-before w v l (returns u r n) = returns u (onwards w v (ok u) l r) n
  Serves-before w v l (serves m u r n a) = serves m u (onwards w v (ok u) l r) n a

  goes_on :
      (n m : ℕ) (o : Outcome (List Process)) (w : World)
      → Meets m cs fs o w
      → ((q : List Process) (u : World)
          → Network q (serving cs fs m) u
          → m ≤ length q
          → Serves cs fs u (turns n q))
      → Serves cs fs w (o >>= turns n)
  goes_on n m (fault x) w l next = crashes l
  goes_on n m (ok q) w (u, l, s, a) next = Serves-before w u l (next q u s a)

  after_round : (w : World) → Network [] (serving cs fs 0) w → Serves cs fs w (ok [])
  after_round w s =
      let s1 = framed-Network (Frame.resume_all ∷ Frame.user cs ∷ fs) s in
      let e = resume_all_ends _ s1 in
      returns _ (leads w _ _ (round_ends [] w s) (one_step _ _ e))
        (framed-Network (Frame.user cs ∷ fs) s1)

  serve_turns :
      (n m : ℕ) (q : List Process) (w : World)
      → Network q (serving cs fs m) w
      → m ≤ length q
      → Serves cs fs w (turns n q)
  unfolding turns turn
  serve_turns zero zero [] w s a = after_round w s
  serve_turns zero (suc m) [] w s a = absurd (omega arith)
  serve_turns zero m (p ∷ q) w s a = serves m w (arrives w w refl) s a
  serve_turns (suc n) m [] w s a = serve_turns n m [] w s a
  serve_turns (suc n) (suc m) (p ∷ q) w s a =
      goes_on n m (turn (p ∷ q)) w (turn-Meets cs fs p q m w s (omega arith))
        λ l u. serve_turns n m l u
  serve_turns (suc n) zero (p ∷ q) w s a =
      let s1 = framed-Network (Frame.resume_all ∷ Frame.user cs ∷ fs) s in
      let s2 = framed-Network (serving cs fs (suc (length q))) s1 in
      Serves-before w _ (leads w _ _ (round_ends _ w s) (one_step _ _ (round_begins p q _ s1))) (
        goes_on n (length q) (turn (p ∷ q)) _ (turn-Meets cs fs p q (length q) _ s2 (omega arith))
          λ l u. serve_turns n (length q) l u)

-- Let the children of the main context be coroutines, no two of them the same and no others there,
-- whose functions yield, send each other messages by `mput` and take them by `mget(msg, true)`, and
-- wait for events and tell each other that these have come, by the flags and the `yield` that
-- `set_io` and the reactor's callback use. After any number of turns of the network of processes
-- that they are, a call of `resume(0)` gets, by some number of steps, to where they stand as the
-- network says, in its order of the queue: it has returned if the queue is empty, and is at a
-- child's turn if not. Where the network has a message or an event for a process that is not there,
-- the call uses a destroyed object.
pub resume_all-turns :
    (n : ℕ) (q : List Process) (cs : List Call) (fs : List Frame) (w : World)
    → Network q (Frame.user (Call.resume none ∷ cs) ∷ fs) w
    → Serves cs fs w (turns n q)
unfolding turns turn
resume_all-turns zero [] cs fs w s =
    returns _ (one_step w _ (resume_nobody cs fs w s)) (framed-Network (Frame.user cs ∷ fs) s)
resume_all-turns (suc n) [] cs fs w s = resume_all-turns n [] cs fs w s
resume_all-turns n (p ∷ q) cs fs w s =
    let s1 = framed-Network (serving cs fs (suc (length q))) s in
    Serves-before cs fs w _ (one_step w _ (resume_begins cs fs p q w s))
      (serve_turns cs fs n (suc (length q)) (p ∷ q) _ s1 (omega arith))
