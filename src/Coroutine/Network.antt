-- ===== src/Coroutine/Network.antt =====
-- Children of the main context that send each other messages and events: the processes that they are,
-- one turn at a time, and the worlds of the machine that stand for it.
pub mod Queue
pub mod Steps
pub mod Mail
pub mod Turn
pub mod Run
pub mod First
pub mod Refines
pub mod Settles
pub mod Spins
pub mod Deadlock
pub mod Examples
use boost_coro.Base.{
  ℕ, zero, suc, ◌==◌, ◌≡◌, ◌≢◌, ◌⊎◌, if◌then◌else◌, none, some, Outcome, ok, fault, dangling, ◌>>=◌,
  List, [], ◌∷◌, ◌++◌, All, map,
}
use boost_coro.Coroutine.State.{
  Address, Channel, evet_wait, stat_init, stat_wait, Call, Frame, Coroutine, World,
}
use boost_coro.Coroutine.Machine.{coro_context, steps}

-- What a process does.
pub data Action : Type 0 where
  give_way receive await : Action
  send : Address → ℕ → Action
  fire : Address → Action

-- What a process waits for: nothing, a message, or an event.
pub data Waiting : Type 0 where
  nothing message event : Waiting

pub record Process : Type 0 where
  pub address : Address
  pub script : List Action
  -- with `message` it has found nothing to receive, and is still at that
  pub waits : Waiting
  -- the messages that it has not taken yet, oldest first
  pub mail : List ℕ
  -- those it has taken, newest first
  pub received : List ℕ

-- Something happens to the process at an address, which has to be there.
unfoldable pub update : (Process → Process) → Address → List Process → Outcome (List Process)
update f j [] = fault dangling
update f j (p ∷ ps) =
    let others = update f j ps in
    if p.address == j then ok (f p ∷ ps) else (others >>= λ l. ok (p ∷ l))

-- A message is put behind the others.
abbrev pub given : ℕ → Process → Process
given m p = record p { mail = p.mail ++ m ∷ [] }

abbrev pub no_event : Waiting → Waiting
no_event nothing = nothing
no_event message = message
no_event event = nothing

-- The event has come, if the process waits for one.
abbrev pub released : Process → Process
released p = record p { waits = no_event p.waits }

-- The process at `k` with these actions left, mail and messages received runs until it gives way, has
-- nothing to receive, waits for an event, or ends. Then it is the last of the queue, or no more in it.
unfoldable pub run : Address → List Action → List ℕ → List ℕ → List Process → Outcome (List Process)
unfolding update
run k [] mail got q = ok q
run k (give_way ∷ s) mail got q =
    ok (q ++ record { address = k; script = s; waits = nothing; mail = mail; received = got } ∷ [])
run k (await ∷ s) mail got q =
    ok (q ++ record { address = k; script = s; waits = event; mail = mail; received = got } ∷ [])
run k (receive ∷ s) [] got q = ok (
    q
    ++ record { address = k; script = receive ∷ s; waits = message; mail = []; received = got }
      ∷ [])
run k (receive ∷ s) (m ∷ mail) got q = run k s mail (m ∷ got) q
run k (send j m ∷ s) mail got q =
    let self = run k s (mail ++ m ∷ []) got q in
    if k == j then self else (update (given m) j q >>= run k s mail got)
run k (fire j ∷ s) mail got q =
    let self = run k s mail got q in
    if k == j then self else (update released j q >>= run k s mail got)

unfoldable pub turn_of : Waiting → Process → List Process → Outcome (List Process)
unfolding run
turn_of event p q = ok (q ++ p ∷ [])
turn_of nothing p q = run p.address p.script p.mail p.received q
turn_of message p q = run p.address p.script p.mail p.received q

-- The first of the queue has its turn, if it waits for no event.
unfoldable pub turn : List Process → Outcome (List Process)
unfolding turn_of
turn [] = ok []
turn (p ∷ q) = turn_of p.waits p q

unfoldable pub turns : ℕ → List Process → Outcome (List Process)
unfolding turn
turns zero q = ok q
turns (suc n) q = turn q >>= turns n

-- The function of the coroutine at `k` that does this. It waits for an event as `set_io` makes it wait,
-- and the event comes as the callback of the reactor tells it, when the time has not run out.
abbrev pub calls_of : Address → List Action → List Call
calls_of k [] = []
calls_of k (give_way ∷ s) = Call.yield ∷ calls_of k s
calls_of k (receive ∷ s) = Call.mget_yield ∷ calls_of k s
calls_of k (await ∷ s) = Call.flag_set Channel.evet k evet_wait ∷ Call.yield ∷ calls_of k s
calls_of k (send j m ∷ s) = Call.mput j m ∷ calls_of k s
calls_of k (fire j ∷ s) = Call.flag_del Channel.evet j evet_wait ∷ calls_of k s

-- Where a coroutine without the thread stands in its function, and the flags it has then: in front of
-- an action, inside `mget(msg, true)`, without a message or with one that has come meanwhile, or
-- behind the `yield` of `set_io`.
pub data Stands (k : Address)
    : List Action → Waiting → List ℕ → ℕ → ℕ → ℕ → List Frame → Type 0 where
  in_front :
      {s : List Action} {mail : List ℕ} {stat : ℕ}
      → (stat ≡ stat_init) ⊎ (stat ≡ stat_wait)
      → Stands k s nothing mail stat 0 0 (Frame.user (calls_of k s) ∷ Frame.execute_tail ∷ [])
  blocked :
      {s : List Action}
      → Stands k
          (receive ∷ s)
          message
          []
          stat_wait
          0
          1
          (Frame.mget_loop ∷ Frame.user (calls_of k s) ∷ Frame.execute_tail ∷ [])
  woken :
      {s : List Action} {m : ℕ} {mail : List ℕ}
      → Stands k
          (receive ∷ s)
          message
          (m ∷ mail)
          stat_wait
          0
          0
          (Frame.mget_loop ∷ Frame.user (calls_of k s) ∷ Frame.execute_tail ∷ [])
  awaiting :
      {s : List Action} {mail : List ℕ}
      → Stands k s event mail stat_wait 1 0 (Frame.user (calls_of k s) ∷ Frame.execute_tail ∷ [])

-- The object at the process's address is the process, and has not the thread.
pub record Here (w : World) (p : Process) : Type 0 where
  pub object : Coroutine
  pub frames : List Frame
  pub here : w.heap p.address ≡ some object
  pub childs : object.childs ≡ []
  pub parent : object.parent ≡ none
  pub messages : object.messages ≡ p.mail
  pub received : object.received ≡ p.received
  pub context : coro_context object ≡ some frames
  pub stands : Stands p.address p.script p.waits p.mail object.stat object.evet object.msg frames

-- No two processes have one address.
abbrev pub Apart : List Process → Type 0
Apart [] = Unit
Apart (p ∷ q) = All (λ (i : Process). i.address ≢ p.address) q × Apart q

abbrev pub addresses : List Process → List Address
addresses q = map (λ (p : Process). p.address) q

-- The main context has the thread and the frames `fs`, its children are the processes of the queue, in
-- its order, and there are no other coroutines.
pub record Network (q : List Process) (fs : List Frame) (w : World) : Type 0 where
  pub current : w.current ≡ none
  pub main_context : w.main_context ≡ fs
  pub main_childs : w.main_childs ≡ addresses q
  pub all : All (Here w) q
  pub apart : Apart q
  pub only : (i : Address) → All (λ (p : Process). p.address ≢ i) q → w.heap i ≡ none

-- `resume(0)`, with `m` children left of the round.
abbrev pub serving : List Call → List Frame → ℕ → List Frame
serving cs fs m = Frame.childs_loop none m ∷ Frame.resume_all ∷ Frame.user cs ∷ fs

-- Some number of steps comes to this.
abbrev pub Leads : World → Outcome World → Type 0
Leads w o = (n : ℕ) × (steps n w ≡ o)
