-- ===== src/Coroutine/Examples.antt =====
-- Runs of the runtime from the start of a program, and the theorems at concrete worlds.
use boost_coro.Base.{
  ℕ, zero, suc, ◌==◌, ◌≡◌, refl, inl, inr, false, if◌then◌else◌, Option, none, some, List, [], ◌∷◌,
  length, Outcome, ok, fault, ◌>>=◌, arith,
}
use boost_coro.Coroutine.State.{
  Address, stat_wait, stat_busy, evet, evet_come, mesg_wait, Call, Frame, Coroutine, World, new,
  deref, store, modify,
}
use boost_coro.Coroutine.Flags.{chk, clear, notify, flag_add, flag_set, flag_del}
use boost_coro.Coroutine.Flags.Chain.{Ancestors, Told, flag_add-Told}
use boost_coro.Coroutine.Machine.{transfer_pre, resume_begin, mput, step, steps}
use boost_coro.Coroutine.Busy.{OneBusy, Agrees, Edge, stat_of}
use boost_coro.Coroutine.Busy.Steps.{step_life, steps-OneBusy}
use boost_coro.Coroutine.Walk.Posting.{copies, posted}
use boost_coro.Coroutine.History.{history_of, Exactly}
use boost_coro.Coroutine.History.Posts.{steps-Exactly}
use boost_coro.Coroutine.Resume.{IsReady, entered, with_stat, resume_returns, resume_ancestor}
use boost_coro.Coroutine.Mailbox.{
  Knowing, messages_of, mget_all, rev_onto, mput_delivers, mput_tells, mget-mput,
}

abbrev received_of : Option Coroutine → List ℕ
received_of none = []
received_of (some c) = c.received

abbrev objects : Option Coroutine → Option Coroutine → Address → Option Coroutine
objects a b zero = a
objects a b (suc zero) = b
objects a b (suc (suc i)) = none

-- A program of two coroutines: the first one gets a message from the second, its child.
abbrev receiver : Coroutine
receiver = new 0 (Call.child 1 ∷ Call.mget_yield ∷ [])

abbrev sender : Coroutine
sender = new 0 (Call.mput 0 42 ∷ [])

abbrev main_program : List Call
main_program = Call.child 0 ∷ Call.resume none ∷ []

abbrev program : World
program = record {
  current = none;
  main_childs = [];
  main_context = Frame.user main_program ∷ [];
  heap = objects (some receiver) (some sender);
  created = 2;
}

program-OneBusy : OneBusy program
unfolding new
program-OneBusy = record { agrees = go }
  where
    go : (i : Address) → Agrees false (objects (some receiver) (some sender) i)
    go zero = (inl refl, refl)
    go (suc zero) = (inl refl, refl)
    go (suc (suc i)) = refl

-- What is left of the two coroutines after `n` steps, and what the first one has received.
abbrev outcome : Outcome World → Option ((Option ℕ) × (Option ℕ) × List ℕ × ℕ)
outcome (ok w) =
    some (stat_of (w.heap 0), stat_of (w.heap 1), received_of (w.heap 0), length w.main_context)
outcome (fault e) = none

-- The first one waits for a message, and has resumed the second.
program_waits : outcome (steps 6 program) ≡ some (some stat_wait, some stat_busy, [], 3)
unfolding steps new deref store modify flag_set flag_del notify clear chk
program_waits = refl

-- The message has arrived; the second one is done and destroyed.
program_receives : outcome (steps 17 program) ≡ some (some stat_busy, none, 42 ∷ [], 3)
unfolding steps new deref store modify flag_set flag_del notify clear chk
program_receives = refl

-- The main program has returned, and both coroutines are destroyed.
program_ends : outcome (steps 60 program) ≡ some (none, none, [], 0)
unfolding steps new deref store modify flag_set flag_del notify clear chk
program_ends = refl

-- A coroutine that runs, and its child.
abbrev parent : Coroutine
parent = record (new 0 []) { stat = stat_busy; childs = 1 ∷ []; context = some [] }

abbrev child : Coroutine
child = record (new 0 []) { parent = some 0 }

abbrev family : Coroutine → Coroutine → Option Address → World
family a b current = record {
  current = current;
  main_childs = 0 ∷ [];
  main_context = [];
  heap = objects (some a) (some b);
  created = 2;
}

abbrev parent_runs : World
parent_runs = family parent child (some 0)

parent_runs-OneBusy : OneBusy parent_runs
unfolding new
parent_runs-OneBusy = record { agrees = go }
  where
    go : (i : Address) → Agrees (0 == i) (objects (some parent) (some child) i)
    go zero = (inr (inr (inl refl)), refl)
    go (suc zero) = (inl refl, refl)
    go (suc (suc i)) = ground arith

child-IsReady : IsReady child
unfolding new chk
child-IsReady = record {
  stat = inl refl;
  evet_free = refl;
  msg_free = refl;
  evet_quiet = refl;
  msg_quiet = refl;
}

-- The child runs, resumed by its parent.
abbrev resting_parent : Coroutine
resting_parent = record parent { stat = stat_wait }

abbrev running_child : Coroutine
running_child = record child { stat = stat_busy; pre = some 0; context = some [] }

abbrev child_runs : World
child_runs = family resting_parent running_child (some 1)

child_runs-OneBusy : OneBusy child_runs
unfolding new
child_runs-OneBusy = record { agrees = go }
  where
    go : (i : Address) → Agrees (1 == i) (objects (some resting_parent) (some running_child) i)
    go zero = (inr (inl refl), refl)
    go (suc zero) = (inr (inr (inl refl)), refl)
    go (suc (suc i)) = ground arith

resting_parent-IsReady : IsReady resting_parent
unfolding new chk
resting_parent-IsReady = record {
  stat = inr refl;
  evet_free = refl;
  msg_free = refl;
  evet_quiet = refl;
  msg_quiet = refl;
}

-- The child waits for a message, and has an old one.
abbrev waiting_child : Coroutine
waiting_child = record child { stat = stat_wait; msg = mesg_wait; messages = 7 ∷ [] }

abbrev child_waits : World
child_waits = family parent waiting_child (some 0)

parents : Ancestors child_waits (some 1) (1 ∷ 0 ∷ [])
unfolding new
parents = (refl, (waiting_child, refl, (refl, (parent, refl, tt))))

flag_add-Told_example :
    (v : World) × (flag_add 3 evet 1 evet_come child_waits ≡ ok v)
    × Told evet 1 evet_come (0 ∷ []) v
flag_add-Told_example =
    flag_add-Told evet 1 evet_come child_waits (0 ∷ []) parents (omega arith) (ground arith)

resume_returns_example :
    (v u : World) × (resume_begin (some 0) 1 parent_runs ≡ ok v)
    × (v.current ≡ some 1)
    × (transfer_pre 1 v ≡ ok u)
    × (u.current ≡ some 0)
    × ((j : Address)
        → u.heap j ≡ (
            if j == 1
            then some (with_stat stat_wait (entered (some 0) child))
            else parent_runs.heap j))
resume_returns_example =
    resume_returns 0 1 child parent parent_runs parent_runs-OneBusy refl refl refl child-IsReady

resume_ancestor_example :
    (v : World) × (x y : Coroutine) × (resume_begin (some 1) 0 child_runs ≡ ok v)
    × (v.heap 0 ≡ some x)
    × (x.pre ≡ some 1)
    × (v.heap 1 ≡ some y)
    × (y.pre ≡ some 0)
resume_ancestor_example =
    resume_ancestor 1 0 resting_parent running_child child_runs child_runs-OneBusy refl refl refl
      refl resting_parent-IsReady

mput_delivers_example :
    (v : World) × (d : Coroutine) × (mput 1 42 child_waits ≡ ok v)
    × (v.heap 1 ≡ some d)
    × (chk d.msg mesg_wait ≡ false)
    × ((j : Address)
        → messages_of (v.heap j)
          ≡ (if j == 1 then 7 ∷ 42 ∷ [] else messages_of (child_waits.heap j)))
unfolding new
mput_delivers_example =
    mput_delivers 1 42 waiting_child (0 ∷ []) child_waits refl (refl, (parent, refl, tt))
      (omega arith)

mput_tells_example : (v : World) × (mput 1 42 child_waits ≡ ok v) × Knowing (0 ∷ []) v
unfolding new chk
mput_tells_example =
    mput_tells 1 42 waiting_child (0 ∷ []) child_waits refl (refl, (parent, refl, tt)) (omega arith)
      refl

mget-mput_example :
    (v : World) × (d : Coroutine) × ((mput 1 42 child_waits >>= mget_all 2 1) ≡ ok v)
    × (v.heap 1 ≡ some d)
    × (d.messages ≡ [])
    × (d.received ≡ 42 ∷ 7 ∷ [])
unfolding new rev_onto
mget-mput_example =
    mget-mput 1 42 waiting_child (0 ∷ []) child_waits refl (refl, (parent, refl, tt)) (omega arith)

-- The world after `n` steps of the program, where they return.
abbrev after : Outcome World → World
after (ok w) = w
after (fault e) = program

step_life_example :
    OneBusy (after (step program))
    × ((i : Address) → Edge (stat_of (program.heap i)) ((after (step program)).heap i))
unfolding step new deref store modify
step_life_example = step_life program-OneBusy refl

steps-OneBusy_example : OneBusy (after (steps 17 program))
unfolding steps new deref store modify flag_set flag_del notify clear chk
steps-OneBusy_example = steps-OneBusy 17 program-OneBusy refl

-- The message is in the receiver's queue, and is taken in the steps that follow.
abbrev in_queue : World
in_queue = after (steps 12 program)

in_queue_messages : messages_of (in_queue.heap 0) ≡ 42 ∷ []
unfolding steps new deref store modify flag_set flag_del notify clear chk
in_queue_messages = refl

in_queue_posted : posted 12 program 0 ≡ 42 ∷ []
unfolding steps posted copies new deref store modify flag_set flag_del notify clear chk
in_queue_posted = refl

steps-Exactly_example :
    Exactly (history_of (program.heap 0)) (posted 12 program 0) (in_queue.heap 0)
unfolding steps new deref store modify flag_set flag_del notify clear chk
steps-Exactly_example = steps-Exactly 12 program in_queue refl 0

-- A program where the first coroutine sends to its child by `mbroadcast`
abbrev broadcaster : Coroutine
broadcaster = new 0 (Call.child 1 ∷ Call.mbroadcast 0 7 ∷ [])

abbrev listener : Coroutine
listener = new 0 []

abbrev broadcast : World
broadcast = record program { heap = objects (some broadcaster) (some listener) }

seven_posted : posted 9 broadcast 1 ≡ 7 ∷ []
unfolding steps posted copies new deref store modify flag_set flag_del notify clear chk
seven_posted = refl

seven_queued : messages_of ((after (steps 9 broadcast)).heap 1) ≡ 7 ∷ []
unfolding steps new deref store modify flag_set flag_del notify clear chk
seven_queued = refl
