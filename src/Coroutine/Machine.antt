-- ===== src/Coroutine/Machine.antt =====
-- coroutine.cpp as a machine: one step runs the innermost frame of the context that has the thread.
-- A frame ends where its code calls a function that may switch contexts.
use boost_coro.Base.{
  ℕ, zero, suc, ◌*◌, ◌/◌, ◌==◌, Bool, false, not, ◌&&◌, ◌||◌, if◌then◌else◌, Option, none, some,
  bit_and, Outcome, ok, fault, null_deref, assert_failed, no_frame, ◌>>=◌, List, [], ◌∷◌, ◌++◌,
  length,
}
use mathlib.Core.Option
use boost_coro.Coroutine.State.{
  Address, stat_init, stat_wait, stat_busy, stat_done, evet, msg, evet_wait, evet_chld, mesg_wait,
  mesg_chld, Call, Frame, Coroutine, World, deref, store, modify,
}
use boost_coro.Coroutine.Flags.{chk, flag_set, flag_add, flag_del}

-- `push` puts a frame on the stack of a context; `none` is the main one.
unfoldable pub push : Option Address → Frame → World → Outcome World
push none f w = ok (record w { main_context = f ∷ w.main_context })
push (some i) f w = modify i (λ c. record c { context = Option.map (λ fs. f ∷ fs) c.context }) w

-- `coro_context()`: a context is made by `coro_create` when first asked for, and starts in `execute`.
unfoldable pub coro_context : Coroutine → Option (List Frame)
coro_context c = elim c.context [
  | none ↦ some (Frame.user c.function ∷ Frame.execute_tail ∷ [])
  | some fs ↦ some fs
]

-- The list of children of a coroutine, or of the main context.
unfoldable pub childs_of : Option Address → World → Outcome (List Address)
childs_of none w = ok w.main_childs
childs_of (some i) w = deref i w >>= λ c. ok c.childs

unfoldable pub set_childs : Option Address → List Address → World → Outcome World
set_childs none l w = ok (record w { main_childs = l })
set_childs (some i) l w = modify i (λ c. record c { childs = l }) w

-- INIT => WAIT
abbrev pub wake : ℕ → ℕ
wake s = if s == stat_init then s * 2 else s

-- The half of `transfer` that is about the coroutine that gives up the thread: BUSY => WAIT.
unfoldable pub suspend : Option Address → World → Outcome World
suspend none w = ok w
suspend (some p) w = modify p (λ c. record c { stat = c.stat / 2 }) w

-- `transfer(coro_pre)`
unfoldable pub transfer : Option Address → Address → World → Outcome World
unfolding suspend coro_context
transfer coro_pre i w = deref i w >>= λ c.
    if wake c.stat == stat_wait
    then suspend coro_pre
        (record (store i
          (some (record c { stat = wake c.stat * 2; pre = coro_pre; context = coro_context c }))
          w) { current = some i })
    else fault assert_failed

-- The half of `transfer_pre` that is about the coroutine that gets the thread back: WAIT => BUSY.
unfoldable pub switch_back : Option Address → World → Outcome World
switch_back none w = ok (record w { current = none })
switch_back (some p) w = deref p w >>= λ c.
    if c.stat == stat_wait
    then ok (record (store p (some (record c { stat = c.stat * 2 })) w) { current = some p })
    else fault assert_failed

-- BUSY => WAIT
abbrev pub rest : ℕ → ℕ
rest s = if s == stat_busy then s / 2 else s

-- `transfer_pre()`
unfoldable pub transfer_pre : Address → World → Outcome World
unfolding switch_back
transfer_pre i w =
    deref i w >>= λ c. switch_back c.pre (store i (some (record c { stat = rest c.stat })) w)

abbrev pub same : Option Address → Address → Bool
same none i = false
same (some j) i = j == i

abbrev pub or_self : Option Address → Address → Address
or_self none i = i
or_self (some j) i = j

-- `resume_childs(coro)` up to its loop: in a coroutine, the method; in the main context, the version
-- of `this_coroutine`.
unfoldable pub start_childs : Option Address → Option Address → World → Outcome World
unfolding childs_of push
start_childs none coro w = childs_of coro w >>= λ l. push none (Frame.childs_loop coro (length l)) w
start_childs (some i) coro w =
    let cur = or_self coro i in
    deref cur w >>= λ c.
    if same coro i && (not (chk c.evet evet_chld) && not (chk c.msg evet_chld)) then ok w else do
      w1 ← flag_del evet cur evet_chld w
      w2 ← flag_del msg cur mesg_chld w1
      l ← childs_of (some cur) w2
      push (some i) (Frame.childs_loop (some cur) (length l)) w2

-- The end of `resume(coro)`: the switch, unless the coroutine waits for an event or a message.
unfoldable pub resume_end : Option Address → Address → World → Outcome World
unfolding transfer
resume_end ctx i w = deref i w >>= λ c.
    if chk c.evet evet_wait || chk c.msg mesg_wait then ok w else transfer ctx i w

-- `resume(coro)` of a coroutine that is there.
unfoldable pub resume_begin : Option Address → Address → World → Outcome World
unfolding push start_childs resume_end
resume_begin ctx i w = deref i w >>= λ c.
    if c.stat == stat_done
    then ok w
    else if bit_and c.stat 0x03 == 0
    then ok w
    else if chk c.evet evet_chld || chk c.msg mesg_chld
    then push ctx (Frame.resume_tail i) w >>= start_childs ctx (some i)
    else resume_end ctx i w

-- `resume_childs`, from the head of its loop to the call of `resume(child)`.
unfoldable pub next_child :
    Option Address → Option Address → ℕ → List Address → World → Outcome World
unfolding set_childs push resume_begin
next_child ctx coro n [] w = fault null_deref
next_child ctx coro n (k ∷ l) w = do
  w1 ← set_childs coro l w
  c ← deref k w1
  if c.stat == stat_done
      then push ctx (Frame.childs_loop coro n) (store k none w1)
      else (push ctx (Frame.childs_check coro k n) w1 >>= resume_begin ctx k)

unfoldable pub childs_round : Option Address → Option Address → ℕ → World → Outcome World
unfolding childs_of next_child
childs_round ctx coro zero w = ok w
childs_round ctx coro (suc n) w = childs_of coro w >>= λ l. next_child ctx coro n l w

-- The rest of the round, after `resume(child)`: a child that is done is destroyed.
unfoldable pub childs_check : Option Address → Option Address → Address → ℕ → World → Outcome World
unfolding childs_of set_childs push
childs_check ctx coro k n w = deref k w >>= λ c.
    if c.stat == stat_done then push ctx (Frame.childs_loop coro n) (store k none w) else do
      l ← childs_of coro w
      w1 ← set_childs coro (l ++ k ∷ []) w
      push ctx (Frame.childs_loop coro n) w1

-- `yield()` up to its `transfer_pre`
unfoldable pub yield : Address → World → Outcome World
unfolding push start_childs
yield i w = push (some i) Frame.yield_tail w >>= start_childs (some i) none

-- `mput(msg)`
unfoldable pub mput : Address → ℕ → World → Outcome World
mput i m w =
    flag_del msg i mesg_wait w >>= modify i (λ c. record c { messages = c.messages ++ m ∷ [] })

-- `mbroadcast(msg)` on the children that are left to serve
unfoldable pub broadcast_child :
    (World → Outcome World) → Address → ℕ → List Address → World → Outcome World
unfolding mput childs_of set_childs
broadcast_child next i m [] w = fault null_deref
broadcast_child next i m (k ∷ l) w = do
  w1 ← set_childs (some i) l w
  w2 ← mput k m w1
  l2 ← childs_of (some i) w2
  w3 ← set_childs (some i) (l2 ++ k ∷ []) w2
  next w3

unfoldable pub broadcast_loop : ℕ → Address → ℕ → World → Outcome World
unfolding broadcast_child
broadcast_loop zero i m w = ok w
broadcast_loop (suc n) i m w =
    childs_of (some i) w >>= λ l. broadcast_child (broadcast_loop n i m) i m l w

unfoldable pub mbroadcast : Address → ℕ → World → Outcome World
unfolding broadcast_loop
mbroadcast i m w = childs_of (some i) w >>= λ l. broadcast_loop (length l) i m w

-- `msg = _coro_messages.front(); _coro_messages.pop_front()`, or `empty` if there is none
unfoldable pub take_message : (World → Outcome World) → Address → World → Outcome World
take_message empty i w = deref i w >>= λ c. elim c.messages [
  | [] ↦ empty w
  | m ∷ ms ↦ ok (store i (some (record c { messages = ms; received = m ∷ c.received })) w)
]

-- `mget(msg, true)` at the head of its loop
unfoldable pub mget_wait : Address → World → Outcome World
unfolding push yield
mget_wait i w = do
  w1 ← flag_set msg i mesg_wait w
  w2 ← push (some i) Frame.mget_loop w1
  yield i w2

unfoldable pub mget_loop : Address → World → Outcome World
unfolding take_message mget_wait
mget_loop i w = take_message (mget_wait i) i w

-- `child(coro)`
unfoldable pub add_child : Option Address → Address → World → Outcome World
unfolding childs_of set_childs
add_child none k w = ok (record w { main_childs = w.main_childs ++ k ∷ [] })
add_child (some i) k w = modify k (λ c. record c { parent = some i }) w >>= λ w1.
    childs_of (some i) w1 >>= λ l. set_childs (some i) (l ++ k ∷ []) w1

-- `resume(0)` in the main context: as long as there are children
unfoldable pub resume_all : World → Outcome World
unfolding push start_childs
resume_all w = elim w.main_childs [
  | [] ↦ ok w
  | _ ∷ _ ↦ push none Frame.resume_all w >>= start_childs none none
]

-- The end of `execute`: the children run until there are none.
unfoldable pub execute_loop : Address → World → Outcome World
unfolding push start_childs transfer_pre
execute_loop i w = deref i w >>= λ c. elim c.childs [
  | [] ↦ transfer_pre i (store i (some (record c { stat = stat_done })) w)
  | _ ∷ _ ↦ push (some i) Frame.execute_loop w >>= start_childs (some i) none
]

-- `execute` after the coroutine's function
unfoldable pub execute_tail : Address → World → Outcome World
unfolding execute_loop
execute_tail i w =
    deref i w >>= λ c. if c.stat == stat_busy then execute_loop i w else fault assert_failed

-- A call of the interface by the context that runs. Those of `this_coroutine` that need a current
-- coroutine do nothing in the main context.
unfoldable pub call : Option Address → Call → World → Outcome World
unfolding yield resume_begin resume_all start_childs add_child mput mbroadcast take_message
    mget_loop
call none Call.yield w = ok w
call (some i) Call.yield w = yield i w
call ctx (Call.resume (some k)) w = resume_begin ctx k w
call none (Call.resume none) w = resume_all w
call (some i) (Call.resume none) w = ok w
call ctx (Call.resume_childs coro) w = start_childs ctx coro w
call ctx (Call.child k) w = add_child ctx k w
call ctx (Call.flag_set ch k v) w = flag_set ch k v w
call ctx (Call.flag_add ch k v) w = flag_add (suc w.created) ch k v w
call ctx (Call.flag_del ch k v) w = flag_del ch k v w
call ctx (Call.mput k m) w = mput k m w
call ctx (Call.mbroadcast k m) w = mbroadcast k m w
call none Call.mget w = ok w
call (some i) Call.mget w = take_message ok i w
call none Call.mget_yield w = ok w
call (some i) Call.mget_yield w = mget_loop i w

-- Run a frame that has been taken from the stack of the context.
unfoldable pub exec : Option Address → Frame → World → Outcome World
unfolding call push resume_end childs_round childs_check transfer_pre mget_loop resume_all
    execute_tail
exec ctx (Frame.user []) w = ok w
exec ctx (Frame.user (c ∷ cs)) w = push ctx (Frame.user cs) w >>= call ctx c
exec ctx (Frame.resume_tail i) w = resume_end ctx i w
exec ctx (Frame.childs_loop coro n) w = childs_round ctx coro n w
exec ctx (Frame.childs_check coro k n) w = childs_check ctx coro k n w
exec none Frame.resume_all w = resume_all w
exec (some i) Frame.resume_all w = ok w
exec none Frame.execute_tail w = fault no_frame
exec (some i) Frame.execute_tail w = execute_tail i w
exec none Frame.execute_loop w = fault no_frame
exec (some i) Frame.execute_loop w = execute_loop i w
exec none Frame.yield_tail w = fault no_frame
exec (some i) Frame.yield_tail w = transfer_pre i w
exec none Frame.mget_loop w = fault no_frame
exec (some i) Frame.mget_loop w = mget_loop i w

-- Take the innermost frame. A coroutine's context has none left only if `execute` has returned.
unfoldable pub pop_frame : Option Address → World → Outcome (Option Frame × World)
pop_frame none w = elim w.main_context [
  | [] ↦ ok (none, w)
  | f ∷ fs ↦ ok (some f, record w { main_context = fs })
]
pop_frame (some i) w = deref i w >>= λ c. elim c.context [
  | none ↦ fault no_frame
  | some fs ↦ elim fs [
    | [] ↦ fault no_frame
    | f ∷ gs ↦ ok (some f, store i (some (record c { context = some gs })) w)
  ]
]

unfoldable pub exec_some : Option Address → Option Frame → World → Outcome World
unfolding exec
exec_some ctx none w = ok w
exec_some ctx (some f) w = exec ctx f w

-- One step. The main program has returned when its context is empty; then a step changes nothing.
unfoldable pub step : World → Outcome World
unfolding pop_frame exec_some
step w = pop_frame w.current w >>= λ r. exec_some w.current r.0 r.1

unfoldable pub steps : ℕ → World → Outcome World
unfolding step
steps zero w = ok w
steps (suc n) w = step w >>= steps n
