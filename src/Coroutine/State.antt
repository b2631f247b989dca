-- ===== src/Coroutine/State.antt =====
-- The data of coroutine.h: `coroutine_base_t`, the thread's `this_cothread_data_t`, and the calls
-- that a coroutine's function makes. Objects live in a heap, by the number of their address.
use boost_coro.Base.{
  ℕ, ◌==◌, if◌then◌else◌, Option, none, some, Outcome, ok, fault, dangling, ◌>>=◌, List, [],
}

abbrev pub Address : Type 0
Address = ℕ

-- `_stat`
abbrev pub stat_init : ℕ
stat_init = 0x01

abbrev pub stat_wait : ℕ
stat_wait = 0x02

abbrev pub stat_busy : ℕ
stat_busy = 0x04

abbrev pub stat_done : ℕ
stat_done = 0x08

-- `_evet`
abbrev pub evet_wait : ℕ
evet_wait = 0x01

abbrev pub evet_come : ℕ
evet_come = 0x02

abbrev pub evet_time : ℕ
evet_time = 0x04

abbrev pub evet_signal : ℕ
evet_signal = 0x08

abbrev pub evet_cancel : ℕ
evet_cancel = 0x10

abbrev pub evet_chld : ℕ
evet_chld = 0x80

-- `_msg`
abbrev pub mesg_wait : ℕ
mesg_wait = 0x01

abbrev pub mesg_chld : ℕ
mesg_chld = 0x80

-- The two words of flags, `_evet` and `_msg`.
pub data Channel : Type 0 where
  evet msg : Channel

-- The calls of the public interface, as a coroutine's function or the main program makes them: those
-- of `this_coroutine`, which act on the caller, and those on an object, which name it.
pub data Call : Type 0 where
  yield : Call
  resume : Option Address → Call
  resume_childs : Option Address → Call
  child : Address → Call
  flag_set : Channel → Address → ℕ → Call
  flag_add : Channel → Address → ℕ → Call
  flag_del : Channel → Address → ℕ → Call
  mput : Address → ℕ → Call
  mbroadcast : Address → ℕ → Call
  mget : Call
  mget_yield : Call

-- What a context has still to do, innermost first: the rest of the client's function, or the rest of
-- a function of the library that has called another one.
pub data Frame : Type 0 where
  user : List Call → Frame
  execute_tail : Frame
  execute_loop : Frame
  childs_loop : Option Address → ℕ → Frame
  childs_check : Option Address → Address → ℕ → Frame
  resume_tail : Address → Frame
  yield_tail : Frame
  mget_loop : Frame
  resume_all : Frame

pub record Coroutine : Type 0 where
  pub stat : ℕ
  pub evet : ℕ
  pub msg : ℕ
  -- `_coro_context`, null until the first transfer to the coroutine
  pub context : Option (List Frame)
  pub pre : Option Address
  pub parent : Option Address
  pub function : List Call
  pub childs : List Address
  pub messages : List ℕ
  -- what `mget` has handed to the coroutine's function, newest first
  pub received : List ℕ

-- `this_cothread_data_t`, and the main context
pub record World : Type 0 where
  pub current : Option Address
  pub main_childs : List Address
  pub main_context : List Frame
  pub heap : Address → Option Coroutine
  -- how many coroutine objects there have been; the depth that the stack allows for calls to parents
  pub created : ℕ

-- coroutine_base_t(stack_sz). `_msg` is left as the memory has it.
unfoldable pub new_base : ℕ → Coroutine
new_base garbage = record {
  stat = stat_init;
  evet = 0;
  msg = garbage;
  context = none;
  pre = none;
  parent = none;
  function = [];
  childs = [];
  messages = [];
  received = [];
}

-- coroutine_t(f, …), with `f` bound to its arguments
unfoldable pub new : ℕ → List Call → Coroutine
unfolding new_base
new garbage f = record (new_base garbage) { function = f }

abbrev pub deref_in : Option Coroutine → Outcome Coroutine
deref_in none = fault dangling
deref_in (some c) = ok c

unfoldable pub deref : Address → World → Outcome Coroutine
deref i w = deref_in (w.heap i)

unfoldable pub store : Address → Option Coroutine → World → World
store i o w = record w { heap = λ j. if j == i then o else w.heap j }

-- `o->… = …`
unfoldable pub modify : Address → (Coroutine → Coroutine) → World → Outcome World
modify i f w = deref i w >>= λ c. ok (store i (some (f c)) w)
