-- ===== src/Cothread.antt =====
-- The threads of boost/coroutine/cothread/cothread.cpp: their children, and `join`. The system's
-- `pthread_join` is a parameter; it returns an error as `none`.
pub mod Start
pub mod Join
pub mod Reaped
pub mod Restart
pub mod Examples
use boost_coro.Base.{
  ℕ, zero, suc, ◌==◌, Bool, true, false, if◌then◌else◌, Option, none, some, List, [], ◌∷◌, ◌++◌,
  length, Outcome, ok, fault, dangling, assert_failed, ◌>>=◌, ℤ,
}

abbrev pub Thread : Type 0
Thread = ℕ

-- `cothread_base_t`, less its function
pub record Cothread : Type 0 where
  pub runned : Bool
  pub joined : Bool
  pub pid : ℕ
  pub socketpair : ℤ × ℤ
  pub childs : List Thread

-- `this_cothread_core_data_t` of one thread, all the objects, and the state of the system
pub record Threads (System : Type 0) : Type 0 where
  pub current : Option Thread
  pub main_childs : List Thread
  pub objects : Thread → Option Cothread
  pub system : System

-- cothread_base_t(), with what `socketpair` gave
unfoldable pub new : Option (ℤ × ℤ) → Outcome Cothread
new none = fault assert_failed
new (some pair) =
    ok (record { runned = false; joined = false; pid = 0; socketpair = pair; childs = [] })

abbrev pub the_thread : Option Cothread → Outcome Cothread
the_thread none = fault dangling
the_thread (some c) = ok c

abbrev pub rest_of : List Thread → List Thread
rest_of [] = []
rest_of (t ∷ ts) = ts

abbrev pub front_of : List Thread → Option Thread
front_of [] = none
front_of (t ∷ ts) = some t

module _ {System : Type 0} where
  unfoldable pub load : Thread → Threads System → Outcome Cothread
  load t w = the_thread (w.objects t)

  unfoldable pub store : Thread → Option Cothread → Threads System → Threads System
  store t o w = record w { objects = λ u. if u == t then o else w.objects u }

  -- `this_cothread::child(cothread)`
  unfoldable pub add_child : Option Thread → Thread → Threads System → Outcome (Threads System)
  unfolding load store
  add_child none k w = ok (record w { main_childs = w.main_childs ++ k ∷ [] })
  add_child (some t) k w =
      load t w >>= λ c. ok (store t (some (record c { childs = c.childs ++ k ∷ [] })) w)

  -- `this_cothread::child()`, `cothread_base_t::child()`: take the first child, null if there is none
  unfoldable pub take_child :
      Option Thread → Threads System → Outcome (Option Thread × Threads System)
  unfolding load store
  take_child none w = ok (front_of w.main_childs, record w { main_childs = rest_of w.main_childs })
  take_child (some t) w = load t w >>= λ c.
      ok (front_of c.childs, store t (some (record c { childs = rest_of c.childs })) w)

module _ {System : Type 0} (pthread_join : ℕ → System → Option (ℕ × System)) where
  -- `assert(!pthread_join(pid, &retcode))`
  unfoldable pub checked : Option (ℕ × System) → Threads System → Outcome (ℕ × Threads System)
  checked none w = fault assert_failed
  checked (some (ret, s)) w = ok (ret, record w { system = s })

  unfoldable pub checked_join : ℕ → Threads System → Outcome (ℕ × Threads System)
  unfolding checked
  checked_join pid w = checked (pthread_join pid w.system) w

  -- `t->join()`
  unfoldable pub join_self : Thread → Threads System → Outcome (ℕ × Threads System)
  unfolding load checked_join
  join_self t w = load t w >>= λ c. if c.joined then ok (0, w) else checked_join c.pid w

  -- `join(child)` of a thread's object
  unfoldable pub join_child : Thread → Threads System → Outcome (ℕ × Threads System)
  unfolding load store checked_join
  join_child k w = load k w >>= λ c.
      if c.joined
      then ok (0, w)
      else (checked_join c.pid w >>= λ r. ok (r.0, store k (some (record c { joined = true })) r.1))

  -- The loop of `this_cothread::join(0)`, on fuel: join each child and destroy it.
  unfoldable pub join_loop : ℕ → Option Thread → Threads System → Outcome (Threads System)
  unfolding take_child join_self store
  join_loop zero ctx w = fault assert_failed
  join_loop (suc fuel) ctx w = take_child ctx w >>= λ r. elim r.0 [
    | none ↦ ok r.1
    | some k ↦ join_self k r.1 >>= λ s. join_loop fuel ctx (store k none s.1)
  ]

  -- `this_cothread::join(child)` in the main thread. The loop has a round for each child and a last one.
  unfoldable pub join_main : Option Thread → Threads System → Outcome (Threads System)
  unfolding join_loop join_self
  join_main none w = join_loop (suc (length w.main_childs)) none w
  join_main (some k) w = join_self k w >>= λ r. ok r.1
