-- ===== src/Cothread/Start.antt =====
-- The options, the start of a thread and what it does: cothread_option_t, resume, execute and the channels.
-- `pthread_create` and `pthread_join` are parameters, and so is what the thread's function does.
use boost_coro.Base.{
  ℕ, zero, suc, ◌==◌, Bool, true, false, if◌then◌else◌, Option, none, some, length, Outcome, ok,
  fault, assert_failed, ◌>>=◌, ℤ, pos, negsuc,
}
use boost_coro.Cothread.{Thread, Cothread, Threads, load, store, take_child, join_child}

-- `pthread_attr_t`: what the options set of it
pub record Attr : Type 0 where
  pub detach_state : Bool
  pub stack : Option ℕ
  pub guard : Option ℕ

-- `cothread_option_t`
pub record CothreadOption : Type 0 where
  pub detached : Bool
  pub attr : Attr

unfoldable pub new_option : CothreadOption
new_option = record {
  detached = false;
  attr = record { detach_state = false; stack = none; guard = none };
}

unfoldable pub stack_size : ℕ → CothreadOption → CothreadOption
stack_size sz o = record o { attr = record o.attr { stack = some sz } }

unfoldable pub guard_size : ℕ → CothreadOption → CothreadOption
guard_size sz o = record o { attr = record o.attr { guard = some sz } }

-- `detachable(flag)`
unfoldable pub detachable : Bool → CothreadOption → CothreadOption
detachable flag o = record {
  detached = flag;
  attr = if flag then record o.attr { detach_state = true } else o.attr;
}

abbrev is_closed : ℤ → Bool
is_closed (pos n) = false
is_closed (negsuc n) = n == 0

-- `channel_parent()` and `channel_self()` of a thread's object
unfoldable pub channel_parent : Cothread → Outcome ℤ
channel_parent c = if is_closed c.socketpair.1 then fault assert_failed else ok c.socketpair.1

unfoldable pub channel_self : Cothread → Outcome ℤ
channel_self c = if is_closed c.socketpair.0 then fault assert_failed else ok c.socketpair.0

module _ {System : Type 0} where
  -- `this_cothread::channel_parent()` and `channel_self()`: -1 in a thread that is no cothread
  unfoldable pub this_channel_parent : Option Thread → Threads System → Outcome ℤ
  unfolding load channel_parent
  this_channel_parent none w = ok (negsuc 0)
  this_channel_parent (some t) w = load t w >>= channel_parent

  unfoldable pub this_channel_self : Option Thread → Threads System → Outcome ℤ
  unfolding load channel_self
  this_channel_self none w = ok (negsuc 0)
  this_channel_self (some t) w = load t w >>= channel_self

  -- `this_cothread::set(cothread)`
  unfoldable pub set : Option Thread → Threads System → Threads System
  set t w = record w { current = t }

  module _ (pthread_create : Attr → Thread → System → Option (ℕ × System)) where
    -- `assert(!pthread_create(&_pid, ...))`
    unfoldable pub created :
        Thread → Cothread → Option (ℕ × System) → Threads System → Outcome (Threads System)
    unfolding store
    created t c none w = fault assert_failed
    created t c (some (pid, s)) w =
        ok (store t (some (record c { pid = pid })) (record w { system = s }))

    unfoldable pub resume_as : Thread → Cothread → Attr → Threads System → Outcome (Threads System)
    unfolding created
    resume_as t c attr w = created t c (pthread_create attr t w.system) w

    -- `resume(option)` of a thread's object
    unfoldable pub resume : Thread → CothreadOption → Threads System → Outcome (Threads System)
    unfolding load resume_as
    resume t option w = load t w >>= λ c.
        if c.runned
        then ok w
        else resume_as t (record c { joined = if option.detached then true else c.joined })
            option.attr w

  module _ (pthread_join : ℕ → System → Option (ℕ × System)) (close : ℤ → System → System)
      (function : Thread → Threads System → Outcome (ℕ × Threads System)) where
    -- The loop of `execute`: join each child and destroy it, on fuel.
    unfoldable pub reap : ℕ → Thread → Threads System → Outcome (Threads System)
    unfolding take_child join_child store
    reap zero t w = fault assert_failed
    reap (suc fuel) t w = take_child (some t) w >>= λ r. elim r.0 [
      | none ↦ ok r.1
      | some k ↦ join_child pthread_join k r.1 >>= λ s. reap fuel t (store k none s.1)
    ]

    abbrev reap_all : Thread → Threads System → Outcome (Threads System)
    unfolding load reap
    reap_all t w = load t w >>= λ c. reap (suc (length c.childs)) t w

    -- `execute(ctx)`, in the new thread
    unfoldable pub execute : Thread → Threads System → Outcome (ℕ × Threads System)
    unfolding set load store reap_all channel_self
    execute t w = load t (set (some t) w) >>= λ c.
        function t (store t (some (record c { runned = true })) (set (some t) w)) >>= λ r.
        reap_all t r.1 >>= λ v. load t v >>= λ d.
        channel_self d >>= λ fd. ok (r.0, set none (record v { system = close fd v.system }))
