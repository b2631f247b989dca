-- ===== src/Cothread/Examples.antt =====
-- A system that joins each thread once, and one thread that has not been joined.
use boost_coro.Base.{
  ℕ, suc, ◌+◌, ℤ, arith, ◌==◌, ◌≡◌, refl, Bool, true, false, if◌then◌else◌, Option, none, some,
  List, [], ◌∷◌, Outcome, ok, fault, ◌>>=◌, pos,
}
use boost_coro.Cothread.{Cothread, Threads, join_main}
use boost_coro.Cothread.Start.{Attr, new_option, resume, execute}
use boost_coro.Cothread.Reaped.{Joins, join_main_reaps}
use boost_coro.Cothread.Restart.{resume_twice}

-- The state of the system: whether the one thread has been joined.
abbrev pthread_join : ℕ → Bool → Option (ℕ × Bool)
pthread_join pid true = none
pthread_join pid false = some (0, true)

abbrev started : Cothread
started = record {
  runned = true;
  joined = false;
  pid = 9;
  socketpair = (pos 3, pos 4);
  childs = [];
}

abbrev one_thread : Threads Bool
one_thread = record {
  current = none;
  main_childs = 4 ∷ [];
  objects = λ t. if t == 4 then some started else none;
  system = false;
}

abbrev children_of : Outcome (Threads Bool) → Option (List ℕ)
children_of (ok w) = some w.main_childs
children_of (fault e) = none

-- All the children are joined and destroyed.
join_main-none : children_of (join_main pthread_join none one_thread) ≡ some []
unfolding join_main
join_main-none = refl

-- Two threads, of which one is detached, and a system that joins what it is asked to
abbrev joins_all : ℕ → ℕ → Option (ℕ × ℕ)
joins_all pid s = some (0, suc s)

abbrev detached : Cothread
detached = record started { joined = true }

abbrev two_threads : Threads ℕ
two_threads = record {
  current = none;
  main_childs = 4 ∷ 5 ∷ [];
  objects = λ t. if t == 4 then some started else if t == 5 then some detached else none;
  system = 0;
}

join_main_reaps_example :
    (v : Threads ℕ) × (join_main joins_all none two_threads ≡ ok v)
    × Joins joins_all (9 ∷ []) 0 v.system
    × (v.main_childs ≡ [])
    × ((v.objects 4 ≡ none) × ((v.objects 5 ≡ none) × Unit {0}))
    × (v.objects 6 ≡ none)
join_main_reaps_example =
    join_main_reaps joins_all (λ pid s. ((0, suc s), refl)) two_threads 6
      (((λ e. omega arith), tt), (tt, tt)) ((started, refl), ((detached, refl), tt))
      ((λ e. omega arith), ((λ e. omega arith), tt))

-- A system that numbers its threads
abbrev pthread_create : Attr → ℕ → ℕ → Option (ℕ × ℕ)
pthread_create attr t s = some (s, suc s)

abbrev fresh : Threads ℕ
fresh = record two_threads {
  objects = λ t. if t == 4 then some (record started { runned = false }) else none;
}

resume_twice_example :
    (v : Threads ℕ) × (d : Cothread) × ((resume pthread_create 4 new_option fresh
        >>= resume pthread_create 4 new_option)
      ≡ ok v)
    × (v.objects 4 ≡ some d)
    × (d.pid ≡ 1)
    × (v.system ≡ 2)
resume_twice_example =
    resume_twice pthread_create 4 0 1 (record started { runned = false }) new_option 1 2 fresh refl
      refl refl refl

-- A thread whose function starts none: it returns, and its channel is closed.
abbrev closes : ℤ → ℕ → ℕ
closes fd s = s + 100

abbrev system_of : Outcome (ℕ × Threads ℕ) → Option ℕ
system_of (ok r) = some r.1.system
system_of (fault e) = none

execute_run : system_of (execute joins_all closes (λ t w. ok (7, w)) 4 fresh) ≡ some 100
unfolding execute
execute_run = refl
