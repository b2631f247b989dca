-- ===== src/Coreactor/Examples.antt =====
-- A reactor that keeps no record of its events, and one coroutine.
use boost_coro.Base.{
  ℕ, suc, ◌+◌, ◌*◌, ◌<◌, ◌==◌, pos, ◌≡◌, refl, false, if◌then◌else◌, none, some, Outcome, ok, fault,
  dangling, null_deref, ◌>>=◌, [], ◌∷◌,
}
use boost_coro.Coroutine.State.{
  Address, evet, evet_wait, evet_cancel, World, new, deref, store, modify,
}
use boost_coro.Coroutine.Flags.{flag_add, flag_set, flag_del, notify, clear, chk}
use boost_coro.Coreactor.{Event, Coreactor, set_io, set_io_end, cancel}
use boost_coro.Coreactor.Timeouts.{io_time, io_time_lem}
use boost_coro.Coreactor.Triggers.{set_io_end-set_io, set_io_frees_twice, cancel_twice}

-- The event library as the number of its events
abbrev arm : Event → Address → ℕ → ℕ
arm e c n = suc n

abbrev disarm : Event → ℕ → ℕ
disarm e n = n

-- The world with one coroutine that has the given flags
abbrev world : ℕ → World
world flags = record {
  current = some 0;
  main_childs = 0 ∷ [];
  main_context = [];
  heap = λ i. if i == 0 then some (record (new 0 []) { evet = flags }) else none;
  created = 1;
}

abbrev idle : Coreactor ℕ
idle = record { triggers = λ c. none; allocated = λ e. false; base = 0 }

abbrev waiting : Coreactor ℕ
waiting = record {
  triggers = λ c. if c == 0 then some (some 7) else none;
  allocated = λ e. e == 7;
  base = 1;
}

abbrev after : Outcome World → World
after (ok w) = w
after (fault e) = world 0

-- The flags that `cancel` changes
abbrev after_cancel : World → Outcome World
after_cancel w = flag_del evet 0 evet_wait w >>= λ w1. flag_add 2 evet 0 evet_cancel w1

set_io_end-set_io_example :
    (s t : Coreactor ℕ) × (set_io arm disarm 7 0 (world 0, idle)
      ≡ ok (after (flag_set evet 0 evet_wait (world 0)), s))
    × (s.triggers 0 ≡ some (some 7))
    × (set_io_end arm disarm false 7 0 s ≡ ok t)
    × (t.base ≡ 1)
    × ((d : Address) → t.triggers d ≡ none)
    × ((f : Event) → t.allocated f ≡ false)
unfolding new deref store modify flag_set notify clear
set_io_end-set_io_example = set_io_end-set_io arm disarm 7 0 (world 0) _ idle refl refl refl

set_io_frees_twice_example :
    (s : Coreactor ℕ) × (set_io arm disarm 9 0 (world 0, waiting)
      ≡ ok (after (flag_set evet 0 evet_wait (world 0)), s))
    × (s.triggers 0 ≡ some (some 7))
    × (set_io_end arm disarm false 9 0 s ≡ fault dangling)
unfolding new deref store modify flag_set notify clear
set_io_frees_twice_example =
    set_io_frees_twice arm disarm 9 0 (world 0) _ waiting refl (some 7) refl

cancel_twice_example :
    (cancel arm disarm 0 (world 1, waiting) >>= cancel arm disarm 0) ≡ fault null_deref
unfolding new deref store modify flag_add flag_del notify clear chk
cancel_twice_example =
    cancel_twice arm disarm 7 0 (world 1) _ waiting refl _ _ _ refl refl refl refl

-- 1500 milliseconds
io_time_lem_example :
    (n : ℕ) × (pos 1500 ≡ pos n) × (0 < n) × (500000 < 1000000) × (1 * 1000000 + 500000 ≡ n * 1000)
io_time_lem_example =
    io_time_lem (pos 1500) (record { sec = 1; usec = 500000 }) (unfold io_time in refl)
