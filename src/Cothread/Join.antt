-- ===== src/Cothread/Join.antt =====
-- How often a thread is joined.
use boost_coro.Base.{
  ℕ, ◌==◌, ◌≡◌, refl, true, false, Option, none, some, ok, fault, assert_failed, ◌>>=◌, arith,
}
use boost_coro.Cothread.{
  Cothread, Threads, load, store, checked, checked_join, join_self, join_child,
}

module _ {System : Type 0} (pthread_join : ℕ → System → Option (ℕ × System)) where
  -- `join(child)` of a thread that has not been joined asks the system once: after it, a second call
  -- returns and changes nothing.
  pub join_child_twice :
      (k ret : ℕ) (c : Cothread) (after : System) (w : Threads System)
      → w.objects k ≡ some c
      → c.joined ≡ false
      → pthread_join c.pid w.system ≡ some (ret, after)
      → (v : Threads System) × (join_child pthread_join k w ≡ ok (ret, v))
        × (v.system ≡ after)
        × (join_child pthread_join k v ≡ ok (0, v))
  unfolding join_child load store checked_join checked
  join_child_twice k ret c after w e fresh run =
      let here : (k == k) ≡ true = ground arith in
      (
        store k (some (record c { joined = true })) (record w { system = after }),
        rw e (rw fresh (rw run)),
        refl,
        rw here,
      )

  -- `join()` of a thread, without a child, does not record that it has joined: where the system joins a
  -- thread once only, a second call fails its assertion.
  pub join_self_twice :
      (k ret : ℕ) (c : Cothread) (after : System) (w : Threads System)
      → w.objects k ≡ some c
      → c.joined ≡ false
      → pthread_join c.pid w.system ≡ some (ret, after)
      → pthread_join c.pid after ≡ none
      → (join_self pthread_join k w >>= λ r. join_self pthread_join k r.1) ≡ fault assert_failed
  unfolding join_self load checked_join checked
  join_self_twice k ret c after w e fresh run once =
      rw e (rw fresh (rw run (rw e (rw fresh (rw once)))))
