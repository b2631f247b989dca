-- ===== src/Cothread/Restart.antt =====
-- What a second `resume` does, and an option that is taken back.
use boost_coro.Base.{ℕ, ◌==◌, ◌≡◌, refl, true, false, if◌then◌else◌, Option, some, ok, ◌>>=◌, arith}
use boost_coro.Cothread.{Thread, Cothread, Threads, load, store}
use boost_coro.Cothread.Start.{Attr, CothreadOption, detachable, created, resume_as, resume}

module _ {System : Type 0} (pthread_create : Attr → Thread → System → Option (ℕ × System)) where
  -- `resume` of a thread that has been resumed, but whose function has not begun to run, starts a second
  -- thread for the same object, where the system starts both; only the second one's id is kept.
  pub resume_twice :
      (t p q : ℕ) (c : Cothread) (option : CothreadOption) (s s' : System) (w : Threads System)
      → w.objects t ≡ some c
      → c.runned ≡ false
      → pthread_create option.attr t w.system ≡ some (p, s)
      → pthread_create option.attr t s ≡ some (q, s')
      → (v : Threads System) × (d : Cothread) × ((resume pthread_create t option w
            >>= resume pthread_create t option)
          ≡ ok v)
        × (v.objects t ≡ some d)
        × (d.pid ≡ q)
        × (v.system ≡ s')
  unfolding resume resume_as created load store
  resume_twice t p q c option s s' w here fresh first second =
      let self : (t == t) ≡ true = ground arith in
      let mark : Cothread → Cothread =
        λ x. record x { joined = if option.detached then true else x.joined } in
      let one : Cothread = record (mark c) { pid = p } in
      let two : Cothread = record (mark one) { pid = q } in
      let started = store t (some one) (record w { system = s }) in
      (
        store t (some two) (record started { system = s' }),
        two,
        rw (here, fresh, first, self, second),
        rw self,
        refl,
        refl,
      )

-- An option that was made detachable and then not is one that does not count the thread as joined, but
-- still asks the system for a detached thread.
detachable_back :
    (o : CothreadOption)
    → ((detachable false (detachable true o)).detached ≡ false)
      × ((detachable false (detachable true o)).attr.detach_state ≡ true)
unfolding detachable
detachable_back o = (refl, refl)
