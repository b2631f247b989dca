-- ===== src/Cothread/Reaped.antt =====
-- The loop that joins and destroys the children.
use boost_coro.Base.{
  All, ℕ, zero, suc, ◌<◌, ◌==◌, ◌≡◌, ◌≢◌, refl, ◌∙◌, ap, inl, inr, Bool-cases, subst, if◌then◌else◌,
  true, false, Option, none, some, List, [], ◌∷◌, length, ok, arith,
}
use boost_coro.Cothread.{
  Thread, Cothread, Threads, load, store, rest_of, take_child, checked, checked_join, join_self,
  join_loop, join_main,
}

-- No two elements are the same.
abbrev pub Distinct : List Thread → Type 0
Distinct [] = Unit {0}
Distinct (k ∷ ks) = All (λ j. j ≢ k) ks × Distinct ks

-- The system thread of a child that is there and has not been joined, before others
abbrev pub unjoined : Option Cothread → List ℕ → List ℕ
unjoined none pids = pids
unjoined (some c) pids = if c.joined then pids else c.pid ∷ pids

module _ {System : Type 0} where
  abbrev pub Exists : Threads System → Thread → Type 0
  Exists w k = (c : Cothread) × (w.objects k ≡ some c)

  abbrev pub IsGone : Threads System → Thread → Type 0
  IsGone w k = w.objects k ≡ none

  -- The system threads of the children that are there and have not been joined, in order
  abbrev pub pids_of : Threads System → List Thread → List ℕ
  pids_of w [] = []
  pids_of w (k ∷ ks) = unjoined (w.objects k) (pids_of w ks)

  -- The system joins these threads, one after the other, each once, and nothing else happens to it.
  pub data Joins (pthread_join : ℕ → System → Option (ℕ × System))
      : List ℕ → System → System → Type 0 where
    all_joined : {s : System} → Joins pthread_join [] s s
    joins_next :
        {pid ret : ℕ} {pids : List ℕ} {s t u : System}
        → pthread_join pid s ≡ some (ret, t)
        → Joins pthread_join pids t u
        → Joins pthread_join (pid ∷ pids) s u

  -- What the loop leaves of the children `ks` of `w`.
  record Reaped (pthread_join : ℕ → System → Option (ℕ × System)) (w v : Threads System)
      (ks : List Thread) : Type 0 where
    joined : Joins pthread_join (pids_of w ks) w.system v.system
    none_left : v.main_childs ≡ []
    gone : All (IsGone v) ks
    others : (j : Thread) → All (λ k. k ≢ j) ks → v.objects j ≡ w.objects j

  still-Exists :
      (k : Thread) (w : Threads System) (ks : List Thread)
      → All (λ j. j ≢ k) ks
      → All (Exists w) ks
      → All (Exists (store k none w)) ks
  unfolding store
  still-Exists k w [] apart there = tt
  still-Exists k w (j ∷ ks) (a, apart) ((c, e), there) =
      let h : (j == k) ≡ false = ground arith in ((c, rw h e), still-Exists k w ks apart there)

  module _ (pthread_join : ℕ → System → Option (ℕ × System))
      (joins : (pid : ℕ) (s : System) → (r : ℕ × System) × (pthread_join pid s ≡ some r)) where
    -- A child is joined, if it has not been, before the threads `pids`.
    join_self_joins :
        (k : Thread) (c : Cothread) (w : Threads System)
        → w.objects k ≡ some c
        → (ret : ℕ) × (s : System) × (join_self pthread_join k w
            ≡ ok (ret, record w { system = s }))
          × ((pids : List ℕ) (u : System)
              → Joins pthread_join pids s u
              → Joins pthread_join (unjoined (w.objects k) pids) w.system u)
    unfolding join_self load checked_join checked
    join_self_joins k c w e = elim (Bool-cases c.joined) [
      | inl h ↦ (0, w.system, rw (e, h) refl, λ pids u j. rw (e, h) j)
      | inr h ↦
          let (r, f) = joins c.pid w.system in
          (r.0, r.1, rw (e, h, f) refl, λ pids u j. rw (e, h) (joins_next f j))
    ]

    pids_kept :
        (k : Thread) (w : Threads System) (ks : List Thread)
        → All (λ j. j ≢ k) ks
        → pids_of (store k none w) ks ≡ pids_of w ks
    unfolding store
    pids_kept k w [] apart = refl
    pids_kept k w (j ∷ ks) (a, apart) =
        let h : (j == k) ≡ false = ground arith in
        rw h (ap (unjoined (w.objects j)) (pids_kept k w ks apart))

    join_loop-Reaped :
        (ks : List Thread) (fuel : ℕ) (w : Threads System)
        → w.main_childs ≡ ks
        → length ks < fuel
        → Distinct ks
        → All (Exists w) ks
        → (v : Threads System) × (join_loop pthread_join fuel none w ≡ ok v)
          × Reaped pthread_join w v ks
    unfolding join_loop take_child store
    join_loop-Reaped ks zero w e h d there = absurd (omega arith)
    join_loop-Reaped [] (suc fuel) w e h d there = (
      record w { main_childs = rest_of w.main_childs },
      rw e,
      record { joined = all_joined; none_left = ap rest_of e; gone = tt; others = λ j a. refl },
    )
    join_loop-Reaped (k ∷ ks) (suc fuel) w e h (apart, d) ((c, here), there) =
        let w1 : Threads System = record w { main_childs = ks } in
        let (ret, s, f, joined_first) = join_self_joins k c w1 here in
        let w2 : Threads System = store k none (record w1 { system = s }) in
        let (v, g, r) =
          join_loop-Reaped ks fuel w2 refl (omega arith) d
            (still-Exists k (record w1 { system = s }) ks apart there) in
        let self : (k == k) ≡ true = ground arith in
        (
          v,
          rw (e, f, g),
          record {
            joined = joined_first _ _ (
                subst (λ l. Joins pthread_join l s v.system)
                  (pids_kept k (record w1 { system = s }) ks apart) r.joined);
            none_left = r.none_left;
            gone = (r.others k apart ∙ rw self, r.gone);
            others =
                λ j a. let other : (j == k) ≡ false = ground arith in r.others j a.1 ∙ rw other;
          },
        )

    -- In the main thread, whose children are there and all different, and where the system joins every
    -- thread, `join` without a child returns. It has made the system join the thread of each child that
    -- had not been joined, once, in the order of the list, and has done nothing else with the system. It
    -- has destroyed each child, has no children then, and leaves every other object as it was.
    pub join_main_reaps :
        (w : Threads System) (j : Thread)
        → Distinct w.main_childs
        → All (Exists w) w.main_childs
        → All (λ k. k ≢ j) w.main_childs
        → (v : Threads System) × (join_main pthread_join none w ≡ ok v)
          × Joins pthread_join (pids_of w w.main_childs) w.system v.system
          × (v.main_childs ≡ [])
          × All (IsGone v) w.main_childs
          × (v.objects j ≡ w.objects j)
    unfolding join_main
    join_main_reaps w j d there other =
        let (v, e, r) =
          join_loop-Reaped w.main_childs (suc (length w.main_childs)) w refl (omega arith) d
            there in
        (v, e, r.joined, r.none_left, r.gone, r.others j other)
