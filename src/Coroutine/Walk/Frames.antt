-- ===== src/Coroutine/Walk/Frames.antt =====
-- The frames of the machine: what each keeps, switches included.
use boost_coro.Base.{
  ℕ, zero, suc, false, ◌==◌, ◌≡◌, inl, inr, ◌||◌, Bool-cases, Option, none, some, Outcome, ok,
  ◌>>=◌, Ensures, ensures, faulted, bind, List, [], ◌∷◌, bit_and,
}
use boost_coro.Coroutine.State.{
  Address, stat_busy, stat_done, evet_wait, evet_chld, mesg_wait, mesg_chld, Call, Frame, Coroutine,
  World, store,
}
use boost_coro.Coroutine.Flags.{chk}
use boost_coro.Coroutine.Machine.{
  push, transfer_pre, start_childs, resume_begin, resume_end, next_child, childs_round,
  childs_check, execute_loop, execute_tail, call, exec,
}
use boost_coro.Coroutine.Walk.{Walk, posts, posts_frame, deref_lem}
use boost_coro.Coroutine.Walk.Quiet.{
  read_childs, flag_add-Kept, flag_set-Kept, flag_del-Kept, push-Kept, set_childs-Kept,
  start_childs-Kept, yield-Kept, take_message-Kept, mget_loop-Kept, add_child-Kept, resume_all-Kept,
}

module _ {P : Option Address → World → Type 0} {Q : World → Type 0} (walk : Walk P Q) where
  -- What holds of a function that does not switch holds of the whole step.
  pub quiet : {ctx : Option Address} {r : Outcome World} → Ensures (P ctx) r → Ensures Q r
  quiet {ctx} (ensures {a = w} b) = ensures (walk.stays ctx w b)
  quiet faulted = faulted

  resume_end-Walked :
      (ctx : Option Address) (i : Address) {w : World} → P ctx w → Ensures Q (resume_end ctx i w)
  unfolding resume_end
  resume_end-Walked ctx i {w} b = bind (deref_lem i w) λ c e.
      elim (Bool-cases (chk c.evet evet_wait || chk c.msg mesg_wait)) [
        | inl e ↦ rw e (ensures (walk.stays _ _ b))
        | inr e ↦ rw e (walk.enters ctx _ i b)
      ]

  resume_begin-Walked :
      (ctx : Option Address) (i : Address) {w : World} → P ctx w → Ensures Q (resume_begin ctx i w)
  unfolding resume_begin
  resume_begin-Walked ctx i {w} b = bind (deref_lem i w) λ c e.
      elim (Bool-cases (c.stat == stat_done)) [
        | inl e ↦ rw e (ensures (walk.stays _ _ b))
        | inr e ↦ rw e (elim (Bool-cases (bit_and c.stat 0x03 == 0)) [
          | inl f ↦ rw f (ensures (walk.stays _ _ b))
          | inr f ↦ rw f (elim (Bool-cases (chk c.evet evet_chld || chk c.msg mesg_chld)) [
            | inl g ↦ rw g (
                quiet (
                  bind (push-Kept (walk.writes _) ctx _ b)
                    λ w' b'. start_childs-Kept (walk.writes _) ctx (some i) b'))
            | inr g ↦ rw g (resume_end-Walked ctx i b)
          ])
        ])
      ]

  next_child-Walked :
      (ctx coro : Option Address) (n : ℕ) (l : List Address) {w : World}
      → P ctx w
      → Ensures Q (next_child ctx coro n l w)
  unfolding next_child
  next_child-Walked ctx coro n [] b = faulted
  next_child-Walked ctx coro n (k ∷ l) b = bind (set_childs-Kept (walk.writes _) coro l b) λ w1 b1.
      bind (deref_lem k w1) λ c e. elim (Bool-cases (c.stat == stat_done)) [
        | inl d ↦ rw d (quiet (push-Kept (walk.writes _) ctx _ (walk.destroy ctx w1 k c e d b1)))
        | inr d ↦
            rw d (bind (push-Kept (walk.writes _) ctx _ b1) λ w2 b2. resume_begin-Walked ctx k b2)
      ]

  childs_check-Kept :
      (ctx coro : Option Address) (k n : ℕ) {w : World}
      → P ctx w
      → Ensures (P ctx) (childs_check ctx coro k n w)
  unfolding childs_check
  childs_check-Kept ctx coro k n {w} b = bind (deref_lem k w) λ c e.
      elim (Bool-cases (c.stat == stat_done)) [
        | inl d ↦ rw d (push-Kept (walk.writes _) ctx _ (walk.destroy ctx w k c e d b))
        | inr d ↦ rw d (
            read_childs coro w λ l.
              bind (set_childs-Kept (walk.writes _) coro _ b)
                λ w1 b1. push-Kept (walk.writes _) ctx _ b1)
      ]

  execute_loop-Walked : (i : Address) {w : World} → P (some i) w → Ensures Q (execute_loop i w)
  unfolding execute_loop
  execute_loop-Walked i {w} b = bind (deref_lem i w) λ c e. go c e c.childs
    where
      go :
          (c : Coroutine)
          → w.heap i ≡ some c
          → (l : List Address)
          → Ensures Q (elim l [
            | [] ↦ transfer_pre i (store i (some (record c { stat = stat_done })) w)
            | _ ∷ _ ↦ push (some i) Frame.execute_loop w >>= start_childs (some i) none
          ])
      go c e [] = walk.finishes w i c e b
      go c e (_ ∷ _) = quiet (
          bind (push-Kept (walk.writes _) (some i) _ b)
            λ w' b'. start_childs-Kept (walk.writes _) (some i) none b')

  call-Walked :
      (ctx : Option Address) (c : Call)
      → posts c ≡ false
      → {w : World} → P ctx w
      → Ensures Q (call ctx c w)
  unfolding call
  call-Walked none Call.yield e b = ensures (walk.stays _ _ b)
  call-Walked (some i) Call.yield e b = quiet (yield-Kept (walk.writes _) i b)
  call-Walked none (Call.resume none) e b = quiet (resume_all-Kept (walk.writes _) b)
  call-Walked (some i) (Call.resume none) e b = ensures (walk.stays _ _ b)
  call-Walked none (Call.resume (some k)) e b = resume_begin-Walked none k b
  call-Walked (some i) (Call.resume (some k)) e b = resume_begin-Walked (some i) k b
  call-Walked none (Call.resume_childs coro) e b =
      quiet (start_childs-Kept (walk.writes _) none coro b)
  call-Walked (some i) (Call.resume_childs coro) e b =
      quiet (start_childs-Kept (walk.writes _) (some i) coro b)
  call-Walked none (Call.child k) e b = quiet (add_child-Kept (walk.writes _) none k b)
  call-Walked (some i) (Call.child k) e b = quiet (add_child-Kept (walk.writes _) (some i) k b)
  call-Walked none (Call.flag_set ch k v) e b = quiet (flag_set-Kept (walk.writes _) ch k v b)
  call-Walked (some i) (Call.flag_set ch k v) e b = quiet (flag_set-Kept (walk.writes _) ch k v b)
  call-Walked none (Call.flag_add ch k v) e b = quiet (flag_add-Kept (walk.writes _) _ ch k v b)
  call-Walked (some i) (Call.flag_add ch k v) e b = quiet (flag_add-Kept (walk.writes _) _ ch k v b)
  call-Walked none (Call.flag_del ch k v) e b = quiet (flag_del-Kept (walk.writes _) ch k v b)
  call-Walked (some i) (Call.flag_del ch k v) e b = quiet (flag_del-Kept (walk.writes _) ch k v b)
  call-Walked none (Call.mput k m) e b = cc
  call-Walked (some i) (Call.mput k m) e b = cc
  call-Walked none (Call.mbroadcast k m) e b = cc
  call-Walked (some i) (Call.mbroadcast k m) e b = cc
  call-Walked none Call.mget e b = ensures (walk.stays _ _ b)
  call-Walked (some i) Call.mget e b = quiet (take_message-Kept (walk.writes _) ok i (ensures b) b)
  call-Walked none Call.mget_yield e b = ensures (walk.stays _ _ b)
  call-Walked (some i) Call.mget_yield e b = quiet (mget_loop-Kept (walk.writes _) i b)

  childs_round-Walked :
      (ctx coro : Option Address) (n : ℕ) {w : World}
      → P ctx w
      → Ensures Q (childs_round ctx coro n w)
  unfolding childs_round
  childs_round-Walked ctx coro zero b = ensures (walk.stays _ _ b)
  childs_round-Walked ctx coro (suc n) {w} b =
      read_childs coro w λ l. next_child-Walked ctx coro n l b

  execute_tail-Walked : (i : Address) {w : World} → P (some i) w → Ensures Q (execute_tail i w)
  unfolding execute_tail
  execute_tail-Walked i {w} b = bind (deref_lem i w) λ c e.
      elim (Bool-cases (c.stat == stat_busy)) [
        | inl d ↦ rw d (execute_loop-Walked i b)
        | inr d ↦ rw d faulted
      ]

  pub exec-Walked :
      (ctx : Option Address) (f : Frame)
      → posts_frame f ≡ false
      → {w : World} → P ctx w
      → Ensures Q (exec ctx f w)
  unfolding exec
  exec-Walked none (Frame.user []) e b = ensures (walk.stays _ _ b)
  exec-Walked (some i) (Frame.user []) e b = ensures (walk.stays _ _ b)
  exec-Walked none (Frame.user (c ∷ cs)) e b =
      bind (push-Kept (walk.writes _) none _ b) λ w' b'. call-Walked none c e b'
  exec-Walked (some i) (Frame.user (c ∷ cs)) e b =
      bind (push-Kept (walk.writes _) (some i) _ b) λ w' b'. call-Walked (some i) c e b'
  exec-Walked none (Frame.resume_tail i) e b = resume_end-Walked none i b
  exec-Walked (some k) (Frame.resume_tail i) e b = resume_end-Walked (some k) i b
  exec-Walked none (Frame.childs_loop coro n) e b = childs_round-Walked none coro n b
  exec-Walked (some i) (Frame.childs_loop coro n) e b = childs_round-Walked (some i) coro n b
  exec-Walked none (Frame.childs_check coro k n) e b = quiet (childs_check-Kept none coro k n b)
  exec-Walked (some i) (Frame.childs_check coro k n) e b =
      quiet (childs_check-Kept (some i) coro k n b)
  exec-Walked none Frame.resume_all e b = quiet (resume_all-Kept (walk.writes _) b)
  exec-Walked (some i) Frame.resume_all e b = ensures (walk.stays _ _ b)
  exec-Walked none Frame.execute_tail e b = faulted
  exec-Walked (some i) Frame.execute_tail e b = execute_tail-Walked i b
  exec-Walked none Frame.execute_loop e b = faulted
  exec-Walked (some i) Frame.execute_loop e b = execute_loop-Walked i b
  exec-Walked none Frame.yield_tail e b = faulted
  exec-Walked (some i) Frame.yield_tail e b = walk.leaves _ i b
  exec-Walked none Frame.mget_loop e b = faulted
  exec-Walked (some i) Frame.mget_loop e b = quiet (mget_loop-Kept (walk.writes _) i b)
