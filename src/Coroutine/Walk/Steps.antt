-- ===== src/Coroutine/Walk/Steps.antt =====
-- A step keeps what every write and every switch keeps.
use boost_coro.Base.{
  ◌≡◌, refl, inl, inr, Option, none, some, ok, fault, Ensures, ensures, faulted, bind, no_frame,
  List, [], ◌∷◌,
}
use boost_coro.Coroutine.State.{Address, Frame, Coroutine, World, store}
use boost_coro.Coroutine.Machine.{pop_frame, exec_some, step}
use boost_coro.Coroutine.Walk.{Walk, Posts, other_fields, deref_lem}
use boost_coro.Coroutine.Walk.Frames.{quiet, exec-Walked}
use boost_coro.Coroutine.Walk.Posting.{frame_cases, exec-Posted}

module _ {P : Option Address → World → Type 0} {Q : World → Type 0} (walk : Walk P Q) where
  pub pop_frame-Kept :
      (ctx : Option Address) {w : World}
      → P ctx w
      → Ensures (λ (r : Option Frame × World). P ctx r.1) (pop_frame ctx w)
  unfolding pop_frame
  pop_frame-Kept none {w} b = go w.main_context
    where
      go :
          (l : List Frame)
          → Ensures
              (λ (r : Option Frame × World). P none r.1)
              (elim l [ [] ↦ ok (none, w) | f ∷ fs ↦ ok (some f, record w { main_context = fs }) ])
      go [] = ensures b
      go (f ∷ fs) = ensures ((walk.writes none).main _ _ _ b)
  pop_frame-Kept (some i) {w} b = bind (deref_lem i w) λ c e. go c e c.context
    where
      frames :
          (c : Coroutine)
          → w.heap i ≡ some c
          → (l : List Frame)
          → Ensures
              (λ (r : Option Frame × World). P (some i) r.1)
              (elim l [
                | [] ↦ fault no_frame
                | f ∷ gs ↦ ok (some f, store i (some (record c { context = some gs })) w)
              ])
      frames c e [] = faulted
      frames c e (f ∷ gs) =
          ensures ((walk.writes (some i)).write w i c _ e (other_fields c _ refl refl refl) b)

      go :
          (c : Coroutine)
          → w.heap i ≡ some c
          → (o : Option (List Frame))
          → Ensures
              (λ (r : Option Frame × World). P (some i) r.1)
              (elim o [
                | none ↦ fault no_frame
                | some fs ↦ elim fs [
                  | [] ↦ fault no_frame
                  | f ∷ gs ↦ ok (some f, store i (some (record c { context = some gs })) w)
                ]
              ])
      go c e none = faulted
      go c e (some fs) = frames c e fs

  exec_some-Walked :
      (ctx : Option Address)
      → Posts (P ctx)
      → (o : Option Frame) {w : World} → P ctx w
      → Ensures Q (exec_some ctx o w)
  unfolding exec_some
  exec_some-Walked ctx post none b = ensures (walk.stays ctx _ b)
  exec_some-Walked ctx post (some f) b = elim (frame_cases f) [
    | inl p ↦ quiet walk (exec-Posted (walk.writes ctx) post ctx f p b)
    | inr silent ↦ exec-Walked walk ctx f silent.0 b
  ]

  pub step-Walked : (w : World) → Posts (P w.current) → P w.current w → Ensures Q (step w)
  unfolding step
  step-Walked w post b =
      bind (pop_frame-Kept w.current b) λ r c. exec_some-Walked w.current post r.0 c
