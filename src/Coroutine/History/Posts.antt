-- ===== src/Coroutine/History/Posts.antt =====
-- What `mput` and `mbroadcast` put, step by step, is what the histories grow by.
use mathlib.Core.List.{append_assoc, append-nil}
use boost_coro.Base.{
  ℕ, zero, suc, ◌≡◌, refl, sym, ap, ◌∙◌, inl, inr, Option, none, some, Outcome, ok, fault, ◌>>=◌,
  Ensures, ensures, faulted, bind, joined, of_ok, List, [], ◌∷◌, ◌++◌, length,
}
use boost_coro.Coroutine.State.{Address, msg, mesg_wait, Call, Frame, Coroutine, World, modify}
use boost_coro.Coroutine.Machine.{
  push, mput, broadcast_loop, mbroadcast, call, exec, exec_some, step, steps,
}
use boost_coro.Coroutine.Walk.{Writes, history, taken, deref_lem}
use boost_coro.Coroutine.Walk.Quiet.{flag_del-Kept, push-Kept, set_childs-Kept}
use boost_coro.Coroutine.Walk.Frames.{exec-Walked}
use boost_coro.Coroutine.Walk.Steps.{pop_frame-Kept}
use boost_coro.Coroutine.Walk.Posting.{
  childs_in, copies, posted_frame, Posting, frame_cases, posted_top, posted_by, posted,
}
use boost_coro.Coroutine.History.Childs.{
  SameChilds, push-SameChilds, mput-SameChilds, Has, set_childs-Has, childs_of-Has,
  pop_frame-Popped,
}
use boost_coro.Coroutine.History.{history_of, Exactly, Grown, Grown-as, store-Grown, Grown-walk}

turned :
    (xs ys : List Address) (k : Address) {l : List Address}
    → l ≡ xs ++ ys
    → l ++ k ∷ [] ≡ xs ++ (ys ++ k ∷ [])
turned xs ys k e = ap (λ l. l ++ k ∷ []) e ∙ append_assoc xs ys (k ∷ [])

one_more :
    (new : Address → List ℕ) (k m : ℕ) (xs : List Address) (j : Address)
    → (new j ++ copies j m (k ∷ [])) ++ copies j m xs ≡ new j ++ copies j m (k ∷ xs)
unfolding copies
one_more new k m xs j =
    append_assoc (new j) (copies j m (k ∷ [])) (copies j m xs)
    ∙ ap (λ l. new j ++ (l ++ copies j m xs)) (append-nil _)

module _ {old : Address → Option (List ℕ)} where
  writes : (new : Address → List ℕ) → Writes (Grown old new)
  writes new = (Grown-walk {old = old} {new = new}).writes none

  mput-Grown :
      (k m : ℕ) (new : Address → List ℕ) {w : World}
      → Grown old new w
      → Ensures (Grown old (λ j. new j ++ copies j m (k ∷ []))) (mput k m w)
  unfolding mput modify history copies
  mput-Grown k m new g = bind (flag_del-Kept (writes new) msg k mesg_wait g) λ v h.
      bind (deref_lem k v) λ c e.
        let behind = sym (append_assoc (taken c.received) c.messages (m ∷ [])) in
        ensures (
          Grown-as (λ j. ap (λ l. new j ++ l) (sym (append-nil _)))
            (store-Grown v k c (record c { messages = c.messages ++ m ∷ [] }) (m ∷ []) e behind h))

  served_as :
      {a b : Address → List ℕ} {r : Outcome World}
      → ((j : Address) → a j ≡ b j)
      → Ensures (Grown old a) r
      → Ensures (Grown old b) r
  served_as same (ensures g) = ensures (Grown-as same g)
  served_as same faulted = faulted

  -- A round for each of `xs`, and behind them those that have had their turn
  broadcast_loop-Grown :
      (xs ys : List Address) (i m : ℕ) (new : Address → List ℕ) {w : World}
      → Has i (xs ++ ys) w
      → Grown old new w
      → Ensures (Grown old (λ j. new j ++ copies j m xs)) (broadcast_loop (length xs) i m w)
  unfolding broadcast_loop copies
  broadcast_loop-Grown [] ys i m new has g = ensures (Grown-as (λ j. sym (append-nil (new j))) g)
  broadcast_loop-Grown (k ∷ xs) ys i m new {w} has g = bind (childs_of-Has i w) λ l h.
      rw (sym h ∙ has) (
        served_as (λ j. one_more new k m xs j)
          (bind (joined (set_childs-Has i (xs ++ ys) w) (set_childs-Kept (writes new) (some i) _ g))
            λ w1 r1. bind (joined (mput-SameChilds k m w1) (mput-Grown k m new r1.1)) λ w2 r2.
              bind (childs_of-Has i w2) λ l2 h2.
                bind
                  (joined (set_childs-Has i (l2 ++ k ∷ []) w2)
                    (set_childs-Kept (writes _) (some i) _ r2.1))
                  λ w3 r3.
                    broadcast_loop-Grown xs (ys ++ k ∷ []) i m _
                      (r3.0 ∙ turned xs ys k (sym h2 ∙ r2.0.childs i ∙ r1.0)) r3.1))

  mbroadcast-Grown :
      (i m : ℕ) (new : Address → List ℕ) {w : World}
      → Grown old new w
      → Ensures (Grown old (λ j. new j ++ copies j m (childs_in (w.heap i)))) (mbroadcast i m w)
  unfolding mbroadcast
  mbroadcast-Grown i m new {w} g =
      bind (childs_of-Has i w)
        λ l h. rw h (broadcast_loop-Grown l [] i m new (h ∙ sym (append-nil l)) g)

  still :
      {a : Address → List ℕ} {r : Outcome World}
      → Ensures (Grown old a) r
      → Ensures (Grown old (λ j. a j ++ [])) r
  still g = served_as (λ j. sym (append-nil _)) g

  mput_frame :
      (ctx : Option Address) (cs : List Call) (k m : ℕ) (new : Address → List ℕ) {w : World}
      → Grown old new w
      → Ensures
          (Grown old (λ j. new j ++ copies j m (k ∷ [])))
          (push ctx (Frame.user cs) w >>= mput k m)
  mput_frame ctx cs k m new g = bind (push-Kept (writes new) ctx _ g) λ v h. mput-Grown k m new h

  mbroadcast_frame :
      (ctx : Option Address) (cs : List Call) (k m : ℕ) (new : Address → List ℕ) (u w : World)
      → SameChilds u w
      → Grown old new w
      → Ensures
          (Grown old (λ j. new j ++ copies j m (childs_in (u.heap k))))
          (push ctx (Frame.user cs) w >>= mbroadcast k m)
  mbroadcast_frame ctx cs k m new u w s g =
      bind (joined (push-SameChilds ctx (Frame.user cs) w) (push-Kept (writes new) ctx _ g)) λ v r.
        served_as (λ j. ap (λ l. new j ++ copies j m l) (r.0.childs k ∙ s.childs k))
          (mbroadcast-Grown k m new r.1)

  posting-Grown :
      (ctx : Option Address) (f : Frame)
      → Posting f
      → (new : Address → List ℕ) (u w : World) → SameChilds u w
      → Grown old new w
      → Ensures (Grown old (λ j. new j ++ posted_frame u f j)) (exec ctx f w)
  unfolding exec call
  posting-Grown none f (Posting.to_one k m cs) new u w s g = mput_frame none cs k m new g
  posting-Grown (some i) f (Posting.to_one k m cs) new u w s g = mput_frame (some i) cs k m new g
  posting-Grown none f (Posting.to_childs k m cs) new u w s g =
      mbroadcast_frame none cs k m new u w s g
  posting-Grown (some i) f (Posting.to_childs k m cs) new u w s g =
      mbroadcast_frame (some i) cs k m new u w s g

  -- A frame that runs after it has been taken from the stack, in a world with the children of `u`
  exec-Grown :
      (ctx : Option Address) (f : Frame) (new : Address → List ℕ) (u w : World)
      → SameChilds u w
      → Grown old new w
      → Ensures (Grown old (λ j. new j ++ posted_frame u f j)) (exec ctx f w)
  exec-Grown ctx f new u w s g = elim (frame_cases f) [
    | inl p ↦ posting-Grown ctx f p new u w s g
    | inr silent ↦
        served_as (λ j. ap (λ l. new j ++ l) (sym (silent.1 u j)))
          (still (exec-Walked Grown-walk ctx f silent.0 g))
  ]

  exec_some-Grown :
      (ctx : Option Address) (o : Option Frame) (new : Address → List ℕ) (u w : World)
      → SameChilds u w
      → Grown old new w
      → Ensures (Grown old (λ j. new j ++ posted_top o u j)) (exec_some ctx o w)
  unfolding exec_some
  exec_some-Grown ctx none new u w s g = still (ensures g)
  exec_some-Grown ctx (some f) new u w s g = exec-Grown ctx f new u w s g

  step-Grown :
      (new : Address → List ℕ) (w : World)
      → Grown old new w
      → Ensures (Grown old (λ j. new j ++ posted_by w j)) (step w)
  unfolding step
  step-Grown new w g =
      bind (joined (pop_frame-Popped w.current w) (pop_frame-Kept Grown-walk w.current g)) λ r t.
        served_as (λ j. ap (λ (o : Option Frame). new j ++ posted_top o w j) t.0.top)
          (exec_some-Grown w.current r.0 new w r.1 t.0.same t.1)

  steps-Grown :
      (n : ℕ) (new : Address → List ℕ) (w : World)
      → Grown old new w
      → Ensures (Grown old (λ j. new j ++ posted n w j)) (steps n w)
  unfolding steps posted
  steps-Grown zero new w g = still (ensures g)
  steps-Grown (suc n) new w g =
      served_as (λ j. append_assoc (new j) (posted_by w j) _)
        (later n (λ v. steps-Grown n (λ j. new j ++ posted_by w j) v) (step-Grown new w g))
    where
      later :
          (n : ℕ) {a : Address → List ℕ} {r : Outcome World}
          → ((v : World)
              → Grown old a v
              → Ensures (Grown old (λ j. a j ++ posted n v j)) (steps n v))
          → Ensures (Grown old a) r
          → Ensures
              (Grown old (λ j. a j ++ elim r [ ok v ↦ posted n v j | fault e ↦ [] ]))
              (r >>= steps n)
      later n next (ensures {a = v} g) = next v g
      later n next faulted = faulted

nothing_yet : (w : World) → Grown (λ i. history_of (w.heap i)) (λ i. []) w
nothing_yet w = record { exact = λ i. self (w.heap i) }
  where
    self : (o : Option Coroutine) → Exactly (history_of o) [] o
    self none = refl
    self (some c) = sym (append-nil (history c))

-- Whatever the coroutines and the main program call, no message is lost, doubled or overtaken. After any
-- number of steps that end without a fault, an object that is still there has had the messages that it
-- had before, in the same order, those it has taken before those in its queue, and behind them exactly
-- the messages that these steps put, in the order they were put: one for each `mput` on it, and one for
-- each time that it stands in the list of children of a coroutine whose `mbroadcast` is called. An object
-- that was not there does not come back.
pub steps-Exactly :
    (n : ℕ) (w u : World)
    → steps n w ≡ ok u
    → (i : Address) → Exactly (history_of (w.heap i)) (posted n w i) (u.heap i)
steps-Exactly n w u e = (of_ok (steps-Grown n (λ i. []) w (nothing_yet w)) e).exact
