-- ===== src/Coroutine/History/Childs.antt =====
-- Which functions leave the objects' lists of children as they are: what `mbroadcast` goes by.
use boost_coro.Base.{
  ℕ, ◌≡◌, refl, ◌∙◌, Option, none, some, ok, fault, no_frame, Ensures, ensures, faulted, bind, List,
  [], ◌∷◌, ◌++◌, arith,
}
use boost_coro.Coroutine.State.{Address, msg, mesg_wait, Frame, Coroutine, World, store, modify}
use boost_coro.Coroutine.Flags.Frame.{without, flag_del-SameBut}
use boost_coro.Coroutine.Machine.{push, childs_of, set_childs, mput, pop_frame}
use boost_coro.Coroutine.Walk.{deref_lem}
use boost_coro.Coroutine.Walk.Posting.{childs_in, top_of}

-- Worlds where the objects have the same children
pub record SameChilds (w v : World) : Type 0 where
  pub childs : (j : Address) → childs_in (v.heap j) ≡ childs_in (w.heap j)

store-SameChilds :
    (w : World) (i : Address) (c d : Coroutine)
    → w.heap i ≡ some c
    → d.childs ≡ c.childs
    → SameChilds w (store i (some d) w)
unfolding store
store-SameChilds w i c d e s = record { childs = λ j. ground (arith) }

without-childs :
    (o p : Option Coroutine) → without msg o ≡ without msg p → childs_in o ≡ childs_in p
without-childs none none h = refl
without-childs none (some b) h = cc
without-childs (some b) none h = cc
without-childs (some a) (some b) h = ground arith

pub mput-SameChilds : (k m : ℕ) (w : World) → Ensures (SameChilds w) (mput k m w)
unfolding mput modify
mput-SameChilds k m w = bind (flag_del-SameBut msg k mesg_wait w) λ v s. bind (deref_lem k v) λ c e.
    let t = store-SameChilds v k c (record c { messages = c.messages ++ m ∷ [] }) e refl in
    ensures (record { childs = λ j. t.childs j ∙ without-childs _ _ (s.objects j) })

pub push-SameChilds :
    (x : Option Address) (f : Frame) (w : World) → Ensures (SameChilds w) (push x f w)
unfolding push modify
push-SameChilds none f w = ensures (record { childs = λ j. refl })
push-SameChilds (some i) f w = bind (deref_lem i w) λ c e. ensures (store-SameChilds w i c _ e refl)

-- The children of one object
abbrev pub Has : Address → List Address → World → Type 0
Has i l w = childs_in (w.heap i) ≡ l

pub set_childs-Has :
    (i : Address) (l : List Address) (w : World) → Ensures (Has i l) (set_childs (some i) l w)
unfolding set_childs modify store
set_childs-Has i l w = bind (deref_lem i w) λ c e. ensures (ground arith)

pub childs_of-Has : (i : Address) (w : World) → Ensures (λ l. Has i l w) (childs_of (some i) w)
unfolding childs_of
childs_of-Has i w = bind (deref_lem i w) λ c e. ensures (rw e refl)

-- What is taken from a stack is its innermost frame, and the objects keep their children.
pub record Popped (ctx : Option Address) (w : World) (r : Option Frame × World) : Type 0 where
  pub top : r.0 ≡ top_of ctx w
  pub same : SameChilds w r.1

pub pop_frame-Popped : (ctx : Option Address) (w : World) → Ensures (Popped ctx w) (pop_frame ctx w)
unfolding pop_frame
pop_frame-Popped none w = go w.main_context refl
  where
    go :
        (l : List Frame)
        → w.main_context ≡ l
        → Ensures
            (Popped none w)
            (elim l [ [] ↦ ok (none, w) | f ∷ fs ↦ ok (some f, record w { main_context = fs }) ])
    go [] e = ensures (record { top = rw e refl; same = record { childs = λ j. refl } })
    go (f ∷ fs) e = ensures (record { top = rw e refl; same = record { childs = λ j. refl } })
pop_frame-Popped (some i) w = bind (deref_lem i w) λ c e. go c e c.context refl
  where
    go :
        (c : Coroutine)
        → w.heap i ≡ some c
        → (o : Option (List Frame)) → c.context ≡ o
        → Ensures (Popped (some i) w) (elim o [
          | none ↦ fault no_frame
          | some fs ↦ elim fs [
            | [] ↦ fault no_frame
            | f ∷ gs ↦ ok (some f, store i (some (record c { context = some gs })) w)
          ]
        ])
    go c e none h = faulted
    go c e (some []) h = faulted
    go c e (some (f ∷ gs)) h =
        ensures (record { top = rw (e, h) refl; same = store-SameChilds w i c _ e refl })
