-- ===== src/Coroutine/Walk.antt =====
-- The functions of the machine by what they write: what is kept by every write of one coroutine, and by
-- the two halves of a switch, is kept by every step.
pub mod Quiet
pub mod Frames
pub mod Posting
pub mod Steps
use mathlib.Core.List.{append_assoc, append-nil}
use boost_coro.Base.{
  ◌==◌, ◌≡◌, refl, sym, ◌∙◌, Bool, true, false, inl, inr, Option-cases, Option, none, some, Ensures,
  ensures, faulted, List, [], ◌∷◌, ◌++◌, ℕ,
}
use boost_coro.Coroutine.State.{Address, stat_done, Call, Frame, Coroutine, World, deref, store}
use boost_coro.Coroutine.Machine.{transfer, transfer_pre}

pub deref_lem : (i : Address) (w : World) → Ensures (λ c. w.heap i ≡ some c) (deref i w)
unfolding deref
deref_lem i w = elim (Option-cases (w.heap i)) [
  | inl e ↦ rw e faulted
  | inr (c, e) ↦ rw e (ensures refl)
]

-- The messages of a coroutine, those it has taken before those it has not, in order
unfoldable pub taken : List ℕ → List ℕ
taken [] = []
taken (m ∷ ms) = taken ms ++ m ∷ []

unfoldable pub history : Coroutine → List ℕ
unfolding taken
history c = taken c.received ++ c.messages

-- A write of the coroutine `c` as `d` that is no switch, and leaves its history as it is.
pub record Keeps (c d : Coroutine) : Type 0 where
  pub stat : d.stat ≡ c.stat
  pub same : history d ≡ history c

pub other_fields :
    (c d : Coroutine)
    → d.stat ≡ c.stat
    → d.messages ≡ c.messages
    → d.received ≡ c.received
    → Keeps c d
unfolding history
other_fields c d s m r = record { stat = s; same = rw (m, r) refl }

pub one_taken :
    (c d : Coroutine) (m : ℕ) (ms : List ℕ)
    → c.messages ≡ m ∷ ms
    → d.stat ≡ c.stat
    → d.messages ≡ ms
    → d.received ≡ m ∷ c.received
    → Keeps c d
unfolding history taken
one_taken c d m ms f s e r = record {
  stat = s;
  same = rw (e, r, f) (append_assoc (taken c.received) (m ∷ []) ms);
}

-- What is kept by every write that is no switch
pub record Writes (P : World → Type 0) : Type 0 where
  pub main :
      (w : World) (l : List Address) (fs : List Frame)
      → P w
      → P (record w { main_childs = l; main_context = fs })
  pub write :
      (w : World) (i : Address) (c d : Coroutine)
      → w.heap i ≡ some c
      → Keeps c d
      → P w
      → P (store i (some d) w)

-- What is kept when a message is put into a queue, too
abbrev pub Posts : (World → Type 0) → Type 0
Posts P =
    (w : World) (i m : ℕ) (c : Coroutine)
    → w.heap i ≡ some c
    → P w
    → P (store i (some (record c { messages = c.messages ++ m ∷ [] })) w)

-- The calls that put messages
abbrev pub posts : Call → Bool
posts (Call.mput k m) = true
posts (Call.mbroadcast k m) = true
posts Call.yield = false
posts (Call.resume k) = false
posts (Call.resume_childs k) = false
posts (Call.child k) = false
posts (Call.flag_set ch k v) = false
posts (Call.flag_add ch k v) = false
posts (Call.flag_del ch k v) = false
posts Call.mget = false
posts Call.mget_yield = false

abbrev pub posts_frame : Frame → Bool
posts_frame (Frame.user []) = false
posts_frame (Frame.user (c ∷ cs)) = posts c
posts_frame Frame.execute_tail = false
posts_frame Frame.execute_loop = false
posts_frame (Frame.childs_loop x n) = false
posts_frame (Frame.childs_check x k n) = false
posts_frame (Frame.resume_tail k) = false
posts_frame Frame.yield_tail = false
posts_frame Frame.mget_loop = false
posts_frame Frame.resume_all = false

-- What holds while the context has the thread, and what holds after the step
pub record Walk (P : Option Address → World → Type 0) (Q : World → Type 0) : Type 0 where
  pub writes : (ctx : Option Address) → Writes (P ctx)
  pub destroy :
      (ctx : Option Address) (w : World) (i : Address) (c : Coroutine)
      → w.heap i ≡ some c
      → (c.stat == stat_done) ≡ true
      → P ctx w
      → P ctx (store i none w)
  pub stays : (ctx : Option Address) (w : World) → P ctx w → Q w
  pub enters :
      (ctx : Option Address) (w : World) (i : Address) → P ctx w → Ensures Q (transfer ctx i w)
  pub leaves : (w : World) (i : Address) → P (some i) w → Ensures Q (transfer_pre i w)
  pub finishes :
      (w : World) (i : Address) (c : Coroutine)
      → w.heap i ≡ some c
      → P (some i) w
      → Ensures Q (transfer_pre i (store i (some (record c { stat = stat_done })) w))
