-- ===== src/Coroutine/Walk/Posting.antt =====
-- The frames that put messages: `mput` and `mbroadcast`, and to whom.
use boost_coro.Base.{
  ℕ, ◌==◌, ◌≡◌, refl, false, if◌then◌else◌, ◌⊎◌, inl, inr, Option, none, some, Ensures, bind, List,
  [], ◌∷◌, ◌++◌, ok, fault, zero, suc,
}
use boost_coro.Coroutine.State.{Address, Call, Frame, Coroutine, World}
use boost_coro.Coroutine.Machine.{exec, call, step}
use boost_coro.Coroutine.Walk.{Writes, Posts, posts_frame}
use boost_coro.Coroutine.Walk.Quiet.{push-Kept, mput-Kept, mbroadcast-Kept}

-- The children of an object, if it is there
abbrev pub childs_in : Option Coroutine → List Address
childs_in none = []
childs_in (some c) = c.childs

-- What the object `i` gets when each of a list gets `m` once
unfoldable pub copies : Address → ℕ → List Address → List ℕ
copies i m [] = []
copies i m (k ∷ l) = (if i == k then m ∷ [] else []) ++ copies i m l

-- What the object `i` gets from a call, and from a frame
abbrev pub posted_call : World → Call → Address → List ℕ
posted_call w (Call.mput k m) i = copies i m (k ∷ [])
posted_call w (Call.mbroadcast k m) i = copies i m (childs_in (w.heap k))
posted_call w c i = []

abbrev pub posted_frame : World → Frame → Address → List ℕ
posted_frame w (Frame.user (c ∷ cs)) i = posted_call w c i
posted_frame w f i = []

pub data Posting : Frame → Type 0 where
  to_one : (k m : ℕ) (cs : List Call) → Posting (Frame.user (Call.mput k m ∷ cs))
  to_childs : (k m : ℕ) (cs : List Call) → Posting (Frame.user (Call.mbroadcast k m ∷ cs))

abbrev Silent : Frame → Type 0
Silent f = (posts_frame f ≡ false) × ((w : World) (i : Address) → posted_frame w f i ≡ [])

pub frame_cases : (f : Frame) → Posting f ⊎ Silent f
frame_cases (Frame.user []) = inr (refl, λ w i. refl)
frame_cases (Frame.user (Call.mput k m ∷ cs)) = inl (Posting.to_one k m cs)
frame_cases (Frame.user (Call.mbroadcast k m ∷ cs)) = inl (Posting.to_childs k m cs)
frame_cases (Frame.user (Call.yield ∷ cs)) = inr (refl, λ w i. refl)
frame_cases (Frame.user (Call.resume k ∷ cs)) = inr (refl, λ w i. refl)
frame_cases (Frame.user (Call.resume_childs k ∷ cs)) = inr (refl, λ w i. refl)
frame_cases (Frame.user (Call.child k ∷ cs)) = inr (refl, λ w i. refl)
frame_cases (Frame.user (Call.flag_set ch k v ∷ cs)) = inr (refl, λ w i. refl)
frame_cases (Frame.user (Call.flag_add ch k v ∷ cs)) = inr (refl, λ w i. refl)
frame_cases (Frame.user (Call.flag_del ch k v ∷ cs)) = inr (refl, λ w i. refl)
frame_cases (Frame.user (Call.mget ∷ cs)) = inr (refl, λ w i. refl)
frame_cases (Frame.user (Call.mget_yield ∷ cs)) = inr (refl, λ w i. refl)
frame_cases Frame.execute_tail = inr (refl, λ w i. refl)
frame_cases Frame.execute_loop = inr (refl, λ w i. refl)
frame_cases (Frame.childs_loop x n) = inr (refl, λ w i. refl)
frame_cases (Frame.childs_check x k n) = inr (refl, λ w i. refl)
frame_cases (Frame.resume_tail k) = inr (refl, λ w i. refl)
frame_cases Frame.yield_tail = inr (refl, λ w i. refl)
frame_cases Frame.mget_loop = inr (refl, λ w i. refl)
frame_cases Frame.resume_all = inr (refl, λ w i. refl)

-- Such a frame keeps what every write and every put keep.
pub exec-Posted :
    {P : World → Type 0} (p : Writes P) (post : Posts P) (ctx : Option Address) (f : Frame)
    → Posting f
    → {w : World} → P w
    → Ensures P (exec ctx f w)
unfolding exec call
exec-Posted p post none f (Posting.to_one k m cs) b =
    bind (push-Kept p none _ b) λ w' b'. mput-Kept p post k m b'
exec-Posted p post (some i) f (Posting.to_one k m cs) b =
    bind (push-Kept p (some i) _ b) λ w' b'. mput-Kept p post k m b'
exec-Posted p post none f (Posting.to_childs k m cs) b =
    bind (push-Kept p none _ b) λ w' b'. mbroadcast-Kept p post k m b'
exec-Posted p post (some i) f (Posting.to_childs k m cs) b =
    bind (push-Kept p (some i) _ b) λ w' b'. mbroadcast-Kept p post k m b'

-- The innermost frame of the context that has the thread
abbrev pub first : List Frame → Option Frame
first [] = none
first (f ∷ fs) = some f

abbrev pub first_in : Option (List Frame) → Option Frame
first_in none = none
first_in (some fs) = first fs

abbrev pub first_of : Option Coroutine → Option Frame
first_of none = none
first_of (some c) = first_in c.context

abbrev pub top_of : Option Address → World → Option Frame
top_of none w = first w.main_context
top_of (some i) w = first_of (w.heap i)

abbrev pub posted_top : Option Frame → World → Address → List ℕ
posted_top none w i = []
posted_top (some f) w i = posted_frame w f i

-- The messages that the next step, and the next `n` steps, put into the queue of `i`
abbrev pub posted_by : World → Address → List ℕ
posted_by w i = posted_top (top_of w.current w) w i

unfoldable pub posted : ℕ → World → Address → List ℕ
unfolding step
posted zero w i = []
posted (suc n) w i = posted_by w i ++ elim (step w) [ ok v ↦ posted n v i | fault e ↦ [] ]
