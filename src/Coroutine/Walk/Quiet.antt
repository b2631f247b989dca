-- ===== src/Coroutine/Walk/Quiet.antt =====
-- The functions that do not switch contexts keep what every quiet write keeps.
use boost_coro.Base.{
  ℕ, zero, suc, ◌==◌, ◌≡◌, refl, inl, inr, not, ◌&&◌, if◌then◌else◌, Bool-cases, Option-cases,
  Option, none, some, Outcome, ok, ◌>>=◌, Ensures, ensures, faulted, bind, List, [], ◌∷◌, length,
}
use boost_coro.Coroutine.State.{
  Address, Channel, evet, msg, evet_wait, evet_chld, mesg_wait, mesg_chld, Frame, Coroutine, World,
  deref, store, modify,
}
use boost_coro.Coroutine.Flags.{word, set_word, chk, notify, flag_add, flag_set, flag_del, del_mask}
use boost_coro.Coroutine.Machine.{
  push, childs_of, set_childs, same, or_self, start_childs, yield, mput, broadcast_child,
  broadcast_loop, mbroadcast, take_message, mget_wait, mget_loop, add_child, resume_all,
}
use boost_coro.Coroutine.Walk.{Keeps, other_fields, one_taken, Writes, Posts, deref_lem}

set_word-Keeps : (ch : Channel) (v : ℕ) (c : Coroutine) → Keeps c (set_word ch v c)
set_word-Keeps evet v c = other_fields c _ refl refl refl
set_word-Keeps msg v c = other_fields c _ refl refl refl

-- Reading the children changes nothing.
pub read_childs {κ} :
    {B : Type κ} {Q : B → Type 0} (x : Option Address) (w : World) {k : List Address → Outcome B}
    → ((l : List Address) → Ensures Q (k l))
    → Ensures Q (childs_of x w >>= k)
unfolding childs_of deref
read_childs none w next = next _
read_childs (some i) w next = elim (Option-cases (w.heap i)) [
  | inl e ↦ rw e faulted
  | inr (c, e) ↦ rw e (next _)
]

module _ {P : World → Type 0} (p : Writes P) where
  modify-Kept :
      (i : Address) (f : Coroutine → Coroutine) {w : World}
      → ((c : Coroutine) → Keeps c (f c))
      → P w
      → Ensures P (modify i f w)
  unfolding modify
  modify-Kept i f {w} keep b =
      bind (deref_lem i w) λ c e. ensures (p.write w i c (f c) e (keep c) b)

  notify-Kept :
      (add : Address → World → Outcome World) (o : Option Address) (v : ℕ) {w : World}
      → ((i : Address) → Ensures P (add i w))
      → P w
      → Ensures P (notify add o v w)
  unfolding notify
  notify-Kept add none v keep b = ensures b
  notify-Kept add (some q) v keep b = elim (Bool-cases (v == evet_wait)) [
    | inl e ↦ rw e (ensures b)
    | inr e ↦ rw e (keep q)
  ]

  pub flag_add-Kept :
      (fuel : ℕ) (ch : Channel) (i v : ℕ) {w : World} → P w → Ensures P (flag_add fuel ch i v w)
  unfolding flag_add
  flag_add-Kept zero ch i v b = faulted
  flag_add-Kept (suc fuel) ch i v b = bind (modify-Kept i _ (λ c. set_word-Keeps ch _ c) b) λ w' b'.
      bind (deref_lem i w')
        λ c _. notify-Kept _ c.parent v (λ q. flag_add-Kept fuel ch q evet_chld b') b'

  pub flag_set-Kept : (ch : Channel) (i v : ℕ) {w : World} → P w → Ensures P (flag_set ch i v w)
  unfolding flag_set
  flag_set-Kept ch i v {w} b = bind (modify-Kept i _ (λ c. set_word-Keeps ch _ c) b) λ w' b'.
      bind (deref_lem i w')
        λ c _. notify-Kept _ c.parent v (λ q. flag_add-Kept w.created ch q evet_chld b') b'

  pub flag_del-Kept : (ch : Channel) (i v : ℕ) {w : World} → P w → Ensures P (flag_del ch i v w)
  unfolding flag_del
  flag_del-Kept ch i v {w} b =
      bind (deref_lem i w)
        λ c _. bind (told c) λ w' b'. modify-Kept i _ (λ c. set_word-Keeps ch _ c) b'
    where
      told :
          (c : Coroutine)
          → Ensures P (
              if chk (word ch c) (del_mask ch v) && v == evet_wait
              then notify (λ q. flag_add w.created ch q evet_chld) c.parent evet_chld w
              else ok w)
      told c = elim (Bool-cases (chk (word ch c) (del_mask ch v) && v == evet_wait)) [
        | inl e ↦
            rw e
              (notify-Kept _ c.parent evet_chld (λ q. flag_add-Kept w.created ch q evet_chld b) b)
        | inr e ↦ rw e (ensures b)
      ]

  pub push-Kept : (x : Option Address) (f : Frame) {w : World} → P w → Ensures P (push x f w)
  unfolding push
  push-Kept none f b = ensures (p.main _ _ _ b)
  push-Kept (some i) f b = modify-Kept i _ (λ c. other_fields c _ refl refl refl) b

  pub set_childs-Kept :
      (x : Option Address) (l : List Address) {w : World} → P w → Ensures P (set_childs x l w)
  unfolding set_childs
  set_childs-Kept none l b = ensures (p.main _ _ _ b)
  set_childs-Kept (some i) l b = modify-Kept i _ (λ c. other_fields c _ refl refl refl) b

  pub start_childs-Kept :
      (x coro : Option Address) {w : World} → P w → Ensures P (start_childs x coro w)
  unfolding start_childs
  start_childs-Kept none coro {w} b = read_childs coro w λ l. push-Kept none _ b
  start_childs-Kept (some i) coro {w} b = bind (deref_lem (or_self coro i) w) λ c _.
      elim (Bool-cases (same coro i && (not (chk c.evet evet_chld) && not (chk c.msg evet_chld)))) [
        | inl e ↦ rw e (ensures b)
        | inr e ↦ rw e (
            bind (flag_del-Kept evet (or_self coro i) evet_chld b) λ w1 b1.
              bind (flag_del-Kept msg (or_self coro i) mesg_chld b1)
                λ w2 b2. read_childs (some (or_self coro i)) w2 λ l. push-Kept (some i) _ b2)
      ]

  pub yield-Kept : (i : Address) {w : World} → P w → Ensures P (yield i w)
  unfolding yield
  yield-Kept i b = bind (push-Kept (some i) _ b) λ w' b'. start_childs-Kept (some i) none b'

  pub take_message-Kept :
      (empty : World → Outcome World) (i : Address) {w : World}
      → Ensures P (empty w)
      → P w
      → Ensures P (take_message empty i w)
  unfolding take_message
  take_message-Kept empty i {w} waits b = bind (deref_lem i w) λ c e. go c e c.messages refl
    where
      go :
          (c : Coroutine)
          → w.heap i ≡ some c
          → (ms : List ℕ) → c.messages ≡ ms
          → Ensures P (elim ms [
            | [] ↦ empty w
            | m ∷ ms ↦ ok (store i (some (record c { messages = ms; received = m ∷ c.received })) w)
          ])
      go c e [] f = waits
      go c e (m ∷ ms) f = ensures (p.write w i c _ e (one_taken c _ m ms f refl refl refl) b)

  pub mget_loop-Kept : (i : Address) {w : World} → P w → Ensures P (mget_loop i w)
  unfolding mget_loop
  mget_loop-Kept i b =
      take_message-Kept (mget_wait i) i
        (bind (flag_set-Kept msg i mesg_wait b)
          λ w1 b1. bind (push-Kept (some i) Frame.mget_loop b1) λ w2 b2. yield-Kept i b2)
        b

  pub add_child-Kept :
      (x : Option Address) (k : Address) {w : World} → P w → Ensures P (add_child x k w)
  unfolding add_child
  add_child-Kept none k b = ensures (p.main _ _ _ b)
  add_child-Kept (some i) k b =
      bind (modify-Kept k _ (λ c. other_fields c _ refl refl refl) b)
        λ w1 b1. read_childs (some i) w1 λ l. set_childs-Kept (some i) _ b1

  pub resume_all-Kept : {w : World} → P w → Ensures P (resume_all w)
  unfolding resume_all
  resume_all-Kept {w} b = go w.main_childs
    where
      go :
          (l : List Address)
          → Ensures P (elim l [
            | [] ↦ ok w
            | _ ∷ _ ↦ push none Frame.resume_all w >>= start_childs none none
          ])
      go [] = ensures b
      go (_ ∷ _) = bind (push-Kept none _ b) λ w' b'. start_childs-Kept none none b'

module _ {P : World → Type 0} (p : Writes P) (post : Posts P) where
  pub mput-Kept : (i m : ℕ) {w : World} → P w → Ensures P (mput i m w)
  unfolding mput modify
  mput-Kept i m b =
      bind (flag_del-Kept p msg i mesg_wait b)
        λ w' b'. bind (deref_lem i w') λ c e. ensures (post w' i m c e b')

  broadcast_loop-Kept : (n i m : ℕ) {w : World} → P w → Ensures P (broadcast_loop n i m w)
  unfolding broadcast_loop
  broadcast_loop-Kept zero i m b = ensures b
  broadcast_loop-Kept (suc n) i m {w} b =
      read_childs (some i) w (one (broadcast_loop n i m) λ v. broadcast_loop-Kept n i m)
    where
      one :
          (next : World → Outcome World)
          → ((v : World) → P v → Ensures P (next v))
          → (l : List Address) → Ensures P (broadcast_child next i m l w)
      one next keep [] = faulted
      one next keep (k ∷ l) = bind (set_childs-Kept p (some i) l b) λ w1 b1.
          bind (mput-Kept k m b1) λ w2 b2.
            read_childs (some i) w2 λ l2. bind (set_childs-Kept p (some i) _ b2) λ w3 b3. keep w3 b3

  pub mbroadcast-Kept : (i m : ℕ) {w : World} → P w → Ensures P (mbroadcast i m w)
  unfolding mbroadcast
  mbroadcast-Kept i m {w} b = read_childs (some i) w λ l. broadcast_loop-Kept (length l) i m b
