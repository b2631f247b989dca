-- ===== src/Coroutine/Mailbox.antt =====
-- Messages: `mput` delivers, wakes the receiver and tells its ancestors; `mget` takes the oldest.
use boost_coro.Base.{
  All, ℕ, zero, suc, ◌==◌, ◌≡◌, ◌≢◌, ◌≤◌, refl, ◌∙◌, sym, ap, inl, inr, Bool, true, false, ◌&&◌,
  if◌then◌else◌, Bool-cases, ==_iff, Option, none, some, Outcome, ok, ◌>>=◌, List, [], ◌∷◌, ◌++◌,
  length, bit, bit_le, bit-bit_and, bit_and-two_pow, bit_and, arith,
}
use boost_coro.Coroutine.State.{
  Address, msg, mesg_wait, evet_chld, Coroutine, World, deref, store, modify,
}
use boost_coro.Coroutine.Flags.{chk, clear, notify, flag_add, flag_del}
use boost_coro.Coroutine.Flags.Frame.{SameBut, without, notify_told-SameBut}
use boost_coro.Coroutine.Flags.Chain.{Ancestors, bit_at, bit_at_le, self, Told-from}
use boost_coro.Coroutine.Machine.{mput, take_message}

abbrev pub messages_of : Option Coroutine → List ℕ
messages_of none = []
messages_of (some c) = c.messages

-- `word & ~WAIT` has no WAIT, and CHLD as before.
chk-clear : (x : ℕ) → chk (clear x mesg_wait) mesg_wait ≡ false
unfolding chk clear bit
chk-clear x =
    let none_left : bit_and (bit_and x 0xfffe) 1 ≡ 0 =
      omega (arith, bit_and-two_pow 0 (bit_and x 0xfffe), bit-bit_and 0 x 0xfffe) in
    rw none_left

bit-clear : (x : ℕ) → bit 7 (clear x mesg_wait) ≡ bit 7 x
unfolding clear bit
bit-clear x = omega (arith, bit-bit_and 7 x 0xfffe, bit_le 7 x)

-- The receiver's ancestors know that a child has something to do.
abbrev pub Knowing : List Address → World → Type 0
Knowing l w = All (λ j. bit_at msg 7 (w.heap j) ≡ 1) l

-- Before the flag goes: those who are to be told are told.
told_before :
    (waits : Bool) (o : Option Address) (l : List Address) (w : World)
    → Ancestors w o l
    → length l ≤ w.created
    → (v : World) × ((if waits && true
          then notify (λ p. flag_add w.created msg p evet_chld) o evet_chld w
          else ok w)
        ≡ ok v)
      × (waits ≡ true → Knowing l v)
unfolding notify bit
told_before false o l w a enough = (w, refl, λ h. cc)
told_before true none [] w a enough = (w, refl, λ h. tt)
told_before true none (_ ∷ _) w a enough = elim a [ ]
told_before true (some p) [] w a enough = elim a [ ]
told_before true (some p) (q ∷ l) w (at, (d, f, up)) enough =
    let (v, e, t) =
      Told-from w.created msg p evet_chld d w d.parent l f refl up (omega arith) refl in
    (v, e, λ h. (ground (arith, t.set 7, bit_at_le msg 7 (v.heap p)), t.told))

-- The object at `i` in a world that differs in `_msg` words only.
same_object :
    (i : Address) (c : Coroutine) (w v : World)
    → SameBut msg w v
    → w.heap i ≡ some c
    → (d : Coroutine) × (v.heap i ≡ some d) × (record d { msg = 0 } ≡ record c { msg = 0 })
same_object i c w v s e = go (v.heap i) refl
  where
    go :
        (o : Option Coroutine)
        → v.heap i ≡ o
        → (d : Coroutine) × (v.heap i ≡ some d) × (record d { msg = 0 } ≡ record c { msg = 0 })
    go none f = absurd (ground (arith, s.objects i))
    go (some d) f = (d, f, ground (arith, s.objects i))

Knowing-store :
    (l : List Address) (i : Address) (d d' : Coroutine) (w : World)
    → w.heap i ≡ some d
    → bit 7 d'.msg ≡ bit 7 d.msg
    → Knowing l w
    → Knowing l (store i (some d') w)
unfolding store
Knowing-store [] i d d' w e same k = tt
Knowing-store (j ∷ l) i d d' w e same (k, rest) = (here, Knowing-store l i d d' w e same rest)
  where
    here : bit_at msg 7 (if j == i then some d' else w.heap j) ≡ 1
    here = elim (Bool-cases (j == i)) [
      | inl h ↦ rw h (same ∙ ap (bit_at msg 7) (sym e ∙ ap w.heap (sym ((==_iff j i).0 h))) ∙ k)
      | inr h ↦ rw h k
    ]

abbrev pub quiet_msg : Coroutine → Coroutine
quiet_msg d = record d { msg = clear d.msg mesg_wait }

-- What `mput` does to the receiver, to the other objects' messages, and to the ancestors' flags.
record Delivered (i m : ℕ) (c : Coroutine) (ancestors : List Address) (w v : World) : Type 0 where
  pub receiver : Coroutine
  pub at : v.heap i ≡ some receiver
  pub queued : receiver.messages ≡ c.messages ++ m ∷ []
  pub kept : receiver.received ≡ c.received
  pub woken : chk receiver.msg mesg_wait ≡ false
  pub others : (j : Address) → j ≢ i → messages_of (v.heap j) ≡ messages_of (w.heap j)
  pub told : chk c.msg mesg_wait ≡ true → Knowing ancestors v

module _ (i m : ℕ) (c d : Coroutine) (w w1 : World) (e : w.heap i ≡ some c)
    (f : w1.heap i ≡ some d) where
  -- The receiver with its flag gone, then with the message in its queue.
  abbrev without_flag : World
  without_flag = store i (some (quiet_msg d)) w1

  abbrev with_message : Coroutine
  with_message = record (quiet_msg d) { messages = d.messages ++ m ∷ [] }

  at_i : without_flag.heap i ≡ some (quiet_msg d)
  unfolding store
  at_i = rw (self i)

  mput_run :
      (if chk c.msg mesg_wait && true
          then notify (λ p. flag_add w.created msg p evet_chld) c.parent evet_chld w
          else ok w)
        ≡ ok w1
      → mput i m w ≡ ok (store i (some with_message) without_flag)
  unfolding mput flag_del deref modify
  mput_run e1 = rw e (rw e1 (rw f (rw at_i)))

  others_keep :
      SameBut msg w w1
      → (j : Address) → j ≢ i
      → messages_of ((store i (some with_message) without_flag).heap j) ≡ messages_of (w.heap j)
  unfolding store
  others_keep s j apart =
      let away : (j == i) ≡ false = ground arith in
      rw away (same (w1.heap j) (w.heap j) (s.objects j))
    where
      same :
          (o p : Option Coroutine) → without msg o ≡ without msg p → messages_of o ≡ messages_of p
      same none none h = refl
      same none (some b) h = cc
      same (some b) none h = cc
      same (some a) (some b) h = ground arith

mput_run_Delivered :
    (i m : ℕ) (c : Coroutine) (l : List Address) (w : World)
    → w.heap i ≡ some c
    → Ancestors w c.parent l
    → length l ≤ w.created
    → (v : World) × (mput i m w ≡ ok v) × Delivered i m c l w v
mput_run_Delivered i m c l w e a enough =
    let (w1, e1, k) = told_before (chk c.msg mesg_wait) c.parent l w a enough in
    let s = notify_told-SameBut msg c.parent (chk c.msg mesg_wait && true) w e1 in
    let (d, f, same) = same_object i c w w1 s e in
    (
      store i (some (with_message i m c d w w1 e f)) (without_flag i m c d w w1 e f),
      mput_run i m c d w w1 e f e1,
      record {
        receiver = with_message i m c d w w1 e f;
        at = unfold store in rw (self i);
        queued = ap (λ (x : Coroutine). x.messages ++ m ∷ []) same;
        kept = ap (λ (x : Coroutine). x.received) same;
        woken = chk-clear d.msg;
        others = others_keep i m c d w w1 e f s;
        told = λ h.
            Knowing-store l i (quiet_msg d) (with_message i m c d w w1 e f)
              (without_flag i m c d w w1 e f) (at_i i m c d w w1 e f) refl
              (Knowing-store l i d (quiet_msg d) w1 f (bit-clear d.msg) (k h));
      },
    )

messages_at :
    (i m : ℕ) (c : Coroutine) (w v : World) (d : Coroutine)
    → v.heap i ≡ some d
    → d.messages ≡ c.messages ++ m ∷ []
    → ((j : Address) → j ≢ i → messages_of (v.heap j) ≡ messages_of (w.heap j))
    → (j : Address)
    → messages_of (v.heap j) ≡ (if j == i then c.messages ++ m ∷ [] else messages_of (w.heap j))
messages_at i m c w v d at queued others j = elim (Bool-cases (j == i)) [
  | inl h ↦ rw h (ap messages_of (ap v.heap ((==_iff j i).0 h) ∙ at) ∙ queued)
  | inr h ↦ rw h (others j (ground arith))
]

-- `mput(msg)` returns when the chain of the receiver's parents ends (within the objects created). The
-- message is then the last one in the receiver's queue, no other queue has changed, and the receiver
-- does not wait for a message any more.
pub mput_delivers :
    (i m : ℕ) (c : Coroutine) (l : List Address) (w : World)
    → w.heap i ≡ some c
    → Ancestors w c.parent l
    → length l ≤ w.created
    → (v : World) × (d : Coroutine) × (mput i m w ≡ ok v)
      × (v.heap i ≡ some d)
      × (chk d.msg mesg_wait ≡ false)
      × ((j : Address)
          → messages_of (v.heap j)
            ≡ (if j == i then c.messages ++ m ∷ [] else messages_of (w.heap j)))
mput_delivers i m c l w e a enough =
    let (v, run, h) = mput_run_Delivered i m c l w e a enough in
    (v, h.receiver, run, h.at, h.woken, messages_at i m c w v h.receiver h.at h.queued h.others)

-- `mput(msg)` to a coroutine that waits for a message sets the flag CORO_MESG_CHLD of all its
-- ancestors, when the chain of its parents ends (within the objects created).
pub mput_tells :
    (i m : ℕ) (c : Coroutine) (l : List Address) (w : World)
    → w.heap i ≡ some c
    → Ancestors w c.parent l
    → length l ≤ w.created
    → chk c.msg mesg_wait ≡ true
    → (v : World) × (mput i m w ≡ ok v) × Knowing l v
mput_tells i m c l w e a enough waits =
    let (v, run, h) = mput_run_Delivered i m c l w e a enough in (v, run, h.told waits)

-- `mget` takes the oldest message and leaves the others in their order; of an empty queue it takes
-- nothing, and does what is given for that case.
mget_oldest :
    (empty : World → Outcome World) (i m : ℕ) (ms : List ℕ) (c : Coroutine) (w : World)
    → w.heap i ≡ some c
    → c.messages ≡ m ∷ ms
    → take_message empty i w
      ≡ ok (store i (some (record c { messages = ms; received = m ∷ c.received })) w)
unfolding take_message deref
mget_oldest empty i m ms c w e q = rw e (ground arith)

-- `n` calls of `mget` one after the other
unfoldable pub mget_all : ℕ → Address → World → Outcome World
unfolding take_message
mget_all zero i w = ok w
mget_all (suc n) i w = take_message ok i w >>= mget_all n i

-- `xs`, the first one innermost, on top of `ys`
unfoldable pub rev_onto : List ℕ → List ℕ → List ℕ
rev_onto [] ys = ys
rev_onto (x ∷ xs) ys = rev_onto xs (x ∷ ys)

mget_all_lem :
    (ms : List ℕ) (i : ℕ) (c : Coroutine) (w : World)
    → w.heap i ≡ some c
    → c.messages ≡ ms
    → (v : World) × (d : Coroutine) × (mget_all (length ms) i w ≡ ok v)
      × (v.heap i ≡ some d)
      × (d.messages ≡ [])
      × (d.received ≡ rev_onto ms c.received)
unfolding mget_all rev_onto store
mget_all_lem [] i c w e q = (w, c, refl, e, q, refl)
mget_all_lem (m ∷ ms) i c w e q =
    let c' : Coroutine = record c { messages = ms; received = m ∷ c.received } in
    let (v, d, run, at, empty, got) =
      mget_all_lem ms i c' (store i (some c') w) (rw (self i)) refl in
    (v, d, rw (mget_oldest ok i m ms c w e q) run, at, empty, got)

-- Messages come out in the order they went in. After `mput(msg)` to a coroutine whose chain of parents
-- ends (within the objects created), as many calls of its `mget` as it has messages take them all: first
-- those that were in the queue, oldest first, and then `msg`.
pub mget-mput :
    (i m : ℕ) (c : Coroutine) (l : List Address) (w : World)
    → w.heap i ≡ some c
    → Ancestors w c.parent l
    → length l ≤ w.created
    → (v : World) × (d : Coroutine) × ((mput i m w >>= mget_all (length (c.messages ++ m ∷ [])) i)
        ≡ ok v)
      × (v.heap i ≡ some d)
      × (d.messages ≡ [])
      × (d.received ≡ rev_onto (c.messages ++ m ∷ []) c.received)
mget-mput i m c l w e a enough =
    let (v, run, h) = mput_run_Delivered i m c l w e a enough in
    let (u, d, all, at, empty, got) =
      mget_all_lem (c.messages ++ m ∷ []) i h.receiver v h.at h.queued in
    (u, d, rw run all, at, empty, got ∙ ap (rev_onto (c.messages ++ m ∷ [])) h.kept)
