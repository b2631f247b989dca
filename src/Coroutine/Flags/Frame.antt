-- ===== src/Coroutine/Flags/Frame.antt =====
-- The functions on flag words change the flag words only, and no deletion or addition of one word
-- touches the other.
use boost_coro.Base.{
  ℕ, zero, suc, ◌==◌, ◌≡◌, refl, ◌∙◌, inl, inr, Bool, true, false, ◌&&◌, if◌then◌else◌, Bool-cases,
  Option-cases, Option, none, some, Outcome, ok, ◌>>=◌, Ensures, ensures, faulted, bind, of_ok,
  arith,
}
use boost_coro.Coroutine.State.{
  Address, Channel, evet, msg, evet_wait, evet_chld, Coroutine, World, deref, store, modify,
}
use boost_coro.Coroutine.Flags.{word, set_word, chk, notify, flag_add, flag_set, flag_del, del_mask}

-- A coroutine without the word of one channel.
abbrev pub without : Channel → Option Coroutine → Option Coroutine
without ch none = none
without ch (some c) = some (set_word ch 0 c)

-- The two worlds differ at most in the words of channel `ch`.
pub record SameBut (ch : Channel) (w v : World) : Type 0 where
  pub current : v.current ≡ w.current
  pub main_childs : v.main_childs ≡ w.main_childs
  pub main_context : v.main_context ≡ w.main_context
  pub created : v.created ≡ w.created
  pub objects : (i : Address) → without ch (v.heap i) ≡ without ch (w.heap i)

pub SameBut-refl : (ch : Channel) (w : World) → SameBut ch w w
SameBut-refl ch w = record {
  current = refl;
  main_childs = refl;
  main_context = refl;
  created = refl;
  objects = λ i. refl;
}

pub SameBut-trans :
    (ch : Channel) {u v w : World} → SameBut ch u v → SameBut ch v w → SameBut ch u w
SameBut-trans ch s t = record {
  current = t.current ∙ s.current;
  main_childs = t.main_childs ∙ s.main_childs;
  main_context = t.main_context ∙ s.main_context;
  created = t.created ∙ s.created;
  objects = λ i. t.objects i ∙ s.objects i;
}

write_word :
    (ch : Channel) (i : Address) (f : Coroutine → ℕ) (w : World)
    → Ensures (SameBut ch w) (modify i (λ c. set_word ch (f c) c) w)
unfolding modify deref store
write_word ch i f w = elim (Option-cases (w.heap i)) [
  | inl e ↦ rw e faulted
  | inr (c, e) ↦ rw e (
      ensures (record {
        current = refl;
        main_childs = refl;
        main_context = refl;
        created = refl;
        objects = λ j. ground (arith, twice ch c (f c));
      }))
]
  where
    twice :
        (ch : Channel) (c : Coroutine) (x : ℕ) → set_word ch 0 (set_word ch x c) ≡ set_word ch 0 c
    twice evet c x = refl
    twice msg c x = refl

pub read_object :
    {Q : World → Type 0} (i : Address) (w : World) {k : Coroutine → Outcome World}
    → ((c : Coroutine) → Ensures Q (k c))
    → Ensures Q (deref i w >>= k)
unfolding deref
read_object i w next = elim (Option-cases (w.heap i)) [
  | inl e ↦ rw e faulted
  | inr (c, e) ↦ rw e (next c)
]

notify-SameBut :
    (ch : Channel) (add : Address → World → Outcome World) (p : Option Address) (v : ℕ) (w : World)
    → ((i : Address) → Ensures (SameBut ch w) (add i w))
    → Ensures (SameBut ch w) (notify add p v w)
unfolding notify
notify-SameBut ch add none v w keep = ensures (SameBut-refl ch w)
notify-SameBut ch add (some p) v w keep = elim (Bool-cases (v == evet_wait)) [
  | inl e ↦ rw e (ensures (SameBut-refl ch w))
  | inr e ↦ rw e (keep p)
]

trans :
    (ch : Channel) {u v : World} {r : Outcome World}
    → SameBut ch u v
    → Ensures (SameBut ch v) r
    → Ensures (SameBut ch u) r
trans ch s (ensures t) = ensures (SameBut-trans ch s t)
trans ch s faulted = faulted

pub flag_add-SameBut :
    (fuel : ℕ) (ch : Channel) (i v : ℕ) (w : World)
    → Ensures (SameBut ch w) (flag_add fuel ch i v w)
unfolding flag_add
flag_add-SameBut zero ch i v w = faulted
flag_add-SameBut (suc fuel) ch i v w = bind (write_word ch i _ w) λ w' s.
    read_object i w' λ c.
      trans ch s (notify-SameBut ch _ c.parent v w' λ p. flag_add-SameBut fuel ch p evet_chld w')

pub flag_set-SameBut :
    (ch : Channel) (i v : ℕ) (w : World) → Ensures (SameBut ch w) (flag_set ch i v w)
unfolding flag_set
flag_set-SameBut ch i v w = bind (write_word ch i _ w) λ w' s. read_object i w' λ c.
    trans ch s (notify-SameBut ch _ c.parent v w' λ p. flag_add-SameBut w.created ch p evet_chld w')

-- The first half of a deletion.
told-SameBut :
    (ch : Channel) (o : Option Address) (tell : Bool) (w : World)
    → Ensures
        (SameBut ch w)
        (if tell then notify (λ p. flag_add w.created ch p evet_chld) o evet_chld w else ok w)
told-SameBut ch o true w =
    notify-SameBut ch _ o evet_chld w λ p. flag_add-SameBut w.created ch p evet_chld w
told-SameBut ch o false w = ensures (SameBut-refl ch w)

pub notify_told-SameBut :
    (ch : Channel) (o : Option Address) (tell : Bool) (w : World) {v : World}
    → (if tell then notify (λ p. flag_add w.created ch p evet_chld) o evet_chld w else ok w) ≡ ok v
    → SameBut ch w v
notify_told-SameBut ch o tell w e = of_ok (told-SameBut ch o tell w) e

pub flag_del-SameBut :
    (ch : Channel) (i v : ℕ) (w : World) → Ensures (SameBut ch w) (flag_del ch i v w)
unfolding flag_del
flag_del-SameBut ch i v w = read_object i w λ c.
    bind (told-SameBut ch c.parent (chk (word ch c) (del_mask ch v) && v == evet_wait) w)
      λ w' s. trans ch s (write_word ch i _ w')
