-- ===== src/Coroutine/Flags/Chain.antt =====
-- Notification goes up the whole chain of parents, and ends if the chain does.
use boost_coro.Base.{
  All, ℕ, zero, suc, ◌==◌, ◌≡◌, ◌≤◌, ◌<◌, ◌≢◌, refl, ◌∙◌, ap, subst, sym, inl, inr, true, false,
  if◌then◌else◌, Bool-cases, Option-cases, Option, none, some, Outcome, ok, Ensures, ensures,
  faulted, of_ok, List, [], ◌∷◌, length, bit, bit_le, bit-bit_or, max, bit_or, arith,
}
use boost_coro.Coroutine.State.{
  Address, Channel, evet, msg, evet_wait, evet_chld, Coroutine, World, deref, store, modify,
}
use boost_coro.Coroutine.Flags.{word, set_word, notify, flag_add}
use boost_coro.Coroutine.Flags.Frame.{read_object}

-- Bit `b` of the word of a coroutine; 0 where there is none.
abbrev pub bit_at : Channel → ℕ → Option Coroutine → ℕ
bit_at ch b none = 0
bit_at ch b (some c) = bit b (word ch c)

-- From `o` the parents lead through `l`, and the last one has none.
abbrev pub Ancestors : World → Option Address → List Address → Type 0
Ancestors w none [] = Unit {0}
Ancestors w none (_ ∷ _) = ⊥
Ancestors w (some i) [] = ⊥
Ancestors w (some i) (j ∷ l) =
    (j ≡ i) × ((c : Coroutine) × (w.heap i ≡ some c) × Ancestors w c.parent l)

-- No bit of the channel's words is lost.
abbrev pub More : Channel → World → World → Type 0
More ch w v = (j : Address) (b : ℕ) → bit_at ch b (w.heap j) ≤ bit_at ch b (v.heap j)

-- `flags` are set at `i`, and every ancestor has the flag CHLD.
pub record Told (ch : Channel) (i flags : ℕ) (ancestors : List Address) (v : World) : Type 0 where
  pub set : (b : ℕ) → bit b flags ≤ bit_at ch b (v.heap i)
  pub told : All (λ j. bit_at ch 7 (v.heap j) ≡ 1) ancestors

word-set_word : (ch : Channel) (x : ℕ) (c : Coroutine) → word ch (set_word ch x c) ≡ x
word-set_word evet x c = refl
word-set_word msg x c = refl

parent-set_word : (ch : Channel) (x : ℕ) (c : Coroutine) → (set_word ch x c).parent ≡ c.parent
parent-set_word evet x c = refl
parent-set_word msg x c = refl

add_bits :
    (ch : Channel) (b i flags : ℕ) (c : Coroutine)
    → bit b (word ch (set_word ch (bit_or (word ch c) flags) c))
      ≡ max (bit b (word ch c)) (bit b flags)
add_bits ch b i flags c = rw (word-set_word ch _ c) (bit-bit_or b (word ch c) flags)

abbrev added : Channel → ℕ → Coroutine → Coroutine
added ch flags c = set_word ch (bit_or (word ch c) flags) c

module _ (ch : Channel) (i flags : ℕ) (c : Coroutine) (w : World) (e : w.heap i ≡ some c) where
  store-More : More ch w (store i (some (added ch flags c)) w)
  unfolding store
  store-More j b = ground (arith, add_bits ch b i flags c)

  store-Ancestors :
      (o : Option Address) (l : List Address)
      → Ancestors w o l
      → Ancestors (store i (some (added ch flags c)) w) o l
  unfolding store
  store-Ancestors none [] a = tt
  store-Ancestors none (_ ∷ _) a = a
  store-Ancestors (some p) [] a = a
  store-Ancestors (some p) (q ∷ l) (at, (d, f, up)) = elim (Bool-cases (p == i)) [
    | inr miss ↦ rw miss (at, (d, f, store-Ancestors d.parent l up))
    | inl hit ↦ rw hit (
      at,
      (
        added ch flags c,
        refl,
        subst (λ o. Ancestors (store i (some (added ch flags c)) w) o l) (same_parent d p f hit)
            (store-Ancestors d.parent l up),
      ),
    )
  ]
    where
      same_parent :
          (d : Coroutine) (p : Address)
          → w.heap p ≡ some d
          → (p == i) ≡ true
          → d.parent ≡ (added ch flags c).parent
      same_parent d p f hit = ground (arith, parent-set_word ch (bit_or (word ch c) flags) c)

More-trans :
    (ch : Channel) (u v : World) {r : Outcome World}
    → More ch u v
    → Ensures (More ch v) r
    → Ensures (More ch u) r
More-trans ch u v m (ensures n) = ensures (λ j b. omega (arith, m j b, n j b))
More-trans ch u v m faulted = faulted

More-refl : (ch : Channel) (w : World) → More ch w w
More-refl ch w j b = omega arith

notify-More :
    (ch : Channel) (add : Address → World → Outcome World) (p : Option Address) (v : ℕ) (w : World)
    → ((i : Address) → Ensures (More ch w) (add i w))
    → Ensures (More ch w) (notify add p v w)
unfolding notify
notify-More ch add none v w keep = ensures (More-refl ch w)
notify-More ch add (some p) v w keep = elim (Bool-cases (v == evet_wait)) [
  | inl e ↦ rw e (ensures (More-refl ch w))
  | inr e ↦ rw e (keep p)
]

flag_add-More :
    (fuel : ℕ) (ch : Channel) (i flags : ℕ) (w : World)
    → Ensures (More ch w) (flag_add fuel ch i flags w)
unfolding flag_add modify deref
flag_add-More zero ch i flags w = faulted
flag_add-More (suc fuel) ch i flags w = elim (Option-cases (w.heap i)) [
  | inl e ↦ rw e faulted
  | inr (c, e) ↦
      let w1 = store i (some (added ch flags c)) w in
      rw e (
        read_object i w1 λ d. More-trans ch w w1 (store-More ch i flags c w e) (
          notify-More ch (λ p. flag_add fuel ch p evet_chld) d.parent flags w1
            λ p. flag_add-More fuel ch p evet_chld w1))
]

pub self : (i : ℕ) → (i == i) ≡ true
self i = ground arith

chld_bit : bit 7 evet_chld ≡ 1
unfolding bit
chld_bit = refl

pub bit_at_le : (ch : Channel) (b : ℕ) (o : Option Coroutine) → bit_at ch b o ≤ 1
bit_at_le ch b none = omega arith
bit_at_le ch b (some c) = bit_le b (word ch c)

flag_add_step :
    (fuel : ℕ) (ch : Channel) (i flags : ℕ) (c : Coroutine) (w : World) (o : Option Address)
    → w.heap i ≡ some c
    → c.parent ≡ o
    → flag_add (suc fuel) ch i flags w
      ≡ notify (λ p. flag_add fuel ch p evet_chld) o flags (store i (some (added ch flags c)) w)
unfolding flag_add modify deref store
flag_add_step fuel ch i flags c w o e p = rw e (
    rw (self i) (
      rw (parent-set_word ch (bit_or (word ch c) flags) c) (
        ap
          (λ o.
            notify (λ p. flag_add fuel ch p evet_chld) o flags
              (store i (some (added ch flags c)) w))
          p)))

module _ (i q : ℕ) (c c' d : Coroutine) (w : World) (e : w.heap i ≡ some c)
    (f : w.heap q ≡ some d) where
  store_at : (store i (some c') w).heap q ≡ some (if q == i then c' else d)
  unfolding store
  store_at = elim (Bool-cases (q == i)) [ inl h ↦ rw h | inr h ↦ rw h f ]

  parent_at : c'.parent ≡ c.parent → (if q == i then c' else d).parent ≡ d.parent
  parent_at s = elim (Bool-cases (q == i)) [ inl h ↦ rw h (s ∙ both (ground arith)) | inr h ↦ rw h ]
    where
      both : q ≡ i → c.parent ≡ d.parent
      both h = let g : some c ≡ some d = sym e ∙ ap w.heap (sym h) ∙ f in ground arith

-- With fuel for the chain of parents the call returns.
pub Told-from :
    (fuel : ℕ) (ch : Channel) (i flags : ℕ) (c : Coroutine) (w : World) (o : Option Address)
    (l : List Address)
    → w.heap i ≡ some c
    → c.parent ≡ o
    → Ancestors w o l
    → length l < fuel
    → (flags == evet_wait) ≡ false
    → (v : World) × (flag_add fuel ch i flags w ≡ ok v) × Told ch i flags l v
unfolding notify store
Told-from zero ch i flags c w o l e p a enough not_wait = absurd (omega arith)
Told-from (suc fuel) ch i flags c w none [] e p a enough not_wait = (
  store i (some (added ch flags c)) w,
  flag_add_step fuel ch i flags c w none e p,
  record { set = λ b. ground (arith, add_bits ch b i flags c, bit_le b flags, self i); told = tt },
)
Told-from (suc fuel) ch i flags c w none (_ ∷ _) e p a enough not_wait = elim a [ ]
Told-from (suc fuel) ch i flags c w (some q) [] e p a enough not_wait = elim a [ ]
Told-from (suc fuel) ch i flags c w (some q) (r ∷ l) e p (at, (d, f, up)) enough not_wait =
    let w1 = store i (some (added ch flags c)) w in
    let d1 = if q == i then added ch flags c else d in
    let (v, go, t) =
      Told-from fuel ch q evet_chld d1 w1 d.parent l (store_at i q c (added ch flags c) d w e f)
        (parent_at i q c (added ch flags c) d w e f
          (parent-set_word ch (bit_or (word ch c) flags) c))
        (store-Ancestors ch i flags c w e d.parent l up) (omega arith) refl in
    (v, flag_add_step fuel ch i flags c w (some q) e p ∙ rw not_wait go, climb v go t)
  where
    climb :
        (v : World)
        → flag_add fuel ch q evet_chld (store i (some (added ch flags c)) w) ≡ ok v
        → Told ch q evet_chld l v
        → Told ch i flags (r ∷ l) v
    climb v go t =
        let more =
          of_ok (flag_add-More fuel ch q evet_chld (store i (some (added ch flags c)) w)) go in
        record {
          set = λ b. ground (arith, add_bits ch b i flags c, bit_le b flags, self i, more i b);
          told = (ground (arith, t.set 7, chld_bit, bit_at_le ch 7 (v.heap q)), t.told);
        }

-- `event_add` and `msg_add` with any flags but WAIT alone return when the chain of parents ends (within
-- the objects created). The flags are then set, and CHLD is set at every ancestor.
pub flag_add-Told :
    (ch : Channel) (i flags : ℕ) (w : World) (l : List Address)
    → Ancestors w (some i) (i ∷ l)
    → length l ≤ w.created
    → flags ≢ evet_wait
    → (v : World) × (flag_add (suc w.created) ch i flags w ≡ ok v) × Told ch i flags l v
flag_add-Told ch i flags w l (_, (c, e, up)) enough not_wait =
    Told-from (suc w.created) ch i flags c w c.parent l e refl up (omega arith) (ground arith)
