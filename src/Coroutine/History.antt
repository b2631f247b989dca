-- ===== src/Coroutine/History.antt =====
-- What becomes of messages: over the whole machine, whichever calls its coroutines make.
pub mod Childs
pub mod Posts
use mathlib.Core.List.{append_assoc, append-nil}
use boost_coro.Base.{
  ℕ, if◌then◌else◌, zero, suc, ◌*◌, ◌==◌, ◌≡◌, refl, sym, ap, ◌∙◌, subst, inl, inr, Bool-cases,
  ==_iff, Option, none, some, ok, Ensures, ensures, faulted, bind, of_ok, List, [], ◌++◌,
}
use boost_coro.Coroutine.State.{Address, stat_wait, Coroutine, World, store, modify}
use boost_coro.Coroutine.Machine.{
  coro_context, wake, suspend, transfer, switch_back, transfer_pre, steps,
}
use boost_coro.Coroutine.Walk.{history, Walk, deref_lem}
use boost_coro.Coroutine.Walk.Steps.{step-Walked}

-- The messages that an object has had, if it is there
abbrev pub history_of : Option Coroutine → Option (List ℕ)
history_of none = none
history_of (some c) = some (history c)

-- From then until now: the messages it had, in the same order, and `xs` behind them, no more and no less;
-- or destroyed. An object that is not there does not come back.
abbrev pub Exactly : Option (List ℕ) → List ℕ → Option Coroutine → Type 0
Exactly none xs o = o ≡ none
Exactly (some h) xs none = Unit {0}
Exactly (some h) xs (some c) = history c ≡ h ++ xs

pub record Grown (old : Address → Option (List ℕ)) (new : Address → List ℕ) (w : World)
    : Type 0 where
  pub exact : (i : Address) → Exactly (old i) (new i) (w.heap i)

Exactly-more :
    (h : Option (List ℕ)) (c d : Coroutine) (xs ys : List ℕ)
    → history d ≡ history c ++ ys
    → Exactly h xs (some c)
    → Exactly h (xs ++ ys) (some d)
Exactly-more none c d xs ys e l = cc
Exactly-more (some h) c d xs ys e f = e ∙ ap (λ l. l ++ ys) f ∙ append_assoc h xs ys

Exactly-none : (h : Option (List ℕ)) (xs : List ℕ) → Exactly h xs none
Exactly-none none xs = refl
Exactly-none (some h) xs = tt

-- The same messages, named otherwise
pub Grown-as :
    {old : Address → Option (List ℕ)} {a b : Address → List ℕ} {w : World}
    → ((i : Address) → a i ≡ b i)
    → Grown old a w
    → Grown old b w
Grown-as {old} {w} same g = record {
  exact = λ i. subst (λ l. Exactly (old i) l (w.heap i)) (same i) (g.exact i);
}

module _ {old : Address → Option (List ℕ)} {new : Address → List ℕ} where
  -- A write that puts `ys` behind the messages of `i`
  pub store-Grown :
      (w : World) (i : Address) (c d : Coroutine) (ys : List ℕ)
      → w.heap i ≡ some c
      → history d ≡ history c ++ ys
      → Grown old new w
      → Grown old (λ j. new j ++ (if j == i then ys else [])) (store i (some d) w)
  unfolding store
  store-Grown w i c d ys e f g = record {
    exact = λ j. elim (Bool-cases (j == i)) [
      | inl h ↦ rw h (
          subst (λ k. Exactly (old k) (new k ++ ys) (some d)) (sym ((==_iff j i).0 h))
            (Exactly-more (old i) c d (new i) ys f (subst (Exactly (old i) (new i)) e (g.exact i))))
      | inr h ↦
          rw h (subst (λ l. Exactly (old j) l (w.heap j)) (sym (append-nil (new j))) (g.exact j))
    ];
  }

  destroy-Grown : (w : World) (i : Address) → Grown old new w → Grown old new (store i none w)
  unfolding store
  destroy-Grown w i g = record {
    exact = λ j. elim (Bool-cases (j == i)) [
      | inl h ↦ rw h (Exactly-none (old j) (new j))
      | inr h ↦ rw h (g.exact j)
    ];
  }

  -- A write of other fields than the messages
  same-Grown :
      (w : World) (i : Address) (c d : Coroutine)
      → w.heap i ≡ some c
      → history d ≡ history c
      → Grown old new w
      → Grown old new (store i (some d) w)
  same-Grown w i c d e f g =
      Grown-as
        (λ j. elim (Bool-cases (j == i)) [
          | inl h ↦ rw h (append-nil (new j))
          | inr h ↦ rw h (append-nil (new j))
        ])
        (store-Grown w i c d [] e (f ∙ sym (append-nil _)) g)

  suspend-Grown :
      (x : Option Address) (w : World) → Grown old new w → Ensures (Grown old new) (suspend x w)
  unfolding suspend modify history
  suspend-Grown none w g = ensures g
  suspend-Grown (some p) w g = bind (deref_lem p w) λ c e. ensures (same-Grown w p c _ e refl g)

  switch_back-Grown :
      (x : Option Address) (w : World) → Grown old new w → Ensures (Grown old new) (switch_back x w)
  unfolding switch_back history
  switch_back-Grown none w g = ensures (record { exact = g.exact })
  switch_back-Grown (some p) w g = bind (deref_lem p w) λ c e.
      elim (Bool-cases (c.stat == stat_wait)) [
        | inl h ↦ rw h (
            ensures (record {
              exact = (same-Grown w p c (record c { stat = c.stat * 2 }) e refl g).exact;
            }))
        | inr h ↦ rw h faulted
      ]

  transfer-Grown :
      (x : Option Address) (w : World) (i : Address)
      → Grown old new w
      → Ensures (Grown old new) (transfer x i w)
  unfolding transfer history
  transfer-Grown x w i g = bind (deref_lem i w) λ c e.
      elim (Bool-cases (wake c.stat == stat_wait)) [
        | inl h ↦ rw h (
            suspend-Grown x _ (record {
              exact =
                  (same-Grown w i c
                    (record c { stat = wake c.stat * 2; pre = x; context = coro_context c }) e refl
                    g).exact;
            }))
        | inr h ↦ rw h faulted
      ]

  transfer_pre-Grown :
      (w : World) (i : Address) → Grown old new w → Ensures (Grown old new) (transfer_pre i w)
  unfolding transfer_pre history
  transfer_pre-Grown w i g =
      bind (deref_lem i w) λ c e. switch_back-Grown c.pre _ (same-Grown w i c _ e refl g)

  pub Grown-walk : Walk (λ x. Grown old new) (Grown old new)
  unfolding history
  Grown-walk = record {
    writes = λ x. record {
      main = λ w l fs g. record { exact = g.exact };
      write = λ w i c d e k g. same-Grown w i c d e k.same g;
    };
    destroy = λ x w i c e d g. destroy-Grown w i g;
    stays = λ x w g. g;
    enters = λ x w i g. transfer-Grown x w i g;
    leaves = λ w i g. transfer_pre-Grown w i g;
    finishes = λ w i c e g. transfer_pre-Grown _ i (same-Grown w i c _ e refl g);
  }
