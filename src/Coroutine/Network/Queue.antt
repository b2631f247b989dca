-- ===== src/Coroutine/Network/Queue.antt =====
-- The addresses of a queue of processes.
use boost_coro.Base.{
  suc, ◌≡◌, ◌≢◌, refl, sym, ap, subst, List, [], ◌∷◌, ◌++◌, All, All-append, length,
}
use boost_coro.Coroutine.State.{Address}
use boost_coro.Coroutine.Network.{Process, Apart, addresses}

pub addresses_append :
    (q : List Process) (p : Process) → addresses (q ++ p ∷ []) ≡ addresses q ++ p.address ∷ []
addresses_append [] p = refl
addresses_append (i ∷ q) p = ap (λ l. i.address ∷ l) (addresses_append q p)

pub Apart-append :
    (q : List Process) (p : Process)
    → All (λ (i : Process). i.address ≢ p.address) q
    → Apart q
    → Apart (q ++ p ∷ [])
Apart-append [] p a b = (tt, tt)
Apart-append (i ∷ q) p (a, c) (b, d) =
    (All-append _ q _ b ((λ e. a (sym e)), tt), Apart-append q p c d)

pub All-front {ℓ κ} : {A : Type ℓ} (P : A → Type κ) (xs ys : List A) → All P (xs ++ ys) → All P xs
All-front P [] ys a = tt
All-front P (x ∷ xs) ys (a, b) = (a, All-front P xs ys b)

pub All-last {ℓ κ} :
    {A : Type ℓ} (P : A → Type κ) (xs : List A) (y : A) → All P (xs ++ y ∷ []) → P y
All-last P [] y (a, b) = a
All-last P (x ∷ xs) y (a, b) = All-last P xs y b

-- What holds of the addresses of a queue still holds when only mail has come.
pub All-same :
    (P : Address → Type 0) (l q : List Process)
    → addresses l ≡ addresses q
    → All (λ (p : Process). P p.address) q
    → All (λ (p : Process). P p.address) l
All-same P [] q e a = tt
All-same P (p ∷ l) [] e a = cc
All-same P (p ∷ l) (i ∷ q) e (a, b) =
    let first : i.address ≡ p.address = cc in
    let others : addresses l ≡ addresses q = cc in (subst P first a, All-same P l q others b)

pub Apart-same : (l q : List Process) → addresses l ≡ addresses q → Apart q → Apart l
Apart-same [] q e a = tt
Apart-same (p ∷ l) [] e a = cc
Apart-same (p ∷ l) (i ∷ q) e (a, b) =
    let first : i.address ≡ p.address = cc in
    let others : addresses l ≡ addresses q = cc in
    (
      All-same (λ j. j ≢ p.address) l q others
          (subst (λ x. All (λ (j : Process). j.address ≢ x) q) first a),
      Apart-same l q others b,
    )

pub length-addresses : (l : List Process) → length (addresses l) ≡ length l
length-addresses [] = refl
length-addresses (p ∷ l) = ap suc (length-addresses l)
