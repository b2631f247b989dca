-- ===== src/Base/Arrays.antt =====
-- Arrays of characters: what `strlen` reads and `sprintf` and `vsnprintf` write, with the bounds of the
-- array checked.
use Prim.Native.Nat.{ℕ, zero, suc, ◌+◌, ◌-◌, ◌≤◌}
use mathlib.Core.Path.{◌≡◌, refl, ap}
use mathlib.Core.Logic.{◌≢◌, inl, inr}
use mathlib.Core.Bool.{true, false}
use mathlib.Core.List.{List, [], ◌∷◌, ◌++◌}
use boost_coro.Base.Tests.{Bool-cases, leb, ◌==◌, if◌then◌else◌}
use boost_coro.Base.Lists.{
  All, length, length-append, take, drop, take-append, take_all, drop-append_right,
}
use boost_coro.Base.Faults.{Outcome, ok, fault, out_of_bounds, ◌>>=◌}
use boost_coro.Base.Strings.{Text}
use native.Mathlib.Omega.{arith}

abbrev pub zeros : ℕ → List ℕ
zeros zero = []
zeros (suc n) = 0 ∷ zeros n

pub length-zeros : (n : ℕ) → length (zeros n) ≡ n
length-zeros zero = refl
length-zeros (suc n) = omega (arith, length-zeros n)

pub drop-zeros : (m n : ℕ) → drop m (zeros n) ≡ zeros (n - m)
drop-zeros zero n = let e : n - 0 ≡ n = omega arith in rw e refl
drop-zeros (suc m) zero = let e : 0 - suc m ≡ 0 = omega arith in rw e refl
drop-zeros (suc m) (suc n) = let e : suc n - suc m ≡ n - m = omega arith in rw e (drop-zeros m n)

-- No byte of the text ends it.
abbrev pub NoNul : Text → Type 0
NoNul = All (λ c. c ≢ 0)

-- The characters of an array up to the first that is 0, as `strlen` and the functions that read a string
-- go through them
unfoldable pub c_string : List ℕ → Outcome Text
c_string [] = fault out_of_bounds
c_string (c ∷ cs) = let rest = c_string cs in if c == 0 then ok [] else rest >>= λ t. ok (c ∷ t)

pub c_string-append : (t : Text) (r : List ℕ) → NoNul t → c_string (t ++ 0 ∷ r) ≡ ok t
unfolding c_string
c_string-append [] r h = refl
c_string-append (c ∷ t) r (h, hs) = rw (c_string-append t r hs) (ground arith)

-- A text and the 0 behind it, written into the array from an index on
unfoldable pub write_at : ℕ → Text → List ℕ → Outcome (List ℕ)
write_at off t a =
    let end = off + suc (length t) in
    if leb end (length a) then ok (take off a ++ t ++ 0 ∷ drop end a) else fault out_of_bounds

pub zeros_open : (m n : ℕ) → suc m ≤ n → zeros (n - m) ≡ 0 ∷ zeros (n - suc m)
zeros_open m n h = let e : n - m ≡ suc (n - suc m) = omega arith in rw e refl

-- A text written behind another one, where the rest of the array is zeros
pub write_at-append :
    (p t : Text) (n : ℕ)
    → write_at (length p) t (p ++ zeros n) ≡ (
        if leb (suc (length t)) n then ok (p ++ t ++ zeros (n - length t)) else fault out_of_bounds)
unfolding write_at
write_at-append p t n =
    rw (length-append p (zeros n), length-zeros n)
      (elim (Bool-cases (leb (suc (length t)) n)) [
        | inl h ↦
            let fits : leb (length p + suc (length t)) (length p + n) ≡ true = ground arith in
            rw (h, fits) (ap ok (written (ground arith)))
        | inr h ↦
            let over : leb (length p + suc (length t)) (length p + n) ≡ false = ground arith in
            rw (h, over) refl
      ])
  where
    written :
        suc (length t) ≤ n
        → take (length p) (p ++ zeros n) ++ t ++ 0 ∷ drop (length p + suc (length t)) (p ++ zeros n)
          ≡ p ++ t ++ zeros (n - length t)
    written h =
        rw
          (
            take-append (length p) p (zeros n) (omega arith),
            take_all (length p) p (omega arith),
            drop-append_right (suc (length t)) p (zeros n),
            drop-zeros (suc (length t)) n,
            zeros_open (length t) n h,
          )
          refl
