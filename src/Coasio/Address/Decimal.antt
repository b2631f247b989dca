-- ===== src/Coasio/Address/Decimal.antt =====
-- Ports as text: `<<` of an unsigned short, and `atoi` cast to one.
use boost_coro.Base.{
  ℕ, zero, suc, ◌+◌, ◌-◌, ◌*◌, ◌/◌, ◌%◌, ◌^◌, ◌<◌, ◌==◌, leb, ◌≡◌, refl, ◌∙◌, inl, inr, Bool, true,
  ◌&&◌, ◌||◌, if◌then◌else◌, Bool-cases, [], ◌∷◌, Text, arith,
}

-- The last digit first, as many as there are, and five at most
unfoldable pub print_from : ℕ → ℕ → Text → Text
print_from zero n out = out
print_from (suc k) n out =
    let more = print_from k (n / 10) ((b'0' + n % 10) ∷ out) in
    if n / 10 == 0 then (b'0' + n % 10) ∷ out else more

unfoldable pub decimal : ℕ → Text
unfolding print_from
decimal n = print_from 5 n []

abbrev pub is_digit : ℕ → Bool
is_digit c = leb b'0' c && leb c b'9'

abbrev pub is_space : ℕ → Bool
is_space c = c == b' ' || leb 9 c && leb c 13

-- The value of the digits in front, from `n` on
unfoldable pub scan : Text → ℕ → ℕ
scan [] n = n
scan (c ∷ s) n = if is_digit c then scan s (n * 10 + (c - b'0')) else n

unfoldable pub skip_spaces : Text → Text
skip_spaces [] = []
skip_spaces (c ∷ s) = let rest = skip_spaces s in if is_space c then rest else c ∷ s

abbrev pub short : ℕ → ℕ
short n = n % 2 ^ 16

unfoldable pub atoi_signed : Text → ℕ
unfolding scan
atoi_signed [] = 0
atoi_signed (c ∷ s) =
    if c == b'-'
    then short (2 ^ 16 - short (scan s 0))
    else if c == b'+'
    then short (scan s 0)
    else short (scan (c ∷ s) 0)

-- `(unsigned short) atoi(s)`, for numbers that an int holds
unfoldable pub atoi : Text → ℕ
unfolding atoi_signed skip_spaces
atoi s = atoi_signed (skip_spaces s)

-- The number has `k` digits at most.
abbrev Fits : ℕ → ℕ → Type 0
Fits zero n = n ≡ 0
Fits (suc k) n = Fits k (n / 10)

scan_digit : (n m : ℕ) (out : Text) → m ≡ n / 10 → scan ((b'0' + n % 10) ∷ out) m ≡ scan out n
unfolding scan
scan_digit n m out e = ground arith

scan-print_from : (k n : ℕ) (out : Text) → Fits k n → scan (print_from k n out) 0 ≡ scan out n
unfolding print_from
scan-print_from zero n out f = rw f
scan-print_from (suc k) n out f = elim (Bool-cases (n / 10 == 0)) [
  | inl small ↦ rw small (scan_digit n 0 out (ground arith))
  | inr more ↦
      rw more
        (scan-print_from k (n / 10) ((b'0' + n % 10) ∷ out) f ∙ scan_digit n (n / 10) out refl)
]

-- What is printed begins with a digit.
print_digit :
    (k n : ℕ) (c : ℕ) (out : Text)
    → is_digit c ≡ true
    → (d : ℕ) × (t : Text) × (print_from k n (c ∷ out) ≡ d ∷ t) × (is_digit d ≡ true)
unfolding print_from
print_digit zero n c out h = (c, out, refl, h)
print_digit (suc k) n c out h = elim (Bool-cases (n / 10 == 0)) [
  | inl small ↦ (b'0' + n % 10, c ∷ out, rw small, ground arith)
  | inr more ↦
      let (d, t, e, g) = print_digit k (n / 10) (b'0' + n % 10) (c ∷ out) (ground arith) in
      (d, t, rw more e, g)
]

Fits-short : (n : ℕ) → n < 2 ^ 16 → Fits 5 n
Fits-short n h = omega arith

atoi-digit :
    (s : Text) (d : ℕ) (t : Text) → s ≡ d ∷ t → is_digit d ≡ true → atoi s ≡ short (scan s 0)
unfolding atoi skip_spaces atoi_signed
atoi-digit s d t e h = rw e (ground arith)

decimal_digit : (n : ℕ) → (d : ℕ) × (t : Text) × (decimal n ≡ d ∷ t) × (is_digit d ≡ true)
unfolding decimal
decimal_digit n = elim (Bool-cases (n / 10 == 0)) [
  | inl small ↦ (b'0' + n % 10, [], rw small, ground arith)
  | inr more ↦
      let (d, t, e, g) = print_digit 4 (n / 10) (b'0' + n % 10) [] (ground arith) in
      (d, t, rw more e, g)
]

-- A port is read back from its print.
pub atoi-decimal : (n : ℕ) → n < 2 ^ 16 → atoi (decimal n) ≡ n
unfolding scan
atoi-decimal n h =
    let (d, t, e, g) = decimal_digit n in
    let read_back : scan (decimal n) 0 ≡ n =
      unfold decimal in scan-print_from 5 n [] (Fits-short n h) in
    atoi-digit (decimal n) d t e g ∙ rw read_back (omega arith)
