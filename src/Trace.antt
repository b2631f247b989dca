-- ===== src/Trace.antt =====
-- boost/coroutine/util/trace.h: `trace_t`, which prints one line on the standard output. How `%zx` prints
-- the thread, and what `vsnprintf` makes of the format and its arguments, are parameters.
pub mod Examples
use mathlib.Core.List.{append-nil}
use boost_coro.Base.{
  ℕ, suc, ◌+◌, ◌-◌, ◌^◌, ◌%◌, ◌==◌, ◌&&◌, zero, ◌∙◌, ◌≡◌, ◌≢◌, refl, inl, inr, true, false, Bool,
  Bool-cases, All-append, All-take, leb, ltb, if◌then◌else◌, List, [], ◌∷◌, ◌++◌, length,
  length-append, length-take, take, Outcome, ok, fault, out_of_bounds, ◌>>=◌, Text, codes, NoNul,
  c_string, c_string-append, write_at, write_at-append, zeros, zeros_open, ap, sym, arith,
}

-- sprintf(…, "[%zx]%s:", …)
abbrev pub heading : Text → Text → Text
heading self func = codes "[" ++ self ++ codes "]" ++ func ++ codes ":"

-- vsnprintf(array + off, size, …) of a message: nothing if the size is 0, and else as much of the message
-- as leaves room for a 0.
unfoldable pub vsnprintf : ℕ → ℕ → Text → List ℕ → Outcome (List ℕ)
vsnprintf off size message array =
    if size == 0 then ok array else write_at off (take (size - 1) message) array

-- `1024 - len - 2`, an `int` that is passed as a `size_t` of 64 bits
unfoldable pub room : ℕ → ℕ
room len = (2 ^ 64 + 1024 - len - 2) % 2 ^ 64

-- `print(file, line, func, fmt, ap)`: the line, with its end
unfoldable pub print : Text → Text → Text → Outcome Text
unfolding room vsnprintf
print self func message = do
  logmsg ← write_at 0 (heading self func) (zeros 1024)
  prefix ← c_string logmsg
  line ← (vsnprintf (length prefix) (room (length prefix)) message logmsg >>= c_string)
  ok (line ++ b'\n' ∷ [])

heading-NoNul : (self func : Text) → NoNul self → NoNul func → NoNul (heading self func)
heading-NoNul self func a b =
    let P : ℕ → Type 0 = λ c. c ≢ 0 in
    let front = All-append P (codes "[") self (ground arith) a in
    All-append P (codes "[" ++ self ++ codes "]" ++ func) (codes ":")
      (All-append P (codes "[" ++ self ++ codes "]") func
        (All-append P (codes "[" ++ self) (codes "]") front (ground arith)) b)
      (ground arith)

room_lem : (len n : ℕ) → len + suc (suc n) ≡ 1024 → room len ≡ n
unfolding room
room_lem len n e = omega arith

-- The message goes behind the prefix, cut at the room that is left.
append_message :
    (prefix message : Text) (n : ℕ)
    → length prefix + suc (suc n) ≡ 1024
    → NoNul prefix
    → NoNul message
    → (vsnprintf (length prefix) (room (length prefix)) message (prefix ++ zeros (suc (suc n)))
        >>= c_string)
      ≡ ok (prefix ++ take (n - 1) message)
unfolding vsnprintf
append_message prefix message zero e a b =
    rw (room_lem (length prefix) 0 e)
      (c_string-append prefix (0 ∷ []) a ∙ ap ok (sym (append-nil prefix)))
append_message prefix message (suc n) e a b =
    let cut = take (suc n - 1) message in
    let fits : leb (suc (length cut)) (suc (suc (suc n))) ≡ true =
      ground (arith, length-take (suc n - 1) message) in
    rw
      (
        room_lem (length prefix) (suc n) e,
        write_at-append prefix cut (suc (suc (suc n))),
        fits,
        zeros_open (length cut) (suc (suc (suc n))) (ground arith),
      )
      (ground (
        arith,
        c_string-append (prefix ++ cut) (zeros (suc (suc (suc n)) - suc (length cut)))
            (All-append (λ c. c ≢ 0) prefix cut a (All-take (λ c. c ≢ 0) (suc n - 1) message b)),
      ))

room_full : (len : ℕ) → len ≡ 1023 → room len ≡ 2 ^ 64 - 1
unfolding room
room_full len e = rw e refl

no_room : (c : ℕ) (t : Text) → leb (suc (length (c ∷ t))) 1 ≡ false
no_room c t = ground arith

not_empty : (c : ℕ) (t : Text) → (length (c ∷ t) == 0) ≡ false
not_empty c t = ground arith

-- A prefix that fills the array leaves it no bound.
append_unbounded :
    (prefix message : Text)
    → length prefix ≡ 1023
    → NoNul prefix
    → (vsnprintf (length prefix) (room (length prefix)) message (prefix ++ zeros 1) >>= c_string)
      ≡ (if length message == 0 then ok prefix else fault out_of_bounds)
unfolding vsnprintf
append_unbounded prefix [] e a =
    rw (room_full (length prefix) e, write_at-append prefix [] 1, append-nil prefix)
      (c_string-append prefix [] a)
append_unbounded prefix (c ∷ t) e a =
    rw
      (
        room_full (length prefix) e,
        write_at-append prefix (c ∷ take (2 ^ 64 - 3) t) 1,
        no_room c (take (2 ^ 64 - 3) t),
        not_empty c t,
      )
      refl

-- The line that `print` writes, if no text has a byte 0 inside: the heading, and of the message as much
-- as makes 1021 bytes with it; a heading of 1022 bytes is a line of its own. A heading of 1023 bytes is a
-- line without a message, and with one is written behind the array, as a longer heading is.
pub print_lem :
    (self func message : Text)
    → NoNul self
    → NoNul func
    → NoNul message
    → print self func message ≡ (
        let prefix = heading self func in
        if leb (length prefix) 1022
        then ok (prefix ++ take (1021 - length prefix) message ++ b'\n' ∷ [])
        else if (length prefix == 1023) && (length message == 0)
        then ok (prefix ++ b'\n' ∷ [])
        else fault out_of_bounds)
unfolding print
print_lem self func message a b c = go (heading self func) (heading-NoNul self func a b)
  where
    go :
        (prefix : Text)
        → NoNul prefix
        → (write_at 0 prefix (zeros 1024) >>= λ logmsg. c_string logmsg >>= λ p.
            (vsnprintf (length p) (room (length p)) message logmsg >>= c_string) >>= λ line.
            ok (line ++ b'\n' ∷ []))
          ≡ (if leb (length prefix) 1022
              then ok (prefix ++ take (1021 - length prefix) message ++ b'\n' ∷ [])
              else if (length prefix == 1023) && (length message == 0)
              then ok (prefix ++ b'\n' ∷ [])
              else fault out_of_bounds)
    go prefix p =
        rw (write_at-append [] prefix 1024) (elim (Bool-cases (leb (length prefix) 1022)) [
          | inl h ↦
              let fits : leb (suc (length prefix)) 1024 ≡ true = ground arith in
              let n : ℕ = 1022 - length prefix in
              let left : 1024 - length prefix ≡ suc (suc n) = ground arith in
              let cut : 1021 - length prefix ≡ n - 1 = ground arith in
              rw (h, fits, left, cut, c_string-append prefix (zeros (suc n)) p)
                (ap (λ r. r >>= λ line. ok (line ++ b'\n' ∷ []))
                  (append_message prefix message n (ground arith) p c))
          | inr h ↦ elim (Bool-cases (length prefix == 1023)) [
            | inl f ↦
                let full : length prefix ≡ 1023 = ground arith in
                let one : 1024 - length prefix ≡ 1 = ground arith in
                let fits : leb (suc (length prefix)) 1024 ≡ true = ground arith in
                rw (h, f, fits, one, c_string-append prefix [] p)
                  (ap (λ r. r >>= λ line. ok (line ++ b'\n' ∷ []))
                      (append_unbounded prefix message full p)
                    ∙ ends (length message == 0))
            | inr f ↦
                let over : leb (suc (length prefix)) 1024 ≡ false = ground arith in
                rw (h, f, over) refl
          ]
        ])
      where
        ends :
            (b : Bool)
            → ((if b then ok prefix else fault out_of_bounds) >>= λ line. ok (line ++ b'\n' ∷ []))
              ≡ (if b then ok (prefix ++ b'\n' ∷ []) else fault out_of_bounds)
        ends true = refl
        ends false = refl
