-- ===== src/Coroutine/Names.antt =====
-- `_coro_name`, the name of a coroutine in the traces. How `%p` prints the address of the coroutine is
-- a parameter.
pub mod Examples
use boost_coro.Base.{
  Option, none, some, ℕ, ◌+◌, ◌-◌, suc, ◌≡◌, ◌≢◌, refl, inl, inr, true, false, Bool-cases,
  All-append, leb, if◌then◌else◌, List, [], ◌∷◌, ◌++◌, length, length-append, Outcome, ok, fault,
  out_of_bounds, ◌>>=◌, Text, codes, NoNul, c_string, c_string-append, write_at, write_at-append,
  zeros, arith,
}

-- `char _coro_name[32]` as the constructor leaves it
abbrev pub no_name : List ℕ
no_name = zeros 32

-- "[co:%p:%s]" and "[co:%p]"
abbrev pub named : Text → Text → Text
named printed name = codes "[co:" ++ printed ++ codes ":" ++ name ++ codes "]"

abbrev pub unnamed : Text → Text
unnamed printed = codes "[co:" ++ printed ++ codes "]"

module _ (printed : Text) where
  -- `c_str(name)`: `memset` and `sprintf`
  unfoldable pub set_name : Text → List ℕ → Outcome (List ℕ)
  set_name name _ = write_at 0 (named printed name) (zeros 32)

  -- `c_str()`, with what it leaves in the array
  unfoldable pub named_or : Text → List ℕ → Outcome (Text × List ℕ)
  named_or [] array = write_at 0 (unnamed printed) array >>= λ a. c_string a >>= λ u. ok (u, a)
  named_or (c ∷ t) array = ok (c ∷ t, array)

  unfoldable pub c_str : List ℕ → Outcome (Text × List ℕ)
  unfolding named_or
  c_str array = c_string array >>= λ t. named_or t array

  length-named : (name : Text) → length (named printed name) ≡ 6 + (length printed + length name)
  length-named name = omega (
    arith,
    length-append (codes "[co:" ++ printed ++ codes ":" ++ name) (codes "]"),
    length-append (codes "[co:" ++ printed ++ codes ":") name,
    length-append (codes "[co:" ++ printed) (codes ":"),
  )

  named-NoNul : (name : Text) → NoNul printed → NoNul name → NoNul (named printed name)
  named-NoNul name a b =
      let P : ℕ → Type 0 = λ c. c ≢ 0 in
      let front = All-append P (codes "[co:") printed (ground arith) a in
      All-append P (codes "[co:" ++ printed ++ codes ":" ++ name) (codes "]")
        (All-append P (codes "[co:" ++ printed ++ codes ":") name
          (All-append P (codes "[co:" ++ printed) (codes ":") front (ground arith)) b)
        (ground arith)

  -- Which names the array has room for, where neither the address as it is printed nor the name has a
  -- byte 0 inside: if the two have 25 bytes at most, `c_str(name)` followed by `c_str()` gives "[co:", the
  -- address, ":", the name and "]"; if they have more, `c_str(name)` writes behind the array.
  pub c_str-set_name :
      (name : Text) (array : List ℕ)
      → NoNul printed
      → NoNul name
      → (set_name name array >>= c_str) ≡ (
          if leb (length printed + length name) 25
          then ok (
            named printed name,
            named printed name ++ zeros (26 - (length printed + length name)),
          )
          else fault out_of_bounds)
  unfolding set_name c_str
  c_str-set_name name array a b =
      rw (write_at-append [] (named printed name) 32)
        (elim (Bool-cases (leb (length printed + length name) 25)) [
          | inl h ↦
              let fits : leb (suc (length (named printed name))) 32 ≡ true =
                ground (arith, length-named name) in
              let left : 32 - length (named printed name)
                  ≡ suc (25 - (length printed + length name)) =
                ground (arith, length-named name) in
              let right : 26 - (length printed + length name)
                  ≡ suc (25 - (length printed + length name)) =
                ground arith in
              rw
                (
                  h,
                  fits,
                  left,
                  right,
                  c_string-append (named printed name) (zeros (25 - (length printed + length name)))
                      (named-NoNul name a b),
                )
                refl
          | inr h ↦
              let over : leb (suc (length (named printed name))) 32 ≡ false =
                ground (arith, length-named name) in
              rw (h, over) refl
        ])

-- The current coroutine, if there is one: how its address is printed, and its `_coro_name`
abbrev pub Current : Type 0
Current = Option (Text × List ℕ)

-- `c_str(name)` and `c_str()` of `this_coroutine`
unfoldable pub this_set_name : Text → Current → Outcome Current
unfolding set_name
this_set_name name none = ok none
this_set_name name (some (printed, array)) =
    set_name printed name array >>= λ a. ok (some (printed, a))

unfoldable pub this_c_str : Current → Outcome (Text × Current)
unfolding c_str
this_c_str none = ok (codes "[co:nil]", none)
this_c_str (some (printed, array)) = c_str printed array >>= λ r. ok (r.0, some (printed, r.1))
