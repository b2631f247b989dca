-- ===== src/VarBuf/Contents/Read.antt =====
-- `length`, `to_string`, `empty` and `read`.
use boost_coro.Base.{
  All-drop, All, ℕ, zero, suc, ◌+◌, ◌-◌, ◌≤◌, ◌<◌, ◌==◌, ◌≡◌, refl, ◌∙◌, sym, ap, subst, inl, inr,
  true, false, if◌then◌else◌, Bool-cases, List, [], ◌∷◌, ◌++◌, length, take, drop, Outcome, ok,
  length-append, length-drop, drop-drop, drop-nil, take-nil, min, arith,
}
use mathlib.Core.List.{append-nil}
use boost_coro.VarBuf.State.{Page, at, Buf, readable, replace_from}
use boost_coro.VarBuf.Ops.{length_walk, buf_length, string_walk, to_string, empty, read_at, read}
use boost_coro.VarBuf.Contents.{
  flat, PageOk, Blank, IsBuf, IsBuf_elim, chain, no_chain, contents, flat-Blank,
}
use boost_coro.VarBuf.Contents.Taken.{length-readable, read_pages-Taken, taken}

module _ (page_size : ℕ) where
  -- The walks from position `k` to `_page_wr` at `w` see all the pages that hold bytes.
  module _ (w : ℕ) where
    abbrev pub InWalk : List Page → ℕ → Type 0
    InWalk ps k = (k ≤ w) × (w < k + length ps) × All Blank (drop (suc (w - k)) ps)

    pub last_blank :
        (p : Page) (ps : List Page) (k : ℕ) → InWalk (p ∷ ps) k → (w == k) ≡ true → flat ps ≡ []
    last_blank p ps k (le, lt, blank) here =
        let e : w - k ≡ 0 = ground arith in
        flat-Blank ps (subst (λ m. All Blank (drop m ps)) e blank)

    pub walk_on :
        (p : Page) (ps : List Page) (k : ℕ)
        → InWalk (p ∷ ps) k
        → (w == k) ≡ false
        → InWalk ps (suc k)
    walk_on p ps k (le, lt, blank) there =
        let e : w - k ≡ suc (w - suc k) = ground arith in
        (ground arith, omega arith, subst (λ m. All Blank (drop m ps)) e blank)

    string_walk_lem :
        (ps : List Page) (k : ℕ) → InWalk ps k → string_walk ps k (at w) ≡ ok (flat ps)
    unfolding string_walk flat
    string_walk_lem [] k i = absurd (omega arith)
    string_walk_lem (p ∷ ps) k i = elim (Bool-cases (w == k)) [
      | inl here ↦ rw here (
          ap ok (
            sym (append-nil (readable p))
            ∙ ap (λ r. readable p ++ r) (sym (last_blank p ps k i here))))
      | inr there ↦ rw there (rw (string_walk_lem ps (suc k) (walk_on p ps k i there)))
    ]

    length_walk_lem :
        (ps : List Page) (k : ℕ)
        → All (PageOk page_size) ps
        → InWalk ps k
        → length_walk ps k (at w) ≡ ok (length (flat ps))
    unfolding length_walk flat
    length_walk_lem [] k a i = absurd (omega arith)
    length_walk_lem (p ∷ ps) k (o, a) i = elim (Bool-cases (w == k)) [
      | inl here ↦ rw here (
          ap ok (
            omega (
              arith,
              length-append (readable p) (flat ps),
              length-readable page_size p o,
              ap length (last_blank p ps k i here),
            )))
      | inr there ↦ rw there (
          rw (length_walk_lem ps (suc k) a (walk_on p ps k i there)) (
            ap ok
              (omega (arith, length-append (readable p) (flat ps), length-readable page_size p o))))
    ]

  pub in_walk : (ps : List Page) (r w : ℕ) → IsBuf page_size (chain ps r w) → InWalk w (drop r ps) r
  in_walk ps r w o =
      let (le, lt, blank) = o.places in
      let e : r + suc (w - r) ≡ suc w = omega arith in
      (le, omega (arith, length-drop r ps), rw (drop-drop (suc (w - r)) r ps, e) blank)

  -- `length()` of a well-formed buffer returns the number of bytes that it holds.
  pub length-contents : (b : Buf) → IsBuf page_size b → buf_length b ≡ ok (length (contents b))
  unfolding buf_length
  length-contents =
      IsBuf_elim page_size (λ b. buf_length b ≡ ok (length (contents b)))
        (λ ps r w o.
          length_walk_lem w (drop r ps) r (All-drop (PageOk page_size) r ps o.pages_ok)
            (in_walk ps r w o))
        refl

  -- `to_string()` of a well-formed buffer returns the bytes that it holds.
  pub to_string-contents : (b : Buf) → IsBuf page_size b → to_string b ≡ ok (contents b)
  unfolding to_string
  to_string-contents =
      IsBuf_elim page_size (λ b. to_string b ≡ ok (contents b))
        (λ ps r w o. string_walk_lem w (drop r ps) r (in_walk ps r w o)) refl

  -- `empty()` of a well-formed buffer returns true if it holds a byte, and false if it holds none.
  pub empty_inverted :
      (b : Buf)
      → IsBuf page_size b
      → empty b ≡ ok (if length (contents b) == 0 then false else true)
  unfolding empty
  empty_inverted b o = rw (length-contents b o)

  -- The outcome of a `read` of `len` bytes.
  abbrev DidRead : Buf → ℕ → Outcome (Buf × ℕ × List ℕ) → Type 0
  DidRead b len r =
      (v : Buf) × (r ≡ ok (v, len, take len (contents b)))
      × IsBuf page_size v
      × (contents v ≡ drop len (contents b))

  take-min :
      (n : ℕ) (s : List ℕ)
      → (take (min (length s) n) s ≡ take n s) × (drop (min (length s) n) s ≡ drop n s)
  take-min zero s = let e : min (length s) zero ≡ zero = omega arith in rw e (refl, refl)
  take-min (suc n) [] = let e : min 0 (suc n) ≡ 0 = omega arith in rw e (refl, refl)
  take-min (suc n) (x ∷ s) =
      let e : min (suc (length s)) (suc n) ≡ suc (min (length s) n) = omega arith in
      rw e (ap (λ r. x ∷ r) (take-min n s).0, (take-min n s).1)

  -- `read(ptr, len)` of a well-formed buffer copies the oldest `len` bytes, or all if there are fewer, and
  -- takes them out; the buffer stays well formed. The number returned is `len` in both cases.
  pub read_lem :
      (b : Buf) (len : ℕ)
      → IsBuf page_size b
      → (v : Buf) × (read b len ≡ ok (v, len, take len (contents b)))
        × IsBuf page_size v
        × (contents v ≡ drop len (contents b))
  unfolding read read_at
  read_lem b len o =
      IsBuf_elim page_size (λ b. IsBuf page_size b → DidRead b len (read b len)) in_chain
        (λ o. (
          no_chain,
          let e : min 0 len ≡ 0 = omega arith in
              let whole : len - 0 ≡ len = omega arith in rw (e, whole, take-nil len),
          o,
          sym (drop-nil len),
        ))
        b o o
    where
      in_chain :
          (ps : List Page) (r w : ℕ)
          → IsBuf page_size (chain ps r w)
          → IsBuf page_size (chain ps r w)
          → DidRead (chain ps r w) len (read (chain ps r w) len)
      in_chain ps r w o _ =
          let (le, lt, blank) = o.places in
          let s = flat (drop r ps) in
          let want = min (length s) len in
          let (i0, i1, i2) = in_walk ps r w o in
          let (out, qs, n, e, t) =
            read_pages-Taken page_size (drop r ps) want (w - r)
              (All-drop (PageOk page_size) r ps o.pages_ok) (omega arith) i2 (omega arith) in
          let (good, left) = taken page_size ps r w want out qs n o t in
          let whole : len - 0 ≡ len = omega arith in
          (
            chain (replace_from r ps qs) (r + n) w,
            rw (length-contents (chain ps r w) o) (
                rw (e, whole)
                  (ap (λ b. ok (chain (replace_from r ps qs) (r + n) w, len, b))
                    (t.bytes ∙ (take-min len s).0))),
            good,
            left ∙ (take-min len s).1,
          )
