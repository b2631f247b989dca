-- ===== src/VarBuf/Position.antt =====
-- `wr_position` and `rd_position`, which move on to the next page in every round.
use boost_coro.Base.{
  ℕ, zero, suc, ◌+◌, ◌-◌, ◌≤◌, ◌<◌, ◌≡◌, refl, ◌∙◌, ap, List, [], ◌∷◌, ◌++◌, length, take, drop,
  Outcome, ok, fault, null_deref, min, drop-append_right, length-take, arith,
}
use boost_coro.VarBuf.State.{Page, PagePtr, null, at, Buf, rd_size, replace_from}
use boost_coro.VarBuf.Ops.{
  length_walk, buf_length, wr_position, wr_position_at, wr_position_pages, page_wr_size,
  rd_position, rd_position_at, rd_position_pages, ptr_after,
}
use boost_coro.VarBuf.Contents.{flat, IsBuf, chain, contents, contents_from}

-- Without a `_page_wr` to stop at, the walk of `length` runs off the chain.
length_walk-null : (ps : List Page) (k : ℕ) → length_walk ps k null ≡ fault null_deref
unfolding length_walk
length_walk-null [] k = refl
length_walk-null (p ∷ ps) k = rw (length_walk-null ps (suc k))

-- The list of one element that begins where the last page is.
last_one : (ps : List Page) (w : ℕ) → suc w ≡ length ps → (p : Page) × (drop w ps ≡ p ∷ [])
last_one [] w e = absurd (omega arith)
last_one (p ∷ []) zero e = (p, refl)
last_one (p ∷ q ∷ ps) zero e = absurd (omega arith)
last_one (p ∷ ps) (suc w) e = last_one ps w (omega arith)

-- With nothing left to skip the loop of `rd_position` stops where it is.
no_more : (qs : List Page) (k : ℕ) → rd_position_pages qs k 0 ≡ (qs, ptr_after k qs, 0)
unfolding rd_position_pages
no_more [] k = refl
no_more (q ∷ qs) k = refl

after_skip : Page → ℕ → List Page × PagePtr × ℕ → List Page × PagePtr × ℕ
after_skip p mv r = (record p { offset_rd = p.offset_rd + mv } ∷ r.0, r.1, r.2)

skip_page :
    (p : Page) (qs : List Page) (k n : ℕ)
    → suc n ≤ rd_size p
    → rd_position_pages (p ∷ qs) k (suc n)
      ≡ (record p { offset_rd = p.offset_rd + suc n } ∷ qs, ptr_after (suc k) qs, 0)
unfolding rd_position_pages after_skip
skip_page p qs k n in_page =
    let all : min (suc n) (rd_size p) ≡ suc n = omega arith in
    let none_left : suc n - suc n ≡ 0 = omega arith in
    ap (λ mv. after_skip p mv (rd_position_pages qs (suc k) (suc n - mv))) all
    ∙ ap (λ m. after_skip p (suc n) (rd_position_pages qs (suc k) m)) none_left
    ∙ ap (after_skip p (suc n)) (no_more qs (suc k))

module _ (page_size : ℕ) where
  -- When `_page_wr` is the last page, `wr_position` by any number of bytes but 0 returns, and after it
  -- `length()` dereferences a null pointer.
  pub wr_position_last :
      (ps : List Page) (r w inc : ℕ)
      → suc w ≡ length ps
      → 0 < inc
      → (v : Buf) × (n : ℕ) × (wr_position page_size (chain ps r w) inc ≡ ok (v, n))
        × (buf_length v ≡ fault null_deref)
  unfolding wr_position wr_position_at wr_position_pages buf_length
  wr_position_last ps r w zero e some_bytes = absurd (omega arith)
  wr_position_last ps r w (suc inc) e some_bytes =
      let (p, at_end) = last_one ps w e in
      let p' : Page = record p {
        offset_wr = p.offset_wr + min (suc inc) (page_wr_size page_size p);
      } in
      let qs = replace_from w ps (p' ∷ []) in
      (
        record { pages = qs; rd = at r; wr = null },
        suc inc - (suc inc - min (suc inc) (page_wr_size page_size p)),
        rw at_end,
        length_walk-null (drop r qs) r,
      )

  -- In a well-formed buffer, `rd_position` by any number of bytes but 0 that `_page_rd` has to read returns
  -- that number, but leaves only what the pages behind `_page_rd` hold: the rest of the page is lost.
  rd_position_skips :
      (ps : List Page) (r w inc : ℕ) (p : Page) (qs : List Page)
      → IsBuf page_size (chain ps r w)
      → drop r ps ≡ p ∷ qs
      → 0 < inc
      → inc ≤ rd_size p
      → (v : Buf) × (rd_position (chain ps r w) inc ≡ ok (v, inc)) × (contents v ≡ flat qs)
  unfolding rd_position rd_position_at
  rd_position_skips ps r w zero p qs o e some_bytes in_page = absurd (omega arith)
  rd_position_skips ps r w (suc n) p qs o e some_bytes in_page =
      let (le, lt, blank) = o.places in
      let p' : Page = record p { offset_rd = p.offset_rd + suc n } in
      let v : Buf = record {
        pages = replace_from r ps (p' ∷ qs);
        rd = ptr_after (suc r) qs;
        wr = at w;
      } in
      (
        v,
        rw e (ap moved (skip_page p qs r n in_page) ∙ ap (λ (m : ℕ). ok (v, m)) (omega arith)),
        behind p' qs (omega (arith, length-take r ps)),
      )
    where
      moved : List Page × PagePtr × ℕ → Outcome (Buf × ℕ)
      moved x = ok (record { pages = replace_from r ps x.0; rd = x.1; wr = at w }, suc n - x.2)

      behind :
          (p' : Page) (qs : List Page)
          → length (take r ps) ≡ r
          → contents_from (ptr_after (suc r) qs) (replace_from r ps (p' ∷ qs)) ≡ flat qs
      behind p' [] front = unfold flat in refl
      behind p' (q ∷ qs) front =
          let at_next : suc r ≡ length (take r ps) + 1 = omega (arith, front) in
          ap (λ m. flat (drop m (take r ps ++ p' ∷ q ∷ qs))) at_next
          ∙ ap flat (drop-append_right 1 (take r ps) (p' ∷ q ∷ qs))
