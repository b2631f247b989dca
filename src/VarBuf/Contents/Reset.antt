-- ===== src/VarBuf/Contents/Reset.antt =====
-- `reset`, `assign` and `readed`: what is in the buffer is given up.
use boost_coro.Base.{
  All-append, All-take, All-drop, All, ℕ, zero, suc, ◌+◌, ◌<◌, ◌≡◌, refl, ◌∙◌, sym, ap, subst, List,
  [], ◌∷◌, ◌++◌, length, take, drop, ok, length-append, length-take, drop-append_right, drop-drop,
  arith,
}
use boost_coro.VarBuf.State.{Page, PagePtr, Buf}
use boost_coro.VarBuf.Ops.{
  reset_pages, first_page, reset, assign, readed, readed_at, readed_here, readed_page,
}
use boost_coro.VarBuf.Contents.{flat, PageOk, Blank, IsBuf, IsBuf_elim, chain, contents, flat-Blank}
use boost_coro.VarBuf.Contents.Write.{write_lem}

module _ (page_size : ℕ) where
  reset_pages-PageOk :
      (ps : List Page) → All (PageOk page_size) ps → All (PageOk page_size) (reset_pages ps)
  unfolding reset_pages
  reset_pages-PageOk [] a = tt
  reset_pages-PageOk (p ∷ ps) (o, a) = (
    record { order = omega arith; fits = omega arith; memory = o.memory },
    reset_pages-PageOk ps a,
  )

  reset_pages-Blank : (ps : List Page) → All Blank (reset_pages ps)
  unfolding reset_pages
  reset_pages-Blank [] = tt
  reset_pages-Blank (p ∷ ps) = (refl, reset_pages-Blank ps)

  reset_lem : (b : Buf) → IsBuf page_size b → IsBuf page_size (reset b) × (contents (reset b) ≡ [])
  unfolding reset reset_pages
  reset_lem b o = go b.pages o.pages_ok
    where
      Fresh : List Page → PagePtr → Type 0
      Fresh qs f =
          IsBuf page_size (record { pages = qs; rd = f; wr = f })
          × (contents (record { pages = qs; rd = f; wr = f }) ≡ [])

      go : (ps : List Page) → All (PageOk page_size) ps → Fresh (reset_pages ps) (first_page ps)
      go [] a = (record { pages_ok = tt; places = tt }, refl)
      go (p ∷ ps) a =
          let blank = reset_pages-Blank (p ∷ ps) in
          (
            record {
              pages_ok = reset_pages-PageOk (p ∷ ps) a;
              places = (omega arith, omega arith, blank.1);
            },
            flat-Blank (reset_pages (p ∷ ps)) blank,
          )

  -- The page that `_page_wr` is at.
  page_at :
      (ps : List Page) (w : ℕ)
      → w < length ps
      → (p : Page) × (qs : List Page) × (drop w ps ≡ p ∷ qs)
  page_at [] w lt = absurd (omega arith)
  page_at (p ∷ ps) zero lt = (p, ps, refl)
  page_at (p ∷ ps) (suc w) lt = page_at ps w (omega arith)

  readed-chain :
      (ps : List Page) (r w : ℕ)
      → IsBuf page_size (chain ps r w)
      → (v : Buf) × (readed (chain ps r w) ≡ ok v) × IsBuf page_size v × (contents v ≡ [])
  unfolding readed readed_at readed_here readed_page
  readed-chain ps r w o =
      let (le, lt, blank) = o.places in
      let (p, qs, e) = page_at ps w lt in
      let front : length (take w ps) ≡ w = omega (arith, length-take w ps) in
      let next : w + 1 ≡ suc w = omega arith in
      let here : w ≡ length (take w ps) + 0 = omega (arith, front) in
      let behind : suc w ≡ length (take w ps) + 1 = omega (arith, front) in
      let rest : drop (suc w) ps ≡ qs =
        sym (drop-drop 1 w ps ∙ ap (λ m. drop m ps) next) ∙ ap (drop 1) e in
      let (ok_p, ok_qs) =
        subst (All (PageOk page_size)) e (All-drop (PageOk page_size) w ps o.pages_ok) in
      let p' : Page = record p { offset_rd = p.offset_wr } in
      let all_blank : All Blank (p' ∷ qs) = (refl, subst (All Blank) rest blank) in
      let at_w : drop w (take w ps ++ p' ∷ qs) ≡ p' ∷ qs =
        ap (λ m. drop m (take w ps ++ p' ∷ qs)) here ∙ drop-append_right 0 (take w ps) (p' ∷ qs) in
      let behind_w : drop (suc w) (take w ps ++ p' ∷ qs) ≡ qs =
        ap (λ m. drop m (take w ps ++ p' ∷ qs)) behind
        ∙ drop-append_right 1 (take w ps) (p' ∷ qs) in
      (
        chain (take w ps ++ p' ∷ qs) w w,
        rw e,
        record {
          pages_ok =
              All-append (PageOk page_size) (take w ps) (p' ∷ qs)
                (All-take (PageOk page_size) w ps o.pages_ok)
                (record { order = omega arith; fits = ok_p.fits; memory = ok_p.memory }, ok_qs);
          places = (
            omega arith,
            omega (arith, front, length-append (take w ps) (p' ∷ qs)),
            subst (All Blank) (sym behind_w) all_blank.1,
          );
        },
        ap flat at_w ∙ flat-Blank (p' ∷ qs) all_blank,
      )

  -- `readed()` of a well-formed buffer that has a page returns; the buffer is then well formed and holds
  -- nothing.
  pub readed_lem :
      (b : Buf)
      → IsBuf page_size b
      → 0 < length b.pages
      → (v : Buf) × (readed b ≡ ok v) × IsBuf page_size v × (contents v ≡ [])
  readed_lem b o some_page =
      IsBuf_elim page_size
        (λ b.
          0 < length b.pages
          → (v : Buf) × (readed b ≡ ok v) × IsBuf page_size v × (contents v ≡ []))
        (λ ps r w o _. readed-chain ps r w o) (λ h. absurd (omega arith)) b o some_page

module _ (page_size : ℕ) (garbage : List ℕ) (positive : 0 < page_size)
    (memory : length garbage ≡ page_size) where
  -- `assign` to a well-formed buffer returns the number of bytes given, for pages that have at least one
  -- byte of memory. The buffer is then well formed and holds the bytes given, and no others.
  pub assign_lem :
      (b : Buf) (s : List ℕ)
      → IsBuf page_size b
      → (v : Buf) × (assign page_size garbage b s ≡ ok (v, length s))
        × IsBuf page_size v
        × (contents v ≡ s)
  unfolding assign
  assign_lem b s o =
      let (o1, c1) = reset_lem page_size b o in
      let (v, e, good, c) = write_lem page_size garbage positive memory (reset b) s o1 in
      (v, e, good, c ∙ ap (λ t. t ++ s) c1)
