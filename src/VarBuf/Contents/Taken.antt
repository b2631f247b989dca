-- ===== src/VarBuf/Contents/Taken.antt =====
-- What the loop of `read` takes out of the pages, and what is left.
use boost_coro.Base.{
  All-append, All-take, All-drop, All, ℕ, zero, suc, ◌+◌, ◌-◌, ◌≤◌, ◌<◌, ◌==◌, ◌≡◌, refl, ◌∙◌, sym,
  ap, subst, inl, inr, true, false, Bool-cases, List, [], ◌∷◌, ◌++◌, length, take, drop, Outcome,
  ok, ◌>>=◌, length-append, length-take, length-drop, take_all, take-append, take-append_right,
  drop-append, drop-append_right, drop-drop, drop-take, min, arith,
}
use boost_coro.VarBuf.State.{Page, rd_size, readable, replace_from}
use boost_coro.VarBuf.Ops.{read_pages}
use boost_coro.VarBuf.Contents.{flat, PageOk, Blank, IsBuf, chain, contents, flat-Blank}

module _ (page_size : ℕ) where
  pub length-readable : (p : Page) → PageOk page_size p → length (readable p) ≡ rd_size p
  length-readable p o = omega (
    arith,
    length-take (rd_size p) (drop p.offset_rd p.bytes),
    length-drop p.offset_rd p.bytes,
    o.memory,
    o.fits,
  )

  advance : Page → ℕ → Page
  advance p n = record p { offset_rd = p.offset_rd + n }

  readable-advance : (p : Page) (n : ℕ) → readable (advance p n) ≡ drop n (readable p)
  unfolding advance
  readable-advance p n =
      let e : p.offset_wr - (p.offset_rd + n) ≡ rd_size p - n = omega arith in
      rw (e, ← drop-drop n p.offset_rd p.bytes)
        (sym (drop-take n (rd_size p) (drop p.offset_rd p.bytes)))

  -- What the loop of `read` has done: `k` is the distance to `_page_wr`.
  pub record Taken (ps : List Page) (want k : ℕ) (out : List ℕ) (qs : List Page) (n : ℕ)
      : Type 0 where
    pub bytes : out ≡ take want (flat ps)
    pub left : flat (drop n qs) ≡ drop want (flat ps)
    pub pages_ok : All (PageOk page_size) qs
    pub count : length qs ≡ length ps
    pub within : n ≤ k
    pub behind : drop (suc k) qs ≡ drop (suc k) ps

  advance-PageOk :
      (p : Page) (n : ℕ) → PageOk page_size p → n ≤ rd_size p → PageOk page_size (advance p n)
  unfolding advance
  advance-PageOk p n o h = record {
    order = omega (arith, o.order);
    fits = o.fits;
    memory = o.memory;
  }

  module _ (p : Page) (ps : List Page) (want : ℕ) (ok_p : PageOk page_size p)
      (oks : All (PageOk page_size) ps) where
    len_p : length (readable p) ≡ rd_size p
    len_p = length-readable p ok_p

    -- The loop ends in this page.
    last_page :
        (k : ℕ)
        → want ≤ rd_size p
        → Taken (p ∷ ps) want k (take want (readable p)) (advance p want ∷ ps) 0
    unfolding flat
    last_page k fits = record {
      bytes = sym (take-append want (readable p) (flat ps) (omega (arith, len_p)));
      left =
          ap (λ t. t ++ flat ps) (readable-advance p want)
          ∙ sym (drop-append want (readable p) (flat ps) (omega (arith, len_p)));
      pages_ok = (advance-PageOk p want ok_p fits, oks);
      count = refl;
      within = omega arith;
      behind = refl;
    }

    -- The loop takes all of this page, and goes on.
    whole_page :
        (k : ℕ) (out : List ℕ) (qs : List Page) (n : ℕ)
        → rd_size p ≤ want
        → Taken ps (want - rd_size p) k out qs n
        → Taken
            (p ∷ ps)
            want
            (suc k)
            (take (rd_size p) (readable p) ++ out)
            (advance p (rd_size p) ∷ qs)
            (suc n)
    unfolding flat
    whole_page k out qs n over t =
        let e : want ≡ length (readable p) + (want - rd_size p) = omega (arith, len_p) in
        record {
          bytes =
              ap (λ r. r ++ out) (take_all (rd_size p) (readable p) (omega (arith, len_p)))
              ∙ ap (λ r. readable p ++ r) t.bytes
              ∙ sym (take-append_right (want - rd_size p) (readable p) (flat ps))
              ∙ ap (λ m. take m (readable p ++ flat ps)) (sym e);
          left =
              t.left
              ∙ sym (drop-append_right (want - rd_size p) (readable p) (flat ps))
              ∙ ap (λ m. drop m (readable p ++ flat ps)) (sym e);
          pages_ok = (advance-PageOk p (rd_size p) ok_p (omega arith), t.pages_ok);
          count = ap suc t.count;
          within = omega (arith, t.within);
          behind = t.behind;
        }

  read_step :
      (p : Page) (ps : List Page) (w : ℕ) (out : List ℕ) (qs : List Page) (n : ℕ)
      → (suc w - min (suc w) (rd_size p) == 0) ≡ false
      → min (suc w) (rd_size p) ≡ rd_size p
      → read_pages ps (suc w - rd_size p) ≡ ok (out, qs, n)
      → read_pages (p ∷ ps) (suc w)
        ≡ ok (take (rd_size p) (readable p) ++ out, advance p (rd_size p) ∷ qs, suc n)
  unfolding read_pages advance
  read_step p ps w out qs n more all e = rw more (
      rw all (
        ap
          (λ (r : Outcome (List ℕ × List Page × ℕ)). r >>= λ r.
            ok (take (rd_size p) (readable p) ++ r.0, advance p (rd_size p) ∷ r.1, suc r.2))
          e))

  pub read_pages-Taken :
      (ps : List Page) (want k : ℕ)
      → All (PageOk page_size) ps
      → k < length ps
      → All Blank (drop (suc k) ps)
      → want ≤ length (flat ps)
      → (out : List ℕ) × (qs : List Page) × (n : ℕ) × (read_pages ps want ≡ ok (out, qs, n))
        × Taken ps want k out qs n
  unfolding read_pages flat advance
  read_pages-Taken ps zero k oks in_chain blank enough = (
    [],
    ps,
    0,
    refl,
    record {
      bytes = refl;
      left = refl;
      pages_ok = oks;
      count = refl;
      within = omega arith;
      behind = refl;
    },
  )
  read_pages-Taken [] (suc w) k oks in_chain blank enough = absurd (omega arith)
  read_pages-Taken (p ∷ ps) (suc w) zero (ok_p, oks) in_chain blank enough =
      let fits : suc w ≤ rd_size p = omega (
        arith,
        length-append (readable p) (flat ps),
        length-readable p ok_p,
        ap length (flat-Blank ps blank),
      ) in
      let all : min (suc w) (rd_size p) ≡ suc w = omega arith in
      let done : (suc w - suc w == 0) ≡ true = ground arith in
      (
        take (suc w) (readable p),
        advance p (suc w) ∷ ps,
        0,
        rw (all, done),
        last_page p ps (suc w) ok_p oks 0 fits,
      )
  read_pages-Taken (p ∷ ps) (suc w) (suc k) (ok_p, oks) in_chain blank enough =
      elim (Bool-cases (suc w - min (suc w) (rd_size p) == 0)) [
        | inl done ↦
            let all : min (suc w) (rd_size p) ≡ suc w = ground arith in
            (
              take (suc w) (readable p),
              advance p (suc w) ∷ ps,
              0,
              rw done (rw all),
              last_page p ps (suc w) ok_p oks (suc k) (omega arith),
            )
        | inr more ↦
            let none : min (suc w) (rd_size p) ≡ rd_size p = ground arith in
            let (out, qs, n, e, t) =
              read_pages-Taken ps (suc w - rd_size p) k oks (omega arith) blank
                (omega (arith, length-append (readable p) (flat ps), length-readable p ok_p)) in
            (
              take (rd_size p) (readable p) ++ out,
              advance p (rd_size p) ∷ qs,
              suc n,
              read_step p ps w out qs n more none e,
              whole_page p ps (suc w) ok_p oks k out qs n (omega arith) t,
            )
      ]

  pub taken :
      (ps : List Page) (r w want : ℕ) (out : List ℕ) (qs : List Page) (n : ℕ)
      → IsBuf page_size (chain ps r w)
      → Taken (drop r ps) want (w - r) out qs n
      → IsBuf page_size (chain (replace_from r ps qs) (r + n) w)
        × (contents (chain (replace_from r ps qs) (r + n) w) ≡ drop want (flat (drop r ps)))
  taken ps r w want out qs n o t =
      let (le, lt, blank) = o.places in
      let front : length (take r ps) ≡ r = omega (arith, length-take r ps) in
      let e : suc w ≡ length (take r ps) + suc (w - r) = omega (arith, front) in
      let e2 : r + suc (w - r) ≡ suc w = omega arith in
      let e3 : r + n ≡ length (take r ps) + n = omega (arith, front) in
      let behind : drop (suc w) (replace_from r ps qs) ≡ drop (suc w) ps =
        ap (λ m. drop m (take r ps ++ qs)) e
        ∙ drop-append_right (suc (w - r)) (take r ps) qs
        ∙ t.behind
        ∙ drop-drop (suc (w - r)) r ps
        ∙ ap (λ m. drop m ps) e2 in
      (
        record {
          pages_ok =
              All-append (PageOk page_size) (take r ps) qs
                (All-take (PageOk page_size) r ps o.pages_ok) t.pages_ok;
          places = (
            omega (arith, t.within),
            omega (arith, length-append (take r ps) qs, front, t.count, length-drop r ps),
            subst (All Blank) (sym behind) blank,
          );
        },
        ap (λ m. flat (drop m (take r ps ++ qs))) e3
            ∙ ap flat (drop-append_right n (take r ps) qs)
            ∙ t.left,
      )

  -- Bytes that are taken out of the page at `_page_rd` leave a well-formed buffer of the others.
  pub take_in_page :
      (ps : List Page) (r w want : ℕ) (p : Page) (qs : List Page)
      → IsBuf page_size (chain ps r w)
      → drop r ps ≡ p ∷ qs
      → want ≤ rd_size p
      → let v = chain (replace_from r ps (record p { offset_rd = p.offset_rd + want } ∷ qs)) r w in
        IsBuf page_size v × (contents v ≡ drop want (flat (drop r ps)))
  unfolding advance
  take_in_page ps r w want p qs o e fits =
      let (ok_p, oks) =
        subst (All (PageOk page_size)) e (All-drop (PageOk page_size) r ps o.pages_ok) in
      let here : r + 0 ≡ r = omega arith in
      let q = advance p want ∷ qs in
      let t =
        subst (λ s. Taken s want (w - r) (take want (readable p)) q 0) (sym e)
          (last_page p qs want ok_p oks (w - r) fits) in
      subst
        (λ m.
          IsBuf page_size (chain (replace_from r ps q) m w)
          × (contents (chain (replace_from r ps q) m w) ≡ drop want (flat (drop r ps))))
        here (taken ps r w want (take want (readable p)) q 0 o t)
