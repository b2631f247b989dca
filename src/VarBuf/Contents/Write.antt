-- ===== src/VarBuf/Contents/Write.antt =====
-- `write`: the loop over the pages, then the whole function.
use boost_coro.Base.{
  All-append, All-take, All-drop, All, ℕ, suc, ◌+◌, ◌-◌, ◌≤◌, ◌<◌, ◌==◌, ltb, ◌≡◌, refl, ◌∙◌, sym,
  ap, subst, inl, inr, true, Bool-cases, List, [], ◌∷◌, ◌++◌, length, take, drop, Outcome, ok,
  length-append, length-take, length-drop, take_all, take-append-drop, drop-append,
  drop-append_right, drop-drop, min, arith,
}
use mathlib.Core.Path.{◌≡⟨◌⟩◌, ◌∎}
use mathlib.Core.List.{append-nil, append_assoc}
use boost_coro.VarBuf.State.{Page, at, Buf, readable, replace_from}
use boost_coro.VarBuf.Ops.{fill, page_wr_size, wr_size_pages, wr_size, write_pages, write_at, write}
use boost_coro.VarBuf.Contents.{
  flat, PageOk, Blank, IsBuf, IsBuf_elim, chain, no_chain, contents, flat-append, flat-Blank,
  readable-fill, fill-PageOk,
}
use boost_coro.VarBuf.Contents.Reserve.{reserve-Reserved}

module _ (page_size : ℕ) where
  -- What the loop of `write` has done to the pages from `_page_wr` on.
  record Written (ps : List Page) (s : List ℕ) (qs : List Page) (n : ℕ) : Type 0 where
    holds : flat qs ≡ flat ps ++ s
    pages_ok : All (PageOk page_size) qs
    count : length qs ≡ length ps
    within : n < length ps
    blank : All Blank (drop (suc n) qs)

  module _ (p : Page) (ps : List Page) (t : List ℕ) (ok_p : PageOk page_size p)
      (blank : All Blank ps) (room : length t ≤ page_wr_size page_size p) where
    -- With nothing behind the page, what is put into it and behind it follows what it held.
    flat-fill :
        (qs : List Page) (u : List ℕ)
        → flat qs ≡ flat ps ++ u
        → flat (fill p t ∷ qs) ≡ flat (p ∷ ps) ++ (t ++ u)
    unfolding flat
    flat-fill qs u e =
        rw (readable-fill p ok_p t room, e, flat-Blank ps blank, append-nil (readable p))
          (append_assoc (readable p) t u)

  pages_of_room : (ps : List Page) (k : ℕ) → 0 < k → k ≤ wr_size_pages page_size ps → 0 < length ps
  unfolding wr_size_pages
  pages_of_room [] k pos h = absurd (omega arith)
  pages_of_room (p ∷ ps) k pos h = omega arith

  write_pages-Written :
      (ps : List Page) (s : List ℕ)
      → All (PageOk page_size) ps
      → 0 < length ps
      → All Blank (drop 1 ps)
      → length s ≤ wr_size_pages page_size ps
      → (qs : List Page) × (n : ℕ) × (write_pages page_size ps s ≡ ok (qs, n)) × Written ps s qs n
  unfolding write_pages wr_size_pages
  write_pages-Written [] s oks some_page blank room = absurd (omega arith)
  write_pages-Written (p ∷ ps) [] oks some_page blank room = (
    p ∷ ps,
    0,
    refl,
    record {
      holds = sym (append-nil (flat (p ∷ ps)));
      pages_ok = oks;
      count = refl;
      within = omega arith;
      blank = blank;
    },
  )
  write_pages-Written (p ∷ ps) (x ∷ s) (ok_p, oks) some_page blank room =
      let n = min (length (x ∷ s)) (page_wr_size page_size p) in
      let t = take n (x ∷ s) in
      let u = drop n (x ∷ s) in
      let fits_p : length t ≤ page_wr_size page_size p = omega (arith, length-take n (x ∷ s)) in
      elim (Bool-cases (length (x ∷ s) - n == 0)) [
        | inl done ↦ (
          fill p t ∷ ps,
          0,
          rw done,
          record {
            holds =
                flat-fill p ps t ok_p blank fits_p ps [] (sym (append-nil (flat ps)))
                ∙ ap (λ r. flat (p ∷ ps) ++ r) (append-nil t ∙ take_all n (x ∷ s) (ground arith));
            pages_ok = (fill-PageOk p ok_p t fits_p, oks);
            count = refl;
            within = omega arith;
            blank = blank;
          },
        )
        | inr more ↦
            let short : 0 < length (x ∷ s) - n = ground arith in
            let left : length u ≤ wr_size_pages page_size ps =
              omega (arith, length-drop n (x ∷ s)) in
            let some_left : 0 < length u = omega (arith, length-drop n (x ∷ s)) in
            let (qs, k, e, w) =
              write_pages-Written ps u oks (pages_of_room ps (length u) some_left left)
                (All-drop Blank 1 ps blank) left in
            (
              fill p t ∷ qs,
              suc k,
              rw (more, e),
              record {
                holds =
                    flat-fill p ps t ok_p blank fits_p qs u w.holds
                    ∙ ap (λ r. flat (p ∷ ps) ++ r) (take-append-drop n (x ∷ s));
                pages_ok = (fill-PageOk p ok_p t fits_p, w.pages_ok);
                count = ap suc w.count;
                within = omega (arith, w.within);
                blank = w.blank;
              },
            )
      ]

  module _ (ps : List Page) (r w : ℕ) (le : r ≤ w) (lt : w < length ps) where
    len_front : length (take w ps) ≡ w
    len_front = omega (arith, length-take w ps)

    -- The chain from `_page_rd` on, cut at `_page_wr`.
    cut : (qs : List Page) → drop r (replace_from w ps qs) ≡ drop r (take w ps) ++ qs
    cut qs = drop-append r (take w ps) qs (omega (arith, len_front))

    replaced :
        (s : List ℕ) (qs : List Page) (n : ℕ)
        → All (PageOk page_size) ps
        → Written (drop w ps) s qs n
        → let v : Buf = record { pages = replace_from w ps qs; rd = at r; wr = at (w + n) } in
          IsBuf page_size v × (contents v ≡ flat (drop r ps) ++ s)
    replaced s qs n oks h = (
      record {
        pages_ok =
            All-append (PageOk page_size) (take w ps) qs (All-take (PageOk page_size) w ps oks)
              h.pages_ok;
        places = (
          omega arith,
          omega (arith, length-append (take w ps) qs, len_front, h.count, h.within),
          subst (All Blank) (sym behind_wr) h.blank,
        );
      },
      holds,
    )
      where
        behind_wr : drop (suc (w + n)) (replace_from w ps qs) ≡ drop (suc n) qs
        behind_wr =
            let e : suc (w + n) ≡ length (take w ps) + suc n = omega (arith, len_front) in
            rw e (drop-append_right (suc n) (take w ps) qs)

        holds : flat (drop r (replace_from w ps qs)) ≡ flat (drop r ps) ++ s
        holds =
            flat (drop r (replace_from w ps qs))
            ≡⟨ ap flat (cut qs) ∙ flat-append (drop r (take w ps)) qs ⟩
              flat (drop r (take w ps)) ++ flat qs
            ≡⟨ ap (λ t. flat (drop r (take w ps)) ++ t) h.holds ⟩
              flat (drop r (take w ps)) ++ (flat (drop w ps) ++ s)
            ≡⟨ sym (append_assoc (flat (drop r (take w ps))) (flat (drop w ps)) s) ⟩
              (flat (drop r (take w ps)) ++ flat (drop w ps)) ++ s
            ≡⟨ ap (λ t. t ++ s) (sym (flat-append (drop r (take w ps)) (drop w ps))) ⟩
              flat (drop r (take w ps) ++ drop w ps) ++ s
            ≡⟨ ap (λ t. flat t ++ s) (sym (cut (drop w ps)) ∙ ap (drop r) (take-append-drop w ps)) ⟩
              flat (drop r ps) ++ s ∎

  -- Once there is room, `write` puts the bytes behind the contents.
  pub write_at-contents :
      (ps : List Page) (r w : ℕ) (s : List ℕ)
      → IsBuf page_size (record { pages = ps; rd = at r; wr = at w })
      → length s ≤ wr_size_pages page_size (drop w ps)
      → (v : Buf) × (write_at page_size (at w) s (record { pages = ps; rd = at r; wr = at w })
          ≡ ok v)
        × IsBuf page_size v
        × (contents v ≡ flat (drop r ps) ++ s)
  unfolding write_at
  write_at-contents ps r w s o room =
      let (le, lt, blank) = o.places in
      let (qs, n, e, h) =
        write_pages-Written (drop w ps) s (All-drop (PageOk page_size) w ps o.pages_ok)
          (omega (arith, length-drop w ps, lt))
          (let e1 : w + 1 ≡ suc w = omega arith in rw (drop-drop 1 w ps, e1) blank) room in
      let (good, holds) = replaced ps r w le lt s qs n o.pages_ok h in
      (record { pages = replace_from w ps qs; rd = at r; wr = at (w + n) }, rw e, good, holds)

module _ (page_size : ℕ) (garbage : List ℕ) (positive : 0 < page_size)
    (memory : length garbage ≡ page_size) where
  -- The outcome of a `write` of the bytes `s`.
  abbrev Wrote : Buf → List ℕ → Outcome (Buf × ℕ) → Type 0
  Wrote b s r =
      (v : Buf) × (r ≡ ok (v, length s)) × IsBuf page_size v × (contents v ≡ contents b ++ s)

  write_reserved :
      (b : Buf) (s : List ℕ)
      → IsBuf page_size b
      → (r : ℕ) → wr_size page_size b ≡ ok r
      → ltb r (length s) ≡ true
      → Wrote b s (write page_size garbage b s)
  unfolding write
  write_reserved b s o r e short =
      let g = reserve-Reserved page_size garbage positive memory b (length s) o in
      let (v, f, good, holds) =
        write_at-contents page_size g.pages g.rd_at g.wr_at s g.good g.room in
      (v, rw (e, short, g.returns, f), good, holds ∙ ap (λ t. t ++ s) g.holds)

  -- `write` to a well-formed buffer returns the number of bytes given, for pages that have at least one
  -- byte of memory. The buffer is then well formed, and holds what it held and, behind it, the bytes given.
  pub write_lem :
      (b : Buf) (s : List ℕ)
      → IsBuf page_size b
      → (v : Buf) × (write page_size garbage b s ≡ ok (v, length s))
        × IsBuf page_size v
        × (contents v ≡ contents b ++ s)
  unfolding write wr_size
  write_lem b s o =
      IsBuf_elim page_size (λ b. IsBuf page_size b → Wrote b s (write page_size garbage b s))
        in_chain (from_nothing s) b o o
    where
      in_chain :
          (ps : List Page) (r w : ℕ)
          → IsBuf page_size (chain ps r w)
          → IsBuf page_size (chain ps r w)
          → Wrote (chain ps r w) s (write page_size garbage (chain ps r w) s)
      in_chain ps r w o _ =
          elim (Bool-cases (ltb (wr_size_pages page_size (drop w ps)) (length s))) [
            | inl short ↦ write_reserved (chain ps r w) s o _ refl short
            | inr room ↦
                let (v, f, good, holds) = write_at-contents page_size ps r w s o (ground arith) in
                (v, rw (room, f), good, holds)
          ]

      from_nothing :
          (t : List ℕ)
          → IsBuf page_size no_chain
          → Wrote no_chain t (write page_size garbage no_chain t)
      from_nothing [] o = (no_chain, refl, o, refl)
      from_nothing (x ∷ t) o = write_reserved no_chain (x ∷ t) o 0 refl (ground arith)
