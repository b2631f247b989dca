-- ===== src/VarBuf/Contents/Reserve.antt =====
-- `shrink` and `reserve`: room is made, and nothing that can be read is lost.
use boost_coro.Base.{
  All-append, All-drop, All, ℕ, zero, suc, ◌+◌, ◌-◌, ◌≤◌, ◌<◌, ltb, leb, ◌≡◌, refl, ◌∙◌, sym, ap,
  inl, inr, true, Bool-cases, List, [], ◌∷◌, ◌++◌, length, drop, Outcome, ok, length-append,
  length-drop, drop-append, drop-drop, arith,
}
use mathlib.Core.List.{append-nil, append_assoc}
use boost_coro.VarBuf.State.{Page, null, at, Buf}
use boost_coro.VarBuf.Ops.{
  new_page, wr_size_pages, wr_size, grow, first_reserve, reserve, shrink, shrink_at, behind,
}
use boost_coro.VarBuf.Contents.{
  flat, PageOk, Blank, IsBuf, IsBuf_elim, contents, flat-append, flat-Blank,
}

module _ (page_size : ℕ) (garbage : List ℕ) (positive : 0 < page_size)
    (memory : length garbage ≡ page_size) where
  wr_size-append :
      (ps qs : List Page)
      → wr_size_pages page_size (ps ++ qs) ≡ wr_size_pages page_size ps + wr_size_pages page_size qs
  unfolding wr_size_pages
  wr_size-append [] qs = omega arith
  wr_size-append (p ∷ ps) qs = omega (arith, wr_size-append ps qs)

  -- The pages that the loop of `reserve` adds.
  record Grown (ps : List Page) (missing : ℕ) (qs : List Page) : Type 0 where
    pages : List Page
    appended : qs ≡ ps ++ pages
    pages_ok : All (PageOk page_size) pages
    blank : All Blank pages
    room : missing ≤ wr_size_pages page_size pages

  new-PageOk : PageOk page_size (new_page garbage)
  new-PageOk = record { order = omega arith; fits = omega arith; memory = memory }

  grow-Grown :
      (fuel cur sz : ℕ) (ps : List Page)
      → sz ≤ cur + fuel
      → Grown ps (sz - cur) (grow page_size garbage fuel cur sz ps)
  unfolding grow wr_size_pages
  grow-Grown zero cur sz ps enough = record {
    pages = [];
    appended = sym (append-nil ps);
    pages_ok = tt;
    blank = tt;
    room = omega arith;
  }
  grow-Grown (suc fuel) cur sz ps enough = elim (Bool-cases (ltb cur sz)) [
    | inr stop ↦ rw stop (record {
      pages = [];
      appended = sym (append-nil ps);
      pages_ok = tt;
      blank = tt;
      room = ground arith;
    })
    | inl go ↦
        let g =
          grow-Grown fuel (cur + page_size) sz (ps ++ new_page garbage ∷ [])
            (omega (arith, positive)) in
        rw go (record {
          pages = new_page garbage ∷ g.pages;
          appended = g.appended ∙ append_assoc ps (new_page garbage ∷ []) g.pages;
          pages_ok = (new-PageOk, g.pages_ok);
          blank = (refl, g.blank);
          room = omega (arith, g.room);
        })
  ]

  -- `reserve(sz)` leaves room for `sz` bytes, and the same contents.
  pub record Reserved (held : List ℕ) (sz : ℕ) (r : Outcome Buf) : Type 0 where
    pub pages : List Page
    pub rd_at : ℕ
    pub wr_at : ℕ
    pub returns : r ≡ ok (record { pages = pages; rd = at rd_at; wr = at wr_at })
    pub good : IsBuf page_size (record { pages = pages; rd = at rd_at; wr = at wr_at })
    pub holds : flat (drop rd_at pages) ≡ held
    pub room : sz ≤ wr_size_pages page_size (drop wr_at pages)

  reserve_chain :
      (ps : List Page) (r w sz : ℕ)
      → IsBuf page_size (record { pages = ps; rd = at r; wr = at w })
      → Reserved
          (flat (drop r ps))
          sz
          (reserve page_size garbage (record { pages = ps; rd = at r; wr = at w }) sz)
  unfolding reserve shrink shrink_at behind first_reserve wr_size
  reserve_chain ps r w sz o =
      let (le, lt, blank) = o.places in
      let kept = drop r ps in
      let cur = wr_size_pages page_size (drop (w - r) kept) in
      let g = grow-Grown sz cur sz kept (omega arith) in
      let test : leb r w ≡ true = ground arith in
      let len : w - r < length kept = omega (arith, length-drop r ps) in
      let at_w : r + suc (w - r) ≡ suc w = omega arith in
      record {
        pages = grow page_size garbage sz cur sz kept;
        rd_at = 0;
        wr_at = w - r;
        returns = rw test;
        good = record {
          pages_ok = rw g.appended (
              All-append (PageOk page_size) kept g.pages
                (All-drop (PageOk page_size) r ps o.pages_ok) g.pages_ok);
          places = (
            omega arith,
            rw g.appended (omega (arith, length-append kept g.pages, len)),
            rw
                (
                  g.appended,
                  drop-append (suc (w - r)) kept g.pages (omega (arith, len)),
                  drop-drop (suc (w - r)) r ps,
                  at_w,
                )
                (All-append Blank (drop (suc w) ps) g.pages blank g.blank),
          );
        };
        holds = rw (g.appended) (
            flat-append kept g.pages
            ∙ ap (λ t. flat kept ++ t) (flat-Blank g.pages g.blank)
            ∙ append-nil (flat kept));
        room =
            rw (g.appended, drop-append (w - r) kept g.pages (omega (arith, len)))
              (omega (arith, wr_size-append (drop (w - r) kept) g.pages, g.room));
      }

  reserve_new :
      (sz : ℕ)
      → Reserved [] sz (reserve page_size garbage (record { pages = []; rd = null; wr = null }) sz)
  unfolding reserve shrink shrink_at first_reserve wr_size wr_size_pages flat
  reserve_new sz =
      let first = new_page garbage ∷ [] in
      let g = grow-Grown sz (page_size - 0 + 0) sz first (omega arith) in
      record {
        pages = grow page_size garbage sz (page_size - 0 + 0) sz first;
        rd_at = 0;
        wr_at = 0;
        returns = refl;
        good = record {
          pages_ok = rw g.appended (new-PageOk, g.pages_ok);
          places = (
            omega arith,
            rw g.appended (omega (arith, length-append first g.pages)),
            rw g.appended g.blank,
          );
        };
        holds = rw g.appended (flat-Blank g.pages g.blank);
        room = rw g.appended (omega (arith, g.room));
      }

  pub reserve-Reserved :
      (b : Buf) (sz : ℕ)
      → IsBuf page_size b
      → Reserved (contents b) sz (reserve page_size garbage b sz)
  reserve-Reserved b sz =
      IsBuf_elim page_size (λ b. Reserved (contents b) sz (reserve page_size garbage b sz))
        (λ ps r w. reserve_chain ps r w sz) (reserve_new sz) b

  -- `reserve(sz)` of a well-formed buffer returns, for pages that have at least one byte of memory. The
  -- buffer is then well formed and holds what it held, and `wr_size()` is `sz` at least.
  pub reserve_lem :
      (b : Buf) (sz : ℕ)
      → IsBuf page_size b
      → (v : Buf) × (room : ℕ) × (reserve page_size garbage b sz ≡ ok v)
        × IsBuf page_size v
        × (contents v ≡ contents b)
        × (wr_size page_size v ≡ ok room)
        × (sz ≤ room)
  unfolding wr_size
  reserve_lem b sz o =
      let g = reserve-Reserved b sz o in
      (
        record { pages = g.pages; rd = at g.rd_at; wr = at g.wr_at },
        wr_size_pages page_size (drop g.wr_at g.pages),
        g.returns,
        g.good,
        g.holds,
        refl,
        g.room,
      )
