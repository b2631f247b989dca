-- ===== src/VarBuf/Contents.antt =====
-- What a buffer holds, when it is well formed; the pages one by one.
pub mod Write
pub mod Reserve
pub mod Taken
pub mod Read
pub mod Reset
use boost_coro.Base.{
  All, ℕ, zero, suc, ◌+◌, ◌-◌, ◌≤◌, ◌<◌, ◌≡◌, refl, ◌∙◌, sym, ap, List, [], ◌∷◌, ◌++◌, length, take,
  drop, length-append, length-take, length-drop, take_all, take-append, take-append_right,
  drop-append, drop-append_right, drop-drop, drop-take, take-append-take, take-append-drop, min,
  arith,
}
use mathlib.Core.List.{append-nil, append_assoc}
use boost_coro.VarBuf.State.{Page, PagePtr, null, at, freed, Buf, rd_size, readable}
use boost_coro.VarBuf.Ops.{fill, page_wr_size}

-- All that can be read of the pages, in order.
unfoldable pub flat : List Page → List ℕ
flat [] = []
flat (p ∷ ps) = readable p ++ flat ps

pub record PageOk (page_size : ℕ) (p : Page) : Type 0 where
  pub order : p.offset_rd ≤ p.offset_wr
  pub fits : p.offset_wr ≤ page_size
  pub memory : length p.bytes ≡ page_size

-- A page with nothing to read.
abbrev pub Blank : Page → Type 0
Blank p = p.offset_rd ≡ p.offset_wr

-- `_page_rd` is in the chain, `_page_wr` not in front of it, and nothing is written behind that.
abbrev pub Places : PagePtr → PagePtr → List Page → Type 0
Places (at r) (at w) ps = (r ≤ w) × (w < length ps) × All Blank (drop (suc w) ps)
Places null null [] = Unit
Places _ _ _ = ⊥

pub record IsBuf (page_size : ℕ) (b : Buf) : Type 0 where
  pub pages_ok : All (PageOk page_size) b.pages
  pub places : Places b.rd b.wr b.pages

abbrev pub contents_from : PagePtr → List Page → List ℕ
contents_from null ps = []
contents_from (at r) ps = flat (drop r ps)
contents_from freed ps = []

-- The bytes in the buffer, oldest first.
abbrev pub contents : Buf → List ℕ
contents b = contents_from b.rd b.pages

abbrev pub chain : List Page → ℕ → ℕ → Buf
chain ps r w = record { pages = ps; rd = at r; wr = at w }

abbrev pub no_chain : Buf
no_chain = record { pages = []; rd = null; wr = null }

-- A well-formed buffer is a chain with both positions in it, or has no page.
pub IsBuf_elim {κ} :
    (page_size : ℕ) (P : Buf → Type κ)
    → ((ps : List Page) (r w : ℕ) → IsBuf page_size (chain ps r w) → P (chain ps r w))
    → P no_chain
    → (b : Buf) → IsBuf page_size b
    → P b
IsBuf_elim page_size P some_page no_page b o = cases b.pages b.rd b.wr o.pages_ok o.places
  where
    cases :
        (ps : List Page) (rd wr : PagePtr)
        → All (PageOk page_size) ps
        → Places rd wr ps
        → P (record { pages = ps; rd = rd; wr = wr })
    cases ps (at r) (at w) a p = some_page ps r w (record { pages_ok = a; places = p })
    cases [] null null a p = no_page
    cases (_ ∷ _) null null a p = elim p [ ]
    cases ps null (at w) a p = elim p [ ]
    cases ps null freed a p = elim p [ ]
    cases ps (at r) null a p = elim p [ ]
    cases ps (at r) freed a p = elim p [ ]
    cases ps freed wr a p = elim p [ ]

pub flat-append : (ps qs : List Page) → flat (ps ++ qs) ≡ flat ps ++ flat qs
unfolding flat
flat-append [] qs = refl
flat-append (p ∷ ps) qs =
    rw (flat-append ps qs) (sym (append_assoc (readable p) (flat ps) (flat qs)))

pub flat-Blank : (ps : List Page) → All Blank ps → flat ps ≡ []
unfolding flat
flat-Blank [] b = refl
flat-Blank (p ∷ ps) (e, b) =
    let none_left : rd_size p ≡ 0 = omega arith in rw none_left (flat-Blank ps b)

module _ {page_size : ℕ} (p : Page) (ok : PageOk page_size p) (s : List ℕ)
    (room : length s ≤ page_wr_size page_size p) where
  -- What is written to a page can be read behind what it held.
  pub readable-fill : readable (fill p s) ≡ readable p ++ s
  unfolding fill
  readable-fill =
      let old = take p.offset_wr p.bytes in
      let left = drop (p.offset_wr + length s) p.bytes in
      let kept = drop p.offset_rd old in
      let len_kept : length kept ≡ p.offset_wr - p.offset_rd =
        omega (
          arith,
          length-drop p.offset_rd old,
          length-take p.offset_wr p.bytes,
          ok.memory,
          ok.fits,
        ) in
      let count : p.offset_wr + length s - p.offset_rd ≡ length kept + length s =
        omega (arith, len_kept, ok.order) in
      rw
        (drop-append p.offset_rd old (s ++ left)
          (omega (arith, length-take p.offset_wr p.bytes, ok.memory, ok.order, ok.fits)))
        (rw count (
          take-append_right (length s) kept (s ++ left)
          ∙ ap (λ r. kept ++ r)
              (take-append (length s) s left (omega arith) ∙ take_all (length s) s (omega arith))
          ∙ ap (λ r. r ++ s) (drop-take p.offset_rd p.offset_wr p.bytes)))

  pub fill-PageOk : PageOk page_size (fill p s)
  unfolding fill
  fill-PageOk = record {
    order = omega (arith, ok.order);
    fits = omega (arith, ok.fits);
    memory = omega (
      arith,
      length-append (take p.offset_wr p.bytes) (s ++ drop (p.offset_wr + length s) p.bytes),
      length-append s (drop (p.offset_wr + length s) p.bytes),
      length-take p.offset_wr p.bytes,
      length-drop (p.offset_wr + length s) p.bytes,
      ok.memory,
      ok.fits,
    );
  }
