-- ===== src/VarBuf/Views.antt =====
-- The views of the buffer: the vectors for `readv` and `writev`, and the counts of pages.
use boost_coro.Base.{
  ℕ, suc, ◌+◌, ◌-◌, ◌==◌, ◌≡◌, refl, sym, ap, inl, inr, if◌then◌else◌, Bool-cases, List, [], ◌∷◌,
  ◌++◌, length, length-drop, take, drop, Outcome, ok, fault, null_deref, dangling, ◌>>=◌, arith,
}
use boost_coro.VarBuf.State.{
  Page, PagePtr, null, at, freed, Buf, rd_size, readable, from_ptr, is_null, is_at,
}
use boost_coro.VarBuf.Ops.{page_wr_size, wr_size_pages, wr_size}
use boost_coro.VarBuf.Contents.{flat, IsBuf, IsBuf_elim, contents, chain}
use boost_coro.VarBuf.Contents.Read.{InWalk, last_blank, walk_on, in_walk}

-- `struct iovec`: the page's memory with the offset of `iov_base` in it, and `iov_len`
pub record Iovec : Type 0 where
  pub memory : List ℕ
  pub base : ℕ
  pub len : ℕ

-- The bytes that `writev` takes from a vector
abbrev pub bytes_of : List Iovec → List ℕ
bytes_of [] = []
bytes_of (v ∷ vs) = take v.len (drop v.base v.memory) ++ bytes_of vs

-- The room that `readv` has in a vector
abbrev pub room_of : List Iovec → ℕ
room_of [] = 0
room_of (v ∷ vs) = v.len + room_of vs

abbrev pub rd_entry : Page → Iovec
rd_entry p = record { memory = p.bytes; base = p.offset_rd; len = rd_size p }

unfoldable pub rd_walk : List Page → ℕ → PagePtr → List Iovec
rd_walk [] k wr = []
rd_walk (p ∷ ps) k wr =
    let more = rd_walk ps (suc k) wr in if is_at wr k then rd_entry p ∷ [] else rd_entry p ∷ more

-- `rd_iovec(vc)`: what it puts behind the entries of `vc`
unfoldable pub rd_iovec_from : PagePtr → PagePtr → List Page → Outcome (List Iovec)
unfolding rd_walk
rd_iovec_from null wr ps = ok []
rd_iovec_from (at k) wr ps = ok (rd_walk (drop k ps) k wr)
rd_iovec_from freed wr ps = fault dangling

unfoldable pub rd_iovec : Buf → Outcome (List Iovec)
unfolding rd_iovec_from
rd_iovec b = rd_iovec_from b.rd b.wr b.pages

unfoldable pub wr_entries : ℕ → List Page → List Iovec
wr_entries page_size [] = []
wr_entries page_size (p ∷ ps) =
    record { memory = p.bytes; base = p.offset_wr; len = page_wr_size page_size p }
    ∷ wr_entries page_size ps

-- `wr_iovec(vc)`
unfoldable pub wr_iovec : ℕ → Buf → Outcome (List Iovec)
unfolding wr_entries
wr_iovec page_size b = from_ptr b.wr b.pages >>= λ ps. ok (wr_entries page_size ps)

-- `rd_pages()`
unfoldable pub count_walk : List Page → ℕ → PagePtr → Outcome ℕ
count_walk [] k wr = if is_null wr then ok 0 else fault null_deref
count_walk (p ∷ ps) k wr =
    let more = count_walk ps (suc k) wr in if is_at wr k then ok 1 else (more >>= λ n. ok (suc n))

unfoldable pub count_from : PagePtr → PagePtr → List Page → Outcome ℕ
unfolding count_walk
count_from null wr ps = ok 0
count_from (at k) wr ps = count_walk (drop k ps) k wr
count_from freed wr ps = fault dangling

unfoldable pub rd_pages : Buf → Outcome ℕ
unfolding count_from
rd_pages b = count_from b.rd b.wr b.pages

-- `wr_pages()`
unfoldable pub wr_pages : Buf → Outcome ℕ
wr_pages b = from_ptr b.wr b.pages >>= λ ps. ok (length ps)

-- `pages()`
unfoldable pub page_count : Buf → ℕ
page_count b = length b.pages

rd_walk_lem :
    (page_size w : ℕ) (ps : List Page) (k : ℕ)
    → InWalk page_size w ps k
    → bytes_of (rd_walk ps k (at w)) ≡ flat ps
unfolding rd_walk flat
rd_walk_lem page_size w [] k i = absurd (omega arith)
rd_walk_lem page_size w (p ∷ ps) k i = elim (Bool-cases (w == k)) [
  | inl here ↦ rw here (ap (λ r. readable p ++ r) (sym (last_blank page_size w p ps k i here)))
  | inr there ↦ rw there (
      ap (λ r. readable p ++ r)
        (rd_walk_lem page_size w ps (suc k) (walk_on page_size w p ps k i there)))
]

-- `rd_iovec` of a well-formed buffer makes a vector of all the bytes that the buffer holds, in order.
pub rd_iovec-contents :
    (page_size : ℕ) (b : Buf)
    → IsBuf page_size b
    → (vs : List Iovec) × (rd_iovec b ≡ ok vs) × (bytes_of vs ≡ contents b)
unfolding rd_iovec
rd_iovec-contents page_size =
    IsBuf_elim page_size
      (λ b. (vs : List Iovec) × (rd_iovec b ≡ ok vs) × (bytes_of vs ≡ contents b))
      (λ ps r w o. (
        rd_walk (drop r ps) r (at w),
        refl,
        rd_walk_lem page_size w (drop r ps) r (in_walk page_size ps r w o),
      ))
      ([], refl, refl)

wr_entries_lem :
    (page_size : ℕ) (ps : List Page)
    → room_of (wr_entries page_size ps) ≡ wr_size_pages page_size ps
unfolding wr_entries wr_size_pages
wr_entries_lem page_size [] = refl
wr_entries_lem page_size (p ∷ ps) = omega (arith, wr_entries_lem page_size ps)

-- The entries of `wr_iovec` have as much room together as `wr_size()` says, in a well-formed buffer.
pub wr_iovec-wr_size :
    (page_size : ℕ) (b : Buf)
    → IsBuf page_size b
    → (vs : List Iovec) × (wr_iovec page_size b ≡ ok vs) × (wr_size page_size b ≡ ok (room_of vs))
unfolding wr_iovec wr_size
wr_iovec-wr_size page_size =
    IsBuf_elim page_size
      (λ b.
        (vs : List Iovec) × (wr_iovec page_size b ≡ ok vs)
        × (wr_size page_size b ≡ ok (room_of vs)))
      (λ ps r w o. (
        wr_entries page_size (drop w ps),
        refl,
        ap ok (sym (wr_entries_lem page_size (drop w ps))),
      ))
      ([], refl, refl)

count_walk_lem :
    (page_size w : ℕ) (ps : List Page) (k : ℕ)
    → InWalk page_size w ps k
    → count_walk ps k (at w) ≡ ok (suc (w - k))
unfolding count_walk
count_walk_lem page_size w [] k i = absurd (omega arith)
count_walk_lem page_size w (p ∷ ps) k i = elim (Bool-cases (w == k)) [
  | inl here ↦ let e : suc (w - k) ≡ 1 = ground arith in rw (here, e)
  | inr there ↦
      let e : w - k ≡ suc (w - suc k) = ground arith in
      rw (there, count_walk_lem page_size w ps (suc k) (walk_on page_size w p ps k i there), e)
]

-- In a well-formed buffer with `_page_rd` at page `r` and `_page_wr` at page `w`, `rd_pages()` counts the
-- pages from `r` to `w`, `wr_pages()` those from `w` on, and both count page `w`.
pub rd_pages-wr_pages :
    (page_size : ℕ) (ps : List Page) (r w : ℕ)
    → IsBuf page_size (chain ps r w)
    → (n m : ℕ) × (rd_pages (chain ps r w) ≡ ok n)
      × (wr_pages (chain ps r w) ≡ ok m)
      × (n ≡ suc (w - r))
      × (r + n + m ≡ suc (page_count (chain ps r w)))
unfolding rd_pages wr_pages page_count
rd_pages-wr_pages page_size ps r w o =
    let (le, lt, blank) = o.places in
    (
      suc (w - r),
      length (drop w ps),
      count_walk_lem page_size w (drop r ps) r (in_walk page_size ps r w o),
      refl,
      refl,
      omega (arith, length-drop w ps),
    )
