-- ===== src/VarBuf/State.antt =====
-- `vbuf_page_t` and the data of `var_buf_t`.
use boost_coro.Base.{
  ℕ, ◌-◌, ◌==◌, Bool, true, false, List, [], ◌∷◌, ◌++◌, take, drop, Outcome, ok, fault, dangling,
}

-- `data` is all the page's memory; the bytes between the offsets are the readable ones. The offsets
-- keep offset_rd ≤ offset_wr ≤ page_size, so that no subtraction below wraps.
pub record Page : Type 0 where
  pub offset_rd : ℕ
  pub offset_wr : ℕ
  pub bytes : List ℕ

-- A pointer into the chain of pages: the position that it has there. A page that has been destroyed
-- leaves the pointers to it dangling.
pub data PagePtr : Type 0 where
  null : PagePtr
  at : ℕ → PagePtr
  freed : PagePtr

-- The chain from `_page_list`, `_page_rd` and `_page_wr`
pub record Buf : Type 0 where
  pub pages : List Page
  pub rd : PagePtr
  pub wr : PagePtr

abbrev pub is_null : PagePtr → Bool
is_null null = true
is_null (at k) = false
is_null freed = false

abbrev pub is_at : PagePtr → ℕ → Bool
is_at null k = false
is_at (at j) k = j == k
is_at freed k = false

abbrev pub no_pages : List Page → Bool
no_pages [] = true
no_pages (_ ∷ _) = false

-- `rd_size()`
abbrev pub rd_size : Page → ℕ
rd_size p = p.offset_wr - p.offset_rd

-- The bytes that begin at `rd_ptr()`
abbrev pub readable : Page → List ℕ
readable p = take (rd_size p) (drop p.offset_rd p.bytes)

-- The pages that a walk from the pointer by `next` meets.
abbrev pub from_ptr : PagePtr → List Page → Outcome (List Page)
from_ptr null ps = ok []
from_ptr (at k) ps = ok (drop k ps)
from_ptr freed ps = fault dangling

-- The chain with the part that begins at position `k` replaced.
abbrev pub replace_from : ℕ → List Page → List Page → List Page
replace_from k ps qs = take k ps ++ qs

unfoldable pub empty_buf : Buf
empty_buf = record { pages = []; rd = null; wr = null }
