-- ===== src/VarBuf/Sizes.antt =====
-- `rd_size()` of the whole buffer, and `page_tail()`.
use boost_coro.Base.{
  All-drop, All, ℕ, suc, ◌+◌, ◌-◌, ◌<◌, ◌≡◌, refl, ◌∙◌, sym, ap, List, [], ◌∷◌, length,
  length-append, length-drop, drop, Outcome, ok, fault, dangling, ◌>>=◌, arith,
}
use boost_coro.VarBuf.State.{Page, PagePtr, null, at, freed, Buf, rd_size, readable, from_ptr}
use boost_coro.VarBuf.Ops.{buf_length}
use boost_coro.VarBuf.Contents.{IsBuf, IsBuf_elim, PageOk, chain, flat}
use boost_coro.VarBuf.Contents.Taken.{length-readable}
use boost_coro.VarBuf.Contents.Read.{length-contents}

unfoldable pub rd_size_pages : List Page → ℕ
rd_size_pages [] = 0
rd_size_pages (p ∷ ps) = rd_size p + rd_size_pages ps

-- `var_buf_t::rd_size()`
unfoldable pub rd_size_all : Buf → Outcome ℕ
unfolding rd_size_pages
rd_size_all b = from_ptr b.rd b.pages >>= λ ps. ok (rd_size_pages ps)

-- The loop of `page_tail`, from the page at position `k`
unfoldable pub tail_from : ℕ → List Page → PagePtr
tail_from k [] = null
tail_from k (p ∷ []) = at k
tail_from k (p ∷ q ∷ ps) = tail_from (suc k) (q ∷ ps)

-- `page_tail()`
unfoldable pub page_tail : PagePtr → List Page → Outcome PagePtr
unfolding tail_from
page_tail null ps = ok null
page_tail (at k) ps = ok (tail_from k (drop k ps))
page_tail freed ps = fault dangling

rd_size_pages-flat :
    (page_size : ℕ) (ps : List Page)
    → All (PageOk page_size) ps
    → rd_size_pages ps ≡ length (flat ps)
unfolding rd_size_pages flat
rd_size_pages-flat page_size [] a = refl
rd_size_pages-flat page_size (p ∷ ps) (o, a) = omega (
  arith,
  length-append (readable p) (flat ps),
  length-readable page_size p o,
  rd_size_pages-flat page_size ps a,
)

-- In a well-formed buffer `rd_size()`, which walks to the end of the chain, returns the same as `length()`,
-- which stops at `_page_wr`.
pub rd_size_all-buf_length :
    (page_size : ℕ) (b : Buf) → IsBuf page_size b → rd_size_all b ≡ buf_length b
unfolding rd_size_all
rd_size_all-buf_length page_size =
    IsBuf_elim page_size (λ b. rd_size_all b ≡ buf_length b)
      (λ ps r w o.
        ap ok
          (rd_size_pages-flat page_size (drop r ps) (All-drop (PageOk page_size) r ps o.pages_ok))
        ∙ sym (length-contents page_size (chain ps r w) o))
      (unfold buf_length rd_size_all in refl)

tail_from_lem : (ps : List Page) (k : ℕ) → 0 < length ps → tail_from k ps ≡ at (k + length ps - 1)
unfolding tail_from
tail_from_lem [] k h = absurd (omega arith)
tail_from_lem (p ∷ []) k h = ap at (omega arith)
tail_from_lem (p ∷ q ∷ ps) k h = tail_from_lem (q ∷ ps) (suc k) (omega arith) ∙ ap at (omega arith)

-- In a well-formed buffer with pages, `page_tail()` is the last page of the chain.
pub page_tail_lem :
    (page_size : ℕ) (ps : List Page) (r w : ℕ)
    → IsBuf page_size (chain ps r w)
    → page_tail (at w) ps ≡ ok (at (length ps - 1))
unfolding page_tail
page_tail_lem page_size ps r w o =
    let (le, lt, _) = o.places in
    let n = length-drop w ps in
    ap ok (tail_from_lem (drop w ps) w (omega (arith, n)) ∙ ap at (omega (arith, n)))
