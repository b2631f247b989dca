-- ===== src/VarBuf/Search/Overrun.antt =====
-- Where the search leaves the bytes that can be read.
use boost_coro.Base.{
  All-drop, All, ℕ, ◌+◌, ◌<◌, ◌≡◌, ◌∙◌, ap, sym, subst, true, some, List, [], ◌∷◌, ◌++◌, length,
  take, drop, length-append, length-take, length-drop, take-append, take_all, take-append-drop,
  drop-append_right, ok, fault, out_of_bounds, arith,
}
use mathlib.Core.List.{append_assoc}
use boost_coro.VarBuf.State.{Page, Buf, rd_size, readable, replace_from}
use boost_coro.VarBuf.Contents.{IsBuf, PageOk, chain}
use boost_coro.VarBuf.Search.{
  begins, search, strnstr, ahead, find_in, skipped, read_by_endof_delimer, newline, read_by_line,
}
use boost_coro.VarBuf.Search.Lines.{Plain, begins_end, search_first, search_over}

-- "\r\n"
abbrev pub crlf : List ℕ
crlf = 13 ∷ 10 ∷ []

module _ (page_size : ℕ) where
  -- In a well-formed buffer whose page at `_page_rd` is written to its end and has neither a newline nor a
  -- byte 0 to read, `read_by_line` reads behind the page's memory.
  read_by_line_over :
      (ps : List Page) (r w : ℕ) (p : Page) (qs : List Page)
      → IsBuf page_size (chain ps r w)
      → drop r ps ≡ p ∷ qs
      → p.offset_wr ≡ page_size
      → All (Plain newline) (readable p)
      → read_by_line (chain ps r w) ≡ fault out_of_bounds
  unfolding read_by_line find_in strnstr
  read_by_line_over ps r w p qs o e full plain =
      let (ok_p, _) =
        subst (All (PageOk page_size)) e (All-drop (PageOk page_size) r ps o.pages_ok) in
      let size : length (ahead p) ≡ rd_size p =
        omega (arith, length-drop p.offset_rd p.bytes, ok_p.memory, full) in
      let whole : readable p ≡ ahead p = take_all (rd_size p) (ahead p) (omega (arith, size)) in
      let over : search (ahead p) (newline ∷ []) (rd_size p) ≡ fault out_of_bounds =
        ap (search (ahead p) (newline ∷ [])) (sym size)
        ∙ search_over (ahead p) (subst (All (Plain newline)) whole plain) in
      rw (e, over)

  -- In a well-formed buffer whose page at `_page_rd` has plain bytes and a "\r" to read, and behind
  -- what was written a "\n" and one byte more, `read_by_endof_delimer` of "\r\n" finds it there,
  -- appends the plain bytes, returns their number, and leaves a buffer that is not well formed.
  pub delimiter_overruns :
      (ps : List Page) (r w : ℕ) (p : Page) (qs : List Page) (pre more : List ℕ)
      → IsBuf page_size (chain ps r w)
      → drop r ps ≡ p ∷ qs
      → readable p ≡ pre ++ 13 ∷ []
      → drop (rd_size p) (ahead p) ≡ 10 ∷ more
      → 0 < length more
      → All (Plain 13) pre
      → (v : Buf) × (read_by_endof_delimer crlf (chain ps r w) ≡ ok (v, length pre, pre))
        × ¬ IsBuf page_size v
  unfolding read_by_endof_delimer skipped find_in strnstr
  delimiter_overruns ps r w p qs pre more o e line stale enough plain =
      let (ok_p, _) =
        subst (All (PageOk page_size)) e (All-drop (PageOk page_size) r ps o.pages_ok) in
      let split : ahead p ≡ pre ++ 13 ∷ 10 ∷ more =
        sym (take-append-drop (rd_size p) (ahead p))
        ∙ ap (λ s. s ++ drop (rd_size p) (ahead p)) line
        ∙ append_assoc pre (13 ∷ []) (drop (rd_size p) (ahead p))
        ∙ ap (λ s. pre ++ 13 ∷ s) stale in
      let count : length pre + 1 ≡ rd_size p = omega (
        arith,
        length-append pre (13 ∷ []),
        ap length line,
        length-take (rd_size p) (ahead p),
        length-drop p.offset_rd p.bytes,
        ok_p.memory,
        ok_p.fits,
        ok_p.order,
      ) in
      let there : begins (10 ∷ more) (10 ∷ []) ≡ ok true =
        unfold begins in begins_end more enough in
      let found : search (ahead p) crlf (rd_size p) ≡ ok (some (length pre)) =
        ap (λ s. search s crlf (rd_size p)) split
        ∙ search_first 13 (10 ∷ []) pre (10 ∷ more) (rd_size p) (omega arith) plain there
            (omega (arith, count)) in
      let text : take (length pre) (ahead p) ≡ pre =
        ap (take (length pre)) split
        ∙ take-append (length pre) pre (13 ∷ 10 ∷ more) (omega arith)
        ∙ take_all (length pre) pre (omega arith) in
      let here : r + 0 ≡ r = omega arith in
      let whole : 0 + length pre ≡ length pre = omega arith in
      let q : Page = record p { offset_rd = p.offset_rd + (length pre + 2) } in
      (
        chain (replace_from r ps (q ∷ qs)) r w,
        rw (e, found, here, e, found, text, whole),
        λ good.
            (let front : r ≡ length (take r ps) + 0 =
                omega (arith, length-take r ps, length-drop r ps, ap length e) in
              let at_page : drop r (replace_from r ps (q ∷ qs)) ≡ q ∷ qs =
                ap (λ m. drop m (replace_from r ps (q ∷ qs))) front
                ∙ drop-append_right 0 (take r ps) (q ∷ qs) in
              let (bad, _) =
                subst (All (PageOk page_size)) at_page
                  (All-drop (PageOk page_size) r (replace_from r ps (q ∷ qs)) good.pages_ok) in
              omega (arith, bad.order, count)),
      )
