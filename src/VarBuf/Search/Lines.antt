-- ===== src/VarBuf/Search/Lines.antt =====
-- `read_by_line`, where the line ends in the page at `_page_rd`.
use boost_coro.Base.{
  All-drop, All, ℕ, zero, suc, ◌+◌, ◌<◌, ◌==◌, ◌≡◌, ◌≢◌, refl, ◌∙◌, ap, sym, subst, true, false,
  some, List, [], ◌∷◌, ◌++◌, length, take, drop, length-append, length-take, length-drop,
  take-append, take_all, take-append-drop, ok, fault, out_of_bounds, arith,
}
use mathlib.Core.List.{append_assoc}
use boost_coro.VarBuf.State.{Page, Buf, rd_size, readable, replace_from}
use boost_coro.VarBuf.Contents.{IsBuf, PageOk, chain, contents}
use boost_coro.VarBuf.Contents.Taken.{take_in_page}
use boost_coro.VarBuf.Search.{
  begins, search, strnstr, ahead, find_in, skipped, newline, read_by_line,
}

-- A byte that neither ends the search nor begins the delimiter.
abbrev pub Plain : ℕ → ℕ → Type 0
Plain c x = (x ≢ 0) × (x ≢ c)

-- The text ends at once, and a byte of memory is there.
pub begins_end : (s : List ℕ) → 0 < length s → begins s [] ≡ ok true
unfolding begins
begins_end [] h = absurd (omega arith)
begins_end (x ∷ s) h = refl

-- The search finds the delimiter behind plain bytes.
pub search_first :
    (c : ℕ) (d pre s : List ℕ) (n : ℕ)
    → c ≢ 0
    → All (Plain c) pre
    → begins s d ≡ ok true
    → length pre < n
    → search (pre ++ c ∷ s) (c ∷ d) n ≡ ok (some (length pre))
unfolding search begins
search_first c d pre s zero some_byte plain there h = absurd (omega arith)
search_first c d [] s (suc n) some_byte plain there h =
    let e : (c == 0) ≡ false = ground arith in
    let f : (c == c) ≡ true = ground arith in rw (e, f, there)
search_first c d (x ∷ pre) s (suc n) some_byte ((a, b), plain) there h =
    let e : (x == 0) ≡ false = ground arith in
    let f : (x == c) ≡ false = ground arith in
    rw (e, f, search_first c d pre s n some_byte plain there (omega arith))

-- Where all bytes are plain, the search reads behind the last one.
pub search_over :
    (s : List ℕ) → All (Plain newline) s → search s (newline ∷ []) (length s) ≡ fault out_of_bounds
unfolding search begins
search_over [] plain = refl
search_over (x ∷ s) ((a, b), plain) =
    let e : (x == 0) ≡ false = ground arith in
    let f : (x == newline) ≡ false = ground arith in rw (e, f, search_over s plain)

module _ (page_size : ℕ) where
  module _ (p : Page) (pre post : List ℕ) (o : PageOk page_size p)
      (line : readable p ≡ pre ++ newline ∷ post) where
    abbrev tail : List ℕ
    tail = drop (rd_size p) (ahead p)

    ahead_split : ahead p ≡ pre ++ newline ∷ (post ++ tail)
    ahead_split =
        sym (take-append-drop (rd_size p) (ahead p))
        ∙ ap (λ s. s ++ tail) line
        ∙ append_assoc pre (newline ∷ post) tail

    line_length : length pre + suc (length post) ≡ rd_size p
    line_length = omega (
      arith,
      length-append pre (newline ∷ post),
      ap length line,
      length-take (rd_size p) (ahead p),
      length-drop p.offset_rd p.bytes,
      o.memory,
      o.fits,
      o.order,
    )

    find_in_line :
        All (Plain newline) pre
        → p.offset_rd + length pre + 1 < page_size
        → find_in (newline ∷ []) p ≡ ok (some (length pre))
    unfolding find_in strnstr
    find_in_line plain inside =
        ap (λ s. search s (newline ∷ []) (rd_size p)) ahead_split
        ∙ search_first newline [] pre (post ++ tail) (rd_size p) (omega arith) plain
            (begins_end (post ++ tail) (
              omega (
                arith,
                length-append pre (newline ∷ (post ++ tail)),
                ap length ahead_split,
                length-drop p.offset_rd p.bytes,
                o.memory,
              )))
            (omega (arith, line_length))

    line_ahead : take (length pre) (ahead p) ≡ pre
    line_ahead =
        ap (take (length pre)) ahead_split
        ∙ take-append (length pre) pre (newline ∷ (post ++ tail)) (omega arith)
        ∙ take_all (length pre) pre (omega arith)

  -- In a well-formed buffer whose page at `_page_rd` has a newline, not in the last byte of its memory, and
  -- no byte 0 in front of it, `read_by_line` appends the line without the newline, returns its length, and
  -- takes out the line and the newline, and nothing else; the buffer stays well formed.
  pub read_by_line_lem :
      (ps : List Page) (r w : ℕ) (p : Page) (qs : List Page) (pre post : List ℕ)
      → IsBuf page_size (chain ps r w)
      → drop r ps ≡ p ∷ qs
      → readable p ≡ pre ++ newline ∷ post
      → All (Plain newline) pre
      → p.offset_rd + length pre + 1 < page_size
      → (v : Buf) × (read_by_line (chain ps r w) ≡ ok (v, length pre, pre))
        × IsBuf page_size v
        × (contents v ≡ drop (suc (length pre)) (contents (chain ps r w)))
  unfolding read_by_line skipped
  read_by_line_lem ps r w p qs pre post o e line plain inside =
      let (ok_p, _) =
        subst (All (PageOk page_size)) e (All-drop (PageOk page_size) r ps o.pages_ok) in
      let count = line_length p pre post ok_p line in
      let (good, left) =
        take_in_page page_size ps r w (suc (length pre)) p qs o e (omega (arith, count)) in
      let here : r + 0 ≡ r = omega arith in
      let whole : 0 + length pre ≡ length pre = omega arith in
      let used : length pre + 1 ≡ suc (length pre) = omega arith in
      let found = find_in_line p pre post ok_p line plain inside in
      (
        chain (replace_from r ps (record p { offset_rd = p.offset_rd + suc (length pre) } ∷ qs)) r
            w,
        rw (e, found, here, e, found, line_ahead p pre post ok_p line, used, whole),
        good,
        left,
      )
