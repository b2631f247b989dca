-- ===== src/VarBuf/Search.antt =====
-- `strnstr`, `find`, `read_by_endof_delimer` and `read_by_line`: the search for a delimiter in the pages.
pub mod Lines
pub mod Overrun
pub mod Examples
use boost_coro.Base.{
  ℕ, zero, suc, ◌+◌, ◌==◌, Bool, true, false, if◌then◌else◌, Option, none, some, List, [], ◌∷◌,
  ◌++◌, length, take, drop, Outcome, ok, fault, dangling, out_of_bounds, ◌>>=◌,
}
use boost_coro.VarBuf.State.{Page, PagePtr, null, at, freed, Buf, rd_size, readable, replace_from}

-- The inner loop of `strnstr`: does the memory begin with the text? The text has no byte 0 in it. The byte
-- of the memory is read in each round, also behind the end of the text.
unfoldable pub begins : List ℕ → List ℕ → Outcome Bool
begins [] d = fault out_of_bounds
begins (x ∷ s) [] = ok true
begins (x ∷ s) (c ∷ d) = if x == 0 then ok false else if x == c then begins s d else ok false

abbrev pub later : Option ℕ → Option ℕ
later none = none
later (some k) = some (suc k)

-- The outer loop: `n` is the number of places that are left, and a byte 0 ends the search. The byte is
-- read before `n` is looked at.
unfoldable pub search : List ℕ → List ℕ → ℕ → Outcome (Option ℕ)
unfolding begins
search [] d n = fault out_of_bounds
search (x ∷ s) d zero = ok none
search (x ∷ s) d (suc n) =
    let rest = search s d n in
    if x == 0
    then ok none
    else (begins (x ∷ s) d >>= λ b. if b then ok (some 0) else (rest >>= λ k. ok (later k)))

-- `strnstr(str1, str2, n)`: how far behind `str1` the match is
unfoldable pub strnstr : List ℕ → List ℕ → ℕ → Outcome (Option ℕ)
unfolding search
strnstr s [] n = ok (some 0)
strnstr s (c ∷ d) n = search s (c ∷ d) n

-- The memory that begins at `rd_ptr()`, to the end of the page
abbrev pub ahead : Page → List ℕ
ahead p = drop p.offset_rd p.bytes

unfoldable pub find_in : List ℕ → Page → Outcome (Option ℕ)
unfolding strnstr
find_in d p = strnstr (ahead p) d (rd_size p)

abbrev pub found_or : Option ℕ → Outcome (Option ℕ) → Outcome (Option ℕ)
found_or none rest = rest
found_or (some k) rest = ok (some 0)

-- The loop of `find`: how many pages further the match is
unfoldable pub find_pages : List ℕ → List Page → Outcome (Option ℕ)
unfolding find_in
find_pages d [] = ok none
find_pages d (p ∷ ps) =
    let rest = find_pages d ps in find_in d p >>= λ k. found_or k (rest >>= λ n. ok (later n))

abbrev pub pointer : ℕ → Option ℕ → PagePtr
pointer r none = null
pointer r (some n) = at (r + n)

unfoldable pub find_from : List ℕ → PagePtr → List Page → Outcome PagePtr
unfolding find_pages
find_from d null ps = ok null
find_from d (at r) ps = find_pages d (drop r ps) >>= λ k. ok (pointer r k)
find_from d freed ps = fault dangling

-- `find(s)`
unfoldable pub find : List ℕ → Buf → Outcome PagePtr
unfolding find_from
find d b = find_from d b.rd b.pages

-- The loop of `read_by_endof_delimer`: the bytes of the pages in front of the one with the match
unfoldable pub skipped : ℕ → List Page → List ℕ
skipped zero ps = []
skipped (suc n) [] = []
skipped (suc n) (p ∷ ps) = readable p ++ skipped n ps

-- The new buffer, the number that is returned and what is appended to `s`. `before` is what the loop has
-- appended; the match is `last` bytes behind `rd_ptr()` of the first of the pages.
unfoldable pub cut_page :
    List ℕ → Buf → ℕ → List ℕ → List Page → Option ℕ → Outcome (Buf × ℕ × List ℕ)
cut_page d b k before ps none = ok (record b { rd = at k }, 0, before)
cut_page d b k before [] (some last) = fault dangling
cut_page d b k before (p ∷ ps) (some last) =
    let q : Page = record p { offset_rd = p.offset_rd + (last + length d) } in
    ok (
      record b { pages = replace_from k b.pages (q ∷ ps); rd = at k },
      length before + last,
      before ++ take last (ahead p),
    )

unfoldable pub cut_first : List ℕ → Buf → ℕ → List ℕ → List Page → Outcome (Buf × ℕ × List ℕ)
unfolding cut_page find_in
cut_first d b k before [] = fault dangling
cut_first d b k before (p ∷ ps) = find_in d p >>= λ o. cut_page d b k before (p ∷ ps) o

unfoldable pub read_to : List ℕ → Buf → ℕ → Option ℕ → Outcome (Buf × ℕ × List ℕ)
unfolding skipped cut_first
read_to d b r none = ok (b, 0, [])
read_to d b r (some n) = cut_first d b (r + n) (skipped n (drop r b.pages)) (drop (r + n) b.pages)

unfoldable pub read_delimited : List ℕ → Buf → PagePtr → Outcome (Buf × ℕ × List ℕ)
unfolding find_pages read_to
read_delimited d b null = ok (b, 0, [])
read_delimited d b (at r) = find_pages d (drop r b.pages) >>= read_to d b r
read_delimited d b freed = fault dangling

-- `read_by_endof_delimer(d, s)`
unfoldable pub read_by_endof_delimer : List ℕ → Buf → Outcome (Buf × ℕ × List ℕ)
unfolding read_delimited
read_by_endof_delimer d b = read_delimited d b b.rd

abbrev pub newline : ℕ
newline = 10

-- `read_by_line(line)`
unfoldable pub read_by_line : Buf → Outcome (Buf × ℕ × List ℕ)
unfolding read_by_endof_delimer
read_by_line b = read_by_endof_delimer (newline ∷ []) b
