-- ===== src/VarBuf/Ops.antt =====
-- The member functions of `var_buf_t`, at a page size and with the memory that a new page has.
use boost_coro.Base.{
  ℕ, zero, suc, ◌+◌, ◌-◌, ◌==◌, ltb, leb, Bool, true, false, ◌&&◌, ◌||◌, if◌then◌else◌, min, List,
  [], ◌∷◌, ◌++◌, length, take, drop, Outcome, ok, fault, dangling, null_deref, assert_failed, ◌>>=◌,
}
use boost_coro.VarBuf.State.{
  Page, PagePtr, null, at, freed, Buf, is_null, is_at, no_pages, rd_size, readable, from_ptr,
  replace_from,
}

-- The number of bytes that the pages from `_page_rd` to `_page_wr` hold, in `length()`. The loop ends
-- at `_page_wr`; the page that it ends at is read whether or not there is one.
unfoldable pub length_walk : List Page → ℕ → PagePtr → Outcome ℕ
length_walk [] k wr = fault null_deref
length_walk (p ∷ ps) k wr =
    let more = length_walk ps (suc k) wr in
    if is_at wr k then ok (rd_size p) else (more >>= λ n. ok (rd_size p + n))

unfoldable pub length_from : PagePtr → PagePtr → List Page → Outcome ℕ
unfolding length_walk
length_from null wr ps = ok 0
length_from (at k) wr ps = length_walk (drop k ps) k wr
length_from freed wr ps = fault dangling

unfoldable pub buf_length : Buf → Outcome ℕ
unfolding length_from
buf_length b = length_from b.rd b.wr b.pages

-- `to_string()`
unfoldable pub string_walk : List Page → ℕ → PagePtr → Outcome (List ℕ)
string_walk [] k wr = if is_null wr then ok [] else fault null_deref
string_walk (p ∷ ps) k wr =
    let more = string_walk ps (suc k) wr in
    if is_at wr k then ok (readable p) else (more >>= λ s. ok (readable p ++ s))

unfoldable pub string_from : PagePtr → PagePtr → List Page → Outcome (List ℕ)
unfolding string_walk
string_from null wr ps = ok []
string_from (at k) wr ps = string_walk (drop k ps) k wr
string_from freed wr ps = fault dangling

unfoldable pub to_string : Buf → Outcome (List ℕ)
unfolding string_from
to_string b = string_from b.rd b.wr b.pages

-- `empty()`
unfoldable pub empty : Buf → Outcome Bool
unfolding buf_length
empty b = buf_length b >>= λ n. ok (if n == 0 then false else true)

-- `shrink()`: destroy the pages in front of `_page_rd`; all of them, if it is not in the chain.
unfoldable pub behind : ℕ → PagePtr → PagePtr
behind r null = null
behind r (at w) = if leb r w then at (w - r) else freed
behind r freed = freed

unfoldable pub lost : PagePtr → PagePtr
lost null = null
lost (at k) = freed
lost freed = freed

unfoldable pub shrink_at : PagePtr → Buf → Buf
unfolding behind lost
shrink_at null b = record { pages = []; rd = null; wr = lost b.wr }
shrink_at (at r) b = record { pages = drop r b.pages; rd = at 0; wr = behind r b.wr }
shrink_at freed b = record { pages = []; rd = freed; wr = lost b.wr }

unfoldable pub shrink : Buf → Buf
unfolding shrink_at
shrink b = shrink_at b.rd b

-- `clear()`
unfoldable pub clear : Buf → Buf
clear b = record { pages = []; rd = null; wr = null }

-- `vbuf_page_t::reset()`
abbrev pub reset_page : Page → Page
reset_page p = record p { offset_rd = 0; offset_wr = 0 }

unfoldable pub reset_pages : List Page → List Page
reset_pages [] = []
reset_pages (p ∷ ps) = reset_page p ∷ reset_pages ps

abbrev pub first_page : List Page → PagePtr
first_page [] = null
first_page (_ ∷ _) = at 0

-- `reset()`
unfoldable pub reset : Buf → Buf
unfolding reset_pages
reset b = record { pages = reset_pages b.pages; rd = first_page b.pages; wr = first_page b.pages }

-- The loop of `read`: what has been read, the pages with their offsets moved, and by how many pages
-- `_page_rd` has gone on.
unfoldable pub read_pages : List Page → ℕ → Outcome (List ℕ × List Page × ℕ)
read_pages ps zero = ok ([], ps, 0)
read_pages [] (suc n) = fault assert_failed
read_pages (p ∷ ps) (suc n) =
    let rd = min (suc n) (rd_size p) in
    let p' : Page = record p { offset_rd = p.offset_rd + rd } in
    let more = read_pages ps (suc n - rd) in
    if suc n - rd == 0
    then ok (take rd (readable p), p' ∷ ps, 0)
    else (more >>= λ r. ok (take rd (readable p) ++ r.0, p' ∷ r.1, suc r.2))

unfoldable pub read_at : PagePtr → ℕ → Buf → Outcome (Buf × List ℕ)
unfolding read_pages
read_at null zero b = ok (b, [])
read_at null (suc n) b = fault assert_failed
read_at (at k) want b = read_pages (drop k b.pages) want >>= λ r.
    ok (record b { pages = replace_from k b.pages r.1; rd = at (k + r.2) }, r.0)
read_at freed zero b = ok (b, [])
read_at freed (suc n) b = fault dangling

-- `read(ptr, len)`: the new buffer, the returned number, and the bytes at `ptr`. The count that is
-- left over is 0 when the loop ends, and it is taken from `len`.
unfoldable pub read : Buf → ℕ → Outcome (Buf × ℕ × List ℕ)
unfolding buf_length read_at
read b len = buf_length b >>= λ cur. read_at b.rd (min cur len) b >>= λ r. ok (r.0, len - 0, r.1)

-- `readed()`
unfoldable pub readed_page : Page → Page
readed_page p = record p { offset_rd = p.offset_wr }

-- The page at position `k`, with those behind it.
unfoldable pub readed_here : ℕ → List Page → List Page → Outcome (List Page)
unfolding readed_page
readed_here k ps [] = fault null_deref
readed_here k ps (p ∷ qs) = ok (replace_from k ps (readed_page p ∷ qs))

unfoldable pub readed_at : PagePtr → List Page → Outcome (List Page)
unfolding readed_here
readed_at null ps = fault null_deref
readed_at freed ps = fault dangling
readed_at (at k) ps = readed_here k ps (drop k ps)

unfoldable pub readed : Buf → Outcome Buf
unfolding readed_at
readed b = readed_at b.wr b.pages >>= λ ps. ok (record b { pages = ps; rd = b.wr })

-- Where a walk by `next` from position `k` stands after `n` pages: null behind the last one.
abbrev pub ptr_after : ℕ → List Page → PagePtr
ptr_after k [] = null
ptr_after k (_ ∷ _) = at k

-- `rd_position(inc)`: the loop goes to the next page in each round, also when the page has bytes left.
unfoldable pub rd_position_pages : List Page → ℕ → ℕ → List Page × PagePtr × ℕ
rd_position_pages [] k pos = ([], null, pos)
rd_position_pages (p ∷ ps) k zero = (p ∷ ps, at k, 0)
rd_position_pages (p ∷ ps) k (suc n) =
    let mv = min (suc n) (rd_size p) in
    let r = rd_position_pages ps (suc k) (suc n - mv) in
    (record p { offset_rd = p.offset_rd + mv } ∷ r.0, r.1, r.2)

unfoldable pub rd_position_at : PagePtr → ℕ → Buf → Outcome (Buf × ℕ)
unfolding rd_position_pages
rd_position_at null inc b = ok (b, 0)
rd_position_at freed zero b = ok (b, 0)
rd_position_at freed (suc inc) b = fault dangling
rd_position_at (at k) inc b =
    let r = rd_position_pages (drop k b.pages) k inc in
    ok (record b { pages = replace_from k b.pages r.0; rd = r.1 }, inc - r.2)

unfoldable pub rd_position : Buf → ℕ → Outcome (Buf × ℕ)
unfolding rd_position_at
rd_position b inc = rd_position_at b.rd inc b

-- `vbuf_page_t(allocator)`
abbrev pub new_page : List ℕ → Page
new_page garbage = record { offset_rd = 0; offset_wr = 0; bytes = garbage }

-- `memcpy` of `s` to `wr_ptr()`, and the move of `offset_wr`
unfoldable pub fill : Page → List ℕ → Page
fill p s = record p {
  offset_wr = p.offset_wr + length s;
  bytes = take p.offset_wr p.bytes ++ (s ++ drop (p.offset_wr + length s) p.bytes);
}

module _ (page_size : ℕ) where
  -- `vbuf_page_t::wr_size()`
  abbrev pub page_wr_size : Page → ℕ
  page_wr_size p = page_size - p.offset_wr

  unfoldable pub wr_size_pages : List Page → ℕ
  wr_size_pages [] = 0
  wr_size_pages (p ∷ ps) = page_wr_size p + wr_size_pages ps

  -- `wr_size()`
  unfoldable pub wr_size : Buf → Outcome ℕ
  unfolding wr_size_pages
  wr_size b = from_ptr b.wr b.pages >>= λ ps. ok (wr_size_pages ps)

  -- The loop of `write`: the pages, and by how many of them `_page_wr` has gone on.
  unfoldable pub write_pages : List Page → List ℕ → Outcome (List Page × ℕ)
  unfolding fill
  write_pages ps [] = ok (ps, 0)
  write_pages [] (x ∷ s) = fault assert_failed
  write_pages (p ∷ ps) (x ∷ s) =
      let wr = min (length (x ∷ s)) (page_wr_size p) in
      let more = write_pages ps (drop wr (x ∷ s)) in
      if length (x ∷ s) - wr == 0
      then ok (fill p (take wr (x ∷ s)) ∷ ps, 0)
      else (more >>= λ r. ok (fill p (take wr (x ∷ s)) ∷ r.0, suc r.1))

  unfoldable pub write_at : PagePtr → List ℕ → Buf → Outcome Buf
  unfolding write_pages
  write_at null [] b = ok b
  write_at null (x ∷ s) b = fault assert_failed
  write_at freed [] b = ok b
  write_at freed (x ∷ s) b = fault dangling
  write_at (at k) s b = write_pages (drop k b.pages) s >>= λ r.
      ok (record b { pages = replace_from k b.pages r.0; wr = at (k + r.1) })

  -- `wr_position(inc)`, as `rd_position`
  unfoldable pub wr_position_pages : List Page → ℕ → ℕ → List Page × PagePtr × ℕ
  wr_position_pages [] k pos = ([], null, pos)
  wr_position_pages (p ∷ ps) k zero = (p ∷ ps, at k, 0)
  wr_position_pages (p ∷ ps) k (suc n) =
      let mv = min (suc n) (page_wr_size p) in
      let r = wr_position_pages ps (suc k) (suc n - mv) in
      (record p { offset_wr = p.offset_wr + mv } ∷ r.0, r.1, r.2)

  unfoldable pub wr_position_at : PagePtr → ℕ → Buf → Outcome (Buf × ℕ)
  unfolding wr_position_pages
  wr_position_at null inc b = ok (b, 0)
  wr_position_at freed zero b = ok (b, 0)
  wr_position_at freed (suc inc) b = fault dangling
  wr_position_at (at k) inc b =
      let r = wr_position_pages (drop k b.pages) k inc in
      ok (record b { pages = replace_from k b.pages r.0; wr = r.1 }, inc - r.2)

  unfoldable pub wr_position : Buf → ℕ → Outcome (Buf × ℕ)
  unfolding wr_position_at
  wr_position b inc = wr_position_at b.wr inc b

module _ (page_size : ℕ) (garbage : List ℕ) where
  -- The loop of `reserve`: pages are added until there is room. A round adds `page_size` bytes, so
  -- `sz` rounds are enough.
  unfoldable pub grow : ℕ → ℕ → ℕ → List Page → List Page
  grow zero cur sz ps = ps
  grow (suc fuel) cur sz ps =
      let more = grow fuel (cur + page_size) sz (ps ++ new_page garbage ∷ []) in
      if ltb cur sz then more else ps

  unfoldable pub first_reserve : Buf → Buf
  first_reserve b =
      if is_null b.wr || (is_null b.rd && no_pages b.pages)
      then record { pages = new_page garbage ∷ []; rd = at 0; wr = at 0 }
      else b

  -- `reserve(sz)`
  unfoldable pub reserve : Buf → ℕ → Outcome Buf
  unfolding shrink first_reserve wr_size grow
  reserve b sz =
      let b1 = first_reserve (shrink b) in
      wr_size page_size b1 >>= λ cur. ok (record b1 { pages = grow sz cur sz b1.pages })

  -- `write(ptr, len)`: the new buffer and the returned number
  unfoldable pub write : Buf → List ℕ → Outcome (Buf × ℕ)
  unfolding wr_size reserve write_at
  write b s = wr_size page_size b >>= λ cur.
      (if ltb cur (length s) then reserve b (length s) else ok b) >>= λ b1.
      write_at page_size b1.wr s b1 >>= λ b2. ok (b2, length s)

  -- `assign(ptr, len)`
  unfoldable pub assign : Buf → List ℕ → Outcome (Buf × ℕ)
  unfolding reset write
  assign b s = write (reset b) s
