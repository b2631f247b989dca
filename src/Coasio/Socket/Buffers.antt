-- ===== src/Coasio/Socket/Buffers.antt =====
-- `send_vbuf` and `recv_vbuf`: the sockets over the pages of a `var_buf_t`.
use boost_coro.Base.{
  ℕ, zero, suc, ◌+◌, ◌-◌, ◌^◌, ◌≤◌, ◌<◌, ltb, ◌≡◌, refl, ap, true, false, if◌then◌else◌, List, [],
  ◌∷◌, ◌++◌, length, take, drop, Outcome, ok, fault, null_deref, ◌>>=◌, Ensures, ℤ, pos, negsuc,
  arith,
}
use boost_coro.VarBuf.State.{Page, PagePtr, null, at, freed, Buf, empty_buf, replace_from}
use boost_coro.VarBuf.Ops.{page_wr_size, new_page, grow, reserve, wr_position, buf_length}
use boost_coro.VarBuf.Contents.{IsBuf, contents, chain}
use boost_coro.VarBuf.Position.{wr_position_last}
use boost_coro.VarBuf.Views.{Iovec, rd_iovec, wr_iovec, wr_entries, bytes_of, rd_iovec-contents}
use boost_coro.Coasio.Socket.{System, sendv, recvv}
use boost_coro.Coasio.Socket.Retry.{Answers}
use boost_coro.Coasio.Socket.Transfer.{transfers_Answer}

-- An ssize_t as a size_t, of 64 bits
abbrev pub to_size : ℤ → ℕ
to_size (pos n) = n
to_size (negsuc n) = 2 ^ 64 - 1 - n

module _ {State : Type 0} (sys : System State) where
  -- `send_vbuf(vbuf, timeout)`; the buffer stays as it is.
  unfoldable pub send_vbuf : ℕ → ℤ → Buf → ℤ → State → Outcome (ℤ × State)
  unfolding rd_iovec sendv
  send_vbuf fuel fd b timeout s = rd_iovec b >>= λ vec. sendv sys fuel fd vec timeout s

  -- `send_vbuf` of a well-formed buffer is a `sendv` of all the bytes that the buffer holds, in order, and
  -- where it returns, that is a number that is not negative, or an error, where errno is neither EINTR
  -- nor EAGAIN.
  pub send_vbuf-contents :
      (page_size fuel : ℕ) (fd : ℤ) (b : Buf) (timeout : ℤ) (s : State)
      → IsBuf page_size b
      → (vec : List Iovec) × (send_vbuf fuel fd b timeout s ≡ sendv sys fuel fd vec timeout s)
        × (bytes_of vec ≡ contents b)
        × Ensures (Answers sys) (send_vbuf fuel fd b timeout s)
  unfolding send_vbuf
  send_vbuf-contents page_size fuel fd b timeout s o =
      let (vec, e, all) = rd_iovec-contents page_size b o in
      (vec, rw e, all, rw e (transfers_Answer sys fuel 0 fd timeout [] vec s).4)

module _ (page_size : ℕ) where
  -- The pages after `readv` has put the bytes where the vector of `wr_iovec` points, a page at a time.
  unfoldable pub stored_pages : List Page → List ℕ → List Page
  stored_pages [] s = []
  stored_pages (p ∷ ps) s =
      let room = page_wr_size page_size p in
      let here = take room s in
      record p {
        bytes = take p.offset_wr p.bytes ++ (here ++ drop (p.offset_wr + length here) p.bytes);
      }
      ∷ stored_pages ps (drop room s)

  unfoldable pub stored_at : PagePtr → List ℕ → List Page → List Page
  unfolding stored_pages
  stored_at null s ps = ps
  stored_at (at k) s ps = replace_from k ps (stored_pages (drop k ps) s)
  stored_at freed s ps = ps

  -- `if(retcode > 0) vbuf.wr_position(retcode)`, where `retcode` is a size_t
  unfoldable pub advanced : ℤ → Buf → Outcome Buf
  unfolding wr_position
  advanced r b =
      if ltb 0 (to_size r) then (wr_position page_size b (to_size r) >>= λ q. ok q.0) else ok b

  module _ {State : Type 0} (sys : System State) where
    unfoldable pub kept : Buf → ℤ × State → Outcome (Buf × ℤ × State)
    unfolding stored_at advanced
    kept b (r, s) = advanced r (record b { pages = stored_at b.wr (sys.stored s) b.pages }) >>= λ v.
        ok (v, r, s)

    -- `recv_vbuf(vbuf, len, timeout)`, with the memory that a new page has
    unfoldable pub recv_vbuf : List ℕ → ℕ → ℤ → Buf → ℕ → ℤ → State → Outcome (Buf × ℤ × State)
    unfolding reserve wr_iovec recvv kept
    recv_vbuf garbage fuel fd b len timeout s = reserve page_size garbage b len >>= λ b1.
        wr_iovec page_size b1 >>= λ vec. recvv sys fuel fd vec timeout s >>= kept b1

  grow_enough :
      (garbage : List ℕ) (fuel cur sz : ℕ) (ps : List Page)
      → sz ≤ cur
      → grow page_size garbage fuel cur sz ps ≡ ps
  unfolding grow
  grow_enough garbage zero cur sz ps h = refl
  grow_enough garbage (suc fuel) cur sz ps h = let e : ltb cur sz ≡ false = ground arith in rw e

  first_page :
      (garbage : List ℕ) (len : ℕ)
      → len ≤ page_size
      → reserve page_size garbage empty_buf len ≡ ok (chain (new_page garbage ∷ []) 0 0)
  unfolding reserve empty_buf
  first_page garbage len fits =
      ap (λ ps. ok (chain ps 0 0))
        (grow_enough garbage len (page_size - 0 + 0) len (new_page garbage ∷ []) (omega arith))

  module _ {State : Type 0} (sys : System State) where
    -- When `recvv`, into the vector of the buffer's one page, returns what is not 0 as a size_t, be it
    -- a number of bytes or an error, `recv_vbuf` into a buffer without pages, of no more bytes than a
    -- page has, returns the same, but leaves the buffer so that `length()` dereferences a null pointer.
    pub recv_vbuf_breaks :
        (garbage : List ℕ) (fuel len : ℕ) (fd timeout r : ℤ) (s t : State)
        → len ≤ page_size
        → 0 < to_size r
        → recvv sys fuel fd (wr_entries page_size (new_page garbage ∷ [])) timeout s ≡ ok (r, t)
        → (v : Buf) × (recv_vbuf sys garbage fuel fd empty_buf len timeout s ≡ ok (v, r, t))
          × (buf_length v ≡ fault null_deref)
    unfolding recv_vbuf wr_iovec kept advanced
    recv_vbuf_breaks garbage fuel len fd timeout r s t fits some_bytes received =
        let ps = stored_at (at 0) (sys.stored t) (new_page garbage ∷ []) in
        let (v, n, moved, lost) = wr_position_last page_size ps 0 0 (to_size r) refl some_bytes in
        let more : ltb 0 (to_size r) ≡ true = ground arith in
        let finish : Outcome (Buf × ℕ) → Outcome (Buf × ℤ × State) =
          λ q. q >>= (λ x. ok x.0) >>= λ v. ok (v, r, t) in
        (v, rw (first_page garbage len fits, received, more) (ap finish moved), lost)
