-- ===== src/ByteQueue/Pages.antt =====
-- `var_buf_t` as a queue of bytes.
use boost_coro.Base.{ℕ, ◌<◌, ◌≡◌, refl, List, length, Outcome, ok, ◌>>=◌}
use boost_coro.VarBuf.State.{Buf}
use boost_coro.VarBuf.Ops.{write, read, assign, reserve, to_string, buf_length}
use boost_coro.VarBuf.Contents.{IsBuf, contents}
use boost_coro.VarBuf.Contents.Write.{write_lem}
use boost_coro.VarBuf.Contents.Read.{read_lem, to_string-contents, length-contents}
use boost_coro.VarBuf.Contents.Reserve.{reserve_lem}
use boost_coro.VarBuf.Contents.Reset.{assign_lem}
use boost_coro.ByteQueue.{
  Call, put, replace, get, room, peek, count, Answer, nothing, number, bytes, bytes_and, expected,
  expected_all, ByteQueue, perform_all, perform_all-expected_all,
}

module _ (page_size : ℕ) (garbage : List ℕ) where
  -- The member function that a call is, with all that it returns
  unfoldable pub perform_pages : Call → Buf → Outcome (Answer × Buf)
  perform_pages (put s) b = write page_size garbage b s >>= λ r. ok (number r.1, r.0)
  perform_pages (replace s) b = assign page_size garbage b s >>= λ r. ok (number r.1, r.0)
  perform_pages (get n) b = read b n >>= λ r. ok (bytes_and r.2 r.1, r.0)
  perform_pages (room n) b = reserve page_size garbage b n >>= λ v. ok (nothing, v)
  perform_pages peek b = to_string b >>= λ s. ok (bytes s, b)
  perform_pages count b = buf_length b >>= λ n. ok (number n, b)

  module _ (positive : 0 < page_size) (memory : length garbage ≡ page_size) where
    pub perform_pages_lem :
        (c : Call) (b : Buf)
        → IsBuf page_size b
        → (v : Buf) × (perform_pages c b ≡ ok ((expected c (contents b)).0, v))
          × IsBuf page_size v
          × (contents v ≡ (expected c (contents b)).1)
    unfolding perform_pages
    perform_pages_lem (put s) b o =
        let (v, e, good, c) = write_lem page_size garbage positive memory b s o in
        (v, rw e, good, c)
    perform_pages_lem (replace s) b o =
        let (v, e, good, c) = assign_lem page_size garbage positive memory b s o in
        (v, rw e, good, c)
    perform_pages_lem (get n) b o =
        let (v, e, good, c) = read_lem page_size b n o in (v, rw e, good, c)
    perform_pages_lem (room n) b o =
        let (v, _, e, good, c, _, _) = reserve_lem page_size garbage positive memory b n o in
        (v, rw e, good, c)
    perform_pages_lem peek b o = (b, rw (to_string-contents page_size b o), o, refl)
    perform_pages_lem count b o = (b, rw (length-contents page_size b o), o, refl)

    unfoldable pub pages_queue : ByteQueue Buf
    pages_queue = record {
      perform = perform_pages;
      Good = IsBuf page_size;
      held = contents;
      perform_lem = perform_pages_lem;
    }

    -- For pages that have at least one byte of memory, any number of calls of `write`, `assign`, `read`,
    -- `reserve`, `to_string` and `length` on a well-formed buffer returns, answers what it does for
    -- the plain list of the bytes that the buffer holds, and leaves a well-formed buffer of the bytes
    -- that are left of that list. There, `read` of `n` bytes takes the first `n` that there are, and
    -- returns `n` also when there are fewer.
    pub pages_refine :
        (cs : List Call) (b : Buf)
        → IsBuf page_size b
        → (v : Buf) × (perform_all pages_queue cs b ≡ ok ((expected_all cs (contents b)).0, v))
          × IsBuf page_size v
          × (contents v ≡ (expected_all cs (contents b)).1)
    unfolding pages_queue
    pages_refine cs b o = perform_all-expected_all pages_queue cs b o
