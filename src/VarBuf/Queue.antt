-- ===== src/VarBuf/Queue.antt =====
-- The buffer as a queue of bytes: what is written comes out in the same order.
use boost_coro.Base.{
  ℕ, ◌+◌, ◌<◌, ◌≡◌, ◌∙◌, ap, List, [], ◌++◌, length, take, drop, length-append, take_all, drop_all,
  ok, ◌>>=◌, arith,
}
use boost_coro.VarBuf.State.{Buf}
use boost_coro.VarBuf.Ops.{write, read}
use boost_coro.VarBuf.Contents.{IsBuf, contents}
use boost_coro.VarBuf.Contents.Write.{write_lem}
use boost_coro.VarBuf.Contents.Read.{read_lem}

-- First in, first out: for pages that have at least one byte of memory, two `write`s to a well-formed
-- buffer that holds nothing, and a `read` of as many bytes as they returned, give the bytes of the first
-- and then those of the second. The buffer is then well formed and holds nothing.
read-write :
    (page_size : ℕ) (garbage : List ℕ)
    → 0 < page_size
    → length garbage ≡ page_size
    → (b : Buf) (s t : List ℕ) → IsBuf page_size b
    → contents b ≡ []
    → (v : Buf) × IsBuf page_size v
      × (contents v ≡ [])
      × ((do
        (b1, n) ← write page_size garbage b s
        (b2, m) ← write page_size garbage b1 t
        read b2 (n + m))
          ≡ ok (v, length s + length t, s ++ t))
read-write page_size garbage positive memory b s t o nothing =
    let (b1, e1, o1, c1) = write_lem page_size garbage positive memory b s o in
    let (b2, e2, o2, c2) = write_lem page_size garbage positive memory b1 t o1 in
    let (v, e3, o3, c3) = read_lem page_size b2 (length s + length t) o2 in
    let held : contents b2 ≡ s ++ t = c2 ∙ ap (λ r. r ++ t) (c1 ∙ ap (λ r. r ++ s) nothing) in
    let count = length-append s t in
    (
      v,
      o3,
      c3
          ∙ ap (drop (length s + length t)) held
          ∙ drop_all (length s + length t) (s ++ t) (omega (arith, count)),
      rw (e1, e2, e3)
          (ap (λ r. ok (v, length s + length t, r))
            (ap (take (length s + length t)) held
              ∙ take_all (length s + length t) (s ++ t) (omega (arith, count)))),
    )
