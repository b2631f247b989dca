-- ===== src/VarBuf/Examples.antt =====
-- Runs of the buffer on pages of four bytes, and the theorems at concrete buffers.
use boost_coro.Base.{ℕ, ◌≡◌, refl, List, [], ◌∷◌, ◌++◌, take, drop, ok, ◌>>=◌, arith}
use boost_coro.VarBuf.State.{Page, Buf}
use boost_coro.VarBuf.Ops.{to_string, write, read}
use boost_coro.VarBuf.Contents.{IsBuf, contents, chain, no_chain}
use boost_coro.VarBuf.Contents.Write.{write_lem}
use boost_coro.VarBuf.Contents.Read.{read_lem}

abbrev zeros : List ℕ
zeros = 0 ∷ 0 ∷ 0 ∷ 0 ∷ []

-- Two bytes of the first page have been read; the second one has room for one more.
abbrev first : Page
first = record { offset_rd = 2; offset_wr = 4; bytes = 1 ∷ 2 ∷ 3 ∷ 4 ∷ [] }

abbrev second : Page
second = record { offset_rd = 0; offset_wr = 3; bytes = 5 ∷ 6 ∷ 7 ∷ 8 ∷ [] }

abbrev two_pages : Buf
two_pages = chain (first ∷ second ∷ []) 0 1

two_pages-IsBuf : IsBuf 4 two_pages
two_pages-IsBuf = record {
  pages_ok = (
    record { order = omega arith; fits = omega arith; memory = refl },
    (record { order = omega arith; fits = omega arith; memory = refl }, tt),
  );
  places = (omega arith, omega arith, tt);
}

no_chain-IsBuf : IsBuf 4 no_chain
no_chain-IsBuf = record { pages_ok = tt; places = tt }

to_string-two_pages : to_string two_pages ≡ ok (3 ∷ 4 ∷ 5 ∷ 6 ∷ 7 ∷ [])
unfolding to_string
to_string-two_pages = refl

-- A `read` across the end of a page
read-two_pages : (read two_pages 3 >>= λ r. ok r.2) ≡ ok (3 ∷ 4 ∷ 5 ∷ [])
unfolding read
read-two_pages = refl

-- A `write` that needs a page, and the buffer after it
write-two_pages :
    (write 4 zeros two_pages (9 ∷ 10 ∷ []) >>= λ r. to_string r.0)
    ≡ ok (3 ∷ 4 ∷ 5 ∷ 6 ∷ 7 ∷ 9 ∷ 10 ∷ [])
unfolding write to_string
write-two_pages = refl

write_lem_example :
    (v : Buf) × (write 4 zeros two_pages (9 ∷ 10 ∷ []) ≡ ok (v, 2))
    × IsBuf 4 v
    × (contents v ≡ contents two_pages ++ 9 ∷ 10 ∷ [])
write_lem_example = write_lem 4 zeros (omega arith) refl two_pages (9 ∷ 10 ∷ []) two_pages-IsBuf

read_lem_example :
    (v : Buf) × (read two_pages 9 ≡ ok (v, 9, take 9 (contents two_pages)))
    × IsBuf 4 v
    × (contents v ≡ drop 9 (contents two_pages))
read_lem_example = read_lem 4 two_pages 9 two_pages-IsBuf
