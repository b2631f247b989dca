-- ===== src/ByteQueue/Examples.antt =====
-- Calls on a buffer of pages of four bytes.
use boost_coro.Base.{ℕ, ◌≡◌, refl, List, [], ◌∷◌, ok, arith}
use boost_coro.VarBuf.State.{Buf}
use boost_coro.VarBuf.Contents.{IsBuf, contents, no_chain}
use boost_coro.ByteQueue.{
  Call, put, replace, get, room, peek, count, nothing, number, bytes, bytes_and, perform_all,
}
use boost_coro.ByteQueue.Pages.{pages_queue, pages_refine}

abbrev zeros : List ℕ
zeros = 0 ∷ 0 ∷ 0 ∷ 0 ∷ []

abbrev calls : List Call
calls =
    put (1 ∷ 2 ∷ 3 ∷ [])
    ∷ room 9
    ∷ put (4 ∷ 5 ∷ [])
    ∷ get 2
    ∷ count
    ∷ peek
    ∷ replace (6 ∷ [])
    ∷ get 8
    ∷ []

pages_refine_example :
    (v : Buf) × (perform_all (pages_queue 4 zeros (omega arith) refl) calls no_chain
      ≡ ok (
        number 3
            ∷ nothing
            ∷ number 2
            ∷ bytes_and (1 ∷ 2 ∷ []) 2
            ∷ number 3
            ∷ bytes (3 ∷ 4 ∷ 5 ∷ [])
            ∷ number 1
            ∷ bytes_and (6 ∷ []) 8
            ∷ [],
        v,
      ))
    × IsBuf 4 v
    × (contents v ≡ [])
pages_refine_example =
    pages_refine 4 zeros (omega arith) refl calls no_chain (record { pages_ok = tt; places = tt })
