-- ===== src/VarBuf/Search/Examples.antt =====
-- Pages of four and six bytes.
use boost_coro.Base.{◌≡◌, refl, [], ◌∷◌, ok, fault, out_of_bounds, arith}
use boost_coro.VarBuf.State.{Page, Buf, at, null}
use boost_coro.VarBuf.Contents.{IsBuf, chain, contents, flat}
use boost_coro.VarBuf.Search.{find, read_by_endof_delimer, read_by_line}
use boost_coro.VarBuf.Search.Lines.{read_by_line_lem}
use boost_coro.VarBuf.Search.Overrun.{crlf, delimiter_overruns}

-- "ab", a newline and "c"
abbrev line_page : Page
line_page = record { offset_rd = 0; offset_wr = 4; bytes = 97 ∷ 98 ∷ 10 ∷ 99 ∷ 0 ∷ 0 ∷ [] }

line_page-IsBuf : IsBuf 6 (chain (line_page ∷ []) 0 0)
line_page-IsBuf = record {
  pages_ok = (record { order = omega arith; fits = omega arith; memory = refl }, tt);
  places = (omega arith, omega arith, tt);
}

find_here : find (10 ∷ []) (chain (line_page ∷ []) 0 0) ≡ ok (at 0)
unfolding find
find_here = refl

find_missing : find (100 ∷ []) (chain (line_page ∷ []) 0 0) ≡ ok null
unfolding find
find_missing = refl

read_by_line_lem_example :
    (v : Buf) × (read_by_line (chain (line_page ∷ []) 0 0) ≡ ok (v, 2, 97 ∷ 98 ∷ []))
    × IsBuf 6 v
    × (contents v ≡ 99 ∷ [])
unfolding flat
read_by_line_lem_example =
    read_by_line_lem 6 (line_page ∷ []) 0 0 line_page [] (97 ∷ 98 ∷ []) (99 ∷ []) line_page-IsBuf
      refl refl ((omega arith, omega arith), ((omega arith, omega arith), tt)) (omega arith)

-- "abcd" in a page of four bytes
abbrev full_page : Page
full_page = record { offset_rd = 0; offset_wr = 4; bytes = 97 ∷ 98 ∷ 99 ∷ 100 ∷ [] }

full_page_overruns : read_by_line (chain (full_page ∷ []) 0 0) ≡ fault out_of_bounds
unfolding read_by_line
full_page_overruns = refl

-- "a" and "\r" to read, and an old "\n" behind them
abbrev stale_page : Page
stale_page = record { offset_rd = 0; offset_wr = 2; bytes = 97 ∷ 13 ∷ 10 ∷ 5 ∷ [] }

stale_page-IsBuf : IsBuf 4 (chain (stale_page ∷ []) 0 0)
stale_page-IsBuf = record {
  pages_ok = (record { order = omega arith; fits = omega arith; memory = refl }, tt);
  places = (omega arith, omega arith, tt);
}

delimiter_overruns_example :
    (v : Buf) × (read_by_endof_delimer crlf (chain (stale_page ∷ []) 0 0) ≡ ok (v, 1, 97 ∷ []))
    × ¬ IsBuf 4 v
delimiter_overruns_example =
    delimiter_overruns 4 (stale_page ∷ []) 0 0 stale_page [] (97 ∷ []) (5 ∷ []) stale_page-IsBuf
      refl refl refl (omega arith) ((omega arith, omega arith), tt)
