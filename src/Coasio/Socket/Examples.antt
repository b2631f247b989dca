-- ===== src/Coasio/Socket/Examples.antt =====
-- Calls that are interrupted, would block, and then answer.
use boost_coro.Base.{
  ℕ, ◌≡◌, refl, inl, List, [], ◌∷◌, ok, fault, null_deref, Ensures, ℤ, pos, negsuc, arith,
}
use boost_coro.VarBuf.State.{Buf, empty_buf}
use boost_coro.VarBuf.Ops.{new_page, buf_length}
use boost_coro.VarBuf.Contents.{flat, chain, IsBuf}
use boost_coro.VarBuf.Views.{Iovec, bytes_of, wr_entries}
use boost_coro.Coasio.Script.{Script, scripted, script}
use boost_coro.Coasio.Socket.{eintr, eagain, read, write, send, recv, sendv, recvv}
use boost_coro.Coasio.Socket.Retry.{Answers, recv_returns}
use boost_coro.Coasio.Socket.Transfer.{transfers_Answer}
use boost_coro.Coasio.Socket.Buffers.{send_vbuf, recv_vbuf, send_vbuf-contents, recv_vbuf_breaks}

abbrev interrupted : ℤ × ℕ
interrupted = (negsuc 0, eintr)

abbrev would_block : ℤ × ℕ
would_block = (negsuc 0, eagain)

abbrev five_bytes : ℤ × ℕ
five_bytes = (pos 5, 0)

abbrev busy_line : Script
busy_line = script (interrupted ∷ would_block ∷ interrupted ∷ interrupted ∷ five_bytes ∷ [])

abbrev one_page : Buf
one_page = chain (record { offset_rd = 0; offset_wr = 2; bytes = 7 ∷ 8 ∷ 0 ∷ [] } ∷ []) 0 0

one_page-IsBuf : IsBuf 3 one_page
one_page-IsBuf = record {
  pages_ok = (record { order = omega arith; fits = omega arith; memory = refl }, tt);
  places = (omega arith, omega arith, tt);
}

recv_returns_example : recv scripted 4 (pos 3) 8 (pos 0) busy_line ≡ ok (pos 5, script [])
recv_returns_example =
    recv_returns scripted 1 2 4 8 (pos 3) (pos 0) busy_line
      (record {
        errno = eintr;
        entries = would_block ∷ interrupted ∷ interrupted ∷ five_bytes ∷ [];
      })
      (record { errno = eagain; entries = interrupted ∷ interrupted ∷ five_bytes ∷ [] })
      (record { errno = eintr; entries = five_bytes ∷ [] }) refl ((refl, refl), refl) (refl, refl)
      refl ((refl, refl), ((refl, refl), refl)) (inl refl) (omega arith)

transfers_Answer_example :
    Ensures (Answers scripted) (read scripted 4 (pos 3) 8 (pos 0) busy_line)
    × Ensures (Answers scripted) (write scripted 4 (pos 3) (1 ∷ []) (pos 0) busy_line)
    × Ensures (Answers scripted) (send scripted 4 (pos 3) (1 ∷ []) (pos 0) busy_line)
    × Ensures (Answers scripted) (recv scripted 4 (pos 3) 8 (pos 0) busy_line)
    × Ensures (Answers scripted) (sendv scripted 4 (pos 3) [] (pos 0) busy_line)
    × Ensures (Answers scripted) (recvv scripted 4 (pos 3) [] (pos 0) busy_line)
transfers_Answer_example = transfers_Answer scripted 4 8 (pos 3) (pos 0) (1 ∷ []) [] busy_line

send_vbuf-contents_example :
    (vec : List Iovec) × (send_vbuf scripted 4 (pos 3) one_page (pos 0) busy_line
      ≡ sendv scripted 4 (pos 3) vec (pos 0) busy_line)
    × (bytes_of vec ≡ 7 ∷ 8 ∷ [])
    × Ensures (Answers scripted) (send_vbuf scripted 4 (pos 3) one_page (pos 0) busy_line)
unfolding flat
send_vbuf-contents_example =
    send_vbuf-contents scripted 3 4 (pos 3) one_page (pos 0) busy_line one_page-IsBuf

received :
    recvv scripted 4 (pos 3) (wr_entries 8 (new_page [] ∷ [])) (pos 0) busy_line
    ≡ ok (pos 5, script [])
unfolding recvv
received = refl

recv_vbuf_breaks_example :
    (v : Buf) × (recv_vbuf 8 scripted [] 4 (pos 3) empty_buf 8 (pos 0) busy_line
      ≡ ok (v, pos 5, script []))
    × (buf_length v ≡ fault null_deref)
recv_vbuf_breaks_example =
    recv_vbuf_breaks 8 scripted [] 4 8 (pos 3) (pos 0) (pos 5) busy_line (script []) (omega arith)
      (omega arith) received
