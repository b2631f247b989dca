-- ===== src/Message/Appends.antt =====
-- What a message holds after it is made and after more is appended.
use boost_coro.Base.{
  ℕ, ◌≡◌, refl, ◌∙◌, ap, bit_and, bit_or, List, ◌++◌, length, ok, ◌>>=◌, bit, bit_le, bit-bit_or,
  bit_and-two_pow, arith,
}
use boost_coro.VarBuf.State.{empty_buf}
use boost_coro.VarBuf.Contents.{IsBuf, contents}
use boost_coro.VarBuf.Contents.Write.{write_lem}
use boost_coro.VarBuf.Contents.Reset.{assign_lem}
use boost_coro.Message.{
  Message, Value, l, msg_int, msg_long, msg_vbuf, msg_page_sz, append_value, append_int,
  append_long, new_string, append_string,
}

-- The text of a message: a well-formed buffer, with the flag that says so.
pub record HasText (m : Message) (s : List ℕ) : Type 0 where
  pub good : IsBuf msg_page_sz m.vbuf
  pub text : contents m.vbuf ≡ s
  pub flagged : bit 3 m.flag ≡ 1

empty_buf-IsBuf : IsBuf msg_page_sz empty_buf
unfolding empty_buf
empty_buf-IsBuf = record { pages_ok = tt; places = tt }

flagged_or : (v : ℕ) → bit 3 (bit_or v msg_vbuf) ≡ 1
unfolding bit
flagged_or v = omega (arith, bit-bit_or 3 v 8, bit_le 3 v)

module _ (garbage : List ℕ) (memory : length garbage ≡ msg_page_sz) where
  -- A message made of a string `s`, to which a string `t` is appended, has the text `s` and then `t`, and
  -- its flag MSG_VBUF is set, for pages that have MSG_PAGE_SZ bytes of memory.
  pub append_string-new_string :
      (s t : List ℕ)
      → (m : Message) × ((new_string garbage s >>= append_string garbage t) ≡ ok m)
        × HasText m (s ++ t)
  unfolding new_string append_string
  append_string-new_string s t =
      let (v, e, good, holds) =
        assign_lem msg_page_sz garbage (omega arith) memory empty_buf s empty_buf-IsBuf in
      let (u, f, good2, holds2) = write_lem msg_page_sz garbage (omega arith) memory v t good in
      (
        record { flag = bit_or msg_vbuf msg_vbuf; value = Value.unset; vbuf = u },
        rw e (rw f),
        record {
          good = good2;
          text = holds2 ∙ ap (λ r. r ++ t) holds;
          flagged = flagged_or msg_vbuf;
        },
      )

bit_1_of_2 : bit 1 2 ≡ 1
unfolding bit
bit_1_of_2 = refl

still_free : (v : ℕ) → bit_and v msg_long ≡ 0 → bit_and (bit_or v msg_int) msg_long ≡ 0
unfolding bit
still_free v e =
    let other : bit 1 1 ≡ 0 = refl in
    omega (arith, bit_and-two_pow 1 v, bit_and-two_pow 1 (bit_or v 1), bit-bit_or 1 v 1, other)

both_set : (v : ℕ) → bit 0 (bit_or (bit_or v msg_int) msg_long) ≡ 1
unfolding bit
both_set v =
    let here : bit 0 1 ≡ 1 = refl in
    omega (arith, bit-bit_or 0 (bit_or v 1) 2, bit-bit_or 0 v 1, bit_le 0 v, bit_le 0 2, here)

-- An int and then a long appended to a message without either leave both flags set, but the long only:
-- the two share the union.
pub append_long-append_int :
    (m : Message) (v w : ℕ)
    → bit_and m.flag msg_int ≡ 0
    → bit_and m.flag msg_long ≡ 0
    → (u : Message) × ((append_int v m >>= append_long w) ≡ ok u)
      × (bit 0 u.flag ≡ 1)
      × (bit 1 u.flag ≡ 1)
      × (u.value ≡ l w)
unfolding append_int append_long append_value
append_long-append_int m v w no_int no_long =
    let flag = bit_or m.flag msg_int in
    let free : bit_and flag msg_long ≡ 0 = still_free m.flag no_long in
    (
      record m { flag = bit_or flag msg_long; value = l w },
      rw no_int (rw free),
      both_set m.flag,
      omega (arith, bit-bit_or 1 flag 2, bit_le 1 flag, bit_1_of_2),
      refl,
    )
