-- ===== src/Message.antt =====
-- The messages of boost/coroutine/coroutine/message.h: flags, one value, and a buffer of bytes.
pub mod Appends
pub mod Examples
use boost_coro.Base.{
  ℕ, ◌+◌, ◌==◌, Bool, true, false, if◌then◌else◌, not, bit_and, bit_or, List, length, Outcome, ok,
  fault, assert_failed, ◌>>=◌,
}
use boost_coro.VarBuf.State.{Buf, empty_buf}
use boost_coro.VarBuf.Ops
use boost_coro.VarBuf.Ops.{assign, write}

abbrev pub msg_int : ℕ
msg_int = 0x01

abbrev pub msg_long : ℕ
msg_long = 0x02

abbrev pub msg_char : ℕ
msg_char = 0x04

abbrev pub msg_vbuf : ℕ
msg_vbuf = 0x08

abbrev pub msg_page_sz : ℕ
msg_page_sz = 128

-- The union `u`: the member that was written last, with its bits
pub data Value : Type 0 where
  unset : Value
  i l c : ℕ → Value

pub record Message : Type 0 where
  pub flag : ℕ
  pub value : Value
  pub vbuf : Buf

-- message_t()
unfoldable pub new : Message
new = record { flag = 0; value = unset; vbuf = empty_buf }

-- message_t(v), for an int, a long and a char
unfoldable pub new_int : ℕ → Message
unfolding new
new_int v = record new { flag = msg_int; value = i v }

unfoldable pub new_long : ℕ → Message
unfolding new
new_long v = record new { flag = msg_long; value = l v }

unfoldable pub new_char : ℕ → Message
unfolding new
new_char v = record new { flag = msg_char; value = c v }

-- `assert(!(flag & f)); flag |= f; value.… = v`
unfoldable pub append_value : ℕ → Value → Message → Outcome Message
append_value f v m =
    if bit_and m.flag f == 0
    then ok (record m { flag = bit_or m.flag f; value = v })
    else fault assert_failed

-- append(v), for an int, a long and a char
unfoldable pub append_int : ℕ → Message → Outcome Message
unfolding append_value
append_int v m = append_value msg_int (i v) m

unfoldable pub append_long : ℕ → Message → Outcome Message
unfolding append_value
append_long v m = append_value msg_long (l v) m

unfoldable pub append_char : ℕ → Message → Outcome Message
unfolding append_value
append_char v m = append_value msg_char (c v) m

-- The functions that write to the buffer, with the memory that a new page has
module _ (garbage : List ℕ) where
  -- message_t(s), for a string
  unfoldable pub new_string : List ℕ → Outcome Message
  unfolding assign
  new_string s = assign msg_page_sz garbage empty_buf s >>= λ r.
      ok (record { flag = msg_vbuf; value = unset; vbuf = r.0 })

  -- append(s, sz)
  unfoldable pub append_string : List ℕ → Message → Outcome Message
  unfolding write
  append_string s m = write msg_page_sz garbage m.vbuf s >>= λ r.
      ok (record m { flag = bit_or m.flag msg_vbuf; vbuf = r.0 })

-- ~message_t()
unfoldable pub destroy : Message → Message
unfolding Ops.clear
destroy m = record m { vbuf = Ops.clear m.vbuf }
