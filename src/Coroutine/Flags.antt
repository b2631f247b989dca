-- ===== src/Coroutine/Flags.antt =====
-- The flag words `_evet` and `_msg`: `event_set` and the rest, and their `msg_` twins.
pub mod Frame
pub mod Chain
use boost_coro.Base.{
  ℕ, zero, suc, ◌-◌, ◌==◌, Bool, not, ◌&&◌, if◌then◌else◌, Option, none, some, bit_and, bit_or,
  Outcome, ok, fault, deep_recursion, ◌>>=◌,
}
use boost_coro.Coroutine.State.{
  Address, Channel, evet, msg, evet_wait, evet_chld, Coroutine, World, deref, modify,
}

abbrev pub word : Channel → Coroutine → ℕ
word evet c = c.evet
word msg c = c.msg

abbrev pub set_word : Channel → ℕ → Coroutine → Coroutine
set_word evet v c = record c { evet = v }
set_word msg v c = record c { msg = v }

-- `word & ~flags`, on the 16 bits of a `stat_t`
unfoldable pub clear : ℕ → ℕ → ℕ
clear v flags = bit_and v (0xffff - flags)

-- `event_chk`, `msg_chk`
unfoldable pub chk : ℕ → ℕ → Bool
chk v flags = not (bit_and v flags == 0)

-- Notify the parent, if there is one, by `add`, unless the flags are WAIT itself.
unfoldable pub notify :
    (Address → World → Outcome World) → Option Address → ℕ → World → Outcome World
notify add none flags w = ok w
notify add (some p) flags w = if flags == evet_wait then ok w else add p w

-- `event_add`, `msg_add`. They call themselves on the parent, at most as deep as the fuel.
unfoldable pub flag_add : ℕ → Channel → Address → ℕ → World → Outcome World
flag_add zero ch i flags w = fault deep_recursion
flag_add (suc fuel) ch i flags w =
    modify i (λ c. set_word ch (bit_or (word ch c) flags) c) w >>= λ w'.
    deref i w' >>= λ c. notify (λ p. flag_add fuel ch p evet_chld) c.parent flags w'

-- `event_set`, `msg_set`
unfoldable pub flag_set : Channel → Address → ℕ → World → Outcome World
unfolding flag_add
flag_set ch i flags w =
    modify i (λ c. set_word ch (bit_or (clear (word ch c) evet_wait) flags) c) w >>= λ w'.
    deref i w' >>= λ c. notify (λ p. flag_add w.created ch p evet_chld) c.parent flags w'

-- The mask by which the two deletions look for a flag that is there.
abbrev pub del_mask : Channel → ℕ → ℕ
del_mask evet flags = flags
del_mask msg flags = evet_wait

-- `event_del`, `msg_del`. The parent hears of it before the flags go.
unfoldable pub flag_del : Channel → Address → ℕ → World → Outcome World
unfolding flag_add
flag_del ch i flags w = do
  c ← deref i w
  w' ←
      if chk (word ch c) (del_mask ch flags) && flags == evet_wait
      then notify (λ p. flag_add w.created ch p evet_chld) c.parent evet_chld w
      else ok w
  modify i (λ c. set_word ch (clear (word ch c) flags) c) w'
