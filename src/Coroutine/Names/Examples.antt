-- ===== src/Coroutine/Names/Examples.antt =====
-- Names that fit and names that do not.
use boost_coro.Base.{
  ◌+◌, ◌-◌, ◌≡◌, leb, if◌then◌else◌, ◌++◌, length, ◌>>=◌, ok, fault, out_of_bounds, Text, codes,
  zeros, arith,
}
use boost_coro.Coroutine.Names.{no_name, named, set_name, c_str, c_str-set_name}

-- An address as a system of 64 bits prints it
abbrev address : Text
address = codes "0x7f0012345678"

c_str-set_name_example : (set_name address (codes "reader") no_name >>= c_str address) ≡ (
    if leb (length address + length (codes "reader")) 25
    then ok (
      named address (codes "reader"),
      named address (codes "reader") ++ zeros (26 - (length address + length (codes "reader"))),
    )
    else fault out_of_bounds)
c_str-set_name_example =
    c_str-set_name address (codes "reader") no_name (ground arith) (ground arith)

-- Two bytes more than a name can have with such an address
long_name :
    (set_name address (codes "a long name.") no_name >>= c_str address) ≡ fault out_of_bounds
long_name = c_str-set_name address (codes "a long name.") no_name (ground arith) (ground arith)
