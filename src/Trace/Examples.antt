-- ===== src/Trace/Examples.antt =====
-- Lines of the trace.
use boost_coro.Base.{
  ◌-◌, ◌==◌, ◌&&◌, ◌≡◌, leb, if◌then◌else◌, [], ◌∷◌, ◌++◌, length, take, ok, fault, out_of_bounds,
  Text, codes, arith,
}
use boost_coro.Trace.{heading, print, print_lem}

abbrev thread : Text
thread = codes "7f00"

abbrev function : Text
function = codes "yield"

abbrev said : Text
said = codes "[co:0x10] yield"

print_lem_example : print thread function said ≡ (
    let prefix = heading thread function in
    if leb (length prefix) 1022
    then ok (prefix ++ take (1021 - length prefix) said ++ b'\n' ∷ [])
    else if (length prefix == 1023) && (length said == 0)
    then ok (prefix ++ b'\n' ∷ [])
    else fault out_of_bounds)
print_lem_example = print_lem thread function said (ground arith) (ground arith) (ground arith)
