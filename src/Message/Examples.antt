-- ===== src/Message/Examples.antt =====
-- Messages with a text and with two values.
use boost_coro.Base.{ℕ, zero, suc, ◌≡◌, refl, List, [], ◌∷◌, ok, ◌>>=◌}
use boost_coro.Message.{Message, new_string, append_string}
use boost_coro.Message.Appends.{HasText, append_string-new_string}

abbrev repeat : ℕ → ℕ → List ℕ
repeat zero x = []
repeat (suc n) x = x ∷ repeat n x

abbrev page : List ℕ
page = repeat 128 0

append_string-new_string_example :
    (m : Message) × ((new_string page (104 ∷ 105 ∷ []) >>= append_string page (33 ∷ [])) ≡ ok m)
    × HasText m (104 ∷ 105 ∷ 33 ∷ [])
append_string-new_string_example = append_string-new_string page refl (104 ∷ 105 ∷ []) (33 ∷ [])
