-- ===== src/Applets/Tlv/Examples.antt =====
-- Concrete elements of crates/aegis-applets/src/tlv.rs.
use aegis_token.Base.{◌≡◌, refl, inl, inr, some, List, [], ◌∷◌, zeros, arith}
use aegis_token.Applets.Tlv.{Tlv, find}
use aegis_token.Applets.Tlv.RoundTrip.{encodings, find-encodings}

abbrev objects : List Tlv
objects =
    record { tag = 0x5c; value = 1 ∷ 2 ∷ [] }
    ∷ record { tag = 0x7f49; value = zeros 3 }
    ∷ record { tag = 0x81; value = [] }
    ∷ []

find-encodings_example : find (encodings objects) 0x7f49 ≡ some (zeros 3)
find-encodings_example = find-encodings objects 0x7f49 (
  (inl (omega arith, λ e. absurd (omega arith)), omega arith),
  (
    (inr (inl (omega arith, omega arith, refl, omega arith)), omega arith),
    ((inl (omega arith, λ e. absurd (omega arith)), omega arith), tt),
  ),
)
