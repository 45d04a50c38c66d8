-- ===== src/Applets/Ccid/Examples.antt =====
-- Concrete frames of crates/aegis-applets/src/ccid.rs.
use aegis_token.Base.{◌≡◌, refl, ◌++◌, [], ◌∷◌, Bytes, take, drop, arith}
use aegis_token.Applets.Ccid.Stream.{concat, deliver, stream_delivers}

-- PC_to_RDR_IccPowerOn, and an XfrBlock with two bytes of data.
abbrev power_on : Bytes
power_on = 0x62 ∷ 0 ∷ 0 ∷ 0 ∷ 0 ∷ 0 ∷ 1 ∷ 0 ∷ 0 ∷ 0 ∷ []

abbrev xfr : Bytes
xfr = 0x6f ∷ 2 ∷ 0 ∷ 0 ∷ 0 ∷ 0 ∷ 2 ∷ 0 ∷ 0 ∷ 0 ∷ 0xaa ∷ 0xbb ∷ []

-- The two frames, in packets of nine bytes and less.
stream_delivers_example :
    deliver 40 [] (take 9 power_on ∷ (drop 9 power_on ++ take 8 xfr) ∷ drop 8 xfr ∷ [])
    ≡ power_on ∷ xfr ∷ []
unfolding concat
stream_delivers_example =
    stream_delivers 40 9 (power_on ∷ xfr ∷ [])
      (take 9 power_on ∷ (drop 9 power_on ++ take 8 xfr) ∷ drop 8 xfr ∷ [])
      (
        record { whole = refl; fits = omega arith },
        (record { whole = refl; fits = omega arith }, tt),
      )
      (omega arith, (omega arith, tt)) (omega arith, (omega arith, (omega arith, tt))) (omega arith)
      refl
