-- ===== src/Core/CtapHid/Examples.antt =====
-- Concrete packets and messages of crates/aegis-core/src/ctaphid.rs.
use aegis_token.Base.{◌≡◌, refl, ok, none, some, [], ◌∷◌, Bytes, zeros, replicate, arith}
use aegis_token.Core.CtapHid.{cbor, cont_packet, InProgress, accept}
use aegis_token.Core.CtapHid.Assembly.{IsValid, accept-IsValid}
use aegis_token.Core.CtapHid.Reassembly.{answers, packets, chunks, message, reassembles}

-- A message of three packets: 57, 59 and 4 bytes.
abbrev long_payload : Bytes
long_payload = replicate 120 7

abbrev in_flight : InProgress
in_flight = record {
  channel = 5;
  command = cbor;
  expected = 60;
  received = 2;
  next_sequence = 0;
  buffer = 1 ∷ 2 ∷ [];
}

abbrev nonce : Bytes
nonce = 1 ∷ 2 ∷ 3 ∷ 4 ∷ 5 ∷ 6 ∷ 7 ∷ 8 ∷ []

reassembles_example :
    answers none (packets 5 cbor long_payload)
    ≡ ok none ∷ ok none ∷ ok (some (message 5 cbor long_payload)) ∷ []
unfolding chunks
reassembles_example = reassembles 5 cbor none long_payload (omega arith)

accept-IsValid_example : IsValid (accept (some in_flight) (cont_packet 5 0 (zeros 59))).1
accept-IsValid_example = accept-IsValid (some in_flight) (cont_packet 5 0 (zeros 59)) (record {
  counted = refl;
  incomplete = omega arith;
  bounded = omega arith;
  numbered = omega arith;
})
