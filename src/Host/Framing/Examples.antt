-- ===== src/Host/Framing/Examples.antt =====
-- Concrete messages of crates/aegistoken-host/src/framing.rs.
use aegis_token.Base.{◌≡◌, some, List, [], ◌∷◌, Bytes, replicate, arith}
use aegis_token.Core.Management.{Assembler}
use aegis_token.Host.Framing.{encode}
use aegis_token.Host.Framing.Exchange.{receive, read_as_response, receive-encode}

-- A status and a body of 150 bytes: three reports.
abbrev long_payload : Bytes
long_payload = 0 ∷ replicate 150 7

-- What is left of another message.
abbrev interrupted : Assembler
interrupted = some (record {
  command = 0x82;
  expected = 100;
  received = 2;
  next_sequence = 0;
  buffer = 1 ∷ 2 ∷ [];
})

receive-encode_example :
    (sent : List Bytes) × (encode 0x81 long_payload ≡ some sent)
    × (receive interrupted sent ≡ (read_as_response 0x81 long_payload, []))
receive-encode_example = receive-encode interrupted 0x81 long_payload (omega arith)
