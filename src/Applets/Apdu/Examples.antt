-- ===== src/Applets/Apdu/Examples.antt =====
-- Concrete commands and answers of crates/aegis-applets/src/apdu.rs.
use aegis_token.Base.{◌≡◌, ◌++◌, false, ok, some, [], ◌∷◌, Bytes, length, replicate, arith}
use aegis_token.Applets.Apdu.{Apdu, Chainer, parse, begin, new_chainer}
use aegis_token.Applets.Apdu.Codec.{encode, parse-encode}
use aegis_token.Applets.Apdu.Chaining.{drain, chained_whole}

abbrev verify_pin : Apdu
verify_pin = record {
  cla = 0x00;
  ins = 0x20;
  p1 = 0x00;
  p2 = 0x80;
  payload = 0x31 ∷ 0x32 ∷ 0x33 ∷ 0x34 ∷ [];
  le = some 256;
  extended = false;
}

-- An answer that two GET RESPONSEs follow.
abbrev long_answer : Bytes
long_answer = replicate 600 9

parse-encode_example : parse (encode verify_pin) ≡ ok verify_pin
parse-encode_example = parse-encode verify_pin (omega arith, omega arith, omega arith)

chained_whole_example :
    let (r, c') = begin 2048 new_chainer long_answer 0 in
    r.payload ++ drain (length long_answer) 256 c' ≡ long_answer
chained_whole_example = chained_whole 2048 new_chainer long_answer 0 256 (omega arith)

abbrev half_sent : Chainer
half_sent = record { pending = replicate 30 1; delivered = 10 }
