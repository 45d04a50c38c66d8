-- ===== src/Applets/Router/Examples.antt =====
-- A concrete router of crates/aegis-applets/src/router.rs: two placeholders, and an applet that
-- counts its commands and answers with 600 bytes.
use aegis_token.Base.{ℕ, suc, ◌≡◌, false, some, Option, List, [], ◌∷◌, Bytes, replicate, arith}
use aegis_token.Applets.Apdu.{Apdu, Response, parse, ok_response, new_chainer}
use aegis_token.Applets.Router.{Applet, Router, placeholder, command}
use aegis_token.Applets.Router.Selection.{IsValid, InRange}
use aegis_token.Applets.Router.Dispatch.{command-keeps_selection}

abbrev pub counting : Applet ℕ
counting = record {
  aid = 0xd2 ∷ 0x76 ∷ [];
  select_with_rng = λ s. (ok_response [], s);
  process = λ apdu s. (ok_response (replicate 600 7), suc s);
  confirm_presence = λ s. (ok_response [], s);
  deny_presence = λ s. (ok_response [], s);
}

abbrev pub applets : List (Applet ℕ)
applets = placeholder (0xa0 ∷ 0x00 ∷ []) ∷ counting ∷ []

abbrev select_frame : Bytes
select_frame = 0x00 ∷ 0xa4 ∷ 0x04 ∷ 0x00 ∷ 0x03 ∷ 0xd2 ∷ 0x76 ∷ 0x01 ∷ []

abbrev command_of : ℕ → Bytes → Option ℕ → Apdu
command_of ins payload le = record {
  cla = 0;
  ins = ins;
  p1 = 4;
  p2 = 0;
  payload = payload;
  le = le;
  extended = false;
}

abbrev chosen : Router ℕ
chosen = record { selected = some 1; chain = new_chainer; applets_state = 0 }

chosen-IsValid : IsValid 2048 applets chosen
unfolding InRange
chosen-IsValid = record {
  in_range = omega arith;
  serving = record { within = omega arith; fits = omega arith };
}

-- A frame of three bytes is malformed.
command-keeps_selection_example :
    (response : Response) × (r' : Router ℕ) × (command 2048 applets (1 ∷ 2 ∷ 3 ∷ []) chosen
      ≡ some (response, r'))
    × (r'.selected ≡ some 1)
unfolding parse
command-keeps_selection_example =
    command-keeps_selection 2048 applets (1 ∷ 2 ∷ 3 ∷ []) chosen chosen-IsValid
      (λ apdu e. absurd cc)
