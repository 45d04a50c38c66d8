-- ===== src/Applets/Card/Examples.antt =====
-- A concrete card of crates/aegis-applets/src/card.rs, over the applet below.
use aegis_token.Base.{
  ℕ, suc, ◌≡◌, refl, ◌++◌, true, false, some, none, Option, List, [], ◌∷◌, Bytes, zeros, arith,
}
use aegis_token.Applets.Apdu.Sw
use aegis_token.Applets.Apdu.{ok_response, status, new_chainer}
use aegis_token.Applets.Router.{Applet, Router}
use aegis_token.Applets.Router.Selection
use aegis_token.Applets.Card.{Card, new_card, feed, poll, complete_presence, handle_frame}
use aegis_token.Applets.Card.Room.{HoldsAnswer, Succeeds, handle_frame-Succeeds}
use aegis_token.Applets.Router.{command, route, forward, call, answer, applet_at}
use aegis_token.Applets.Apdu.{is_pending, parse}
use aegis_token.Applets.Card.Power.{Untouched, unpowered-Untouched}
use aegis_token.Applets.Card.Polling.{IsValid, started, fed, Reaches-IsValid}
use aegis_token.Applets.Card.Exchange.{
  Polled, poll_answers, Idles, here, Completed, waiting_holds, complete_answers,
}
use aegis_token.Applets.Card.Exchange

-- Every command needs presence; a confirmation answers with one byte.
abbrev signer : Applet ℕ
signer = record {
  aid = 0xa0 ∷ [];
  select_with_rng = λ s. (ok_response [], s);
  process = λ apdu s. (status Sw.presence_required, s);
  confirm_presence = λ s. (ok_response (s ∷ []), suc s);
  deny_presence = λ s. (status Sw.security_status_not_satisfied, s);
}

abbrev applets : List (Applet ℕ)
applets = signer ∷ []

-- PC_to_RDR_XfrBlock, sequence 2, with `00 CA 00 00`.
abbrev xfr : Bytes
xfr = 0x6f ∷ 4 ∷ 0 ∷ 0 ∷ 0 ∷ 0 ∷ 2 ∷ 0 ∷ 0 ∷ 0 ∷ 0x00 ∷ 0xca ∷ 0x00 ∷ 0x00 ∷ []

abbrev chosen : Router ℕ
chosen = record { selected = some 0; chain = new_chainer; applets_state = 3 }

abbrev card : Option ℕ → Card ℕ
card waits = record {
  assembler = xfr ++ 0x62 ∷ [];
  router = chosen;
  powered = true;
  pending_sequence = waits;
}

card-IsValid_here : (waits : Option ℕ) → IsValid 2048 applets (card waits)
unfolding Selection.InRange
card-IsValid_here waits = record {
  powered_right = record {
    routed = record {
      in_range = omega arith;
      serving = record { within = omega arith; fits = omega arith };
    };
    unpowered = λ e. absurd cc;
  };
  waiting = λ q e. refl;
}

poll_answers_example :
    Polled 2048 applets 2 (0x62 ∷ []) (poll 2048 applets 2100 (card none) (zeros 64))
poll_answers_example =
    poll_answers 2048 applets 2100 (card none) xfr (0x62 ∷ []) (zeros 64) (card-IsValid_here none)
      refl (record { whole = refl; fits = omega arith }) refl

unpowered-Untouched_example :
    Untouched 2048 applets chosen (handle_frame 2048 applets xfr chosen false (zeros 64))
unpowered-Untouched_example = unpowered-Untouched 2048 applets xfr chosen (zeros 64)

abbrev fed_card : Card ℕ
fed_card = (feed 2048 applets 2100 (new_card 3) xfr).1

Reaches-IsValid_example : IsValid 2048 applets fed_card
Reaches-IsValid_example =
    Reaches-IsValid 2048 applets 2100 fed_card (fed (new_card 3) xfr (started 3))

-- A packet comes while the command of sequence 2 waits.
abbrev fed_waiting : Card ℕ
fed_waiting = (feed 2048 applets 2100 (card (some 2)) (1 ∷ 2 ∷ [])).1

waiting_holds_example :
    (fed_waiting.router ≡ chosen)
    × (fed_waiting.powered ≡ true)
    × (fed_waiting.pending_sequence ≡ some 2)
waiting_holds_example =
    waiting_holds 2048 applets 2100 (card (some 2)) fed_waiting 2
      (Exchange.fed (card (some 2)) fed_waiting (1 ∷ 2 ∷ []) (here fed_waiting)) refl

complete_answers_example :
    Completed 2048 applets 2 (complete_presence 2048 applets true (card (some 2)) (zeros 64))
complete_answers_example =
    complete_answers 2048 applets true (card (some 2)) 2 (zeros 64) (card-IsValid_here (some 2))
      refl

handle_frame-Succeeds_example : Succeeds (handle_frame 2048 applets xfr chosen true (zeros 64))
unfolding HoldsAnswer command route forward call answer applet_at is_pending parse
handle_frame-Succeeds_example =
    handle_frame-Succeeds 2048 applets xfr chosen true (zeros 64) (omega arith) (λ e. omega arith)
