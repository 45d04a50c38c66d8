-- ===== src/Applets/Card.antt =====
-- crates/aegis-applets/src/card.rs: the card, a CCID assembler in front of an applet router. An
-- operation is `none` where the router's is, which Applets/Router/Selection.antt excludes.
pub mod Reply
pub mod Room
pub mod Power
pub mod Polling
pub mod Exchange
mod Examples
use aegis_token.Base.{
  ℕ, ◌+◌, Bool, true, false, not, ◌==◌, ltb, if◌then◌else◌, Result, ok, err, Option, none, some,
  and_then, is_some, List, [], ◌∷◌, ◌++◌, Bytes, length, take, drop, at,
}
use aegis_token.Applets.Apdu.Sw
use aegis_token.Applets.Apdu.{Response as ApduResponse, encode_into as encode_apdu}
use aegis_token.Applets.Ccid.{
  CcidError, overflow, Request, parse_request, request_sequence, request_slot, Response,
  encode_into, write_data_block_header, header_len, icc_power_on, icc_power_off, get_slot_status,
  set_parameters, get_parameters, reset_parameters, set_data_rate_and_clock, xfr_block, escape,
  abort, data_block, data_block_failed, slot_status, slot_status_failed, data_rate_and_clock,
  parameters, parameters_failed, icc_status_active, icc_status_inactive, protocol_t0, t0_parameters,
  pending, consume,
}
use aegis_token.Applets.Ccid.{feed as assembler_feed}
use aegis_token.Applets.Router.{
  Applet, Router, new_router, reset as router_reset, command, confirm_presence, deny_presence,
}

abbrev pub atr : Bytes
atr = 0x3b ∷ 0x00 ∷ []

pub data Outcome : Type 0 where
  response : ℕ → Outcome
  presence_required : Outcome

pub data FrameOutcome : Type 0 where
  encoded : ℕ → FrameOutcome
  presence_required : ℕ → FrameOutcome

pub record Card (S : Type 0) : Type 0 where
  pub assembler : Bytes
  pub router : Router S
  pub powered : Bool
  pub pending_sequence : Option ℕ

abbrev pub new_card : {S : Type 0} → S → Card S
new_card s = record {
  assembler = [];
  router = new_router s;
  powered = false;
  pending_sequence = none;
}

abbrev pub reset : {S : Type 0} → Card S → Card S
reset c = record c {
  assembler = [];
  router = router_reset c.router;
  powered = false;
  pending_sequence = none;
}

-- What `handle_frame` returns, and what it leaves behind its `&mut` arguments.
pub record Handled (S : Type 0) : Type 0 where
  pub result : Result CcidError FrameOutcome
  pub router : Router S
  pub powered : Bool
  pub out : Bytes

-- `response.encode_into(out)`: the length, and the buffer after it.
pub written : Result CcidError (ℕ × Bytes) → Bytes → Result CcidError ℕ × Bytes
written (err e) out = (err e, out)
written (ok (len, out')) out = (ok len, out')

pub encode : Response → Bytes → Result CcidError ℕ × Bytes
encode r out = written (encode_into r out) out

-- The header in front of a payload that `encode_data_block` has written.
pub with_header : ℕ → Option (ℕ × Bytes) → Bytes → Result CcidError ℕ × Bytes
with_header sequence none out = (err overflow, out)
with_header sequence (some (len, tail)) out =
    let out' = take header_len out ++ tail in
    elim (write_data_block_header sequence len out') [
      | err e ↦ (err e, out')
      | ok out'' ↦ (ok (header_len + len), out'')
    ]

pub encode_data_block : ℕ → ApduResponse → Bytes → Result CcidError ℕ × Bytes
encode_data_block sequence r out =
    if ltb (length out) header_len
    then (err overflow, out)
    else with_header sequence (encode_apdu r (drop header_len out)) out

-- `Ok(FrameOutcome::Encoded(encoded?))`
pub encoded_result : Result CcidError ℕ → Result CcidError FrameOutcome
encoded_result (err e) = err e
encoded_result (ok len) = ok (encoded len)

abbrev slot_state : Bool → ℕ
slot_state powered = if powered then icc_status_active else icc_status_inactive

module _ {S : Type 0} where
  -- A response encoded over the router and the power state as they are.
  pub replied : Router S → Bool → Result CcidError ℕ × Bytes → Handled S
  replied router powered (result, out) = record {
    result = encoded_result result;
    router = router;
    powered = powered;
    out = out;
  }

  pub with_response : Response → Router S → Bool → Bytes → Handled S
  with_response r router powered out = replied router powered (encode r out)

  -- An APDU's response: the marker suspends the command, all else is encoded.
  pub xfr_response : ℕ → Bytes → ApduResponse × Router S → Handled S
  xfr_response sequence out (r, router) =
      if r.sw == Sw.presence_required
      then record {
        result = ok (FrameOutcome.presence_required sequence);
        router = router;
        powered = true;
        out = out;
      }
      else replied router true (encode_data_block sequence r out)

module _ {S : Type 0} (capacity : ℕ) (applets : List (Applet S)) where
  -- The `match request`.
  pub handle_request : Request → Router S → Bool → Bytes → Option (Handled S)
  handle_request (icc_power_on slot sequence p) router powered out =
      some (with_response (data_block sequence atr) (router_reset router) true out)
  handle_request (icc_power_off slot sequence) router powered out =
      some
        (with_response (slot_status sequence icc_status_inactive) (router_reset router) false out)
  handle_request (get_slot_status slot sequence) router powered out =
      some (with_response (slot_status sequence (slot_state powered)) router powered out)
  handle_request (set_parameters slot sequence protocol payload) router powered out = some (
      with_response
        (if protocol == protocol_t0
          then parameters sequence protocol_t0 payload
          else parameters_failed sequence)
        router powered out)
  handle_request (get_parameters slot sequence) router powered out =
      some (with_response (parameters sequence protocol_t0 t0_parameters) router powered out)
  handle_request (reset_parameters slot sequence) router powered out =
      some (with_response (parameters sequence protocol_t0 t0_parameters) router powered out)
  handle_request (set_data_rate_and_clock slot sequence payload) router powered out =
      some (with_response (data_rate_and_clock sequence payload) router powered out)
  handle_request (xfr_block slot sequence bwi level payload) router false out =
      some (with_response (data_block_failed sequence) router false out)
  handle_request (xfr_block slot sequence bwi level payload) router true out =
      and_then (command capacity applets payload router)
        (λ answer. some (xfr_response sequence out answer))
  handle_request (escape slot sequence payload) router powered out =
      some (with_response (data_block_failed sequence) router powered out)
  handle_request (abort slot sequence) router powered out =
      some (
        with_response (slot_status sequence (slot_state powered)) (router_reset router) powered out)

  -- `handle_frame`, the request parsed.
  pub handle_parsed :
      Bytes → Result CcidError Request → Router S → Bool → Bytes → Option (Handled S)
  handle_parsed frame (err e) router powered out =
      some (with_response (slot_status_failed (at frame 6)) router powered out)
  handle_parsed frame (ok request) router powered out =
      if not (request_slot request == 0)
      then some (with_response (slot_status_failed (request_sequence request)) router powered out)
      else handle_request request router powered out

  pub handle_frame : Bytes → Router S → Bool → Bytes → Option (Handled S)
  handle_frame frame router powered out =
      handle_parsed frame (parse_request frame) router powered out

  pub feed : ℕ → Card S → Bytes → Result CcidError (Unit {0}) × Card S
  feed message c chunk =
      let (result, assembler) = assembler_feed message c.assembler chunk in
      (result, record c { assembler = assembler })

  -- The `match result?` of `poll`; `card` is the card with the sequence number that waits.
  pub match_result :
      Result CcidError FrameOutcome
      → (Option ℕ → Card S)
      → Option ℕ
      → Bytes
      → Result CcidError (Option Outcome) × Card S × Bytes
  match_result (err e) card waits out = (err e, card waits, out)
  match_result (ok (encoded len)) card waits out = (ok (some (response len)), card waits, out)
  match_result (ok (FrameOutcome.presence_required sequence)) card waits out =
      (ok (some Outcome.presence_required), card (some sequence), out)

  -- The end of `poll`, the frame handled and consumed.
  pub polled : Bytes → Option ℕ → Handled S → Result CcidError (Option Outcome) × Card S × Bytes
  polled assembler waits h =
      match_result h.result
        (λ sequence. record {
          assembler = assembler;
          router = h.router;
          powered = h.powered;
          pending_sequence = sequence;
        })
        waits h.out

  -- `poll`, what is buffered known.
  pub poll_pending :
      Result CcidError (Option Bytes)
      → Card S
      → Bytes
      → Option (Result CcidError (Option Outcome) × Card S × Bytes)
  poll_pending (err e) c out = some (err e, c, out)
  poll_pending (ok none) c out = some (ok none, c, out)
  poll_pending (ok (some frame)) c out =
      and_then (handle_frame frame c.router c.powered out)
        (λ h. some (polled (consume c.assembler (length frame)) c.pending_sequence h))

  -- `poll`, whether an operation waits known.
  pub poll_unless :
      Option ℕ → ℕ → Card S → Bytes → Option (Result CcidError (Option Outcome) × Card S × Bytes)
  poll_unless (some sequence) message c out = some (ok none, c, out)
  poll_unless none message c out = poll_pending (pending message c.assembler) c out

  pub poll : ℕ → Card S → Bytes → Option (Result CcidError (Option Outcome) × Card S × Bytes)
  poll message c out = poll_unless c.pending_sequence message c out

  -- `encode_data_block(…).map(Some)`
  pub completed :
      Card S → (Result CcidError ℕ × Bytes) → Result CcidError (Option ℕ) × Card S × Bytes
  completed c (err e, out) = (err e, c, out)
  completed c (ok len, out) = (ok (some len), c, out)

  -- `complete_presence`, the sequence taken.
  pub complete_sequence :
      Option ℕ → Bool → Card S → Bytes → Option (Result CcidError (Option ℕ) × Card S × Bytes)
  complete_sequence none confirmed c out = some (ok none, c, out)
  complete_sequence (some sequence) confirmed c out =
      let answered =
        if confirmed
        then confirm_presence capacity applets c.router
        else deny_presence capacity applets c.router in
      and_then answered (λ (r, router). some (
        completed (record c { router = router; pending_sequence = none })
          (encode_data_block sequence r out)))

  pub complete_presence :
      Bool → Card S → Bytes → Option (Result CcidError (Option ℕ) × Card S × Bytes)
  complete_presence confirmed c out = complete_sequence c.pending_sequence confirmed c out
