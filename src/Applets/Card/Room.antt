-- ===== src/Applets/Card/Room.antt =====
-- crates/aegis-applets/src/card.rs: how large an output buffer holds the reply to a frame.
use aegis_token.Base.{
  ℕ, ◌+◌, ◌≤◌, ◌≡◌, refl, Bool, true, false, Bool-cases, ◌==◌, ltb, Result, ok, err, Option, none,
  some, and_then, ◌>>=◌, List, ◌++◌, Bytes, length, drop, length-append, length-drop, arith, inl,
  inr, subst, sym, ap,
}
use aegis_token.Applets.Apdu.Sw
use aegis_token.Applets.Apdu.{Response as ApduResponse}
use aegis_token.Applets.Ccid.{
  CcidError, Header, Request, request_of, parse_header, parse_request, request_slot, Response,
  header_len, protocol_t0, icc_power_on, icc_power_off, get_slot_status, set_parameters,
  get_parameters, reset_parameters, set_data_rate_and_clock, xfr_block, escape, abort,
}
use aegis_token.Applets.Ccid.Frames.{encode_into-eq-append}
use aegis_token.Applets.Router.{Applet, Router, command}
use aegis_token.Applets.Card.{
  FrameOutcome, encoded, Handled, written, encode, encode_data_block, encoded_result, replied,
  with_response, xfr_response, handle_request, handle_parsed, handle_frame,
}
use aegis_token.Applets.Card.Reply.{with_header-eq-append, encode_apdu-eq-append}

-- What the payload of a parsed request is, where its reply depends on it.
abbrev IsRequestOf : Bytes → Request → Type 0
IsRequestOf body (set_parameters slot sequence protocol payload) = length payload ≤ 8
IsRequestOf body (set_data_rate_and_clock slot sequence payload) = length payload ≤ 8
IsRequestOf body (xfr_block slot sequence bwi level payload) = payload ≡ body
IsRequestOf body _ = Unit

abbrev IsParsed : Bytes → Result CcidError Request → Type 0
IsParsed body (err e) = Unit
IsParsed body (ok request) = IsRequestOf body request

request_of-IsParsed : (h : Header) (body : Bytes) → IsParsed body (request_of h body)
unfolding request_of
request_of-IsParsed h body = ground arith

bind-IsParsed :
    (m : Result CcidError Header) (body : Bytes) → IsParsed body (m >>= λ h. request_of h body)
bind-IsParsed (err e) body = tt
bind-IsParsed (ok h) body = request_of-IsParsed h body

-- A frame that is handled with an outcome, not with an error.
pub Succeeds : {S : Type 0} → Option (Handled S) → Type 0
Succeeds none = ⊥
Succeeds (some h) = (outcome : FrameOutcome) × (h.result ≡ ok outcome)

-- The buffer has room for the response of an APDU behind a header.
unfoldable pub HoldsAnswer : {S : Type 0} → Bytes → Option (ApduResponse × Router S) → Type 0
HoldsAnswer out none = ⊥
HoldsAnswer out (some (r, router)) = header_len + (length r.payload + 2) ≤ length out

with_response-Succeeds :
    {S : Type 0} (r : Response) (router : Router S) (powered : Bool) (out : Bytes)
    → length r.payload ≤ 8
    → header_len + 8 ≤ length out
    → Succeeds (some (with_response r router powered out))
unfolding Succeeds with_response replied encode written encoded_result
with_response-Succeeds r router powered out small room = (
  encoded (header_len + length r.payload),
  rw (encode_into-eq-append r out (omega arith), written, encoded_result) refl,
)

encode_data_block-fits :
    (sequence : ℕ) (r : ApduResponse) (out : Bytes)
    → header_len + (length r.payload + 2) ≤ length out
    → (len : ℕ) × ((encode_data_block sequence r out).0 ≡ ok len)
unfolding encode_data_block
encode_data_block-fits sequence r out room =
    let body = r.payload ++ Sw.bytes r.sw in
    let after = drop (length r.payload + 2) (drop header_len out) in
    let fits : ltb (length out) header_len ≡ false = ground arith in
    let sized : length r.payload + 2 ≡ length body =
      omega (arith, length-append r.payload (Sw.bytes r.sw)) in
    (
      header_len + length body,
      rw
          (
            fits,
            encode_apdu-eq-append r (drop header_len out)
                (omega (arith, length-drop header_len out)),
            sized,
          )
          (ap (λ (w : Result CcidError ℕ × Bytes). w.0)
            (with_header-eq-append sequence body _ out (omega arith))),
    )

encoded_ok :
    {S : Type 0} (router : Router S) (powered : Bool) (w : Result CcidError ℕ × Bytes) (len : ℕ)
    → w.0 ≡ ok len
    → Succeeds (some (replied router powered w))
unfolding Succeeds replied encoded_result
encoded_ok router powered (result, out) len e = (encoded len, rw (e, encoded_result) refl)

xfr_response-Succeeds :
    {S : Type 0} (sequence : ℕ) (out : Bytes) (answer : Option (ApduResponse × Router S))
    → HoldsAnswer out answer
    → Succeeds (and_then answer (λ a. some (xfr_response sequence out a)))
unfolding xfr_response HoldsAnswer
xfr_response-Succeeds sequence out none h = absurd h
xfr_response-Succeeds sequence out (some (r, router)) h =
    elim (Bool-cases (r.sw == Sw.presence_required)) [
      | inl e ↦ rw e (unfold Succeeds in (FrameOutcome.presence_required sequence, refl))
      | inr e ↦
          let (len, fits) = encode_data_block-fits sequence r out h in
          rw e (encoded_ok router true (encode_data_block sequence r out) len fits)
    ]

module _ {S : Type 0} (capacity : ℕ) (applets : List (Applet S)) (body : Bytes) where
  handle_request-Succeeds :
      (request : Request) (router : Router S) (powered : Bool) (out : Bytes)
      → IsRequestOf body request
      → header_len + 8 ≤ length out
      → (powered ≡ true → HoldsAnswer out (command capacity applets body router))
      → Succeeds (handle_request capacity applets request router powered out)
  unfolding handle_request
  handle_request-Succeeds (icc_power_on slot sequence p) router powered out q room holds =
      with_response-Succeeds _ _ _ _ (omega arith) room
  handle_request-Succeeds (icc_power_off slot sequence) router powered out q room holds =
      with_response-Succeeds _ _ _ _ (omega arith) room
  handle_request-Succeeds (get_slot_status slot sequence) router powered out q room holds =
      with_response-Succeeds _ _ _ _ (omega arith) room
  handle_request-Succeeds (set_parameters slot sequence protocol payload) router powered out q room
        holds =
      elim (Bool-cases (protocol == protocol_t0)) [
        | inl e ↦ rw e (with_response-Succeeds _ _ _ _ q room)
        | inr e ↦ rw e (with_response-Succeeds _ _ _ _ (omega arith) room)
      ]
  handle_request-Succeeds (get_parameters slot sequence) router powered out q room holds =
      with_response-Succeeds _ _ _ _ (omega arith) room
  handle_request-Succeeds (reset_parameters slot sequence) router powered out q room holds =
      with_response-Succeeds _ _ _ _ (omega arith) room
  handle_request-Succeeds (set_data_rate_and_clock slot sequence payload) router powered out q room
        holds =
      with_response-Succeeds _ _ _ _ q room
  handle_request-Succeeds (xfr_block slot sequence bwi level payload) router false out q room
        holds =
      with_response-Succeeds _ _ _ _ (omega arith) room
  handle_request-Succeeds (xfr_block slot sequence bwi level payload) router true out q room holds =
      xfr_response-Succeeds sequence out _
        (subst (λ p. HoldsAnswer out (command capacity applets p router)) (sym q) (holds refl))
  handle_request-Succeeds (escape slot sequence payload) router powered out q room holds =
      with_response-Succeeds _ _ _ _ (omega arith) room
  handle_request-Succeeds (abort slot sequence) router powered out q room holds =
      with_response-Succeeds _ _ _ _ (omega arith) room

  handle_parsed-Succeeds :
      (frame : Bytes) (parsed : Result CcidError Request) (router : Router S) (powered : Bool)
      (out : Bytes)
      → IsParsed body parsed
      → header_len + 8 ≤ length out
      → (powered ≡ true → HoldsAnswer out (command capacity applets body router))
      → Succeeds (handle_parsed capacity applets frame parsed router powered out)
  unfolding handle_parsed
  handle_parsed-Succeeds frame (err e) router powered out q room holds =
      with_response-Succeeds _ _ _ _ (omega arith) room
  handle_parsed-Succeeds frame (ok request) router powered out q room holds =
      elim (Bool-cases (request_slot request == 0)) [
        | inl e ↦ rw e (handle_request-Succeeds request router powered out q room holds)
        | inr e ↦ rw e (with_response-Succeeds _ _ _ _ (omega arith) room)
      ]

-- Every frame is answered, or waits for presence, without an error, where the output buffer has
-- 18 bytes and, under power, room for what the router answers to the frame's payload as an APDU.
pub handle_frame-Succeeds :
    {S : Type 0} (capacity : ℕ) (applets : List (Applet S)) (frame : Bytes) (router : Router S)
    (powered : Bool) (out : Bytes)
    → header_len + 8 ≤ length out
    → (powered ≡ true → HoldsAnswer out (command capacity applets (drop header_len frame) router))
    → Succeeds (handle_frame capacity applets frame router powered out)
unfolding handle_frame parse_request
handle_frame-Succeeds capacity applets frame router powered out room holds =
    handle_parsed-Succeeds capacity applets (drop header_len frame) frame (parse_request frame)
      router powered out (bind-IsParsed (parse_header frame) (drop header_len frame)) room holds
