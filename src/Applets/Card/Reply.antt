-- ===== src/Applets/Card/Reply.antt =====
-- crates/aegis-applets/src/card.rs: a frame is answered by the frame of a response to it.
use aegis_token.Base.{
  ℕ, ◌+◌, ◌≤◌, ◌≡◌, refl, sym, Bool, true, false, Bool-cases, ◌==◌, ltb, Result, ok, err, Option,
  none, some, and_then, ◌>>=◌, List, ◌++◌, append_assoc, Bytes, length, take, drop, at,
  length-append, length-take, length-drop, take-append_at, arith, dec_lt, inl, inr,
  overlay-eq-append, copy_at-append, drop-drop, subst,
}
use aegis_token.Applets.Apdu.Sw
use aegis_token.Applets.Apdu.{Response as ApduResponse, encode_into as encode_apdu}
use aegis_token.Applets.Ccid.{
  CcidError, overflow, Header, Request, request_of, parse_header, parse_request, request_sequence,
  request_slot, Response, encode_into, header_len, data_block, protocol_t0, icc_power_on,
  icc_power_off, get_slot_status, set_parameters, get_parameters, reset_parameters,
  set_data_rate_and_clock, xfr_block, escape, abort,
}
use aegis_token.Applets.Ccid.Frames.{
  frame_of, encode_into-eq-append, write_data_block_header-append,
}
use aegis_token.Applets.Router.{Applet, Router}
use aegis_token.Applets.Router.Selection.{IsValid, Settled, command-IsValid}
use aegis_token.Applets.Card.{
  FrameOutcome, encoded, Handled, written, encode, with_header, encode_data_block, encoded_result,
  replied, with_response, xfr_response, handle_request, handle_parsed, handle_frame,
}

-- The first `len` bytes are the frame of a response with the sequence number.
pub record IsReply (sequence len : ℕ) (out : Bytes) : Type 0 where
  pub reply : Response
  pub echoes : reply.sequence ≡ sequence
  pub measured : len ≡ header_len + length reply.payload
  pub framed : take len out ≡ frame_of reply

unfoldable pub Replied : ℕ → Result CcidError ℕ × Bytes → Type 0
Replied sequence (err e, out) = e ≡ overflow
Replied sequence (ok len, out) = IsReply sequence len out

frame-IsReply :
    (r : Response) (rest : Bytes)
    → IsReply r.sequence (header_len + length r.payload) (frame_of r ++ rest)
unfolding frame_of
frame-IsReply r rest = record {
  reply = r;
  echoes = refl;
  measured = refl;
  framed = take-append_at (header_len + length r.payload) (frame_of r) rest (omega arith);
}

pub encode-Replied : (r : Response) (out : Bytes) → Replied r.sequence (encode r out)
unfolding encode Replied written encode_into
encode-Replied r out = elim (dec_lt (length out) (header_len + length r.payload)) [
  | yes short ↦ let e : encode_into r out ≡ err overflow = ground arith in rw e refl
  | no enough ↦ rw (encode_into-eq-append r out (omega arith)) (frame-IsReply r _)
]

-- What an APDU's response writes behind the header.
pub encode_apdu-eq-append :
    (r : ApduResponse) (out : Bytes)
    → length r.payload + 2 ≤ length out
    → encode_apdu r out
      ≡ some (length r.payload + 2, (r.payload ++ Sw.bytes r.sw) ++ drop (length r.payload + 2) out)
unfolding encode_apdu
encode_apdu-eq-append r out h =
    let n = length r.payload in
    let first = overlay-eq-append r.payload out (omega arith) in
    let second = copy_at-append n r.payload (Sw.bytes r.sw) (drop n out) refl in
    let third = overlay-eq-append (Sw.bytes r.sw) (drop n out) (omega (arith, length-drop n out)) in
    rw (first, second, third, drop-drop 2 n out)
      (ground (arith, append_assoc r.payload (Sw.bytes r.sw) (drop (n + 2) out)))

EchoesSequence : ℕ → Result CcidError Request → Type 0
EchoesSequence sequence (err e) = Unit
EchoesSequence sequence (ok request) = request_sequence request ≡ sequence

request_of-EchoesSequence :
    (h : Header) (payload : Bytes) → EchoesSequence h.sequence (request_of h payload)
unfolding EchoesSequence request_of request_sequence
request_of-EchoesSequence h payload = ground arith

parse_header-sequence :
    (frame : Bytes) (h : Header) → parse_header frame ≡ ok h → h.sequence ≡ at frame 6
unfolding parse_header
parse_header-sequence frame h e = ground arith

parsed-EchoesSequence :
    (sequence : ℕ) (m : Result CcidError Header) (payload : Bytes)
    → ((h : Header) → m ≡ ok h → h.sequence ≡ sequence)
    → EchoesSequence sequence (m >>= λ h. request_of h payload)
unfolding EchoesSequence
parsed-EchoesSequence sequence (err e) payload h = tt
parsed-EchoesSequence sequence (ok header) payload h =
    subst (λ n. EchoesSequence n (request_of header payload)) (h header refl)
      (request_of-EchoesSequence header payload)

parse_request-EchoesSequence : (frame : Bytes) → EchoesSequence (at frame 6) (parse_request frame)
unfolding parse_request
parse_request-EchoesSequence frame =
    parsed-EchoesSequence (at frame 6) (parse_header frame) (drop header_len frame)
      (parse_header-sequence frame)

-- The status word and the data of an APDU's response are the payload of the reply.
reply_of : ℕ → ApduResponse → Response
reply_of sequence r = data_block sequence (r.payload ++ Sw.bytes r.sw)

pub with_header-eq-append :
    (sequence : ℕ) (body after out : Bytes)
    → header_len ≤ length out
    → with_header sequence (some (length body, body ++ after)) out
      ≡ (ok (header_len + length body), frame_of (data_block sequence body) ++ after)
unfolding with_header
with_header-eq-append sequence body after out h =
    let sized : length (take header_len out) ≡ header_len =
      omega (arith, length-take header_len out) in
    rw (write_data_block_header-append sequence (take header_len out) body after sized, with_header)
      refl

with_header-Replied :
    (sequence : ℕ) (body after out : Bytes)
    → header_len ≤ length out
    → Replied sequence (with_header sequence (some (length body, body ++ after)) out)
unfolding Replied
with_header-Replied sequence body after out h =
    subst (Replied sequence) (sym (with_header-eq-append sequence body after out h))
      (frame-IsReply (data_block sequence body) after)

pub encode_data_block-Replied :
    (sequence : ℕ) (r : ApduResponse) (out : Bytes)
    → Replied sequence (encode_data_block sequence r out)
unfolding encode_data_block Replied with_header
encode_data_block-Replied sequence r out = elim (dec_lt (length out) header_len) [
  | yes none_fit ↦ ground arith
  | no header_fits ↦ elim (dec_lt (length (drop header_len out)) (length r.payload + 2)) [
    | yes short ↦
        let e : encode_apdu r (drop header_len out) ≡ none = unfold encode_apdu in ground arith in
        ground (arith, e)
    | no enough ↦
        let body = r.payload ++ Sw.bytes r.sw in
        let fits : ltb (length out) header_len ≡ false = ground arith in
        let sized : length r.payload + 2 ≡ length body =
          omega (arith, length-append r.payload (Sw.bytes r.sw)) in
        rw (fits, encode_apdu-eq-append r (drop header_len out) (omega arith), sized)
          (with_header-Replied sequence body _ out (omega arith))
  ]
]

-- What every way to handle a frame leaves: a reply that echoes the sequence number, or, for an
-- APDU that waits for presence, the sequence number of the reply to come.
unfoldable pub AnswersWith : ℕ → Result CcidError FrameOutcome → Bytes → Type 0
AnswersWith sequence (err e) out = e ≡ overflow
AnswersWith sequence (ok (encoded len)) out = IsReply sequence len out
AnswersWith sequence (ok (FrameOutcome.presence_required pending)) out = pending ≡ sequence

unfoldable pub Answers : {S : Type 0} → ℕ → Option (Handled S) → Type 0
Answers sequence none = ⊥
Answers sequence (some h) = AnswersWith sequence h.result h.out

replied-Answers :
    {S : Type 0} (router : Router S) (powered : Bool) (sequence : ℕ)
    (out : Result CcidError ℕ × Bytes)
    → Replied sequence out
    → Answers sequence (some (replied router powered out))
unfolding Answers AnswersWith replied encoded_result Replied
replied-Answers router powered sequence (err e, out) h = h
replied-Answers router powered sequence (ok len, out) h = h

with_response-Answers :
    {S : Type 0} (r : Response) (router : Router S) (powered : Bool) (out : Bytes)
    → Answers r.sequence (some (with_response r router powered out))
unfolding with_response
with_response-Answers r router powered out =
    replied-Answers router powered r.sequence _ (encode-Replied r out)

xfr_response-Answers :
    {S : Type 0} (capacity : ℕ) (applets : List (Applet S)) (sequence : ℕ) (out : Bytes)
    → (answer : Option (ApduResponse × Router S)) → Settled capacity applets answer
    → Answers sequence (and_then answer (λ a. some (xfr_response sequence out a)))
unfolding xfr_response Settled
xfr_response-Answers capacity applets sequence out none h = absurd h
xfr_response-Answers capacity applets sequence out (some (r, router)) h =
    elim (Bool-cases (r.sw == Sw.presence_required)) [
      | inl e ↦ rw e (unfold Answers AnswersWith in refl)
      | inr e ↦
          rw e (replied-Answers router true sequence _ (encode_data_block-Replied sequence r out))
    ]

module _ {S : Type 0} (capacity : ℕ) (applets : List (Applet S)) where
  handle_request-Answers :
      (request : Request) (router : Router S) (powered : Bool) (out : Bytes)
      → IsValid capacity applets router
      → Answers
          (request_sequence request)
          (handle_request capacity applets request router powered out)
  unfolding handle_request request_sequence
  handle_request-Answers (icc_power_on slot sequence p) router powered out valid =
      with_response-Answers _ _ _ _
  handle_request-Answers (icc_power_off slot sequence) router powered out valid =
      with_response-Answers _ _ _ _
  handle_request-Answers (get_slot_status slot sequence) router powered out valid =
      with_response-Answers _ _ _ _
  handle_request-Answers (set_parameters slot sequence protocol payload) router powered out valid =
      elim (Bool-cases (protocol == protocol_t0)) [
        | inl e ↦ rw e (with_response-Answers _ _ _ _)
        | inr e ↦ rw e (with_response-Answers _ _ _ _)
      ]
  handle_request-Answers (get_parameters slot sequence) router powered out valid =
      with_response-Answers _ _ _ _
  handle_request-Answers (reset_parameters slot sequence) router powered out valid =
      with_response-Answers _ _ _ _
  handle_request-Answers (set_data_rate_and_clock slot sequence payload) router powered out valid =
      with_response-Answers _ _ _ _
  handle_request-Answers (xfr_block slot sequence bwi level payload) router false out valid =
      with_response-Answers _ _ _ _
  handle_request-Answers (xfr_block slot sequence bwi level payload) router true out valid =
      xfr_response-Answers capacity applets sequence out _
        (command-IsValid capacity applets payload router valid)
  handle_request-Answers (escape slot sequence payload) router powered out valid =
      with_response-Answers _ _ _ _
  handle_request-Answers (abort slot sequence) router powered out valid =
      with_response-Answers _ _ _ _

  handle_parsed-Answers :
      (frame : Bytes) (parsed : Result CcidError Request) (router : Router S) (powered : Bool)
      (out : Bytes)
      → IsValid capacity applets router
      → EchoesSequence (at frame 6) parsed
      → Answers (at frame 6) (handle_parsed capacity applets frame parsed router powered out)
  unfolding handle_parsed EchoesSequence
  handle_parsed-Answers frame (err e) router powered out valid h = with_response-Answers _ _ _ _
  handle_parsed-Answers frame (ok request) router powered out valid h =
      rw (← h) (elim (Bool-cases (request_slot request == 0)) [
        | inl e ↦ rw e (handle_request-Answers request router powered out valid)
        | inr e ↦ rw e (with_response-Answers _ _ _ _)
      ])

  -- Over a valid router, a frame of any content is answered by the frame of one response that
  -- echoes byte 6, the sequence number, or waits for presence under that number; the only error
  -- is an overflow of the output buffer.
  pub handle_frame-Answers :
      (frame : Bytes) (router : Router S) (powered : Bool) (out : Bytes)
      → IsValid capacity applets router
      → Answers (at frame 6) (handle_frame capacity applets frame router powered out)
  unfolding handle_frame
  handle_frame-Answers frame router powered out valid =
      handle_parsed-Answers frame (parse_request frame) router powered out valid
        (parse_request-EchoesSequence frame)
