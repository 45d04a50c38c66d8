-- ===== src/Core/OtpLab/Replies.antt =====
-- crates/aegis-core/src/otp_lab.rs: which reports are answered, and how.
use aegis_token.Base.{
  ℕ, ◌≤◌, ◌≡◌, ◌≢◌, ◌==◌, ap, ◌∙◌, Bool-cases, Result, refl, true, ok, err, none, some, [], Bytes,
  length, ◌⊎◌, inl, inr, arith,
}
use aegis_token.Core.OtpLab.{
  Command, ping, info, unknown, Status, success, Request, FrameError, parse_request, handle_report,
  reply, encode_response, info_text, max_payload, valid_channel, respond,
}
use aegis_token.Core.OtpLab.Frames.{wire, length-wire, encode_lem, request_bounds}

-- No reply is longer than the reports carry, and none but `Ok` carries a payload.
response_lem :
    (command : Command) (channel : ℕ) (payload : Bytes)
    → valid_channel channel ≡ true
    → length payload ≤ max_payload
    → let (status, answer) = reply command payload in
      encode_response command channel status answer ≡ ok (wire command channel status answer)
unfolding reply
response_lem ping channel payload v fits = encode_lem ping channel success payload v fits
response_lem info channel payload v fits = elim (Bool-cases (length payload == 0)) [
  | inl e ↦ rw e (encode_lem info channel success info_text v (omega arith))
  | inr e ↦ rw e (encode_lem info channel Status.invalid_length [] v (omega arith))
]
response_lem (unknown c) channel payload v fits =
    encode_lem (unknown c) channel Status.unknown_command [] v (omega arith)

-- What the protocol answers to a command with a payload: the status, and the payload of the reply.
pub data IsAnswer : Command → Bytes → Status → Bytes → Type 0 where
  echo : {payload : Bytes} → IsAnswer ping payload success payload
  identify : {payload : Bytes} → length payload ≡ 0 → IsAnswer info payload success info_text
  refuse_length :
      {payload : Bytes} → length payload ≢ 0 → IsAnswer info payload Status.invalid_length []
  refuse_command :
      {c : ℕ} {payload : Bytes} → IsAnswer (unknown c) payload Status.unknown_command []

reply-IsAnswer :
    (command : Command) (payload : Bytes)
    → IsAnswer command payload (reply command payload).0 (reply command payload).1
unfolding reply
reply-IsAnswer ping payload = echo
reply-IsAnswer info payload = elim (Bool-cases (length payload == 0)) [
  | inl e ↦ rw e (identify (ground arith))
  | inr e ↦ rw e (refuse_length (ground arith))
]
reply-IsAnswer (unknown c) payload = refuse_command

-- How a report that parses, or does not, is answered.
abbrev pub Answered : Bytes → Result FrameError Request → Type 0
Answered report parsed =
    ((e : FrameError) × (parsed ≡ err e) × (handle_report report ≡ none))
    ⊎ ((request : Request) × (status : Status) × (answer : Bytes) × (parsed ≡ ok request)
        × IsAnswer request.command request.payload status answer
        × (handle_report report ≡ some (wire request.command request.channel status answer))
        × (length (wire request.command request.channel status answer) ≡ 64))

answered :
    (report : Bytes) (parsed : Result FrameError Request)
    → parse_request report ≡ parsed
    → Answered report parsed
unfolding handle_report
answered report (err e) h = inl (e, refl, ap respond h)
answered report (ok request) h =
    let (v, fits) = request_bounds report request h in
    let (status, answer) = reply request.command request.payload in
    inr (
      request,
      status,
      answer,
      refl,
      reply-IsAnswer request.command request.payload,
      ap respond h ∙ rw (response_lem request.command request.channel request.payload v fits) refl,
      length-wire request.command request.channel status answer,
    )

-- A report is answered exactly if it is a well-formed request. The reply is one report of 64 bytes
-- on the channel of the request and with its command: it echoes the payload of a PING, carries the
-- identifier for an INFO without payload, and an error status without payload otherwise.
pub handle_report_lem : (report : Bytes) → Answered report (parse_request report)
handle_report_lem report = answered report (parse_request report) refl
