-- ===== src/Host/Framing/Exchange.antt =====
-- crates/aegistoken-host/src/framing.rs with crates/aegis-core/src/management.rs: what one side
-- encodes, the other side reassembles.
use aegis_token.Base.{
  ℕ, zero, suc, ◌+◌, ◌%◌, ◌^◌, ◌≤◌, ◌<◌, min, ◌≡◌, refl, ap, ◌∙◌, true, ltb, dec_lt, Result, ok,
  err, Option, none, some, List, [], ◌∷◌, Bytes, length, take, take-all, arith,
}
use aegis_token.Core.Management.{Frame, Message, Assembler, parse_report, accept, max_message_bytes}
use aegis_token.Core.Management.Reports.{parse-init_wire, parse-cont_wire}
use aegis_token.Core.Management.Assembly.{
  cut, message, progress, accept_more, accept_last, accept_whole, accept_first,
}
use aegis_token.Host.Framing.{
  Response, FramingError, encode, from_message, response_accept, received, framed, transpose,
  empty_response,
}
use aegis_token.Host.Framing.Encoding.{conts, reports, encode_lem}

-- The answers of a receiver to a sequence of reports, up to the first that completes a message or
-- is an error, and the reports behind it.
abbrev pub Outcome : Type 0
Outcome = Result FramingError (Option Response) × List Bytes

settled : Result FramingError (Option Response) → List Bytes → Outcome → Outcome
settled (err e) rest later = (err e, rest)
settled (ok none) rest later = later
settled (ok (some response)) rest later = (ok (some response), rest)

pub receive : Assembler → List Bytes → Outcome
receive a [] = (ok none, [])
receive a (report ∷ rest) =
    let (answer, a') = response_accept a report in settled answer rest (receive a' rest)

-- A report that is accepted without an answer, and one that completes a message.
accepted :
    (a : Assembler) (report : Bytes) (frame : Frame)
    → parse_report report ≡ ok frame
    → response_accept a report ≡ received (accept a frame)
unfolding response_accept framed
accepted a report frame p = rw p refl

next_quiet :
    (a a' : Assembler) (report : Bytes) (rest : List Bytes) (frame : Frame)
    → parse_report report ≡ ok frame
    → accept a frame ≡ (ok none, a')
    → receive a (report ∷ rest) ≡ receive a' rest
unfolding receive settled received
next_quiet a a' report rest frame p q =
    let e : response_accept a report ≡ (ok none, a') = accepted a report frame p ∙ rw q refl in
    rw (e, receive) refl

settled_message :
    (r : Result FramingError Response) (rest : List Bytes) (later : Outcome)
    → settled (transpose r) rest later ≡ (transpose r, rest)
unfolding settled
settled_message (err e) rest later = refl
settled_message (ok response) rest later = refl

next_complete :
    (a a' : Assembler) (report : Bytes) (rest : List Bytes) (frame : Frame) (m : Message)
    → parse_report report ≡ ok frame
    → accept a frame ≡ (ok (some m), a')
    → receive a (report ∷ rest) ≡ (transpose (from_message m), rest)
unfolding receive received
next_complete a a' report rest frame m p q =
    let e : response_accept a report ≡ (transpose (from_message m), a') =
      accepted a report frame p ∙ rw q refl in
    rw (e, receive) (settled_message (from_message m) rest (receive a' rest))

conts_done :
    (fuel command : ℕ) (payload : Bytes) (seq : ℕ)
    → conts fuel command payload (length payload) seq ≡ []
unfolding conts
conts_done zero command payload seq = refl
conts_done (suc fuel) command payload seq = ground arith

module _ (command : ℕ) (payload : Bytes) (fits : length payload ≤ max_message_bytes) where
  conts_received :
      (fuel offset seq : ℕ)
      → offset < length payload
      → length payload ≤ offset + fuel
      → seq + length payload ≤ 2 ^ 16 + offset
      → receive (some (progress command payload offset seq)) (conts fuel command payload offset seq)
        ≡ (transpose (from_message (message command payload)), [])
  unfolding conts
  conts_received zero offset seq more enough small = absurd (omega arith)
  conts_received (suc fuel) offset seq more enough small =
      let go : ltb offset (length payload) ≡ true = ground arith in
      elim (dec_lt (offset + 59) (length payload)) [
        | yes far ↦
            let stop : min (offset + 59) (length payload) ≡ offset + 59 = omega arith in
            rw (go, stop)
              (next_quiet (some (progress command payload offset seq)) _ _ _ _
                  (parse-cont_wire command seq (cut payload offset (offset + 59)) (omega arith))
                  (accept_more command payload offset (offset + 59) seq (omega arith) (omega arith)
                    far (omega arith) fits)
                ∙ conts_received fuel (offset + 59) ((seq + 1) % 2 ^ 16) far (omega arith)
                    (omega arith))
        | no near ↦
            let stop : min (offset + 59) (length payload) ≡ length payload = omega arith in
            rw (go, stop)
              (next_complete (some (progress command payload offset seq)) none _ _ _
                  (message command payload)
                  (parse-cont_wire command seq (cut payload offset (length payload)) (omega arith))
                  (accept_last command payload offset seq more (omega arith) fits)
                ∙ rw (conts_done fuel command payload ((seq + 1) % 2 ^ 16)) refl)
      ]

abbrev pub read_as_response : ℕ → Bytes → Result FramingError (Option Response)
read_as_response command [] = err empty_response
read_as_response command (status ∷ body) =
    ok (some (record { command = command; status = status; body = body }))

as_response :
    (command : ℕ) (payload : Bytes)
    → transpose (from_message (message command payload)) ≡ read_as_response command payload
unfolding from_message
as_response command [] = refl
as_response command (status ∷ body) = refl

reports_received :
    (a : Assembler) (command : ℕ) (payload : Bytes)
    → length payload ≤ max_message_bytes
    → receive a (reports command payload) ≡ (transpose (from_message (message command payload)), [])
reports_received a command payload fits =
    let l : length payload % 2 ^ 16 ≡ length payload = omega arith in
    elim (dec_lt 59 (length payload)) [
      | yes more ↦
          let first : min (length payload) 59 ≡ 59 = omega arith in
          rw (l, first)
            (next_quiet a (some (progress command payload 59 0)) _ _ _
                (parse-init_wire command (length payload) (take 59 payload) (omega arith))
                (accept_first command payload a more fits)
              ∙ conts_received command payload fits (length payload) 59 0 more (omega arith)
                  (omega arith))
      | no whole ↦
          let first : min (length payload) 59 ≡ length payload = omega arith in
          rw (l, first, take-all (length payload) payload (omega arith))
            (next_complete a none _ _ _ (message command payload)
                (parse-init_wire command (length payload) payload (omega arith))
                (accept_whole command payload a (omega arith))
              ∙ rw (conts_done (length payload) command payload 0) refl)
    ]

-- What one side encodes the other side receives: for a payload of at most 2048 bytes, and whatever
-- was in flight before, `encode` does not panic, and its reports are accepted up to the last, which
-- completes the message of that command and payload, read as a response: its first byte is the
-- status and the rest the body, and an empty payload is an error.
pub receive-encode :
    (a : Assembler) (command : ℕ) (payload : Bytes)
    → length payload ≤ max_message_bytes
    → (sent : List Bytes) × (encode command payload ≡ some sent)
      × (receive a sent ≡ (read_as_response command payload, []))
receive-encode a command payload fits = (
  reports command payload,
  encode_lem command payload,
  reports_received a command payload fits
      ∙ ap (λ answer. (answer, [])) (as_response command payload),
)
