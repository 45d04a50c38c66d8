-- ===== src/Host/Framing.antt =====
-- crates/aegistoken-host/src/framing.rs: the host's side of the Management HID reports.
pub mod Encoding
pub mod Exchange
mod Examples
use aegis_token.Base.{
  ℕ, zero, suc, ◌+◌, ◌-◌, ◌%◌, ◌^◌, min, ltb, if◌then◌else◌, Result, ok, err, Option, none, some,
  List, [], ◌∷◌, length, take, drop, Bytes,
}
use aegis_token.Core.Error.{CoreError}
use aegis_token.Core.Management.{
  Frame, Message, Assembler, init_report, cont_report, parse_report, accept, payload_per_report,
}

pub record Response : Type 0 where
  pub command : ℕ
  pub status : ℕ
  pub body : Bytes

pub data FramingError : Type 0 where
  protocol empty_response : FramingError

-- `.expect(..)`: none is a panic.
abbrev push : Result CoreError Bytes → Option (List Bytes) → Option (List Bytes)
push (ok report) (some reports) = some (report ∷ reports)
push (ok report) none = none
push (err e) reports = none

-- The rounds of the loop of `encode`. Each moves the offset on, so that the length of the payload is
-- enough fuel.
encode_loop : ℕ → ℕ → Bytes → ℕ → ℕ → Option (List Bytes)
encode_loop zero command payload offset sequence = some []
encode_loop (suc fuel) command payload offset sequence =
    let stop = min (offset + payload_per_report) (length payload) in
    let rest = encode_loop fuel command payload stop ((sequence + 1) % 2 ^ 16) in
    if ltb offset (length payload)
    then push (cont_report command sequence (take (stop - offset) (drop offset payload))) rest
    else some []

pub encode : ℕ → Bytes → Option (List Bytes)
unfolding encode_loop
encode command payload =
    let first = min (length payload) payload_per_report in
    push (init_report command (length payload % 2 ^ 16) (take first payload))
      (encode_loop (length payload) command payload first 0)

pub from_message : Message → Result FramingError Response
from_message message = elim message.payload [
  | [] ↦ err empty_response
  | status ∷ body ↦ ok (record { command = message.command; status = status; body = body })
]

-- `message.map(Response::from_message).transpose()`
abbrev transpose : Result FramingError Response → Result FramingError (Option Response)
transpose (ok response) = ok (some response)
transpose (err e) = err e

abbrev pub Received : Type 0
Received = Result FramingError (Option Response) × Assembler

received : Result CoreError (Option Message) × Assembler → Received
unfolding from_message
received (err e, a) = (err protocol, a)
received (ok none, a) = (ok none, a)
received (ok (some message), a) = (transpose (from_message message), a)

framed : Assembler → Result CoreError Frame → Received
unfolding received
framed a (err e) = (err protocol, a)
framed a (ok frame) = received (accept a frame)

-- `ResponseAssembler::accept`
pub response_accept : Assembler → Bytes → Received
unfolding framed
response_accept a report = framed a (parse_report report)
