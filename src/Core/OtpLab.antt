-- ===== src/Core/OtpLab.antt =====
-- crates/aegis-core/src/otp_lab.rs: the one-report request and reply protocol of the lab profile.
pub mod Frames
pub mod Replies
mod Examples
use aegis_token.Base.{
  ℕ, ◌+◌, Bool, true, false, not, ◌&&◌, ◌||◌, ◌==◌, ltb, if◌then◌else◌, Result, ok, err, Option,
  none, some, [], ◌∷◌, length, take, drop, Bytes, at, zeros, be32, from_be32, copy_at,
}

abbrev pub report_size : ℕ
report_size = 64

abbrev pub max_payload : ℕ
max_payload = 54

abbrev pub magic : ℕ
magic = 0xa5

abbrev pub version : ℕ
version = 1

-- "AEGIS-OTP-LAB/1"
abbrev pub info_text : Bytes
info_text =
    0x41 ∷ 0x45 ∷ 0x47 ∷ 0x49 ∷ 0x53 ∷ 0x2d ∷ 0x4f ∷ 0x54 ∷ 0x50 ∷ 0x2d ∷ 0x4c ∷ 0x41 ∷ 0x42 ∷ 0x2f
    ∷ 0x31 ∷ []

pub data Command : Type 0 where
  ping info : Command
  unknown : ℕ → Command

pub from_code : ℕ → Command
from_code c = if c == 0x01 then ping else if c == 0x02 then info else unknown c

pub code : Command → ℕ
code ping = 0x01
code info = 0x02
code (unknown other) = other

pub data Status : Type 0 where
  success unknown_command invalid_length : Status

-- `status as u8`
abbrev pub status_byte : Status → ℕ
status_byte success = 0
status_byte unknown_command = 1
status_byte invalid_length = 2

pub data FrameError : Type 0 where
  wrong_size wrong_header wrong_channel reserved payload_length padding : FrameError

pub record Request : Type 0 where
  pub channel : ℕ
  pub command : Command
  pub payload : Bytes

abbrev pub valid_channel : ℕ → Bool
valid_channel channel = not (channel == 0) && not (channel == 0xffff_ffff)

-- `bytes.iter().any(|&byte| byte != 0)`
pub any_nonzero : Bytes → Bool
any_nonzero [] = false
any_nonzero (byte ∷ bytes) = not (byte == 0) || any_nonzero bytes

abbrev channel_of : Bytes → ℕ
channel_of report = from_be32 (at report 4) (at report 5) (at report 6) (at report 7)

pub parse_request : Bytes → Result FrameError Request
parse_request report =
    if not (length report == report_size)
    then err wrong_size
    else if not (at report 0 == magic) || not (at report 1 == version)
    then err wrong_header
    else if not (at report 3 == 0) || not (at report 9 == 0)
    then err reserved
    else if not (valid_channel (channel_of report))
    then err wrong_channel
    else if ltb max_payload (at report 8)
    then err payload_length
    else if any_nonzero (drop (10 + at report 8) report)
    then err padding
    else ok (record {
      channel = channel_of report;
      command = from_code (at report 2);
      payload = take (at report 8) (drop 10 report);
    })

pub encode : Command → ℕ → Status → Bytes → Result FrameError Bytes
encode command channel status payload =
    if not (valid_channel channel)
    then err wrong_channel
    else if ltb max_payload (length payload)
    then err payload_length
    else let report = copy_at 0 (magic ∷ []) (zeros report_size) in
      let report = copy_at 1 (version ∷ []) report in
      let report = copy_at 2 (code command ∷ []) report in
      let report = copy_at 3 (status_byte status ∷ []) report in
      let report = copy_at 4 (be32 channel) report in
      let report = copy_at 8 (length payload ∷ []) report in ok (copy_at 10 payload report)

abbrev pub encode_request : Command → ℕ → Bytes → Result FrameError Bytes
encode_request command channel payload = encode command channel success payload

-- `payload.is_empty()`
abbrev pub is_empty : Bytes → Bool
is_empty payload = length payload == 0

-- A status other than `Ok` carries no payload.
abbrev pub encode_response : Command → ℕ → Status → Bytes → Result FrameError Bytes
encode_response command channel success payload = encode command channel success payload
encode_response command channel status payload =
    if not (is_empty payload) then err payload_length else encode command channel status payload

-- The status and the payload of the reply.
pub reply : Command → Bytes → Status × Bytes
reply ping payload = (success, payload)
reply info payload = if is_empty payload then (success, info_text) else (invalid_length, [])
reply (unknown other) payload = (unknown_command, [])

-- `.ok()`
abbrev to_option : Result FrameError Bytes → Option Bytes
to_option (ok report) = some report
to_option (err e) = none

respond : Result FrameError Request → Option Bytes
unfolding reply
respond (err e) = none
respond (ok request) =
    let (status, payload) = reply request.command request.payload in
    to_option (encode_response request.command request.channel status payload)

pub handle_report : Bytes → Option Bytes
unfolding respond
handle_report report = respond (parse_request report)
