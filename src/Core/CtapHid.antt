-- ===== src/Core/CtapHid.antt =====
-- crates/aegis-core/src/ctaphid.rs: CTAPHID packets and the reassembly of messages.
pub mod Channels
pub mod Packets
pub mod Assembly
pub mod Reassembly
mod Examples
use aegis_token.Base.{
  ℕ, ◌+◌, ◌-◌, ◌%◌, ◌^◌, min, bit_and, bit_or, Bool, true, false, not, ◌&&◌, ◌||◌, ◌==◌, ltb, leb,
  if◌then◌else◌, Result, ok, err, Option, none, some, List, [], ◌∷◌, ◌++◌, length, take, drop,
  Bytes, at, zeros, be16, be32, from_be16, from_be32, copy_at,
}
use aegis_token.Core.Error.{CoreError, protocol_error}

abbrev pub report_size : ℕ
report_size = 64

abbrev pub protocol_version : ℕ
protocol_version = 2

abbrev pub broadcast_channel : ℕ
broadcast_channel = 0xffff_ffff

abbrev pub init_data_len : ℕ
init_data_len = 57

abbrev pub cont_data_len : ℕ
cont_data_len = 59

abbrev pub max_message_bytes : ℕ
max_message_bytes = 2048

abbrev init_flag : ℕ
init_flag = 0x80

pub data CtapHidCommand : Type 0 where
  ping msg lock init wink cbor cancel keepalive error : CtapHidCommand
  unknown : ℕ → CtapHidCommand

pub code : CtapHidCommand → ℕ
code ping = 0x01
code msg = 0x03
code lock = 0x04
code init = 0x06
code wink = 0x08
code cbor = 0x10
code cancel = 0x11
code keepalive = 0x3b
code error = 0x3f
code (unknown c) = c

pub from_code : ℕ → CtapHidCommand
from_code c =
    if c == 0x01
    then ping
    else if c == 0x03
    then msg
    else if c == 0x04
    then lock
    else if c == 0x06
    then init
    else if c == 0x08
    then wink
    else if c == 0x10
    then cbor
    else if c == 0x11
    then cancel
    else if c == 0x3b
    then keepalive
    else if c == 0x3f
    then error
    else unknown c

pub data CtapHidError : Type 0 where
  invalid_cmd invalid_par invalid_len invalid_seq msg_timeout : CtapHidError
  channel_busy lock_required invalid_channel other : CtapHidError

-- `code as u8`
pub error_code : CtapHidError → ℕ
error_code invalid_cmd = 0x01
error_code invalid_par = 0x02
error_code invalid_len = 0x03
error_code invalid_seq = 0x04
error_code msg_timeout = 0x05
error_code channel_busy = 0x06
error_code lock_required = 0x0a
error_code invalid_channel = 0x0b
error_code other = 0x7f

pub allocated_channel : ℕ → ℕ → Bool
allocated_channel channel next_channel =
    not (channel == 0) && ltb channel next_channel && not (channel == broadcast_channel)

-- The seventeen bytes of the reply.
abbrev init_reply : Bytes → ℕ → ℕ → Bytes
init_reply nonce assigned capabilities =
    nonce ++ be32 assigned ++ protocol_version ∷ 0 ∷ 1 ∷ 0 ∷ capabilities ∷ []

-- The reply, and `next_channel` as the call leaves it.
pub init_response : ℕ → Bytes → ℕ → ℕ → Result CtapHidError Bytes × ℕ
unfolding allocated_channel
init_response channel nonce next_channel capabilities =
    if not (length nonce == 8)
    then (err invalid_len, next_channel)
    else if channel == broadcast_channel
    then if next_channel == 0 || next_channel == broadcast_channel
      then (err other, next_channel)
      else (ok (init_reply nonce next_channel capabilities), (next_channel + 1) % 2 ^ 32)
    else if allocated_channel channel next_channel
    then (ok (init_reply nonce channel capabilities), next_channel)
    else (err invalid_channel, next_channel)

pub data Packet : Type 0 where
  init_packet : (channel : ℕ) (command : CtapHidCommand) (length : ℕ) (fragment : Bytes) → Packet
  cont_packet : (channel : ℕ) (sequence : ℕ) (fragment : Bytes) → Packet

pub init_report : ℕ → CtapHidCommand → ℕ → Bytes → Result CoreError Bytes
init_report channel command len fragment =
    if ltb init_data_len (length fragment)
    then err protocol_error
    else let report = copy_at 0 (be32 channel) (zeros report_size) in
      let report = copy_at 4 (bit_or init_flag (bit_and (code command) 0x7f) ∷ []) report in
      let report = copy_at 5 (be16 len) report in ok (copy_at 7 fragment report)

pub cont_report : ℕ → ℕ → Bytes → Result CoreError Bytes
cont_report channel sequence fragment =
    if ltb 127 sequence || ltb cont_data_len (length fragment)
    then err protocol_error
    else let report = copy_at 0 (be32 channel) (zeros report_size) in
      let report = copy_at 4 (sequence ∷ []) report in ok (copy_at 5 fragment report)

pub error_report : ℕ → CtapHidError → Bytes
unfolding code error_code
error_report channel e =
    let report = copy_at 0 (be32 channel) (zeros report_size) in
    let report = copy_at 4 (bit_or init_flag (bit_and (code error) 0x7f) ∷ []) report in
    let report = copy_at 5 (be16 1) report in copy_at 7 (error_code e ∷ []) report

pub keepalive_report : ℕ → ℕ → Bytes
unfolding code
keepalive_report channel status =
    let report = copy_at 0 (be32 channel) (zeros report_size) in
    let report = copy_at 4 (bit_or init_flag (bit_and (code keepalive) 0x7f) ∷ []) report in
    let report = copy_at 5 (be16 2) report in copy_at 7 (status ∷ 0 ∷ []) report

-- `heapless::Vec::extend_from_slice` on a vector of the given capacity.
abbrev pub extend : ℕ → Bytes → Bytes → Result CoreError Bytes
extend capacity xs ys =
    if leb (length xs + length ys) capacity then ok (xs ++ ys) else err protocol_error

-- What `parse_report` makes of the fragment once it is copied.
abbrev with_fragment : Result CoreError Bytes → (Bytes → Packet) → Result CoreError Packet
with_fragment (ok fragment) make = ok (make fragment)
with_fragment (err e) make = err e

pub parse_report : Bytes → Result CoreError Packet
parse_report report =
    let channel = from_be32 (at report 0) (at report 1) (at report 2) (at report 3) in
    let command_byte = at report 4 in
    if not (bit_and command_byte init_flag == 0)
    then with_fragment (extend init_data_len [] (drop 7 report)) (
        init_packet channel (from_code (bit_and command_byte 0x7f))
          (from_be16 (at report 5) (at report 6)))
    else with_fragment (extend cont_data_len [] (drop 5 report))
        (cont_packet channel (bit_and command_byte 0x7f))

pub record Message : Type 0 where
  pub channel : ℕ
  pub command : CtapHidCommand
  pub payload : Bytes

pub record InProgress : Type 0 where
  pub channel : ℕ
  pub command : CtapHidCommand
  pub expected : ℕ
  pub received : ℕ
  pub next_sequence : ℕ
  pub buffer : Bytes

-- The assembler is its field `current`.
abbrev pub Assembler : Type 0
Assembler = Option InProgress

abbrev pub reset : Assembler → Assembler
reset a = none

abbrev pub Accepted : Type 0
Accepted = Result CoreError (Option Message) × Assembler

-- The `Init` arm of `accept`, once the first fragment is in the buffer.
start_with : ℕ → CtapHidCommand → ℕ → ℕ → Result CoreError Bytes → Accepted
start_with channel command expected taken (err e) = (err e, none)
start_with channel command expected taken (ok buffer) =
    if leb expected (length buffer)
    then (ok (some (record { channel = channel; command = command; payload = buffer })), none)
    else (
      ok none,
      some (record {
        channel = channel;
        command = command;
        expected = expected;
        received = taken;
        next_sequence = 0;
        buffer = buffer;
      }),
    )

accept_init : ℕ → CtapHidCommand → ℕ → Bytes → Accepted
unfolding start_with
accept_init channel command expected fragment =
    if ltb max_message_bytes expected
    then (err protocol_error, none)
    else let taken = min expected (length fragment) in
      start_with channel command expected taken (extend max_message_bytes [] (take taken fragment))

-- The `Cont` arm of `accept`, once the fragment is in the buffer.
continue_with : InProgress → ℕ → Result CoreError Bytes → Accepted
continue_with s taken (err e) = (err e, some s)
continue_with s taken (ok buffer) =
    let s' = record s {
      buffer = buffer;
      received = s.received + taken;
      next_sequence = bit_and ((s.next_sequence + 1) % 256) 0x7f;
    } in
    if leb s'.expected s'.received
    then (
      ok (some (record { channel = s'.channel; command = s'.command; payload = s'.buffer })),
      none,
    )
    else (ok none, some s')

accept_cont : Assembler → ℕ → ℕ → Bytes → Accepted
unfolding continue_with
accept_cont none channel sequence fragment = (err protocol_error, none)
accept_cont (some s) channel sequence fragment =
    if not (s.channel == channel) || not (sequence == s.next_sequence)
    then (err protocol_error, none)
    else let taken = min (s.expected - s.received) (length fragment) in
      continue_with s taken (extend max_message_bytes s.buffer (take taken fragment))

pub accept : Assembler → Packet → Accepted
unfolding accept_init accept_cont
accept a (init_packet channel command len fragment) = accept_init channel command len fragment
accept a (cont_packet channel sequence fragment) = accept_cont a channel sequence fragment
