-- ===== src/Core/Management.antt =====
-- crates/aegis-core/src/management.rs: reports of the Management HID interface, and the reassembly
-- of its messages.
pub mod Reports
pub mod Assembly
use aegis_token.Base.{
  ℕ, ◌+◌, ◌-◌, ◌*◌, ◌%◌, ◌^◌, min, bit_and, Bool, not, ◌||◌, ◌==◌, leb, ltb, if◌then◌else◌, Result,
  ok, err, Option, none, some, [], ◌∷◌, ◌++◌, length, take, drop, Bytes, at, zeros, le16, copy_at,
}
use aegis_token.Core.Error.{CoreError, protocol_error}

abbrev pub report_size : ℕ
report_size = 64

abbrev pub report_header_len : ℕ
report_header_len = 5

abbrev pub payload_per_report : ℕ
payload_per_report = 59

abbrev pub protocol_version : ℕ
protocol_version = 1

abbrev pub max_message_bytes : ℕ
max_message_bytes = 2048

abbrev pub flag_continuation : ℕ
flag_continuation = 0x01

pub data Frame : Type 0 where
  init_frame : (command : ℕ) (total_length : ℕ) (fragment : Bytes) → Frame
  cont_frame : (command : ℕ) (sequence : ℕ) (fragment : Bytes) → Frame

-- A report with its five header bytes and its fragment.
abbrev report_of : ℕ → ℕ → ℕ → Bytes → Bytes
report_of command word flags fragment =
    let report = copy_at 0 (protocol_version ∷ []) (zeros report_size) in
    let report = copy_at 1 (command ∷ []) report in
    let report = copy_at 2 (le16 word) report in
    let report = copy_at 4 (flags ∷ []) report in copy_at report_header_len fragment report

pub init_report : ℕ → ℕ → Bytes → Result CoreError Bytes
init_report command total_length fragment =
    if ltb payload_per_report (length fragment)
    then err protocol_error
    else ok (report_of command total_length 0 fragment)

pub cont_report : ℕ → ℕ → Bytes → Result CoreError Bytes
cont_report command sequence fragment =
    if ltb payload_per_report (length fragment)
    then err protocol_error
    else ok (report_of command sequence flag_continuation fragment)

-- `heapless::Vec::extend_from_slice` on a vector of the given capacity.
abbrev extend : ℕ → Bytes → Bytes → Result CoreError Bytes
extend capacity xs ys =
    if leb (length xs + length ys) capacity then ok (xs ++ ys) else err protocol_error

abbrev with_fragment : Bool → ℕ → ℕ → Result CoreError Bytes → Result CoreError Frame
with_fragment continuation command word (err e) = err e
with_fragment continuation command word (ok fragment) =
    if continuation
    then ok (cont_frame command word fragment)
    else ok (init_frame command word fragment)

pub parse_report : Bytes → Result CoreError Frame
parse_report report =
    if not (at report 0 == protocol_version)
    then err protocol_error
    else with_fragment (not (bit_and (at report 4) flag_continuation == 0)) (at report 1)
        (at report 2 + at report 3 * 256)
        (extend payload_per_report [] (drop report_header_len report))

pub record Message : Type 0 where
  pub command : ℕ
  pub payload : Bytes

pub record InProgress : Type 0 where
  pub command : ℕ
  pub expected : ℕ
  pub received : ℕ
  pub next_sequence : ℕ
  pub buffer : Bytes

-- The assembler is its field `current`.
abbrev pub Assembler : Type 0
Assembler = Option InProgress

abbrev pub reset : Assembler → Assembler
reset a = none

abbrev pub Accepted : Type 0
Accepted = Result CoreError (Option Message) × Assembler

-- The `Init` arm of `accept`, once the first fragment is in the buffer.
start_with : ℕ → ℕ → ℕ → Result CoreError Bytes → Accepted
start_with command expected taken (err e) = (err e, none)
start_with command expected taken (ok buffer) =
    if leb expected (length buffer)
    then (ok (some (record { command = command; payload = buffer })), none)
    else (
      ok none,
      some (record {
        command = command;
        expected = expected;
        received = taken;
        next_sequence = 0;
        buffer = buffer;
      }),
    )

accept_init : ℕ → ℕ → Bytes → Accepted
unfolding start_with
accept_init command expected fragment =
    if ltb max_message_bytes expected
    then (err protocol_error, none)
    else let taken = min expected (length fragment) in
      start_with command expected taken (extend max_message_bytes [] (take taken fragment))

-- The `Cont` arm of `accept`, once the fragment is in the buffer.
continue_with : InProgress → ℕ → Result CoreError Bytes → Accepted
continue_with s taken (err e) = (err e, some s)
continue_with s taken (ok buffer) =
    let s' = record s {
      buffer = buffer;
      received = s.received + taken;
      next_sequence = (s.next_sequence + 1) % 2 ^ 16;
    } in
    if leb s'.expected s'.received
    then (ok (some (record { command = s'.command; payload = s'.buffer })), none)
    else (ok none, some s')

accept_cont : Assembler → ℕ → ℕ → Bytes → Accepted
unfolding continue_with
accept_cont none command sequence fragment = (err protocol_error, none)
accept_cont (some s) command sequence fragment =
    if not (s.command == command) || not (sequence == s.next_sequence)
    then (err protocol_error, none)
    else let taken = min (s.expected - s.received) (length fragment) in
      continue_with s taken (extend max_message_bytes s.buffer (take taken fragment))

pub accept : Assembler → Frame → Accepted
unfolding accept_init accept_cont
accept a (init_frame command total_length fragment) = accept_init command total_length fragment
accept a (cont_frame command sequence fragment) = accept_cont a command sequence fragment
