-- ===== src/Applets/Ccid.antt =====
-- crates/aegis-applets/src/ccid.rs: CCID messages and the reassembly of bulk packets.
-- `usize` is unbounded here: `length + HEADER_LEN` is compared with the size of a frame that exists.
pub mod Frames
pub mod Stream
mod Examples
use aegis_token.Base.{
  ℕ, zero, suc, ◌+◌, ◌-◌, ◌*◌, Bool, true, false, not, ◌&&◌, ◌==◌, ltb, leb, if◌then◌else◌, bit_or,
  Result, ok, err, Option, none, some, List, [], ◌∷◌, ◌++◌, length, take, drop, Bytes, at, le32,
  copy_at, ◌>>=◌,
}

abbrev pub header_len : ℕ
header_len = 10

abbrev pub max_message_bytes : ℕ
max_message_bytes = 2100

abbrev pub rdr_to_pc_data_block : ℕ
rdr_to_pc_data_block = 0x80

abbrev pub status_failed : ℕ
status_failed = 0x40

abbrev pub error_unsupported : ℕ
error_unsupported = 0x00

abbrev pub error_occurred : ℕ
error_occurred = 0x01

abbrev pub icc_status_active : ℕ
icc_status_active = 0x00

abbrev pub icc_status_inactive : ℕ
icc_status_inactive = 0x01

abbrev pub protocol_t0 : ℕ
protocol_t0 = 0x00

abbrev pub t0_parameters : Bytes
t0_parameters = 0x11 ∷ 0x00 ∷ 0x00 ∷ 0x0a ∷ 0x00 ∷ []

pub data CcidError : Type 0 where
  short_frame bad_length unsupported_message overflow : CcidError

-- `u32::from_le_bytes`, over bytes 1 to 4 of a frame.
abbrev pub declared : Bytes → ℕ
declared frame = at frame 1 + at frame 2 * 256 + at frame 3 * 65536 + at frame 4 * 16777216

pub record Header : Type 0 where
  pub message_type : ℕ
  pub length : ℕ
  pub slot : ℕ
  pub sequence : ℕ
  pub specific : Bytes

unfoldable pub parse_header : Bytes → Result CcidError Header
parse_header frame =
    if ltb (length frame) header_len
    then err short_frame
    else if not (declared frame + header_len == length frame)
    then err bad_length
    else ok (record {
      message_type = at frame 0;
      length = declared frame;
      slot = at frame 5;
      sequence = at frame 6;
      specific = at frame 7 ∷ at frame 8 ∷ at frame 9 ∷ [];
    })

pub data Request : Type 0 where
  icc_power_on : (slot sequence power_select : ℕ) → Request
  icc_power_off : (slot sequence : ℕ) → Request
  get_slot_status : (slot sequence : ℕ) → Request
  set_parameters : (slot sequence protocol : ℕ) (payload : Bytes) → Request
  get_parameters : (slot sequence : ℕ) → Request
  reset_parameters : (slot sequence : ℕ) → Request
  set_data_rate_and_clock : (slot sequence : ℕ) (payload : Bytes) → Request
  xfr_block : (slot sequence bwi level_parameter : ℕ) (payload : Bytes) → Request
  escape : (slot sequence : ℕ) (payload : Bytes) → Request
  abort : (slot sequence : ℕ) → Request

abbrev empty : Bytes → Bool
empty payload = length payload == 0

-- The `match header.message_type`, each arm with its guard.
unfoldable pub request_of : Header → Bytes → Result CcidError Request
request_of h payload =
    if h.message_type == 0x62 && empty payload
    then ok (icc_power_on h.slot h.sequence (at h.specific 0))
    else if h.message_type == 0x63 && empty payload
    then ok (icc_power_off h.slot h.sequence)
    else if h.message_type == 0x65 && empty payload
    then ok (get_slot_status h.slot h.sequence)
    else if h.message_type == 0x61 && length payload == length t0_parameters
    then ok (set_parameters h.slot h.sequence (at h.specific 0) payload)
    else if h.message_type == 0x6c && empty payload
    then ok (get_parameters h.slot h.sequence)
    else if h.message_type == 0x6d && empty payload
    then ok (reset_parameters h.slot h.sequence)
    else if h.message_type == 0x73 && length payload == 8
    then ok (set_data_rate_and_clock h.slot h.sequence payload)
    else if h.message_type == 0x6f
    then ok (
        xfr_block h.slot h.sequence (at h.specific 0) (at h.specific 1 + at h.specific 2 * 256)
          payload)
    else if h.message_type == 0x6b
    then ok (escape h.slot h.sequence payload)
    else if h.message_type == 0x72 && empty payload
    then ok (abort h.slot h.sequence)
    else err unsupported_message

unfoldable pub parse_request : Bytes → Result CcidError Request
unfolding parse_header request_of
parse_request frame = do h ← parse_header frame; request_of h (drop header_len frame)

unfoldable pub request_sequence : Request → ℕ
request_sequence (icc_power_on slot sequence p) = sequence
request_sequence (icc_power_off slot sequence) = sequence
request_sequence (get_slot_status slot sequence) = sequence
request_sequence (set_parameters slot sequence p d) = sequence
request_sequence (get_parameters slot sequence) = sequence
request_sequence (reset_parameters slot sequence) = sequence
request_sequence (set_data_rate_and_clock slot sequence d) = sequence
request_sequence (xfr_block slot sequence b l d) = sequence
request_sequence (escape slot sequence d) = sequence
request_sequence (abort slot sequence) = sequence

pub request_slot : Request → ℕ
request_slot (icc_power_on slot sequence p) = slot
request_slot (icc_power_off slot sequence) = slot
request_slot (get_slot_status slot sequence) = slot
request_slot (set_parameters slot sequence p d) = slot
request_slot (get_parameters slot sequence) = slot
request_slot (reset_parameters slot sequence) = slot
request_slot (set_data_rate_and_clock slot sequence d) = slot
request_slot (xfr_block slot sequence b l d) = slot
request_slot (escape slot sequence d) = slot
request_slot (abort slot sequence) = slot

pub record Response : Type 0 where
  pub message_type : ℕ
  pub sequence : ℕ
  pub status : ℕ
  pub error : ℕ
  pub specific : Bytes
  pub payload : Bytes  -- `data`

abbrev response : ℕ → ℕ → ℕ → ℕ → Bytes → Bytes → Response
response message_type sequence status error specific payload = record {
  message_type = message_type;
  sequence = sequence;
  status = status;
  error = error;
  specific = specific;
  payload = payload;
}

abbrev pub data_block : ℕ → Bytes → Response
data_block sequence payload = response 0x80 sequence 0 0 (0 ∷ 0 ∷ 0 ∷ []) payload

abbrev pub data_block_failed : ℕ → Response
data_block_failed sequence = response 0x80 sequence status_failed error_occurred (0 ∷ 0 ∷ 0 ∷ []) []

abbrev pub slot_status : ℕ → ℕ → Response
slot_status sequence icc_status = response 0x81 sequence (bit_or 0 icc_status) 0 (0 ∷ 0 ∷ 0 ∷ []) []

abbrev pub slot_status_failed : ℕ → Response
slot_status_failed sequence =
    response 0x81 sequence (bit_or status_failed icc_status_inactive) error_unsupported
      (0 ∷ 0 ∷ 0 ∷ []) []

abbrev pub data_rate_and_clock : ℕ → Bytes → Response
data_rate_and_clock sequence payload = response 0x84 sequence 0 0 (0 ∷ 0 ∷ 0 ∷ []) payload

abbrev pub parameters : ℕ → ℕ → Bytes → Response
parameters sequence protocol payload = response 0x82 sequence 0 0 (protocol ∷ 0 ∷ 0 ∷ []) payload

abbrev pub parameters_failed : ℕ → Response
parameters_failed sequence =
    response 0x82 sequence status_failed error_unsupported (0 ∷ 0 ∷ 0 ∷ []) []

-- `Response::escape`
abbrev pub escape_response : ℕ → Bytes → Response
escape_response sequence payload = response 0x83 sequence 0 0 (0 ∷ 0 ∷ 0 ∷ []) payload

-- The ten bytes of a header: `write_header_into`, and the bytes 7, 8 and 9 that its callers set.
abbrev pub header_bytes : ℕ → ℕ → ℕ → ℕ → ℕ → ℕ → Bytes
header_bytes message_type payload_len sequence status error specific =
    message_type ∷ (le32 payload_len ++ 0 ∷ sequence ∷ status ∷ error ∷ specific ∷ [])

-- A buffer written into: the number of bytes, and the buffer after it.
unfoldable pub encode_into : Response → Bytes → Result CcidError (ℕ × Bytes)
encode_into r out =
    let total = header_len + length r.payload in
    if ltb (length out) total
    then err overflow
    else let head =
        header_bytes r.message_type (length r.payload) r.sequence r.status r.error
          (at r.specific 0) in
      ok (total, copy_at header_len r.payload (copy_at 0 head out))

pub write_data_block_header : ℕ → ℕ → Bytes → Result CcidError Bytes
write_data_block_header sequence payload_len out =
    if ltb (length out) (header_len + payload_len)
    then err overflow
    else ok (copy_at 0 (header_bytes rdr_to_pc_data_block payload_len sequence 0 0 0) out)

-- The assembler is its buffer, of capacity `N`.
unfoldable pub feed : ℕ → Bytes → Bytes → Result CcidError (Unit {0}) × Bytes
feed capacity buffer chunk =
    if ltb capacity (length buffer + length chunk)
    then (err overflow, buffer)
    else (ok tt, buffer ++ chunk)

pub pending : ℕ → Bytes → Result CcidError (Option Bytes)
pending capacity buffer =
    if ltb (length buffer) header_len
    then ok none
    else if ltb (capacity - header_len) (declared buffer)
    then err overflow
    else if ltb (length buffer) (header_len + declared buffer)
    then ok none
    else ok (some (take (header_len + declared buffer) buffer))

pub consume : Bytes → ℕ → Bytes
consume buffer frame_len = if leb (length buffer) frame_len then [] else drop frame_len buffer
