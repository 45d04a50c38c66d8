-- ===== src/Applets/Ccid/Frames.antt =====
-- crates/aegis-applets/src/ccid.rs: frames, as `pending`, `consume` and `encode_into` see them.
use aegis_token.Base.{
  ℕ, ◌+◌, ◌≤◌, ◌<◌, ◌≡◌, refl, sym, ap, ◌∙◌, ok, none, some, [], ◌∷◌, ◌++◌, length, take, drop,
  Bytes, at, length-append, drop-append, arith, take-append_at, get_or-append_lt, dec_lt,
  length-zero, length-drop, drop-append_at, ◌>>=◌, overlay, overlay-eq-append, copy_at-append,
  drop-drop, ◌^◌,
}
use aegis_token.Applets.Ccid.{
  declared, header_len, pending, consume, Response, encode_into, header_bytes, Header, parse_header,
  write_data_block_header, data_block,
}

-- A frame that declares its own length and fits the buffer.
pub record IsFrame (capacity : ℕ) (frame : Bytes) : Type 0 where
  pub whole : length frame ≡ header_len + declared frame
  pub fits : length frame ≤ capacity

pub declared-append :
    (frame rest : Bytes) → header_len ≤ length frame → declared (frame ++ rest) ≡ declared frame
declared-append frame rest h = omega (
  arith,
  get_or-append_lt 1 frame rest 0 (omega arith),
  get_or-append_lt 2 frame rest 0 (omega arith),
  get_or-append_lt 3 frame rest 0 (omega arith),
  get_or-append_lt 4 frame rest 0 (omega arith),
)

-- With a whole frame at the front, `pending` answers with it, and `consume` leaves what follows.
pub pending-append :
    (capacity : ℕ) (frame rest : Bytes)
    → IsFrame capacity frame
    → (pending capacity (frame ++ rest) ≡ ok (some frame))
      × (consume (frame ++ rest) (length frame) ≡ rest)
unfolding pending consume
pending-append capacity frame rest h = (
  ground (
    arith,
    declared-append frame rest (omega arith),
    length-append frame rest,
    take-append_at (10 + declared frame) frame rest,
  ),
  ground (arith, length-append frame rest, drop-append frame rest, length-zero rest),
)

-- A part of a frame waits for more.
pub pending_partial :
    (capacity : ℕ) (frame buffer rest more : Bytes)
    → IsFrame capacity frame
    → buffer ++ rest ≡ frame ++ more
    → length buffer < length frame
    → pending capacity buffer ≡ ok none
pending_partial capacity frame buffer rest more h e lt = elim (dec_lt (length buffer) header_len) [
  | yes short ↦ unfold pending in ground arith
  | no long ↦
      let same : declared buffer ≡ declared frame =
        sym (declared-append buffer rest (omega arith))
        ∙ ap (λ (b : Bytes). declared b) e
        ∙ declared-append frame more (omega arith) in
      unfold pending in ground arith
]

unfoldable pub frame_of : Response → Bytes
frame_of r =
    header_bytes r.message_type (length r.payload) r.sequence r.status r.error (at r.specific 0)
    ++ r.payload

-- What `encode_into` leaves in the buffer.
pub encode_into-eq-append :
    (r : Response) (out : Bytes)
    → header_len + length r.payload ≤ length out
    → encode_into r out
      ≡ ok (header_len + length r.payload, frame_of r ++ drop (header_len + length r.payload) out)
unfolding encode_into frame_of
encode_into-eq-append r out h =
    let head =
      header_bytes r.message_type (length r.payload) r.sequence r.status r.error
        (at r.specific 0) in
    let first : overlay head out ≡ head ++ drop 10 out = overlay-eq-append head out (omega arith) in
    let second = copy_at-append 10 head r.payload (drop 10 out) refl in
    let third = overlay-eq-append r.payload (drop 10 out) (omega (arith, length-drop 10 out)) in
    let fourth = drop-drop (length r.payload) 10 out in
    rw (first, second, third, fourth) (ground arith)

pub header_of : Response → Header
header_of r = record {
  message_type = r.message_type;
  length = length r.payload;
  slot = 0;
  sequence = r.sequence;
  specific = r.status ∷ r.error ∷ at r.specific 0 ∷ [];
}

frame_of-parses :
    (r : Response) → length r.payload < 2 ^ 32 → parse_header (frame_of r) ≡ ok (header_of r)
unfolding frame_of parse_header header_of
frame_of-parses r h = ground arith

-- With a payload below 2 ^ 32 bytes and room in the buffer, a response is encoded to a frame whose
-- header parses back to the type, length, sequence number and specific bytes of the response, with
-- slot 0, and whose payload is its own; the buffer behind the frame is as it was.
pub encode_into-parse_header :
    (r : Response) (out : Bytes)
    → length r.payload < 2 ^ 32
    → header_len + length r.payload ≤ length out
    → (written : Bytes) × (encode_into r out ≡ ok (header_len + length r.payload, written))
      × (parse_header (take (header_len + length r.payload) written) ≡ ok (header_of r))
      × (drop header_len (take (header_len + length r.payload) written) ≡ r.payload)
      × (drop (header_len + length r.payload) written ≡ drop (header_len + length r.payload) out)
unfolding frame_of
encode_into-parse_header r out small room =
    let total = header_len + length r.payload in
    let after = drop total out in
    let sized : total ≡ length (frame_of r) = omega arith in
    let whole = take-append_at total (frame_of r) after sized in
    (
      frame_of r ++ after,
      encode_into-eq-append r out room,
      ap (λ (f : Bytes). parse_header f) whole ∙ frame_of-parses r small,
      ap (λ (f : Bytes). drop header_len f) whole,
      drop-append_at total (frame_of r) after sized,
    )

-- The header put in front of a payload that stands in its place.
pub write_data_block_header-append :
    (sequence : ℕ) (before payload after : Bytes)
    → length before ≡ header_len
    → write_data_block_header sequence (length payload) (before ++ (payload ++ after))
      ≡ ok (frame_of (data_block sequence payload) ++ after)
unfolding write_data_block_header frame_of
write_data_block_header-append sequence before payload after h =
    let out = before ++ (payload ++ after) in
    let head = header_bytes 0x80 (length payload) sequence 0 0 0 in
    let behind : drop 10 out ≡ payload ++ after =
      drop-append_at 10 before (payload ++ after) (omega arith) in
    let first : overlay head out ≡ head ++ drop 10 out =
      overlay-eq-append head out (omega (arith, length-append before (payload ++ after))) in
    ground
      (arith, first, behind, length-append before (payload ++ after), length-append payload after)

-- Where a payload stands in its place in the buffer, behind ten bytes, writing the header in front
-- of it is encoding the data block of that payload.
pub write_data_block_header-eq-encode_into :
    (sequence : ℕ) (before payload after : Bytes)
    → length before ≡ header_len
    → let out = before ++ (payload ++ after) in
      encode_into (data_block sequence payload) out ≡ (
        write_data_block_header sequence (length payload) out >>= λ written.
        ok (header_len + length payload, written))
unfolding write_data_block_header frame_of
write_data_block_header-eq-encode_into sequence before payload after h =
    let out = before ++ (payload ++ after) in
    let room : header_len + length payload ≤ length out =
      omega (arith, length-append before (payload ++ after), length-append payload after) in
    let behind = drop-append_at 10 before (payload ++ after) (omega arith) in
    let left : drop (10 + length payload) out ≡ after =
      sym (drop-drop (length payload) 10 out)
      ∙ ap (drop (length payload)) behind
      ∙ drop-append payload after in
    rw (encode_into-eq-append (data_block sequence payload) out room, left)
      (rw (write_data_block_header-append sequence before payload after h) refl)
