-- ===== src/Applets/Tlv/Writing.antt =====
-- What `write` leaves in the buffer.
use aegis_token.Base.{
  copy_at-append, ℕ, ◌+◌, ◌≤◌, ◌<◌, ◌≡◌, ap, ◌∙◌, true, false, ltb, none, some, ◌++◌, append_assoc,
  length, drop, Bytes, length-append, take-append_at, drop-append_at, overlay, overlay-eq-append,
  drop-drop, length-drop, arith,
}
use native.Mathlib.Decide.{dec_lt}
use aegis_token.Applets.Tlv.{
  tag_encoded_len, length_encoded_len, encoded_len, write_tag, write_length, write_header,
  write_value, write,
}
use aegis_token.Applets.Tlv.Lengths.{length_field, length-length_field}
use aegis_token.Applets.Tlv.Tags.{tag_field, length-tag_field}
use aegis_token.Applets.Tlv.RoundTrip.{encoding}

-- What a write of `field`, of n bytes, at the front of a buffer leaves.
abbrev front : ℕ → Bytes → Bytes → Bytes
front n field out = field ++ drop n out

overlay-front :
    (n : ℕ) (field out : Bytes)
    → length field ≡ n
    → n ≤ length out
    → overlay field out ≡ front n field out
overlay-front n field out e h = rw (← e) (overlay-eq-append field out (omega arith))

write_tag_lem :
    (tag : ℕ) (out : Bytes)
    → tag_encoded_len tag ≤ length out
    → write_tag tag out
      ≡ some (tag_encoded_len tag, front (tag_encoded_len tag) (tag_field tag) out)
unfolding write_tag tag_encoded_len
write_tag_lem tag out h =
    let room : ltb (length out) (tag_encoded_len tag) ≡ false = ground arith in
    rw (room, write_tag)
      (ap (λ (b : Bytes). some (tag_encoded_len tag, b))
        (overlay-front (tag_encoded_len tag) (tag_field tag) out (length-tag_field tag) h))

write_length_lem :
    (len : ℕ) (out : Bytes)
    → length_encoded_len len ≤ length out
    → write_length len out
      ≡ some (length_encoded_len len, front (length_encoded_len len) (length_field len) out)
unfolding write_length length_encoded_len
write_length_lem len out h =
    let room : ltb (length out) (length_encoded_len len) ≡ false = ground arith in
    rw (room, write_length)
      (ap (λ (b : Bytes). some (length_encoded_len len, b))
        (overlay-front (length_encoded_len len) (length_field len) out (length-length_field len) h))

abbrev header : ℕ → ℕ → Bytes
header tag len = tag_field tag ++ length_field len

write_header_lem :
    (tag len : ℕ) (out : Bytes)
    → tag_encoded_len tag + length_encoded_len len ≤ length out
    → write_header tag len out
      ≡ some (
        tag_encoded_len tag + length_encoded_len len,
        header tag len ++ drop (tag_encoded_len tag + length_encoded_len len) out,
      )
unfolding write_header
write_header_lem tag len out h = ground (
  arith,
  write_tag_lem tag out,
  length-append (tag_field tag) (drop (tag_encoded_len tag) out),
  length-drop (tag_encoded_len tag) out,
  length-tag_field tag,
  take-append_at (tag_encoded_len tag) (tag_field tag) (drop (tag_encoded_len tag) out),
  drop-append_at (tag_encoded_len tag) (tag_field tag) (drop (tag_encoded_len tag) out),
  write_length_lem len (drop (tag_encoded_len tag) out),
  drop-drop (length_encoded_len len) (tag_encoded_len tag) out,
  append_assoc (tag_field tag) (length_field len)
      (drop (tag_encoded_len tag + length_encoded_len len) out),
)

write_tag_short :
    (tag : ℕ) (out : Bytes) → length out < tag_encoded_len tag → write_tag tag out ≡ none
unfolding write_tag tag_encoded_len
write_tag_short tag out h =
    let short : ltb (length out) (tag_encoded_len tag) ≡ true = ground arith in
    rw (short, write_tag)

write_length_short :
    (len : ℕ) (out : Bytes) → length out < length_encoded_len len → write_length len out ≡ none
unfolding write_length length_encoded_len
write_length_short len out h =
    let short : ltb (length out) (length_encoded_len len) ≡ true = ground arith in
    rw (short, write_length)

write_header_short :
    (tag len : ℕ) (out : Bytes)
    → length out < tag_encoded_len tag + length_encoded_len len
    → write_header tag len out ≡ none
unfolding write_header
write_header_short tag len out h = elim (dec_lt (length out) (tag_encoded_len tag)) [
  | yes short ↦ ground (arith, write_tag_short tag out short)
  | no room ↦ ground (
    arith,
    write_tag_lem tag out (omega arith),
    length-append (tag_field tag) (drop (tag_encoded_len tag) out),
    length-drop (tag_encoded_len tag) out,
    length-tag_field tag,
    drop-append_at (tag_encoded_len tag) (tag_field tag) (drop (tag_encoded_len tag) out),
    write_length_short len (drop (tag_encoded_len tag) out),
  )
]

length-header :
    (tag len : ℕ) → tag_encoded_len tag + length_encoded_len len ≡ length (header tag len)
length-header tag len = omega (
  arith,
  length-append (tag_field tag) (length_field len),
  length-tag_field tag,
  length-length_field len,
)

-- A value written behind a header of n bytes at the front of a buffer.
write_value_fits :
    (n : ℕ) (hd value out : Bytes)
    → n ≡ length hd
    → n + length value ≤ length out
    → write_value n value (hd ++ drop n out)
      ≡ some (n + length value, hd ++ (value ++ drop (n + length value) out))
unfolding write_value
write_value_fits n hd value out e h = ground (
  arith,
  length-append hd (drop n out),
  length-drop n out,
  copy_at-append n hd value (drop n out) e,
  overlay-eq-append value (drop n out),
  drop-drop (length value) n out,
)

write_value_short :
    (n : ℕ) (hd value out : Bytes)
    → n ≡ length hd
    → n ≤ length out
    → length out < n + length value
    → write_value n value (hd ++ drop n out) ≡ none
unfolding write_value
write_value_short n hd value out e k h =
    ground (arith, length-append hd (drop n out), length-drop n out)

write_short :
    (tag : ℕ) (value out : Bytes)
    → length out < encoded_len tag (length value)
    → write tag value out ≡ none
unfolding write encoded_len tag_encoded_len length_encoded_len
write_short tag value out h =
    elim (dec_lt (length out) (tag_encoded_len tag + length_encoded_len (length value))) [
      | yes short ↦ rw (write_header_short tag (length value) out short)
      | no room ↦ rw (write_header_lem tag (length value) out (omega arith)) (
          write_value_short (tag_encoded_len tag + length_encoded_len (length value))
            (header tag (length value)) value out (length-header tag (length value)) (omega arith)
            h)
    ]

write_fits :
    (tag : ℕ) (value out : Bytes)
    → encoded_len tag (length value) ≤ length out
    → write tag value out
      ≡ some (
        encoded_len tag (length value),
        encoding tag value ++ drop (encoded_len tag (length value)) out,
      )
unfolding write encoding encoded_len tag_encoded_len length_encoded_len
write_fits tag value out h = rw (write_header_lem tag (length value) out (omega arith)) (
    write_value_fits (tag_encoded_len tag + length_encoded_len (length value))
      (header tag (length value)) value out (length-header tag (length value)) h
    ∙ simp append_assoc)

-- A buffer with room for the element gets its encoding at the front and is otherwise as it was,
-- and the answer is the element's size; a buffer without room is refused.
pub write-eq-encoding :
    (tag : ℕ) (value out : Bytes)
    → let n = encoded_len tag (length value) in
      (n ≤ length out → write tag value out ≡ some (n, encoding tag value ++ drop n out))
      × (length out < n → write tag value out ≡ none)
write-eq-encoding tag value out = (write_fits tag value out, write_short tag value out)
