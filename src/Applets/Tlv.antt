-- ===== src/Applets/Tlv.antt =====
-- crates/aegis-applets/src/tlv.rs: BER-TLV reading and writing.
pub mod Lengths
pub mod Tags
pub mod RoundTrip
pub mod Writing
mod Examples
use aegis_token.Base.{
  ℕ, zero, suc, ◌+◌, ◌*◌, ◌/◌, ◌%◌, ◌^◌, bit_and, bit_or, Bool, true, false, not, ◌||◌, ◌==◌, ltb,
  leb, if◌then◌else◌, Option, none, some, List, [], ◌∷◌, ◌++◌, length, take, drop, Bytes, at, be16,
  copy_at, and_then,
}

pub record Tlv : Type 0 where
  pub tag : ℕ
  pub value : Bytes

-- The loop of `read_tag`, over the bytes from `index` on. `tag << 8` is a u32.
tag_loop : ℕ → ℕ → Bytes → Option (ℕ × ℕ)
tag_loop index tag [] = none
tag_loop index tag (byte ∷ bytes) =
    let tag' = bit_or (tag * 256 % 2 ^ 32) byte in
    let rest = tag_loop (index + 1) tag' bytes in
    if ltb 3 index then none else if bit_and byte 0x80 == 0 then some (tag', index + 1) else rest

pub read_tag : Bytes → Option (ℕ × ℕ)
unfolding tag_loop
read_tag [] = none
read_tag (first ∷ bytes) =
    if not (bit_and first 0x1f == 0x1f) then some (first, 1) else tag_loop 1 first bytes

-- `length = (length << 8) | byte` over the bytes of the field.
length_loop : ℕ → Bytes → ℕ
length_loop len [] = len
length_loop len (byte ∷ bytes) = length_loop (bit_or (len * 256) byte) bytes

pub read_length : Bytes → Option (ℕ × ℕ)
unfolding length_loop
read_length [] = none
read_length (first ∷ bytes) =
    if ltb first 0x80
    then some (first, 1)
    else let count = bit_and first 0x7f in
      if count == 0 || ltb 3 count || ltb (length (first ∷ bytes)) (1 + count)
      then none
      else some (length_loop 0 (take count bytes), 1 + count)

-- `bytes.get(from..to)` with `to = from + len`.
abbrev slice : Bytes → ℕ → ℕ → Option Bytes
slice bytes from len =
    if leb (from + len) (length bytes) then some (take len (drop from bytes)) else none

-- What `next` makes of the two headers.
next_value : Bytes → ℕ → ℕ → ℕ → ℕ → Option (Tlv × Bytes)
next_value rest tag tag_len len length_len =
    let header = tag_len + length_len in
    and_then (slice rest header len)
      λ value. some (record { tag = tag; value = value }, drop (header + len) rest)

-- `Reader::next`, on the bytes left: the element, and the bytes left after it.
pub next : Bytes → Option (Tlv × Bytes)
unfolding next_value
next rest =
    and_then (read_tag rest)
      λ t. and_then (read_length (drop t.1 rest)) λ l. next_value rest t.0 t.1 l.0 l.1

-- `find`: the value of the first element with the tag. The iterator yields an element for each
-- step, and a step takes two bytes at least, so the number of bytes is fuel enough.
find_on : ℕ → Bytes → ℕ → Option Bytes
find_on zero bytes tag = none
find_on (suc fuel) bytes tag = elim (next bytes) [
  | none ↦ none
  | some (tlv, rest) ↦ elim (tlv.tag == tag) [
    | true ↦ some tlv.value
    | false ↦ find_on fuel rest tag
  ]
]

pub find : Bytes → ℕ → Option Bytes
unfolding find_on
find bytes tag = find_on (length bytes) bytes tag

pub tag_encoded_len : ℕ → ℕ
tag_encoded_len tag = if leb tag 0xff then 1 else if leb tag 0xffff then 2 else 3

pub length_encoded_len : ℕ → ℕ
length_encoded_len len =
    if ltb len 0x80 then 1 else if leb len 0xff then 2 else if leb len 0xffff then 3 else 4

pub encoded_len : ℕ → ℕ → ℕ
unfolding tag_encoded_len length_encoded_len
encoded_len tag len = tag_encoded_len tag + length_encoded_len len + len

-- The bytes of the loop of `write_tag`, for each length that `tag_encoded_len` gives.
abbrev tag_bytes : ℕ → ℕ → Bytes
tag_bytes zero tag = []
tag_bytes (suc n) tag = tag / 2 ^ (8 * n) % 256 ∷ tag_bytes n tag

-- A write: the number of bytes, and the buffer after it.
pub write_tag : ℕ → Bytes → Option (ℕ × Bytes)
unfolding tag_encoded_len
write_tag tag out =
    let len = tag_encoded_len tag in
    if ltb (length out) len then none else some (len, copy_at 0 (tag_bytes len tag) out)

-- The `match needed`.
abbrev length_bytes : ℕ → ℕ → Bytes
length_bytes needed len =
    if needed == 1
    then len % 256 ∷ []
    else if needed == 2
    then 0x81 ∷ len % 256 ∷ []
    else if needed == 3
    then 0x82 ∷ be16 (len % 65536)
    else 0x83 ∷ len / 65536 % 256 ∷ len / 256 % 256 ∷ len % 256 ∷ []

pub write_length : ℕ → Bytes → Option (ℕ × Bytes)
unfolding length_encoded_len
write_length len out =
    let needed = length_encoded_len len in
    if ltb (length out) needed then none else some (needed, copy_at 0 (length_bytes needed len) out)

-- `write_length(len, out.get_mut(tag_len..)?)?` writes into the tail of the buffer.
pub write_header : ℕ → ℕ → Bytes → Option (ℕ × Bytes)
write_header tag len out = and_then (write_tag tag out) λ t.
    if ltb (length t.1) t.0
    then none
    else and_then (write_length len (drop t.0 t.1)) λ l. some (t.0 + l.0, take t.0 t.1 ++ l.1)

-- The value behind a header of `header` bytes: `out.get_mut(header..end)?`.
write_value : ℕ → Bytes → Bytes → Option (ℕ × Bytes)
write_value header value out =
    let end = header + length value in
    if ltb (length out) end then none else some (end, copy_at header value out)

pub write : ℕ → Bytes → Bytes → Option (ℕ × Bytes)
write tag value out = and_then (write_header tag (length value) out) λ h. write_value h.0 value h.1
