-- ===== src/Applets/Tlv/Lengths.antt =====
-- The length field reads back.
use aegis_token.Base.{
  ℕ, ◌+◌, ◌*◌, ◌/◌, ◌%◌, ◌^◌, ◌<◌, ◌≡◌, ◌∙◌, some, [], ◌∷◌, ◌++◌, length, Bytes, bit_or,
  bit_or-byte, arith,
}
use aegis_token.Applets.Tlv.{read_length, length_loop, length_encoded_len, length_bytes}

-- The length field that `write_length` writes.
abbrev pub length_field : ℕ → Bytes
length_field len = length_bytes (length_encoded_len len) len

or_zero : (b : ℕ) → b < 256 → bit_or 0 b ≡ b
or_zero b h = bit_or-byte 0 b h ∙ omega arith

loop_two : (a b : ℕ) → a < 256 → b < 256 → length_loop 0 (a ∷ b ∷ []) ≡ a * 256 + b
unfolding length_loop
loop_two a b h k = rw (or_zero a h) (bit_or-byte a b k)

loop_three :
    (a b c : ℕ)
    → a < 256
    → b < 256
    → c < 256
    → length_loop 0 (a ∷ b ∷ c ∷ []) ≡ (a * 256 + b) * 256 + c
unfolding length_loop
loop_three a b c h k l = rw (or_zero a h) (rw (bit_or-byte a b k) (bit_or-byte (a * 256 + b) c l))

loop_one : (a : ℕ) → a < 256 → length_loop 0 (a ∷ []) ≡ a
unfolding length_loop
loop_one a h = or_zero a h

read_one : (a : ℕ) (rest : Bytes) → a < 128 → read_length (a ∷ rest) ≡ some (a, 1)
unfolding read_length
read_one a rest h = ground arith

read_two : (a : ℕ) (rest : Bytes) → a < 256 → read_length (0x81 ∷ a ∷ rest) ≡ some (a, 2)
unfolding read_length
read_two a rest h = ground (arith, loop_one a h)

read_three :
    (a b : ℕ) (rest : Bytes)
    → a < 256
    → b < 256
    → read_length (0x82 ∷ a ∷ b ∷ rest) ≡ some (a * 256 + b, 3)
unfolding read_length
read_three a b rest h k = ground (arith, loop_two a b h k)

read_four :
    (a b c : ℕ) (rest : Bytes)
    → a < 256
    → b < 256
    → c < 256
    → read_length (0x83 ∷ a ∷ b ∷ c ∷ rest) ≡ some ((a * 256 + b) * 256 + c, 4)
unfolding read_length
read_four a b c rest h k l = ground (arith, loop_three a b c h k l)

-- A length below 2 ^ 24 reads back from its field, whatever follows, with the field's size.
pub read_length-length_field :
    (len : ℕ) (rest : Bytes)
    → len < 2 ^ 24
    → (read_length (length_field len ++ rest) ≡ some (len, length_encoded_len len))
      × (length (length_field len) ≡ length_encoded_len len)
unfolding length_encoded_len
read_length-length_field len rest h = ground (
  arith,
  read_one (len % 256) rest,
  read_two (len % 256) rest,
  read_three (len % 65536 / 256 % 256) (len % 65536 % 256) rest,
  read_four (len / 65536 % 256) (len / 256 % 256) (len % 256) rest,
)

pub length-length_field : (len : ℕ) → length (length_field len) ≡ length_encoded_len len
unfolding length_encoded_len
length-length_field len = ground arith
