-- ===== src/Applets/Tlv/Tags.antt =====
-- The tag field reads back.
use aegis_token.Base.{
  ℕ, ◌+◌, ◌*◌, ◌/◌, ◌%◌, ◌^◌, ◌≤◌, ◌<◌, ◌≡◌, ◌≢◌, some, ◌⊎◌, inl, inr, ◌∷◌, ◌++◌, length, Bytes,
  bit_or, bit_or-byte, low_five, top_bit, arith,
}
use aegis_token.Applets.Tlv.{read_tag, tag_encoded_len, tag_bytes}

-- The tag field that `write_tag` writes.
abbrev pub tag_field : ℕ → Bytes
tag_field tag = tag_bytes (tag_encoded_len tag) tag

-- The tags of one to three bytes: the low five bits of the first byte are all set exactly when
-- more bytes follow, and each byte after the first has its top bit set exactly when another does.
abbrev pub IsTag : ℕ → Type 0
IsTag tag =
    (tag ≤ 0xff) × (tag % 32 ≢ 31)
    ⊎ (0xff < tag) × (tag ≤ 0xffff) × (tag / 256 % 32 ≡ 31) × (tag % 256 < 128)
    ⊎ (0xffff < tag)
      × (tag ≤ 0xff_ffff)
      × (tag / 65536 % 32 ≡ 31)
      × (128 ≤ tag / 256 % 256)
      × (tag % 256 < 128)

tag_one : (a : ℕ) (rest : Bytes) → a < 256 → a % 32 ≢ 31 → read_tag (a ∷ rest) ≡ some (a, 1)
unfolding read_tag
tag_one a rest h k = ground (arith, low_five a h)

append_byte : (x b : ℕ) → x < 2 ^ 24 → b < 256 → bit_or (x * 256 % 2 ^ 32) b ≡ x * 256 + b
append_byte x b h k =
    let small : x * 256 % 2 ^ 32 ≡ x * 256 = omega arith in rw small (bit_or-byte x b k)

tag_two :
    (a b : ℕ) (rest : Bytes)
    → a < 256
    → a % 32 ≡ 31
    → b < 128
    → read_tag (a ∷ b ∷ rest) ≡ some (a * 256 + b, 2)
unfolding read_tag
tag_two a b rest h k l = ground (arith, low_five a h, top_bit b, append_byte a b)

tag_three :
    (a b c : ℕ) (rest : Bytes)
    → a < 256
    → a % 32 ≡ 31
    → 128 ≤ b
    → b < 256
    → c < 128
    → read_tag (a ∷ b ∷ c ∷ rest) ≡ some ((a * 256 + b) * 256 + c, 3)
unfolding read_tag
tag_three a b c rest h k l m n =
    ground
      (arith, low_five a h, top_bit b m, top_bit c, append_byte a b, append_byte (a * 256 + b) c)

-- A tag reads back from its field, whatever follows, with the field's size.
pub read_tag-tag_field :
    (tag : ℕ) (rest : Bytes)
    → IsTag tag
    → (read_tag (tag_field tag ++ rest) ≡ some (tag, tag_encoded_len tag))
      × (length (tag_field tag) ≡ tag_encoded_len tag)
unfolding tag_encoded_len
read_tag-tag_field tag rest (inl h) = ground (arith, tag_one (tag / 1 % 256) rest)
read_tag-tag_field tag rest (inr (inl h)) =
    ground (arith, tag_two (tag / 2 ^ 8 % 256) (tag / 1 % 256) rest)
read_tag-tag_field tag rest (inr (inr h)) =
    ground (arith, tag_three (tag / 2 ^ 16 % 256) (tag / 2 ^ 8 % 256) (tag / 1 % 256) rest)

-- A tag of four bytes is read: a first byte with its low five bits set, two bytes with the top bit
-- set, and one without.
pub four_byte_tag :
    (a b c d : ℕ) (rest : Bytes)
    → a < 256
    → a % 32 ≡ 31
    → 128 ≤ b
    → b < 256
    → 128 ≤ c
    → c < 256
    → d < 128
    → read_tag (a ∷ b ∷ c ∷ d ∷ rest) ≡ some (((a * 256 + b) * 256 + c) * 256 + d, 4)
unfolding read_tag
four_byte_tag a b c d rest h k l m n o p = ground (
  arith,
  low_five a h,
  top_bit b m,
  top_bit c o,
  top_bit d,
  append_byte a b,
  append_byte (a * 256 + b) c,
  append_byte ((a * 256 + b) * 256 + c) d,
)

pub length-tag_field : (tag : ℕ) → length (tag_field tag) ≡ tag_encoded_len tag
unfolding tag_encoded_len
length-tag_field tag = ground arith
