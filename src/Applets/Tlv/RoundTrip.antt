-- ===== src/Applets/Tlv/RoundTrip.antt =====
-- Elements: what is written is read back, and what is read lies in the input.
use aegis_token.Base.{
  All, if◌then◌else◌, ℕ, zero, suc, ◌+◌, ◌^◌, ◌≤◌, ◌<◌, ◌≡◌, refl, ◌==◌, Option, none, some, List,
  [], ◌∷◌, ◌++◌, append_assoc, length, Bytes, length-append, take-append_at, drop-append_at,
  drop-drop, arith,
}
use aegis_token.Applets.Tlv.{
  Tlv, read_tag, read_length, next, find, find_on, tag_encoded_len, length_encoded_len,
}
use aegis_token.Applets.Tlv.Lengths.{length_field, read_length-length_field}
use aegis_token.Applets.Tlv.Tags.{IsTag, tag_field, read_tag-tag_field}

-- `tag || length || value`
unfoldable pub encoding : ℕ → Bytes → Bytes
encoding tag value = tag_field tag ++ (length_field (length value) ++ value)

abbrev element : ℕ → Bytes → Tlv
element tag value = record { tag = tag; value = value }

-- A step over two headers that are read, and a value of the length that they give.
next_of_headers :
    (tag tag_len length_len : ℕ) (t l value rest : Bytes)
    → read_tag (t ++ (l ++ (value ++ rest))) ≡ some (tag, tag_len)
    → length t ≡ tag_len
    → read_length (l ++ (value ++ rest)) ≡ some (length value, length_len)
    → length l ≡ length_len
    → next (t ++ (l ++ (value ++ rest))) ≡ some (element tag value, rest)
unfolding next
next_of_headers tag tag_len length_len t l value rest rt lt rl ll = ground (
  arith,
  rt,
  drop-append_at tag_len t (l ++ (value ++ rest)),
  rl,
  drop-append_at length_len l (value ++ rest),
  drop-drop length_len tag_len (t ++ (l ++ (value ++ rest))),
  drop-drop (length value) (tag_len + length_len) (t ++ (l ++ (value ++ rest))),
  take-append_at (length value) value rest,
  drop-append_at (length value) value rest,
  length-append t (l ++ (value ++ rest)),
  length-append l (value ++ rest),
  length-append value rest,
)

-- One step of the reader over a written element takes exactly that element, whatever follows it,
-- for a tag of one to three bytes and a value below 2 ^ 24 bytes.
pub next-encoding :
    (tag : ℕ) (value rest : Bytes)
    → IsTag tag
    → length value < 2 ^ 24
    → next (encoding tag value ++ rest) ≡ some (element tag value, rest)
unfolding encoding
next-encoding tag value rest ht hv =
    let (rt, lt) = read_tag-tag_field tag (length_field (length value) ++ (value ++ rest)) ht in
    let (rl, ll) = read_length-length_field (length value) (value ++ rest) hv in
    simp append_assoc (
      next_of_headers tag (tag_encoded_len tag) (length_encoded_len (length value)) (tag_field tag)
        (length_field (length value)) value rest rt lt rl ll)

-- Elements written one after the other, and the first value under a tag among them.
pub encodings : List Tlv → Bytes
encodings [] = []
encodings (e ∷ es) = encoding e.tag e.value ++ encodings es

abbrev pub first_value : List Tlv → ℕ → Option Bytes
first_value [] tag = none
first_value (e ∷ es) tag = if e.tag == tag then some e.value else first_value es tag

abbrev pub IsWritable : Tlv → Type 0
IsWritable e = IsTag e.tag × (length e.value < 2 ^ 24)

next-nil : next [] ≡ none
unfolding next read_tag
next-nil = refl

find_on-encodings :
    (fuel : ℕ) (es : List Tlv) (tag : ℕ)
    → All IsWritable es
    → length es ≤ fuel
    → find_on fuel (encodings es) tag ≡ first_value es tag
unfolding find_on encodings
find_on-encodings zero [] tag h k = refl
find_on-encodings (suc fuel) [] tag h k = ground (arith, next-nil)
find_on-encodings zero (e ∷ es) tag h k = absurd (omega arith)
find_on-encodings (suc fuel) (e ∷ es) tag h k = ground (
  arith,
  next-encoding e.tag e.value (encodings es) h.0.0 h.0.1,
  find_on-encodings fuel es tag h.1 (omega arith),
)

encoding_pos : (tag : ℕ) (value : Bytes) → 0 < length (encoding tag value)
unfolding encoding tag_encoded_len
encoding_pos tag value =
    ground (arith, length-append (tag_field tag) (length_field (length value) ++ value))

length-encodings : (es : List Tlv) → length es ≤ length (encodings es)
unfolding encodings
length-encodings [] = omega arith
length-encodings (e ∷ es) = omega (
  arith,
  encoding_pos e.tag e.value,
  length-append (encoding e.tag e.value) (encodings es),
  length-encodings es,
)

-- `find` over written elements answers with the value of the first of them that has the tag, and
-- with nothing when none has it.
pub find-encodings :
    (es : List Tlv) (tag : ℕ) → All IsWritable es → find (encodings es) tag ≡ first_value es tag
unfolding find
find-encodings es tag h = find_on-encodings (length (encodings es)) es tag h (length-encodings es)
