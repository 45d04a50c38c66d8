-- ===== src/Applets/Apdu/Codec.antt =====
-- The parser of command APDUs against an independent encoder, in both directions.
use aegis_token.Base.{
  get_or-append, from_be16_to_be, ℕ, suc, ◌+◌, ◌%◌, ◌≤◌, ◌<◌, ◌≡◌, refl, Bool, true, false, ok,
  Option, none, some, [], ◌∷◌, ◌++◌, length, Bytes, be16, length-append, take-append_at, arith,
}
use aegis_token.Applets.Apdu.{Apdu, parse, parse_body}

abbrev header : Apdu → Bytes
header a = a.cla ∷ a.ins ∷ a.p1 ∷ a.p2 ∷ []

-- The body of each of the cases 1 to 4, in the short and in the extended encoding. A length of
-- 256, or 65536, is written as zero.
pub encode_body : Bytes → Option ℕ → Bool → Bytes
encode_body [] none extended = []
encode_body [] (some le) false = le % 256 ∷ []
encode_body [] (some le) true = 0 ∷ be16 (le % 65536)
encode_body (x ∷ xs) none false = length (x ∷ xs) ∷ x ∷ xs
encode_body (x ∷ xs) (some le) false = length (x ∷ xs) ∷ (x ∷ xs) ++ le % 256 ∷ []
encode_body (x ∷ xs) none true = 0 ∷ (be16 (length (x ∷ xs)) ++ x ∷ xs)
encode_body (x ∷ xs) (some le) true =
    0 ∷ (be16 (length (x ∷ xs)) ++ ((x ∷ xs) ++ be16 (le % 65536)))

pub encode : Apdu → Bytes
encode a = header a ++ encode_body a.payload a.le a.extended

-- The commands that ISO 7816-4 can write: a length field holds 1 to 256, or 65536, a data field at
-- most 255 bytes, or 65535, and an extended command has a data field or a length.
abbrev pub CanWrite : Bytes → Option ℕ → Bool → Type 0
CanWrite p none false = length p ≤ 255
CanWrite p (some le) false = (length p ≤ 255) × (0 < le) × (le ≤ 256)
CanWrite p none true = (0 < length p) × (length p ≤ 65535)
CanWrite p (some le) true = (length p ≤ 65535) × (0 < le) × (le ≤ 65536)

parse_body-encode :
    (a : Apdu)
    → (p : Bytes) → a.payload ≡ p
    → (l : Option ℕ) → a.le ≡ l
    → (e : Bool) → a.extended ≡ e
    → CanWrite p l e
    → parse_body (header a) (encode_body p l e) ≡ ok a
unfolding encode_body parse_body
parse_body-encode a [] qp none ql false qe h = ground arith
parse_body-encode a [] qp none ql true qe h = absurd (omega arith)
parse_body-encode a [] qp (some le) ql false qe h = ground arith
parse_body-encode a [] qp (some le) ql true qe h = ground arith
parse_body-encode a (x ∷ xs) qp none ql false qe h = ground arith
parse_body-encode a (x ∷ xs) qp (some le) ql false qe h = ground (
  arith,
  length-append (x ∷ xs) (le % 256 ∷ []),
  take-append_at (suc (length xs)) (x ∷ xs) (le % 256 ∷ []),
  get_or-append (suc (length xs)) 0 (x ∷ xs) (le % 256 ∷ []) 0,
)
parse_body-encode a (x ∷ xs) qp none ql true qe h = ground arith
parse_body-encode a (x ∷ xs) qp (some le) ql true qe h = ground (
  arith,
  from_be16_to_be (suc (length xs)),
  from_be16_to_be (le % 65536),
  length-append (x ∷ xs) (be16 (le % 65536)),
  take-append_at (suc (length xs)) (x ∷ xs) (be16 (le % 65536)),
  get_or-append (suc (length xs)) 0 (x ∷ xs) (be16 (le % 65536)) 0,
  get_or-append (suc (length xs) + 1) 1 (x ∷ xs) (be16 (le % 65536)) 0,
)

-- The parser reads back every command that ISO 7816-4 can write: with at most 255 bytes of data
-- and a length of 1 to 256, or at most 65535 and 1 to 65536 in the extended encoding.
pub parse-encode : (a : Apdu) → CanWrite a.payload a.le a.extended → parse (encode a) ≡ ok a
unfolding encode parse
parse-encode a h = ground (arith, parse_body-encode a a.payload refl a.le refl a.extended refl h)
