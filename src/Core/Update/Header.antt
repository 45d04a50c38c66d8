-- ===== src/Core/Update/Header.antt =====
-- crates/aegis-core/src/update.rs: a header in front of its image.
use aegis_token.Base.{
  ℕ, ◌+◌, ◌≤◌, ◌<◌, ◌≡◌, refl, ap, ◌∙◌, false, ◌++◌, Bytes, length, take, drop, at, ltb,
  length-append, length-drop, get_or-append_lt, take-append_le, drop-append_le, arith,
}
use aegis_token.Core.Update.{parse, fields, slice, header_len}

pub slice-append :
    (i n : ℕ) (xs ys : Bytes) → i + n ≤ length xs → slice (xs ++ ys) i n ≡ slice xs i n
slice-append i n xs ys h =
    ap (take n) (drop-append_le i xs ys (omega arith))
    ∙ take-append_le n (drop i xs) ys (omega (arith, length-drop i xs))

module _ (header image : Bytes) (whole : length header ≡ header_len) where
  at_header : (i : ℕ) → i < 115 → at (header ++ image) i ≡ at header i
  at_header i h = get_or-append_lt i header image 0 (omega arith)

  fields-append : fields (header ++ image) ≡ fields header
  fields-append =
      rw
        (
          at_header 8 (omega arith),
          at_header 9 (omega arith),
          at_header 10 (omega arith),
          at_header 11 (omega arith),
          at_header 12 (omega arith),
          at_header 13 (omega arith),
          at_header 14 (omega arith),
          at_header 15 (omega arith),
          at_header 16 (omega arith),
          at_header 17 (omega arith),
          at_header 18 (omega arith),
          slice-append 19 32 header image (omega arith),
          slice-append 51 64 header image (omega arith),
        )
        refl

  -- A header parses as it does in front of an image.
  pub parse-append : parse (header ++ image) ≡ parse header
  unfolding parse
  parse-append =
      let long : ltb (length (header ++ image)) 115 ≡ false =
        ground (arith, length-append header image) in
      let short : ltb (length header) 115 ≡ false = ground arith in
      rw (long, short, fields-append)
        (rw
          (
            at_header 0 (omega arith),
            at_header 1 (omega arith),
            at_header 2 (omega arith),
            at_header 3 (omega arith),
            at_header 4 (omega arith),
            at_header 5 (omega arith),
            at_header 6 (omega arith),
            at_header 7 (omega arith),
          )
          refl)
