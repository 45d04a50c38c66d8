-- ===== src/Core/CtapHid/Packets.antt =====
-- What is written into a report is what is read from it.
use aegis_token.Base.{
  length-replicate, ◌/◌, ◌∷◌, be32, be16, from_be32, from_be16, ℕ, ◌+◌, ◌-◌, ◌^◌, ◌≤◌, ◌<◌, ◌%◌,
  ◌≡◌, ap, ◌∙◌, ok, Bytes, length, zeros, overlay, length-overlay, from_be32_to_be, from_be16_to_be,
  low_seven, top_bit, set_top, arith, bit_and, bit_or, ◌++◌,
}
use aegis_token.Core.CtapHid.{
  CtapHidCommand, code, from_code, init_packet, cont_packet, init_report, cont_report, parse_report,
  init_data_len, cont_data_len,
}
use aegis_token.Core.CtapHid.Channels.{IsDecoded, from_code-code}

-- A fragment in a field of n bytes, filled up with zeros.
abbrev pub padded : ℕ → Bytes → Bytes
padded n fragment = overlay fragment (zeros n)

abbrev command_byte : CtapHidCommand → ℕ
command_byte command = bit_or 0x80 (bit_and (code command) 0x7f)

abbrev init_wire : ℕ → CtapHidCommand → ℕ → Bytes → Bytes
init_wire channel command len fragment =
    be32 channel ++ (command_byte command ∷ (be16 len ++ padded init_data_len fragment))

abbrev cont_wire : ℕ → ℕ → Bytes → Bytes
cont_wire channel sequence fragment = be32 channel ++ (sequence ∷ padded cont_data_len fragment)

pub length-padded : (n : ℕ) (fragment : Bytes) → length (padded n fragment) ≡ n
length-padded n fragment = length-overlay fragment (zeros n) ∙ length-replicate n 0

-- The command byte has its top bit set, and the code below it.
command_byte_lem :
    (command : CtapHidCommand) → code command < 128 → command_byte command ≡ code command + 128
command_byte_lem command h =
    ap (bit_or 0x80) (low_seven (code command) (omega arith) ∙ omega arith)
    ∙ set_top (code command) h

-- What a report with the fragment field `field` parses to, by its command byte b.
parse_init :
    (c0 c1 c2 c3 b l0 l1 : ℕ) (field : Bytes)
    → 128 ≤ b
    → b < 256
    → length field ≡ 57
    → parse_report (c0 ∷ c1 ∷ c2 ∷ c3 ∷ b ∷ l0 ∷ l1 ∷ field)
      ≡ ok (init_packet (from_be32 c0 c1 c2 c3) (from_code (b - 128)) (from_be16 l0 l1) field)
unfolding parse_report
parse_init c0 c1 c2 c3 b l0 l1 field h k e = ground (arith, top_bit b k, low_seven b k)

parse_cont :
    (c0 c1 c2 c3 b : ℕ) (field : Bytes)
    → b < 128
    → length field ≡ 59
    → parse_report (c0 ∷ c1 ∷ c2 ∷ c3 ∷ b ∷ field)
      ≡ ok (cont_packet (from_be32 c0 c1 c2 c3) b field)
unfolding parse_report
parse_cont c0 c1 c2 c3 b field h e = ground (arith, top_bit b, low_seven b)

-- A report built for an initialization packet has 64 bytes, and parses to its channel, command
-- and length, and to its fragment with zeros up to the end of the report.
pub parse-init_report :
    (channel len : ℕ) (command : CtapHidCommand) (fragment : Bytes)
    → channel < 2 ^ 32
    → len < 2 ^ 16
    → code command < 128
    → IsDecoded command
    → length fragment ≤ init_data_len
    → (report : Bytes) × (init_report channel command len fragment ≡ ok report)
      × (length report ≡ 64)
      × (parse_report report ≡ ok (init_packet channel command len (padded init_data_len fragment)))
unfolding init_report
parse-init_report channel len command fragment hc hl hk hd hf = (
  init_wire channel command len fragment,
  ground arith,
  omega (arith, length-padded 57 fragment),
  ground (
    arith,
    parse_init (channel / 16777216 % 256) (channel / 65536 % 256) (channel / 256 % 256)
        (channel % 256) (command_byte command) (len / 256 % 256) (len % 256) (padded 57 fragment),
    command_byte_lem command hk,
    from_be32_to_be channel hc,
    from_be16_to_be len hl,
    from_code-code command hd,
    length-padded 57 fragment,
  ),
)

-- A report built for a continuation packet has 64 bytes, and parses to its channel and sequence
-- number, and to its fragment with zeros up to the end of the report.
pub parse-cont_report :
    (channel sequence : ℕ) (fragment : Bytes)
    → channel < 2 ^ 32
    → sequence ≤ 127
    → length fragment ≤ cont_data_len
    → (report : Bytes) × (cont_report channel sequence fragment ≡ ok report)
      × (length report ≡ 64)
      × (parse_report report ≡ ok (cont_packet channel sequence (padded cont_data_len fragment)))
unfolding cont_report
parse-cont_report channel sequence fragment hc hs hf = (
  cont_wire channel sequence fragment,
  ground arith,
  omega (arith, length-padded 59 fragment),
  ground (
    arith,
    parse_cont (channel / 16777216 % 256) (channel / 65536 % 256) (channel / 256 % 256)
        (channel % 256) sequence (padded 59 fragment),
    from_be32_to_be channel hc,
    length-padded 59 fragment,
  ),
)
