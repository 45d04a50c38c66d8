-- ===== src/Core/Management/Reports.antt =====
-- crates/aegis-core/src/management.rs: reports parse back to their frames.
use aegis_token.Base.{
  ℕ, ◌/◌, ◌%◌, ◌^◌, ◌≤◌, ◌<◌, ◌≡◌, ◌∙◌, ok, ◌∷◌, Bytes, length, zeros, overlay, length-overlay,
  length-replicate, arith,
}
use aegis_token.Core.Management.{
  init_frame, cont_frame, init_report, cont_report, parse_report, payload_per_report,
  protocol_version,
}

-- A fragment in a field of 59 bytes, filled up with zeros.
abbrev pub padded : Bytes → Bytes
padded fragment = overlay fragment (zeros payload_per_report)

pub length-padded : (fragment : Bytes) → length (padded fragment) ≡ 59
length-padded fragment = length-overlay fragment (zeros 59) ∙ length-replicate {A = ℕ} 59 0

abbrev pub wire : ℕ → ℕ → ℕ → Bytes → Bytes
wire command word flags fragment =
    protocol_version ∷ command ∷ word % 256 ∷ word / 256 % 256 ∷ flags ∷ padded fragment

pub init_report_lem :
    (command total_length : ℕ) (fragment : Bytes)
    → length fragment ≤ payload_per_report
    → init_report command total_length fragment ≡ ok (wire command total_length 0 fragment)
unfolding init_report
init_report_lem command total_length fragment fits = ground arith

pub cont_report_lem :
    (command sequence : ℕ) (fragment : Bytes)
    → length fragment ≤ payload_per_report
    → cont_report command sequence fragment ≡ ok (wire command sequence 1 fragment)
unfolding cont_report
cont_report_lem command sequence fragment fits = ground arith

pub parse-init_wire :
    (command total_length : ℕ) (fragment : Bytes)
    → total_length < 2 ^ 16
    → parse_report (wire command total_length 0 fragment)
      ≡ ok (init_frame command total_length (padded fragment))
unfolding parse_report
parse-init_wire command total_length fragment small = ground (arith, length-padded fragment)

pub parse-cont_wire :
    (command sequence : ℕ) (fragment : Bytes)
    → sequence < 2 ^ 16
    → parse_report (wire command sequence 1 fragment)
      ≡ ok (cont_frame command sequence (padded fragment))
unfolding parse_report
parse-cont_wire command sequence fragment small = ground (arith, length-padded fragment)
