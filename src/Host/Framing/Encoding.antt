-- ===== src/Host/Framing/Encoding.antt =====
-- crates/aegistoken-host/src/framing.rs: `encode` never panics, and what its reports are.
use aegis_token.Base.{
  ℕ, zero, suc, ◌+◌, ◌%◌, ◌^◌, min, ◌≡◌, refl, true, false, ltb, dec_lt, if◌then◌else◌, some, List,
  [], ◌∷◌, Bytes, length, take, length-take, arith,
}
use aegis_token.Core.Management.Reports.{wire, init_report_lem, cont_report_lem}
use aegis_token.Core.Management.Assembly.{cut, length-cut}
use aegis_token.Host.Framing.{encode, encode_loop}

-- The continuation reports from an offset on, on fuel.
unfoldable pub conts : ℕ → ℕ → Bytes → ℕ → ℕ → List Bytes
conts zero command payload offset seq = []
conts (suc fuel) command payload offset seq =
    let stop = min (offset + 59) (length payload) in
    let rest = conts fuel command payload stop ((seq + 1) % 2 ^ 16) in
    if ltb offset (length payload) then wire command seq 1 (cut payload offset stop) ∷ rest else []

abbrev pub reports : ℕ → Bytes → List Bytes
reports command payload =
    let first = min (length payload) 59 in
    wire command (length payload % 2 ^ 16) 0 (take first payload)
    ∷ conts (length payload) command payload first 0

loop_lem :
    (fuel command : ℕ) (payload : Bytes) (offset seq : ℕ)
    → encode_loop fuel command payload offset seq ≡ some (conts fuel command payload offset seq)
unfolding encode_loop conts
loop_lem zero command payload offset seq = refl
loop_lem (suc fuel) command payload offset seq =
    let stop = min (offset + 59) (length payload) in
    let rest = loop_lem fuel command payload stop ((seq + 1) % 2 ^ 16) in
    let l = length-cut payload offset stop (omega arith) in
    let report = cont_report_lem command seq (cut payload offset stop) (omega arith) in
    elim (dec_lt offset (length payload)) [
      | yes more ↦
          let go : ltb offset (length payload) ≡ true = ground arith in rw (go, report, rest) refl
      | no done ↦ let stay : ltb offset (length payload) ≡ false = ground arith in rw stay refl
    ]

-- `encode` does not panic: its reports are one initialization report and the continuations.
pub encode_lem :
    (command : ℕ) (payload : Bytes) → encode command payload ≡ some (reports command payload)
unfolding encode
encode_lem command payload =
    let first = min (length payload) 59 in
    let report =
      init_report_lem command (length payload % 2 ^ 16) (take first payload)
        (omega (arith, length-take first payload)) in
    rw (report, loop_lem (length payload) command payload first 0) refl
