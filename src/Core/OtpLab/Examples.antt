-- ===== src/Core/OtpLab/Examples.antt =====
-- Concrete reports of crates/aegis-core/src/otp_lab.rs.
use aegis_token.Base.{◌≡◌, refl, ok, some, [], ◌∷◌, Bytes, arith}
use aegis_token.Core.OtpLab.Replies.{Answered, handle_report_lem}
use aegis_token.Core.OtpLab.{
  ping, info, unknown, success, Status, encode_request, parse_request, handle_report, info_text,
  any_nonzero, from_code, code, encode,
}
use aegis_token.Core.OtpLab.Frames.{wire, encode-parse_request}

abbrev ping_report : Bytes
ping_report = wire ping 7 success (1 ∷ 2 ∷ 3 ∷ [])

encode-parse_request_example : encode_request ping 7 (1 ∷ 2 ∷ 3 ∷ []) ≡ ok ping_report
unfolding parse_request any_nonzero from_code code
encode-parse_request_example =
    encode-parse_request ping_report
      (record { channel = 7; command = ping; payload = 1 ∷ 2 ∷ 3 ∷ [] }) (ground arith) refl

info_reply : handle_report (wire info 7 success []) ≡ some (wire info 7 success info_text)
unfolding handle_report parse_request any_nonzero from_code code encode
info_reply = refl

unknown_reply :
    handle_report (wire (unknown 9) 7 success (1 ∷ []))
    ≡ some (wire (unknown 9) 7 Status.unknown_command [])
unfolding handle_report parse_request any_nonzero from_code code encode
unknown_reply = refl

handle_report_lem_example : Answered ping_report (parse_request ping_report)
handle_report_lem_example = handle_report_lem ping_report
