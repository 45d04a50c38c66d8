-- ===== src/Applets/Apdu/Sw.antt =====
-- The status words of crates/aegis-applets/src/apdu.rs. `Sw` wraps a u16, which stands here bare.
use aegis_token.Base.{ℕ, ◌/◌, ◌%◌, bit_and, bit_or, Bool, ◌==◌, Bytes, [], ◌∷◌}

abbrev pub StatusWord : Type 0
StatusWord = ℕ

abbrev pub ok : StatusWord
ok = 0x9000

abbrev pub wrong_length : StatusWord
wrong_length = 0x6700

abbrev pub file_not_found : StatusWord
file_not_found = 0x6a82

abbrev pub incorrect_parameters : StatusWord
incorrect_parameters = 0x6a86

abbrev pub security_status_not_satisfied : StatusWord
security_status_not_satisfied = 0x6982

abbrev pub authentication_blocked : StatusWord
authentication_blocked = 0x6983

abbrev pub conditions_not_satisfied : StatusWord
conditions_not_satisfied = 0x6985

abbrev pub cla_not_supported : StatusWord
cla_not_supported = 0x6e00

abbrev pub ins_not_supported : StatusWord
ins_not_supported = 0x6d00

abbrev pub no_precise_diagnosis : StatusWord
no_precise_diagnosis = 0x6f00

-- The internal marker: never on the wire.
abbrev pub presence_required : StatusWord
presence_required = 0x6ff0

abbrev pub bytes : StatusWord → Bytes
bytes sw = sw / 256 % 256 ∷ sw % 256 ∷ []

unfoldable pub is_success : StatusWord → Bool
is_success sw = sw == ok

pub retries_left : ℕ → StatusWord
retries_left remaining = bit_or 0x63c0 (bit_and remaining 0x0f)

pub bytes_remaining : ℕ → StatusWord
bytes_remaining remaining = bit_or 0x6100 remaining

pub is_retry_indicator : StatusWord → Bool
is_retry_indicator sw = bit_and sw 0xfff0 == 0x63c0

pub is_bytes_remaining : StatusWord → Bool
is_bytes_remaining sw = bit_and sw 0xff00 == 0x6100
