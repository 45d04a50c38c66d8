-- ===== src/Core/ClientPin/Protocol.antt =====
-- crates/aegis-core/src/pin.rs: the subcommands that set, change and prove the PIN. The ciphers, the
-- hashes and the elliptic curve are those of third-party crates, and given.
use aegis_token.Base.{
  ℕ, zero, suc, ◌%◌, bit_and, Bool, true, not, ◌&&◌, ◌||◌, ◌==◌, leb, ltb, if◌then◌else◌, Result,
  ok, err, guard, ◌>>=◌, ◌>>◌, ok_or, Option, none, some, is_some, [], ◌∷◌, ◌++◌, length, take,
  drop, Bytes, zeros, copy_at,
}
use aegis_token.Core.Error.{CoreError}
use aegis_token.Core.ClientPin.{ClientPin, Ctap2Status, ct_eq, ct_eq_prefix}

abbrev pub default_retries : ℕ
default_retries = 8

-- SUB_GET_PIN_TOKEN
abbrev pub sub_get_pin_token : ℕ
sub_get_pin_token = 0x05

-- SUB_GET_PIN_UV_AUTH_TOKEN_WITH_PERMISSIONS
abbrev pub sub_get_token_with_permissions : ℕ
sub_get_token_with_permissions = 0x09

-- PERMISSION_MC | PERMISSION_GA
abbrev pub default_permissions : ℕ
default_permissions = 0x03

-- `!SUPPORTED_PERMISSIONS`
abbrev pub unsupported_permissions : ℕ
unsupported_permissions = 0xf8

pub record Ec2KeyAgreement : Type 0 where
  pub x : Bytes
  pub y : Bytes

pub record ClientPinRequest : Type 0 where
  pub protocol : ℕ
  pub sub_command : ℕ
  pub key_agreement : Option Ec2KeyAgreement
  pub pin_uv_auth_param : Option Bytes
  pub new_pin_enc : Option Bytes
  pub pin_hash_enc : Option Bytes
  pub permissions : Option ℕ
  pub rp_id : Option Bytes

-- The trait `PinState`.
pub record PinState (S : Type 0) : Type 0 where
  pub pin_hash : S → Option Bytes
  pub pin_retries : S → ℕ
  pub set_pin_hash : S → Bytes → Result CoreError (Unit {0}) × S
  pub set_pin_retries : S → ℕ → Result CoreError (Unit {0}) × S
  pub clear_pin_state : S → Result CoreError (Unit {0}) × S

-- What the third-party crates compute.
pub record Crypto : Type 0 where
  pub sha256 : Bytes → Bytes
  pub hmac : Bytes → Bytes → Bytes
  -- Key, initialisation vector and whole blocks.
  pub cbc_encrypt : Bytes → Bytes → Bytes → Bytes
  pub cbc_decrypt : Bytes → Bytes → Bytes → Bytes
  -- `SecretKey::from_slice` and `PublicKey::from_sec1_bytes` accept the bytes.
  pub is_secret_key : Bytes → Bool
  pub is_public_key : Bytes → Bool
  pub diffie_hellman : Bytes → Bytes → Bytes
  -- The coordinates of the public key, unless it is the point at infinity.
  pub public_point : Bytes → Option Ec2KeyAgreement

-- The permissions that `getPinUvAuthTokenUsingPinWithPermissions` asks for.
pub explicit_permissions : ℕ → Result Ctap2Status ℕ
explicit_permissions permissions =
    if permissions == 0
    then err Ctap2Status.invalid_parameter
    else if not (bit_and permissions unsupported_permissions == 0)
    then err Ctap2Status.unauthorized_permission
    else ok permissions

unfoldable pub requested_permissions : ClientPinRequest → Result Ctap2Status ℕ
unfolding explicit_permissions
requested_permissions request =
    if request.sub_command == sub_get_pin_token
    then if is_some request.permissions || is_some request.rp_id
      then err Ctap2Status.invalid_parameter
      else ok default_permissions
    else if request.sub_command == sub_get_token_with_permissions
    then ok_or request.permissions Ctap2Status.missing_parameter >>= explicit_permissions
    else err Ctap2Status.invalid_command

-- `iter().position(|&byte| byte == 0)`
pub position_zero : Bytes → Option ℕ
position_zero [] = none
position_zero (x ∷ xs) =
    let rest = position_zero xs in
    if x == 0 then some 0 else elim rest [ none ↦ none | some n ↦ some (suc n) ]

pub all_zero : Bytes → Bool
all_zero [] = true
all_zero (x ∷ xs) = x == 0 && all_zero xs

abbrev is_within : ℕ → ℕ → ℕ → Bool
is_within low high byte = leb low byte && leb byte high

abbrev is_tail : ℕ → Bool
is_tail byte = is_within 0x80 0xbf byte

-- The range of the byte after a lead byte: overlong forms, surrogates and code points beyond
-- U+10FFFF are excluded there.
abbrev is_second : ℕ → ℕ → Bool
is_second lead byte =
    if lead == 0xe0
    then is_within 0xa0 0xbf byte
    else if lead == 0xed
    then is_within 0x80 0x9f byte
    else if lead == 0xf0
    then is_within 0x90 0xbf byte
    else if lead == 0xf4
    then is_within 0x80 0x8f byte
    else is_tail byte

-- The bytes after a lead byte, or 4 where it is not one.
abbrev tail_length : ℕ → ℕ
tail_length lead =
    if ltb lead 0x80
    then 0
    else if is_within 0xc2 0xdf lead
    then 1
    else if is_within 0xe0 0xef lead
    then 2
    else if is_within 0xf0 0xf4 lead
    then 3
    else 4

-- `from_utf8`, then `chars().count()`: the code points of valid UTF-8. `expected` bytes are missing
-- from the code point at hand, and `lead` is its lead byte while the second one is.
pub utf8_count : ℕ → Option ℕ → Bytes → Option ℕ
utf8_count zero lead [] = some 0
utf8_count (suc n) lead [] = none
utf8_count zero lead (x ∷ xs) =
    let count = utf8_count (tail_length x) (some x) xs in
    if tail_length x == 4 then none else elim count [ none ↦ none | some k ↦ some (suc k) ]
utf8_count (suc n) (some lead) (x ∷ xs) =
    let count = utf8_count n none xs in if is_second lead x then count else none
utf8_count (suc n) none (x ∷ xs) =
    let count = utf8_count n none xs in if is_tail x then count else none

-- The PIN of a decrypted payload: 64 bytes, zero-padded, at least four code points of UTF-8.
unfoldable pub unpad_pin : Bytes → Result Ctap2Status Bytes
unfolding position_zero all_zero utf8_count
unpad_pin padded =
    guard (length padded == 64) Ctap2Status.invalid_parameter
    >> (ok_or (position_zero padded) Ctap2Status.pin_policy_violation >>= λ pin_len.
        guard (all_zero (drop pin_len padded)) Ctap2Status.pin_policy_violation
        >> (ok_or (utf8_count 0 none (take pin_len padded)) Ctap2Status.pin_policy_violation
            >>= λ chars.
                guard (leb 4 chars) Ctap2Status.pin_policy_violation >> ok (take pin_len padded)))

-- `length < 16 || !ct_eq(&plain[..16], &stored_hash[..16])`, negated.
unfoldable pub shows_pin : Bytes → Bytes → Bool
shows_pin plain stored = not (ltb (length plain) 16) && ct_eq (take 16 plain) (take 16 stored)

module _ (crypto : Crypto) where
  unfoldable pub hash_pin : Bytes → Bytes
  hash_pin pin = crypto.sha256 (copy_at 0 (take 64 pin) (zeros 64))

  -- The last argument is the length of the buffer that is written.
  unfoldable pub aes_cbc_encrypt : Bytes → Bytes → ℕ → Result Ctap2Status Bytes
  aes_cbc_encrypt secret plaintext room =
      if length plaintext == 0 || not (length plaintext % 16 == 0) || ltb room (length plaintext)
      then err Ctap2Status.invalid_length
      else ok (crypto.cbc_encrypt secret (take 16 secret) plaintext)

  unfoldable pub aes_cbc_decrypt : Bytes → Bytes → ℕ → Result Ctap2Status Bytes
  aes_cbc_decrypt secret ciphertext room =
      if length ciphertext == 0 || not (length ciphertext % 16 == 0) || ltb room (length ciphertext)
      then err Ctap2Status.invalid_length
      else ok (crypto.cbc_decrypt secret (take 16 secret) ciphertext)

  unfoldable pub shared_secret : Bytes → Ec2KeyAgreement → Result Ctap2Status Bytes
  shared_secret secret_key platform =
      let sec1 = 0x04 ∷ platform.x ++ platform.y in
      guard (crypto.is_secret_key secret_key) Ctap2Status.other
      >> guard (crypto.is_public_key sec1) Ctap2Status.invalid_parameter
      >> ok (crypto.diffie_hellman secret_key sec1)

  unfoldable pub shared : ClientPin → ClientPinRequest → Result Ctap2Status Bytes
  unfolding shared_secret
  shared c request = ok_or request.key_agreement Ctap2Status.missing_parameter >>= λ platform.
      ok_or c.agreement_private Ctap2Status.invalid_parameter >>= λ secret_key.
      shared_secret secret_key platform

  -- The authenticated bytes of a request, decrypted into a buffer of `room` bytes.
  unfoldable pub opened : Bytes → Bytes → Bytes → Option Bytes → ℕ → Result Ctap2Status Bytes
  unfolding aes_cbc_decrypt
  opened secret message encrypted param room = ok_or param Ctap2Status.missing_parameter >>= λ auth.
      guard (ct_eq_prefix (crypto.hmac secret message) auth) Ctap2Status.pin_auth_invalid
      >> aes_cbc_decrypt secret encrypted room
