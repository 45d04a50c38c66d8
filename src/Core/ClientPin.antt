-- ===== src/Core/ClientPin.antt =====
-- crates/aegis-core/src/pin.rs: the PIN/UV auth token, and what it authorises; the status codes are
-- those of crates/aegis-core/src/ctap2.rs, the tests of a relying party those of
-- crates/aegis-core/src/authenticator.rs.
pub mod Protocol
pub mod Operations
pub mod Compare
pub mod Scope
pub mod Costs
pub mod Issued
pub mod Guesses
mod Examples
use aegis_token.Base.{
  ℕ, ◌%◌, bit_and, bit_or, bit_xor, Bool, true, false, not, ◌&&◌, ◌||◌, ◌==◌, leb, ltb,
  if◌then◌else◌, Result, ok, err, guard, Option, none, some, is_some, [], ◌∷◌, length, take, Bytes,
}
use aegis_token.Core.Configuration.{same_string}

pub data Ctap2Status : Type 0 where
  success invalid_command invalid_parameter invalid_length invalid_seq timeout : Ctap2Status
  channel_busy lock_required invalid_channel cbor_unexpected_type invalid_cbor : Ctap2Status
  missing_parameter limit_exceeded unsupported_extension credential_excluded : Ctap2Status
  processing invalid_credential user_action_pending operation_pending : Ctap2Status
  unsupported_algorithm no_credentials user_action_timeout not_allowed pin_invalid : Ctap2Status
  pin_blocked pin_auth_invalid pin_auth_blocked pin_not_set pin_required : Ctap2Status
  pin_policy_violation request_too_large action_timeout up_required uv_blocked : Ctap2Status
  integrity_failure invalid_subcommand unauthorized_permission other : Ctap2Status

abbrev pub permission_mc : ℕ
permission_mc = 0x01

abbrev pub permission_ga : ℕ
permission_ga = 0x02

abbrev pub permission_cm : ℕ
permission_cm = 0x04

abbrev pub max_rp_id_len : ℕ
max_rp_id_len = 253

-- `a.iter().zip(b).fold(0u8, |acc, (x, y)| acc | (x ^ y))`
pub difference : ℕ → Bytes → Bytes → ℕ
difference acc (x ∷ xs) (y ∷ ys) = difference (bit_or acc (bit_xor x y)) xs ys
difference acc _ _ = acc

pub ct_eq : Bytes → Bytes → Bool
unfolding difference
ct_eq a b = if not (length a == length b) then false else difference 0 a b == 0

-- `param.len() != 16 && param.len() != 32`, negated.
abbrev pub spec_length : Bytes → Bool
spec_length param = length param == 16 || length param == 32

pub ct_eq_prefix : Bytes → Bytes → Bool
unfolding ct_eq
ct_eq_prefix expected param =
    if not (spec_length param) then false else ct_eq (take (length param) expected) param

pub data ManagementScope : Type 0 where
  device : ManagementScope
  relying_party_hash : Bytes → ManagementScope
  credential_relying_party : Option Bytes → ManagementScope

pub data TokenOperation : Type 0 where
  make_credential : Bytes → TokenOperation
  get_assertion : Bytes → TokenOperation
  credential_management : ManagementScope → TokenOperation

pub record TokenRequest : Type 0 where
  pub param : Option Bytes
  pub message : Bytes
  pub uv_requested : Bool
  pub operation : TokenOperation

pub record ClientPin : Type 0 where
  pub agreement_private : Option Bytes
  pub pin_uv_auth_token : Option Bytes
  pub pin_uv_auth_permissions : ℕ
  pub pin_uv_auth_rp_id : Option Bytes

abbrev pub new : ClientPin
new = record {
  agreement_private = none;
  pin_uv_auth_token = none;
  pin_uv_auth_permissions = 0;
  pin_uv_auth_rp_id = none;
}

abbrev pub permission_of : TokenOperation → ℕ
permission_of (make_credential rp_id) = permission_mc
permission_of (get_assertion rp_id) = permission_ga
permission_of (credential_management scope) = permission_cm

abbrev pub Check : Type 0
Check = Result Ctap2Status (Unit {0})

-- `bind_rp_id`, with the relying party that the token is bound to.
pub bind_to : ClientPin → Bytes → Option Bytes → Check × ClientPin
bind_to c rp_id (some bound) = (guard (same_string bound rp_id) pin_auth_invalid, c)
bind_to c rp_id none =
    if leb (length rp_id) max_rp_id_len
    then (ok tt, record c { pin_uv_auth_rp_id = some rp_id })
    else (err invalid_parameter, c)

pub bind_rp_id : ClientPin → Bytes → Check × ClientPin
unfolding bind_to
bind_rp_id c rp_id = bind_to c rp_id c.pin_uv_auth_rp_id

abbrev pub rp_in_scope : Bytes → Option Bytes → Bool
rp_in_scope rp_id none = true
rp_in_scope rp_id (some bound) = same_string bound rp_id

pub close_user_presence_operation : Bool → Bool → ClientPin → ClientPin
close_user_presence_operation token_used succeeded c =
    if token_used && succeeded
    then record c { pin_uv_auth_permissions = 0; pin_uv_auth_rp_id = none }
    else c

abbrev pub invalidate_token : ClientPin → ClientPin
invalidate_token c = record c {
  pin_uv_auth_token = none;
  pin_uv_auth_permissions = 0;
  pin_uv_auth_rp_id = none;
}

-- Without a `pinUvAuthParam`.
pub without_param : Bool → TokenRequest → Result Ctap2Status Bool
without_param has_pin request =
    if permission_of request.operation == permission_cm
    then err pin_required
    else if request.uv_requested || has_pin
    then err pin_required
    else ok false

module _ (sha256 : Bytes → Bytes) (hmac : Bytes → Bytes → Bytes) where
  abbrev pub rp_id_hash : Bytes → Bytes
  rp_id_hash rp_id = sha256 rp_id

  -- `verify_pin_uv_auth_param`, with the active token.
  unfoldable pub verify_with : Option Bytes → Bytes → Bytes → Bool
  unfolding ct_eq
  verify_with none param message = false
  verify_with (some token) param message =
      if not (spec_length param)
      then false
      else ct_eq (take (length param) (hmac token message)) param

  abbrev pub verify_pin_uv_auth_param : ClientPin → Bytes → Bytes → Bool
  verify_pin_uv_auth_param c param message = verify_with c.pin_uv_auth_token param message

  -- `check_management_scope`, with the relying party that the token is bound to.
  pub check_scope : Option Bytes → ManagementScope → Check
  check_scope bound device = guard (not (is_some bound)) pin_auth_invalid
  check_scope none (relying_party_hash hash) = ok tt
  check_scope (some bound) (relying_party_hash hash) =
      guard (same_string (rp_id_hash bound) hash) pin_auth_invalid
  check_scope bound (credential_relying_party none) = guard (not (is_some bound)) pin_auth_invalid
  check_scope bound (credential_relying_party (some rp_id)) =
      guard (rp_in_scope rp_id bound) pin_auth_invalid

  -- The last match of `authorize`.
  pub apply_scope : ClientPin → TokenOperation → Check × ClientPin
  unfolding bind_rp_id check_scope
  apply_scope c (make_credential rp_id) = bind_rp_id c rp_id
  apply_scope c (get_assertion rp_id) = bind_rp_id c rp_id
  apply_scope c (credential_management scope) = (check_scope c.pin_uv_auth_rp_id scope, c)

  -- `?`, then `Ok(true)`.
  pub granted : Check × ClientPin → Result Ctap2Status Bool × ClientPin
  granted (err e, c) = (err e, c)
  granted (ok done, c) = (ok true, c)

  pub with_param : ClientPin → TokenRequest → Bytes → Result Ctap2Status Bool × ClientPin
  unfolding apply_scope verify_with granted
  with_param c request param =
      if not (is_some c.pin_uv_auth_token)
      then (err pin_auth_invalid, c)
      else if bit_and c.pin_uv_auth_permissions (permission_of request.operation) == 0
      then (err pin_auth_invalid, c)
      else if not (verify_pin_uv_auth_param c param request.message)
      then (err pin_auth_invalid, c)
      else granted (apply_scope c request.operation)

  -- `authorize`, with the parameter of the request.
  pub authorize_with :
      ClientPin → Bool → TokenRequest → Option Bytes → Result Ctap2Status Bool × ClientPin
  unfolding without_param with_param
  authorize_with c has_pin request none = (without_param has_pin request, c)
  authorize_with c has_pin request (some param) = with_param c request param

  -- `has_pin` is `state.pin_hash().is_some()`.
  pub authorize : ClientPin → Bool → TokenRequest → Result Ctap2Status Bool × ClientPin
  unfolding authorize_with
  authorize c has_pin request = authorize_with c has_pin request request.param
