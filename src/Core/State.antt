-- ===== src/Core/State.antt =====
-- crates/aegis-core/src/state.rs: the execution states, their legal transitions, the policies that
-- read the state, and the boot plan.
pub mod Paths
pub mod Plan
mod Examples
use aegis_token.Base.{ℕ, Bool, true, false, ◌&&◌, ◌==◌, if◌then◌else◌, Result, ok, err}
use aegis_token.Base.{List, [], ◌∷◌, ◌>>=◌}
use aegis_token.Core.Error.{CoreError, invalid_state}

pub data ExecutionState : Type 0 where
  boot active fido_wait_presence fido_operation : ExecutionState
  management firmware_update recovery locked : ExecutionState

-- `self as u8`
unfoldable pub as_u8 : ExecutionState → ℕ
as_u8 boot = 0
as_u8 active = 1
as_u8 fido_wait_presence = 2
as_u8 fido_operation = 3
as_u8 management = 4
as_u8 firmware_update = 5
as_u8 recovery = 6
as_u8 locked = 7

-- The `match self` of `can_transition`, each arm with its `matches!`.
abbrev pub successor : ExecutionState → ExecutionState → Bool
successor boot active = true
successor boot recovery = true
successor boot locked = true
successor active fido_wait_presence = true
successor active fido_operation = true
successor active management = true
successor active firmware_update = true
successor active recovery = true
successor active locked = true
successor fido_wait_presence fido_operation = true
successor fido_wait_presence active = true
successor fido_wait_presence locked = true
successor fido_operation active = true
successor fido_operation locked = true
successor management active = true
successor management firmware_update = true
successor management locked = true
successor firmware_update active = true
successor firmware_update recovery = true
successor firmware_update locked = true
successor recovery active = true
successor recovery firmware_update = true
successor recovery locked = true
successor locked recovery = true
successor _ _ = false

unfoldable pub can_transition : ExecutionState → ExecutionState → Bool
unfolding as_u8
can_transition self next = if as_u8 self == as_u8 next then true else successor self next

unfoldable pub transition : ExecutionState → ExecutionState → Result CoreError ExecutionState
unfolding can_transition
transition self next = if can_transition self next then ok next else err invalid_state

-- A sequence of requested transitions, each after the one before it succeeded.
pub run : ExecutionState → List ExecutionState → Result CoreError ExecutionState
run s [] = ok s
run s (next ∷ rest) = do s' ← transition s next; run s' rest

pub boot_destination : Bool → ExecutionState
boot_destination bootsel_held = if bootsel_held then recovery else active

unfoldable pub bootsel_allowed_as_presence : ExecutionState → Bool
bootsel_allowed_as_presence fido_wait_presence = true
bootsel_allowed_as_presence _ = false

unfoldable pub fido_allowed : ExecutionState → Bool
fido_allowed active = true
fido_allowed fido_wait_presence = true
fido_allowed fido_operation = true
fido_allowed _ = false

pub is_boot_destination : ExecutionState → Bool
is_boot_destination active = true
is_boot_destination recovery = true
is_boot_destination locked = true
is_boot_destination _ = false

-- `matches!(destination, ExecutionState::Active)`
abbrev is_active : ExecutionState → Bool
is_active active = true
is_active _ = false

pub record BootPlan : Type 0 where
  pub destination : ExecutionState
  pub fido : Bool
  pub ccid : Bool
  pub management : Bool
  pub otp_lab : Bool
  pub sealed_credential_store : Bool
  pub sealed_applet_stores : Bool

pub for_destination : ExecutionState → BootPlan
unfolding is_boot_destination
for_destination destination =
    let fido = is_boot_destination destination && is_active destination in
    record {
      destination = destination;
      fido = fido;
      ccid = fido;
      management = true;
      otp_lab = true;
      sealed_credential_store = fido;
      sealed_applet_stores = fido;
    }
