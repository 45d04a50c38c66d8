-- ===== src/Core/Recovery.antt =====
-- crates/aegis-core/src/recovery.rs: the recovery session and what it denies.
pub mod Isolation
mod Examples
use aegis_token.Base.{Bool, true, if◌then◌else◌, Result, ok, err, List, [], ◌∷◌}
use aegis_token.Core.Error.{CoreError, unauthorized}
use aegis_token.Core.State
use aegis_token.Core.State.{ExecutionState, transition, fido_allowed}

pub data RecoveryOperation : Type 0 where
  diagnostics firmware_update device_recovery : RecoveryOperation

pub operation_allowed : RecoveryOperation → Bool
operation_allowed diagnostics = true
operation_allowed firmware_update = true
operation_allowed device_recovery = true

pub record RecoverySession : Type 0 where
  pub state : ExecutionState

pub enter : RecoverySession
enter = record { state = ExecutionState.recovery }

pub authorize : RecoverySession → RecoveryOperation → Result CoreError (Unit {0})
unfolding operation_allowed
authorize s operation = if operation_allowed operation then ok tt else err unauthorized

-- `self.state = self.state.transition(next)?; Ok(())`
move_to : ExecutionState → RecoverySession → Result CoreError (Unit {0}) × RecoverySession
unfolding transition
move_to next s = elim (transition s.state next) [
  | ok t ↦ (ok tt, record { state = t })
  | err e ↦ (err e, s)
]

pub begin_firmware_update : RecoverySession → Result CoreError (Unit {0}) × RecoverySession
unfolding move_to
begin_firmware_update s = move_to ExecutionState.firmware_update s

pub finish_firmware_update : RecoverySession → Result CoreError (Unit {0}) × RecoverySession
unfolding move_to
finish_firmware_update s = move_to ExecutionState.recovery s

pub fido_operation : RecoverySession → Result CoreError (Unit {0})
unfolding fido_allowed
fido_operation s = if fido_allowed s.state then ok tt else err unauthorized

pub user_presence : RecoverySession → Result CoreError (Unit {0})
user_presence s = err unauthorized

pub credential_access : RecoverySession → Result CoreError (Unit {0})
credential_access s = err unauthorized

pub export_secret : RecoverySession → Result CoreError (Unit {0})
export_secret s = err unauthorized
