-- ===== src/Core/Recovery/Isolation.antt =====
-- A recovery session never serves FIDO, whatever is done with it.
use aegis_token.Base.{◌≡◌, refl, false, err, List, [], ◌∷◌, ◌⊎◌, inl, arith}
use aegis_token.Core.Error.{unauthorized}
use aegis_token.Core.State.{ExecutionState, fido_allowed, bootsel_allowed_as_presence}
use aegis_token.Core.Recovery.{
  RecoverySession, enter, begin_firmware_update, finish_firmware_update, fido_operation,
}

-- The two methods that change the session.
pub data Move : Type 0 where
  begin finish : Move

abbrev pub play : Move → RecoverySession → RecoverySession
play begin s = (begin_firmware_update s).1
play finish s = (finish_firmware_update s).1

pub session : RecoverySession → List Move → RecoverySession
session s [] = s
session s (m ∷ rest) = session (play m s) rest

abbrev IsRecovering : RecoverySession → Type 0
IsRecovering s = (s.state ≡ ExecutionState.recovery) ⊎ (s.state ≡ ExecutionState.firmware_update)

play-IsRecovering : (m : Move) (s : RecoverySession) → IsRecovering s → IsRecovering (play m s)
unfolding begin_firmware_update finish_firmware_update
play-IsRecovering begin s h = ground arith
play-IsRecovering finish s h = ground arith

session-IsRecovering :
    (s : RecoverySession) (moves : List Move) → IsRecovering s → IsRecovering (session s moves)
unfolding session
session-IsRecovering s [] h = h
session-IsRecovering s (m ∷ rest) h = session-IsRecovering (play m s) rest (play-IsRecovering m s h)

enter-IsRecovering : IsRecovering enter
unfolding enter
enter-IsRecovering = inl refl

-- What the session denies, and that its state admits neither FIDO nor presence.
pub record IsIsolated (s : RecoverySession) : Type 0 where
  pub no_fido : fido_operation s ≡ err unauthorized
  pub no_fido_state : fido_allowed s.state ≡ false
  pub no_bootsel : bootsel_allowed_as_presence s.state ≡ false

isolated : (s : RecoverySession) → IsRecovering s → IsIsolated s
unfolding fido_operation bootsel_allowed_as_presence
isolated s h = ground arith

-- After any firmware updates begun and finished in it, refused ones included, a session that
-- entered recovery answers a FIDO operation with `Unauthorized`, and its execution state admits
-- neither FIDO nor a press of BOOTSEL as user presence.
pub session-IsIsolated : (moves : List Move) → IsIsolated (session enter moves)
session-IsIsolated moves =
    isolated (session enter moves) (session-IsRecovering enter moves enter-IsRecovering)
