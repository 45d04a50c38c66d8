-- ===== src/Core/State/Examples.antt =====
-- Concrete paths of crates/aegis-core/src/state.rs.
use aegis_token.Base.{refl, [], ◌∷◌}
use aegis_token.Core.State.{
  active, fido_operation, recovery, management, boot, run, transition, for_destination,
  fido_allowed,
}
use aegis_token.Core.State.Paths.{sealed_needs_active}
use mathlib.Core.List.{Memᴰ}
use aegis_token.Core.State.Plan.{IsFailClosed, for_destination-IsFailClosed}

sealed_needs_active_example : Memᴰ active (recovery ∷ active ∷ fido_operation ∷ [])
unfolding run transition fido_allowed
sealed_needs_active_example =
    sealed_needs_active boot fido_operation (recovery ∷ active ∷ fido_operation ∷ []) refl refl refl

for_destination-IsFailClosed_example : IsFailClosed management (for_destination management)
for_destination-IsFailClosed_example = for_destination-IsFailClosed management
