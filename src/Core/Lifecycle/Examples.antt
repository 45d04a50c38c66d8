-- ===== src/Core/Lifecycle/Examples.antt =====
-- Concrete runs of crates/aegis-core/src/lifecycle.rs.
use aegis_token.Base.{refl, List, [], ◌∷◌, ◌≤◌, ◌+◌}
use aegis_token.Core.Lifecycle.{
  LifecycleState, LifecycleManager, run, apply, Op, allows_config_change,
}
use aegis_token.Core.Lifecycle.Ops.{config_reopened_by, depth, depth-run}
use mathlib.Core.List.{Memᴰ}

abbrev in_operation : LifecycleManager
in_operation = record { state = LifecycleState.active }

abbrev end_of_life : List Op
end_of_life = Op.suspend ∷ Op.decommission ∷ Op.factory_reset ∷ []

config_reopened_by_example : Memᴰ Op.decommission end_of_life × Memᴰ Op.factory_reset end_of_life
unfolding run apply allows_config_change
config_reopened_by_example = config_reopened_by in_operation end_of_life refl refl

depth-run_example : depth (run in_operation end_of_life).state ≤ depth LifecycleState.active + 3
depth-run_example = depth-run in_operation end_of_life
