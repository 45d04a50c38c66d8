-- ===== src/Core/Lifecycle.antt =====
-- crates/aegis-core/src/lifecycle.rs: the provisioning lifecycle and its guarded manager.
pub mod Ops
mod Examples
use aegis_token.Base.{ℕ, Bool, true, false, ◌==◌, if◌then◌else◌, Result, ok, err, List, [], ◌∷◌}
use aegis_token.Core.Error.{CoreError, invalid_state}

pub data LifecycleState : Type 0 where
  factory commissioning commissioned provisioning : LifecycleState
  provisioned active suspended decommissioned : LifecycleState

-- `self as u8`
unfoldable pub as_u8 : LifecycleState → ℕ
as_u8 factory = 0
as_u8 commissioning = 1
as_u8 commissioned = 2
as_u8 provisioning = 3
as_u8 provisioned = 4
as_u8 active = 5
as_u8 suspended = 6
as_u8 decommissioned = 7

-- The `match self` of `can_transition`, each arm with its `matches!`.
abbrev successor : LifecycleState → LifecycleState → Bool
successor factory commissioning = true
successor commissioning commissioned = true
successor commissioning factory = true
successor commissioned provisioning = true
successor provisioning provisioned = true
successor provisioning commissioned = true
successor provisioned active = true
successor active suspended = true
successor active decommissioned = true
successor suspended active = true
successor suspended decommissioned = true
successor decommissioned factory = true
successor _ _ = false

pub can_transition : LifecycleState → LifecycleState → Bool
unfolding as_u8
can_transition self next = if as_u8 self == as_u8 next then true else successor self next

pub transition : LifecycleState → LifecycleState → Result CoreError LifecycleState
unfolding can_transition
transition self next = if can_transition self next then ok next else err invalid_state

unfoldable pub allows_config_change : LifecycleState → Bool
allows_config_change factory = true
allows_config_change commissioning = true
allows_config_change commissioned = true
allows_config_change _ = false

unfoldable pub allows_identity_provisioning : LifecycleState → Bool
allows_identity_provisioning factory = true
allows_identity_provisioning _ = false

pub is_decommissioned : LifecycleState → Bool
is_decommissioned decommissioned = true
is_decommissioned _ = false

pub is_operational : LifecycleState → Bool
is_operational provisioned = true
is_operational active = true
is_operational _ = false

pub record LifecycleManager : Type 0 where
  pub state : LifecycleState

-- A method of `&mut self`: its result, and the manager that it leaves.
abbrev pub Method : Type 0
Method = LifecycleManager → Result CoreError (Unit {0}) × LifecycleManager

-- `self.state = self.state.transition(next)?; Ok(())`
advance : LifecycleState → Method
unfolding transition
advance next m = elim (transition m.state next) [
  | ok s ↦ (ok tt, record { state = s })
  | err e ↦ (err e, m)
]

-- The `match self.state` of `commission`.
commission_from : LifecycleState → Method
unfolding advance
commission_from factory m = advance commissioning m
commission_from commissioning m = (ok tt, m)
commission_from _ m = (err invalid_state, m)

-- The `match self.state` of `factory_reset`.
factory_reset_from : LifecycleState → Method
unfolding advance
factory_reset_from decommissioned m = advance factory m
factory_reset_from factory m = (ok tt, m)
factory_reset_from _ m = (err invalid_state, m)

-- The named operations of the manager.
pub data Op : Type 0 where
  commission finish_commissioning begin_provisioning finish_provisioning : Op
  activate suspend resume decommission factory_reset : Op

pub apply : Op → Method
unfolding commission_from factory_reset_from
apply commission m = commission_from m.state m
apply finish_commissioning m = advance commissioned m
apply begin_provisioning m = advance provisioning m
apply finish_provisioning m = advance provisioned m
apply activate m = advance active m
apply suspend m = advance suspended m
apply resume m = advance active m
apply decommission m = advance decommissioned m
apply factory_reset m = factory_reset_from m.state m

-- The manager after a sequence of operations, refused ones included.
pub run : LifecycleManager → List Op → LifecycleManager
run m [] = m
run m (op ∷ rest) = run (apply op m).1 rest
