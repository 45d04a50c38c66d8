-- ===== src/Core/Lifecycle/Ops.antt =====
-- What the operations of the lifecycle manager can do, one by one and in sequence.
use aegis_token.Base.{
  ◌≢◌, ℕ, ◌+◌, ◌≤◌, ◌≡◌, sym, Bool, true, false, ok, err, List, [], ◌∷◌, length, ◌⊎◌, inl, inr,
  arith,
}
use mathlib.Core.List.{Memᴰ}
use aegis_token.Core.Error.{invalid_state}
use aegis_token.Core.Lifecycle.{
  LifecycleState, decommissioned, active, provisioned, suspended, LifecycleManager, Op,
  decommission, factory_reset, can_transition, apply, run, allows_config_change,
  allows_identity_provisioning,
}

-- Every operation either succeeds along an edge of the diagram, or answers `InvalidState` and
-- leaves the manager as it was.
pub apply_edge :
    (op : Op) (m : LifecycleManager)
    → ((apply op m).0 ≡ ok tt) × (can_transition m.state (apply op m).1.state ≡ true)
      ⊎ ((apply op m).0 ≡ err invalid_state) × ((apply op m).1 ≡ m)
unfolding apply can_transition
apply_edge op m = ground arith

-- How far a state stands from the factory.
abbrev pub depth : LifecycleState → ℕ
depth LifecycleState.factory = 0
depth LifecycleState.commissioning = 1
depth LifecycleState.commissioned = 2
depth LifecycleState.provisioning = 3
depth LifecycleState.provisioned = 4
depth LifecycleState.active = 5
depth LifecycleState.suspended = 6
depth LifecycleState.decommissioned = 6

depth-apply : (op : Op) (m : LifecycleManager) → depth (apply op m).1.state ≤ depth m.state + 1
unfolding apply
depth-apply op m = ground arith

-- No operation skips a stage: after n operations a device stands at most n stages further, so a
-- factory device is provisioned after four operations at the earliest, and active after five.
pub depth-run :
    (m : LifecycleManager) (ops : List Op) → depth (run m ops).state ≤ depth m.state + length ops
unfolding run
depth-run m [] = omega arith
depth-run m (op ∷ ops) = omega (arith, depth-apply op m, depth-run (apply op m).1 ops)

-- A state behind the seal: provisioned, in operation or suspended.
abbrev pub is_sealed : LifecycleState → Bool
is_sealed provisioned = true
is_sealed active = true
is_sealed suspended = true
is_sealed _ = false

apply-sealed :
    (op : Op) (m : LifecycleManager)
    → is_sealed m.state ≡ true
    → (is_sealed (apply op m).1.state ≡ true)
      ⊎ (op ≡ decommission) × ((apply op m).1.state ≡ decommissioned)
unfolding apply
apply-sealed op m h = ground arith

apply-decommissioned :
    (op : Op) (m : LifecycleManager)
    → m.state ≡ decommissioned
    → ((apply op m).1.state ≡ decommissioned) ⊎ (op ≡ factory_reset)
unfolding apply
apply-decommissioned op m h = ground arith

reset_seen :
    (m : LifecycleManager) (ops : List Op)
    → m.state ≡ decommissioned
    → allows_config_change (run m ops).state ≡ true
    → Memᴰ factory_reset ops
unfolding run
reset_seen m [] h c = unfold allows_config_change in ground arith
reset_seen m (op ∷ ops) h c = elim (apply-decommissioned op m h) [
  | inl still ↦ Memᴰ.tail (reset_seen (apply op m).1 ops still c)
  | inr reset ↦ Memᴰ.head (sym reset)
]

-- From a provisioned, active or suspended device, any sequence of operations after which the
-- configuration may be changed holds both a decommissioning and a factory reset.
pub config_reopened_by :
    (m : LifecycleManager) (ops : List Op)
    → is_sealed m.state ≡ true
    → allows_config_change (run m ops).state ≡ true
    → Memᴰ decommission ops × Memᴰ factory_reset ops
unfolding run
config_reopened_by m [] h c = unfold allows_config_change in ground arith
config_reopened_by m (op ∷ ops) h c = elim (apply-sealed op m h) [
  | inl still ↦
      let (d, r) = config_reopened_by (apply op m).1 ops still c in (Memᴰ.tail d, Memᴰ.tail r)
  | inr (retired, at_rest) ↦
      (Memᴰ.head (sym retired), Memᴰ.tail (reset_seen (apply op m).1 ops at_rest c))
]

pub provisioning-Factory :
    (s : LifecycleState) → allows_identity_provisioning s ≡ true → s ≡ LifecycleState.factory
unfolding allows_identity_provisioning
provisioning-Factory s h = ground arith

pub reset-Factory :
    (m : LifecycleManager)
    → (apply factory_reset m).0 ≡ ok tt
    → (apply factory_reset m).1.state ≡ LifecycleState.factory
unfolding apply
reset-Factory m h = ground arith

pub sealed-Closed : (s : LifecycleState) → is_sealed s ≡ true → allows_config_change s ≡ false
unfolding allows_config_change
sealed-Closed s h = ground arith

-- A device behind the seal stays there by any operation but its decommissioning.
pub stays_sealed :
    (op : Op) (m : LifecycleManager)
    → op ≢ decommission
    → is_sealed m.state ≡ true
    → is_sealed (apply op m).1.state ≡ true
stays_sealed op m other h = elim (apply-sealed op m h) [
  | inl still ↦ still
  | inr (retired, at_rest) ↦ absurd (other retired)
]

-- A device behind the seal refuses a factory reset.
pub sealed_refuses_reset :
    (m : LifecycleManager)
    → is_sealed m.state ≡ true
    → (apply factory_reset m).0 ≡ err invalid_state
unfolding apply
sealed_refuses_reset m h = ground arith
