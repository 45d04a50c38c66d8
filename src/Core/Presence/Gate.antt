-- ===== src/Core/Presence/Gate.antt =====
-- `ContextualPresence`: the controller behind the rule that only one execution state admits presence.
use aegis_token.Base.{
  ℕ, ◌≡◌, Bool, false, not, if◌then◌else◌, is_some, Result, err, Option, none, arith,
}
use aegis_token.Core.State.{ExecutionState, bootsel_allowed_as_presence}
use aegis_token.Core.Presence
use aegis_token.Core.Presence.{
  PresenceError, not_armed, PresenceOutcome, confirmed, PresenceController, disarm,
}

pub record ContextualPresence : Type 0 where
  pub controller : PresenceController

pub arm :
    ContextualPresence
    → ExecutionState
    → ℕ
    → ℕ
    → Result PresenceError (Unit {0}) × ContextualPresence
arm p state operation_id now_ms =
    if not (bootsel_allowed_as_presence state)
    then (err not_armed, p)
    else let (r, c) = Presence.arm p.controller operation_id now_ms in
      (r, record { controller = c })

pub update :
    ContextualPresence → ExecutionState → Bool → ℕ → Option PresenceOutcome × ContextualPresence
update p state pressed now_ms =
    if not (bootsel_allowed_as_presence state)
    then (none, record { controller = disarm p.controller })
    else let (o, c) = Presence.update p.controller pressed now_ms in (o, record { controller = c })

pub poll : ContextualPresence → ExecutionState → ℕ → Option PresenceOutcome × ContextualPresence
poll p state now_ms =
    if not (bootsel_allowed_as_presence state)
    then (none, record { controller = disarm p.controller })
    else let (o, c) = Presence.poll p.controller now_ms in (o, record { controller = c })

-- An operation is pending.
abbrev pub is_armed : ContextualPresence → Bool
is_armed p = is_some p.controller.armed

-- Outside `FidoWaitPresence`, whatever the button does and whatever was pending: arming is refused
-- and changes nothing, no sample and no tick of the clock gives an outcome, and both leave
-- nothing armed.
pub gate_closed :
    (p : ContextualPresence) (state : ExecutionState) (pressed : Bool) (id now : ℕ)
    → bootsel_allowed_as_presence state ≡ false
    → (arm p state id now ≡ (err not_armed, p))
      × ((update p state pressed now).0 ≡ none)
      × ((poll p state now).0 ≡ none)
      × (is_armed (update p state pressed now).1 ≡ false)
      × (is_armed (poll p state now).1 ≡ false)
unfolding arm update poll disarm
gate_closed p state pressed id now h = ground arith
