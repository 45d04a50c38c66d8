-- ===== src/Core/State/Plan.antt =====
-- The boot plan is fail-closed.
use aegis_token.Base.{◌≡◌, refl, ◌↔◌, Bool, true, not, arith}
use aegis_token.Core.State.{
  ExecutionState, active, BootPlan, for_destination, fido_allowed, boot_destination,
}

-- The plan for the state d keeps d as its destination, and opens the FIDO path, the CCID path and
-- both kinds of sealed store exactly when d is `active`; management and the laboratory HID are
-- always served; and a plan that opens FIDO has a destination in which FIDO may be served.
pub record IsFailClosed (d : ExecutionState) (p : BootPlan) : Type 0 where
  pub planned : p.destination ≡ d
  pub fido_active : (p.fido ≡ true) ↔ (d ≡ active)
  pub ccid_active : (p.ccid ≡ true) ↔ (d ≡ active)
  pub credentials_active : (p.sealed_credential_store ≡ true) ↔ (d ≡ active)
  pub applets_active : (p.sealed_applet_stores ≡ true) ↔ (d ≡ active)
  pub management_on : p.management ≡ true
  pub otp_lab_on : p.otp_lab ≡ true
  pub served : p.fido ≡ true → fido_allowed p.destination ≡ true

-- The plan derived for any execution state, boot destination or not, has that state as its
-- destination and starts FIDO, CCID and the two sealed stores exactly when the state is `active`,
-- management and the OTP lab always, and FIDO only where the destination allows it.
pub for_destination-IsFailClosed : (d : ExecutionState) → IsFailClosed d (for_destination d)
unfolding for_destination fido_allowed
for_destination-IsFailClosed d = record {
  planned = refl;
  fido_active = (ground arith, ground arith);
  ccid_active = (ground arith, ground arith);
  credentials_active = (ground arith, ground arith);
  applets_active = (ground arith, ground arith);
  management_on = refl;
  otp_lab_on = refl;
  served = ground arith;
}

-- Holding BOOTSEL at reset closes the FIDO path, the CCID path and the sealed stores; otherwise
-- all of them are open.
pub boot_plan :
    (held : Bool)
    → let p = for_destination (boot_destination held) in
      (p.fido ≡ not held)
      × (p.ccid ≡ not held)
      × (p.sealed_credential_store ≡ not held)
      × (p.sealed_applet_stores ≡ not held)
unfolding for_destination boot_destination
boot_plan held = ground arith
