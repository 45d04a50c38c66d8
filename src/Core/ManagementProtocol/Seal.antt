-- ===== src/Core/ManagementProtocol/Seal.antt =====
-- crates/aegis-core/src/management_protocol.rs: a sealed device keeps its configuration.
use aegis_token.Base.{
  ◌≤◌, ◌≡◌, ◌≢◌, refl, sym, ap, subst, ◌∙◌, Bool, true, false, Result, ok, err, Option, some, none,
  and_then, List, [], ◌∷◌, All, length, leb, le→leb, Bytes,
}
use aegis_token.Core.Error.{CoreError}
use aegis_token.Core.Lifecycle.{LifecycleManager, Op}
use aegis_token.Core.Lifecycle.Ops.{is_sealed, sealed-Closed, stays_sealed, sealed_refuses_reset}
use aegis_token.Core.Configuration.{DeviceConfig, Check, validate, max_string_len}
use aegis_token.Core.Configuration.Identity.{validate-ok}
use aegis_token.Core.ManagementProtocol.{
  ManagementCommand, ManagementService, Body, Handled, handle, serve, context, reset_after, stage,
  inform, activate, commit_staged, set_decoded, mapped, commit_configuration, factory_reset,
  get_device_info, set_configuration, commission_device, decommission_device,
}
use aegis_token.Core.ManagementProtocol.Reports.{Version, for_service}

true≢false : (b : Bool) → b ≡ true → b ≡ false → ⊥
true≢false b h k = cc

-- The device, its identity and configuration as before, is behind the seal.
abbrev pub IsSealed : ManagementService → ManagementService → Type 0
IsSealed m m' =
    (m'.config ≡ m.config) × (m'.identity ≡ m.identity) × (is_sealed m'.lifecycle.state ≡ true)

module _ (version : Version) (decode : Bytes → Result CoreError DeviceConfig)
    (encode : Body → Option Bytes) where
  abbrev StaysSealed : ManagementService → Option Handled → Type 0
  StaysSealed m result = (handled : Handled) × (result ≡ some handled) × IsSealed m handled.1

  activate-Sealed :
      (m : ManagementService) (config : DeviceConfig) (check : Check)
      → is_sealed m.lifecycle.state ≡ true
      → validate config (context m) ≡ check
      → IsSealed m (activate m config check).1
  unfolding activate
  activate-Sealed m config (err e) closed v = (refl, refl, closed)
  activate-Sealed m config (ok tt) closed v =
      let (number, open_state, u, l, p) = validate-ok config (context m) v in
      absurd (true≢false _ open_state (sealed-Closed m.lifecycle.state closed))

  commit-Sealed :
      (m : ManagementService) (staged : Option DeviceConfig)
      → is_sealed m.lifecycle.state ≡ true
      → IsSealed m (commit_staged m staged).1
  unfolding commit_staged
  commit-Sealed m none closed = (refl, refl, closed)
  commit-Sealed m (some config) closed =
      activate-Sealed m config (validate config (context m)) closed refl

  stage-Sealed :
      (m : ManagementService) (config : DeviceConfig) (check : Check)
      → is_sealed m.lifecycle.state ≡ true
      → IsSealed m (stage m config check).1
  unfolding stage
  stage-Sealed m config (err e) closed = (refl, refl, closed)
  stage-Sealed m config (ok tt) closed = (refl, refl, closed)

  set-Sealed :
      (m : ManagementService) (decoded : Result CoreError DeviceConfig)
      → is_sealed m.lifecycle.state ≡ true
      → IsSealed m (set_decoded version decode encode m decoded).1
  unfolding set_decoded
  set-Sealed m (err e) closed = (refl, refl, closed)
  set-Sealed m (ok config) closed = stage-Sealed m config (validate config (context m)) closed

  reset-Sealed :
      (m : ManagementService) (result : Check) (manager : LifecycleManager) (e : CoreError)
      → result ≡ err e
      → is_sealed manager.state ≡ true
      → StaysSealed m (reset_after m (result, manager))
  unfolding reset_after
  reset-Sealed m (err e') manager e h closed = (_, refl, (refl, refl, closed))
  reset-Sealed m (ok done) manager e h closed = cc

  inform-Sealed :
      (m : ManagementService)
      → length m.identity.manufacturer ≤ max_string_len
      → is_sealed m.lifecycle.state ≡ true
      → StaysSealed m
          (inform version decode encode m (for_service version m.identity m.config m.capabilities))
  unfolding inform for_service
  inform-Sealed m short closed =
      let fits : leb (length m.identity.manufacturer) max_string_len ≡ true = le→leb _ _ short in
      rw fits (_, refl, (refl, refl, closed))

  IsSealed-step :
      (m : ManagementService) (command : ManagementCommand) (payload : Bytes)
      → length m.identity.manufacturer ≤ max_string_len
      → command ≢ decommission_device
      → is_sealed m.lifecycle.state ≡ true
      → StaysSealed m (handle version decode encode m command payload)
  unfolding handle
  IsSealed-step m get_device_info payload short other closed = inform-Sealed m short closed
  IsSealed-step m factory_reset payload short other closed =
      reset-Sealed m _ _ _ (sealed_refuses_reset m.lifecycle closed)
        (stays_sealed Op.factory_reset m.lifecycle (λ e. cc) closed)
  IsSealed-step m commit_configuration payload short other closed =
      (_, refl, commit-Sealed m m.staged closed)
  IsSealed-step m set_configuration payload short other closed =
      (_, refl, set-Sealed m (mapped version decode encode (decode payload)) closed)
  IsSealed-step m commission_device payload short other closed =
      (_, refl, (refl, refl, stays_sealed Op.commission m.lifecycle (λ e. cc) closed))
  IsSealed-step m decommission_device payload short other closed = absurd (other refl)
  IsSealed-step m _ payload short other closed = (_, refl, (refl, refl, closed))

  -- From a provisioned, active or suspended device whose manufacturer string has at most 64 bytes,
  -- every sequence of commands without a decommissioning is served, factory resets included, and
  -- leaves the device provisioned, active or suspended, with the same configuration and identity.
  pub serve-Sealed :
      (m : ManagementService) (requests : List (ManagementCommand × Bytes))
      → length m.identity.manufacturer ≤ max_string_len
      → All (λ (request : ManagementCommand × Bytes). request.0 ≢ decommission_device) requests
      → is_sealed m.lifecycle.state ≡ true
      → (m' : ManagementService) × (serve version decode encode m requests ≡ some m')
        × IsSealed m m'
  unfolding serve
  serve-Sealed m [] short others closed = (m, refl, (refl, refl, closed))
  serve-Sealed m (request ∷ rest) short (other, others) closed =
      let (handled, served, (kept, same, closed')) =
        IsSealed-step m request.0 request.1 short other closed in
      let short' : length handled.1.identity.manufacturer ≤ max_string_len =
        subst (λ i. length i.manufacturer ≤ max_string_len) (sym same) short in
      let (m', run, (kept', same', still)) = serve-Sealed handled.1 rest short' others closed' in
      (
        m',
        ap (λ (r : Option Handled). and_then r (λ h. serve version decode encode h.1 rest)) served
            ∙ run,
        (kept' ∙ kept, same' ∙ same, still),
      )
