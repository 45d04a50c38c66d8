-- ===== src/Core/ManagementProtocol/Authority.antt =====
-- crates/aegis-core/src/management_protocol.rs: what a command may change.
use aegis_token.Base.{
  ℕ, ◌<◌, leb, length, if◌then◌else◌, ◌≡◌, refl, Bool, true, false, ◌⊎◌, inl, inr, Result, ok, err,
  Option, some, none, Bytes, arith,
}
use aegis_token.Core.Error.{CoreError}
use aegis_token.Core.Lifecycle.{LifecycleState, LifecycleManager}
use aegis_token.Core.Lifecycle.Ops.{reset-Factory}
use aegis_token.Core.Capabilities.{BoardIdentity, DeviceCapabilities}
use aegis_token.Core.Configuration.{DeviceConfig, Check, validate, for_board, max_string_len}
use aegis_token.Core.ManagementProtocol.{
  ManagementCommand, ManagementService, Body, Handled, handle, context, reset_after, reset_to,
  inform, get_device_info, stage, activate, commit_staged, set_decoded, mapped,
  commit_configuration, factory_reset, set_configuration,
}
use aegis_token.Core.ManagementProtocol.Reports.{Version, DeviceInfo, for_service}

too_long : (n : ℕ) → leb n max_string_len ≡ false → max_string_len < n
too_long n h = ground arith

none_is_long {α} :
    {A : Type α} (n : ℕ) (fits : Bool) (value : A)
    → leb n max_string_len ≡ fits
    → (if fits then some value else none) ≡ none
    → max_string_len < n
none_is_long n true value h e = cc
none_is_long n false value h e = too_long n h

for_board-none :
    (identity : BoardIdentity) (capabilities : DeviceCapabilities)
    → for_board identity capabilities ≡ none
    → max_string_len < length identity.product
unfolding for_board
for_board-none identity capabilities e = none_is_long (length identity.product) _ _ refl e

for_service-none :
    (version : Version) (identity : BoardIdentity) (config : DeviceConfig)
    (capabilities : DeviceCapabilities)
    → for_service version identity config capabilities ≡ none
    → max_string_len < length identity.manufacturer
unfolding for_service
for_service-none version identity config capabilities e =
    none_is_long (length identity.manufacturer) _ _ refl e

module _ (version : Version) (decode : Bytes → Result CoreError DeviceConfig)
    (encode : Body → Option Bytes) where
  -- How the configuration may change, from before a command to after it.
  abbrev pub IsAuthorized : ManagementService → ManagementCommand → Handled → Type 0
  IsAuthorized m command handled =
      (handled.1.config ≡ m.config)
      ⊎ ((command ≡ commit_configuration)
          × (m.staged ≡ some handled.1.config)
          × (validate handled.1.config (context m) ≡ ok tt)
          × (handled.1.staged ≡ none))
      ⊎ ((command ≡ factory_reset)
          × (for_board m.identity m.capabilities ≡ some handled.1.config)
          × (handled.1.staged ≡ none)
          × (handled.1.lifecycle.state ≡ LifecycleState.factory))

  -- The panics: an identity string of more than 64 bytes, where it is copied.
  abbrev pub Panics : ManagementService → ManagementCommand → Type 0
  Panics m command =
      ((command ≡ factory_reset) × (max_string_len < length m.identity.product))
      ⊎ ((command ≡ get_device_info) × (max_string_len < length m.identity.manufacturer))

  abbrev pub Outcome : ManagementService → ManagementCommand → Option Handled → Type 0
  Outcome m command result =
      ((handled : Handled) × (result ≡ some handled) × IsAuthorized m command handled)
      ⊎ ((result ≡ none) × Panics m command)

  returned :
      (m : ManagementService) (command : ManagementCommand) (handled : Handled)
      → IsAuthorized m command handled
      → Outcome m command (some handled)
  returned m command handled h = inl (handled, refl, h)

  activate-IsAuthorized :
      (m : ManagementService) (config : DeviceConfig) (check : Check)
      → m.staged ≡ some config
      → validate config (context m) ≡ check
      → IsAuthorized m commit_configuration (activate m config check)
  unfolding activate
  activate-IsAuthorized m config (err e) h v = inl refl
  activate-IsAuthorized m config (ok tt) h v = inr (inl (refl, h, v, refl))

  commit-IsAuthorized :
      (m : ManagementService) (staged : Option DeviceConfig)
      → m.staged ≡ staged
      → IsAuthorized m commit_configuration (commit_staged m staged)
  unfolding commit_staged
  commit-IsAuthorized m none h = inl refl
  commit-IsAuthorized m (some config) h =
      activate-IsAuthorized m config (validate config (context m)) h refl

  reset_to-Outcome :
      (m : ManagementService) (manager : LifecycleManager) (defaults : Option DeviceConfig)
      → for_board m.identity m.capabilities ≡ defaults
      → manager.state ≡ LifecycleState.factory
      → (defaults ≡ none → max_string_len < length m.identity.product)
      → Outcome m factory_reset (reset_to m manager defaults)
  unfolding reset_to
  reset_to-Outcome m manager none d at_factory long = inr (refl, inl (refl, long refl))
  reset_to-Outcome m manager (some config) d at_factory long =
      returned m factory_reset _ (inr (inr (refl, d, refl, at_factory)))

  reset-Outcome :
      (m : ManagementService) (result : Check) (manager : LifecycleManager)
      → (result ≡ ok tt → manager.state ≡ LifecycleState.factory)
      → Outcome m factory_reset (reset_after m (result, manager))
  unfolding reset_after
  reset-Outcome m (err e) manager h = returned m factory_reset _ (inl refl)
  reset-Outcome m (ok tt) manager h =
      reset_to-Outcome m manager (for_board m.identity m.capabilities) refl (h refl)
        (for_board-none m.identity m.capabilities)

  inform-Outcome :
      (m : ManagementService) (info : Option DeviceInfo)
      → (info ≡ none → max_string_len < length m.identity.manufacturer)
      → Outcome m get_device_info (inform version decode encode m info)
  unfolding inform
  inform-Outcome m none long = inr (refl, inr (refl, long refl))
  inform-Outcome m (some info) long = returned m get_device_info _ (inl refl)

  stage-Config :
      (m : ManagementService) (config : DeviceConfig) (check : Check)
      → (stage m config check).1.config ≡ m.config
  unfolding stage
  stage-Config m config (err e) = refl
  stage-Config m config (ok tt) = refl

  set-Config :
      (m : ManagementService) (decoded : Result CoreError DeviceConfig)
      → (set_decoded version decode encode m decoded).1.config ≡ m.config
  unfolding set_decoded
  set-Config m (err e) = refl
  set-Config m (ok config) = stage-Config m config (validate config (context m))

  -- Every command returns, but for the two panics on an identity string of more than 64 bytes, which
  -- the catalog of boards excludes. The configuration is changed by two commands only: by the commit
  -- of the staged configuration, which passes its validation at that moment, and by a factory reset,
  -- which puts the default of the board in its place and leaves the device in its factory state. Both
  -- clear what is staged.
  pub handle-IsAuthorized :
      (m : ManagementService) (command : ManagementCommand) (payload : Bytes)
      → Outcome m command (handle version decode encode m command payload)
  unfolding handle
  handle-IsAuthorized m get_device_info payload =
      inform-Outcome m (for_service version m.identity m.config m.capabilities)
        (for_service-none version m.identity m.config m.capabilities)
  handle-IsAuthorized m commit_configuration payload =
      returned m commit_configuration _ (commit-IsAuthorized m m.staged refl)
  handle-IsAuthorized m factory_reset payload = reset-Outcome m _ _ (reset-Factory m.lifecycle)
  handle-IsAuthorized m set_configuration payload =
      returned m set_configuration _
        (inl (set-Config m (mapped version decode encode (decode payload))))
  handle-IsAuthorized m command payload = returned m command _ (inl refl)
