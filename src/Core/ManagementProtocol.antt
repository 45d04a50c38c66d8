-- ===== src/Core/ManagementProtocol.antt =====
-- crates/aegis-core/src/management_protocol.rs: the management commands and the service that owns
-- configuration and lifecycle. The CBOR codec is a parameter: `decode` of a configuration, and
-- `encode` of a response's body into 512 bytes.
pub mod Reports
pub mod Authority
pub mod Seal
mod Examples
use aegis_token.Base.{
  ℕ, bit_or, Bool, true, false, ◌==◌, if◌then◌else◌, Result, ok, err, Option, some, none, is_some,
  and_then, List, [], ◌∷◌, Bytes,
}
use aegis_token.Core.Error
use aegis_token.Core.Error.{
  CoreError, protocol_error, invalid_configuration, invalid_state, unsupported_command,
}
use aegis_token.Core.State.{ExecutionState, BootPlan, for_destination}
use aegis_token.Core.Lifecycle
use aegis_token.Core.Lifecycle.{LifecycleState, LifecycleManager, Op, apply}
use aegis_token.Core.Capabilities.{DeviceCapabilities, BoardIdentity}
use aegis_token.Core.Configuration.{DeviceConfig, ValidationContext, Check, validate, for_board}
use aegis_token.Core.ManagementProtocol.Reports.{
  Version, DeviceInfo, CapabilityReport, LifecycleReport, StatusReport, DiagnosticsReport,
  for_service, capability_report, current,
}

abbrev pub response_flag : ℕ
response_flag = 0x80

pub data ManagementCommand : Type 0 where
  get_device_info get_capabilities get_configuration set_configuration : ManagementCommand
  validate_configuration commit_configuration get_lifecycle commission_device : ManagementCommand
  get_status get_diagnostics decommission_device factory_reset soft_detach : ManagementCommand
  unknown : ℕ → ManagementCommand

pub code : ManagementCommand → ℕ
code get_device_info = 0x01
code get_capabilities = 0x02
code get_configuration = 0x03
code set_configuration = 0x04
code validate_configuration = 0x05
code commit_configuration = 0x06
code get_lifecycle = 0x07
code commission_device = 0x08
code get_status = 0x09
code get_diagnostics = 0x0a
code decommission_device = 0x0b
code factory_reset = 0x0c
code soft_detach = 0x0d
code (unknown c) = c

pub response_code : ManagementCommand → ℕ
unfolding code
response_code command = bit_or (code command) response_flag

pub from_code : ℕ → ManagementCommand
from_code c =
    if c == 0x01
    then get_device_info
    else if c == 0x02
    then get_capabilities
    else if c == 0x03
    then get_configuration
    else if c == 0x04
    then set_configuration
    else if c == 0x05
    then validate_configuration
    else if c == 0x06
    then commit_configuration
    else if c == 0x07
    then get_lifecycle
    else if c == 0x08
    then commission_device
    else if c == 0x09
    then get_status
    else if c == 0x0a
    then get_diagnostics
    else if c == 0x0b
    then decommission_device
    else if c == 0x0c
    then factory_reset
    else if c == 0x0d
    then soft_detach
    else unknown c

pub is_known : ManagementCommand → Bool
is_known (unknown c) = false
is_known _ = true

pub data ResponseStatus : Type 0 where
  success : ResponseStatus
  failure : CoreError → ResponseStatus

pub status_code : ResponseStatus → ℕ
status_code success = 0
status_code (failure e) = Error.code e

pub record Response : Type 0 where
  pub status : ResponseStatus
  pub payload : Bytes

abbrev pub ok_response : Response
ok_response = record { status = success; payload = [] }

abbrev pub error_response : CoreError → Response
error_response e = record { status = failure e; payload = [] }

-- The values that a response carries.
pub data Body : Type 0 where
  device_info_body : DeviceInfo → Body
  capabilities_body : CapabilityReport → Body
  configuration_body : DeviceConfig → Body
  lifecycle_body : LifecycleReport → Body
  status_body : StatusReport → Body
  diagnostics_body : DiagnosticsReport → Body

abbrev pub encoded : Option Bytes → Response
encoded (some bytes) = record { status = success; payload = bytes }
encoded none = error_response protocol_error

pub record ManagementService : Type 0 where
  pub capabilities : DeviceCapabilities
  pub identity : BoardIdentity
  pub lifecycle : LifecycleManager
  pub config : DeviceConfig
  pub staged : Option DeviceConfig
  pub boot_plan : BootPlan

abbrev pub new_service :
    DeviceCapabilities → BoardIdentity → DeviceConfig → LifecycleState → ManagementService
new_service capabilities identity config lifecycle = record {
  capabilities = capabilities;
  identity = identity;
  lifecycle = record { state = lifecycle };
  config = config;
  staged = none;
  boot_plan = for_destination ExecutionState.boot;
}

abbrev pub set_boot_plan : BootPlan → ManagementService → ManagementService
set_boot_plan plan m = record m { boot_plan = plan }

abbrev pub context : ManagementService → ValidationContext
context m = record {
  capabilities = m.capabilities;
  lifecycle = m.lifecycle.state;
  identity = m.identity;
}

abbrev pub Handled : Type 0
Handled = Response × ManagementService

-- `Ok(()) => Response::ok(), Err(error) => Response::error(error)`
abbrev pub answer : Check → Response
answer (ok done) = ok_response
answer (err e) = error_response e

-- The lifecycle operations: the response, and the manager as the operation leaves it.
abbrev pub operate : Op → ManagementService → Handled
operate op m =
    let (result, manager) = apply op m.lifecycle in
    (answer result, record m { lifecycle = manager })

-- `factory_reset`, once the lifecycle has answered; `none` is the panic of `for_board`.
reset_to : ManagementService → LifecycleManager → Option DeviceConfig → Option Handled
reset_to m manager none = none
reset_to m manager (some config) =
    some (ok_response, record m { lifecycle = manager; config = config; staged = none })

reset_after : ManagementService → Check × LifecycleManager → Option Handled
unfolding reset_to
reset_after m (err e, manager) = some (error_response e, record m { lifecycle = manager })
reset_after m (ok done, manager) = reset_to m manager (for_board m.identity m.capabilities)

-- `set_configuration`, once the payload is decoded and validated.
stage : ManagementService → DeviceConfig → Check → Handled
stage m config (err e) = (error_response e, m)
stage m config (ok done) = (ok_response, record m { staged = some config })

-- `commit_configuration`, once the staged configuration is validated again.
activate : ManagementService → DeviceConfig → Check → Handled
activate m config (err e) = (error_response e, m)
activate m config (ok done) = (ok_response, record m { config = config; staged = none })

commit_staged : ManagementService → Option DeviceConfig → Handled
unfolding activate
commit_staged m none = (error_response invalid_state, m)
commit_staged m (some config) = activate m config (validate config (context m))

module _ (version : Version) (decode : Bytes → Result CoreError DeviceConfig)
    (encode : Body → Option Bytes) where
  -- `DeviceConfig::decode(payload).map_err(|_| CoreError::InvalidConfiguration)`
  abbrev mapped : Result CoreError DeviceConfig → Result CoreError DeviceConfig
  mapped (ok config) = ok config
  mapped (err e) = err invalid_configuration

  validate_decoded : ManagementService → Result CoreError DeviceConfig → Response
  validate_decoded m (err e) = error_response e
  validate_decoded m (ok config) = answer (validate config (context m))

  set_decoded : ManagementService → Result CoreError DeviceConfig → Handled
  unfolding stage
  set_decoded m (err e) = (error_response e, m)
  set_decoded m (ok config) = stage m config (validate config (context m))

  -- `none` is the panic of `for_service`.
  inform : ManagementService → Option DeviceInfo → Option Handled
  inform m none = none
  inform m (some info) = some (encoded (encode (device_info_body info)), m)

  -- `none` is a panic.
  pub handle : ManagementService → ManagementCommand → Bytes → Option Handled
  unfolding inform validate_decoded set_decoded commit_staged reset_after
  handle m get_device_info payload =
      inform m (for_service version m.identity m.config m.capabilities)
  handle m get_capabilities payload =
      some (encoded (encode (capabilities_body (capability_report m.capabilities))), m)
  handle m get_configuration payload = some (encoded (encode (configuration_body m.config)), m)
  handle m validate_configuration payload = some (validate_decoded m (mapped (decode payload)), m)
  handle m set_configuration payload = some (set_decoded m (mapped (decode payload)))
  handle m commit_configuration payload = some (commit_staged m m.staged)
  handle m get_lifecycle payload =
      some (
        encoded (encode (lifecycle_body (record { state = Lifecycle.as_u8 m.lifecycle.state }))),
        m,
      )
  handle m commission_device payload = some (operate Op.commission m)
  handle m get_status payload = some (
    encoded (
        encode (
          status_body (record {
            lifecycle = Lifecycle.as_u8 m.lifecycle.state;
            config_version = m.config.version;
            staged = is_some m.staged;
          }))),
    m,
  )
  handle m get_diagnostics payload = some (
    encoded (
        encode (
          diagnostics_body (
            current version m.lifecycle.state m.config.version (is_some m.staged) m.capabilities
              m.boot_plan))),
    m,
  )
  handle m decommission_device payload = some (operate Op.decommission m)
  handle m factory_reset payload = reset_after m (apply Op.factory_reset m.lifecycle)
  handle m soft_detach payload = some (ok_response, m)
  handle m (unknown c) payload = some (error_response unsupported_command, m)

  -- The service after a sequence of commands.
  pub serve : ManagementService → List (ManagementCommand × Bytes) → Option ManagementService
  serve m [] = some m
  serve m (request ∷ rest) = and_then (handle m request.0 request.1) λ handled. serve handled.1 rest
