-- ===== src/Core/ManagementProtocol/Examples.antt =====
-- Concrete commands of crates/aegis-core/src/management_protocol.rs.
use aegis_token.Base.{◌≡◌, refl, Result, ok, Option, some, List, [], ◌∷◌, Bytes, arith}
use aegis_token.Core.Error.{CoreError}
use aegis_token.Core.Lifecycle.{LifecycleState}
use aegis_token.Core.Capabilities.{
  DeviceCapabilities, BoardIdentity, Rp2350Family, Rp2350Package, for_variant,
}
use aegis_token.Core.Configuration.{DeviceConfig, board_defaults}
use aegis_token.Core.ManagementProtocol.{
  ManagementCommand, ManagementService, Body, new_service, handle, serve, factory_reset,
  commit_configuration,
}
use aegis_token.Core.ManagementProtocol.Reports.{Version}
use aegis_token.Core.ManagementProtocol.Authority.{Outcome, handle-IsAuthorized}
use aegis_token.Core.ManagementProtocol.Seal.{IsSealed, serve-Sealed}

abbrev caps : DeviceCapabilities
caps = for_variant Rp2350Family.rp2350 Rp2350Package.qfn60

abbrev identity : BoardIdentity
identity = record {
  manufacturer = 0x41 ∷ [];
  product = 0x54 ∷ [];
  board = 0x42 ∷ [];
  revision = 0;
  vendor_id = 0x1209;
  product_id = 1;
}

abbrev version : Version
version = record { major = 0; minor = 2; patch = 1 }

-- A codec that knows one configuration.
abbrev decode : Bytes → Result CoreError DeviceConfig
decode bytes = ok (board_defaults identity caps)

abbrev encode : Body → Option Bytes
encode body = some []

abbrev device : LifecycleState → ManagementService
device = new_service caps identity (board_defaults identity caps)

abbrev requests : List (ManagementCommand × Bytes)
requests =
    (ManagementCommand.set_configuration, 1 ∷ [])
    ∷ (commit_configuration, [])
    ∷ (factory_reset, [])
    ∷ (ManagementCommand.commission_device, [])
    ∷ []

handle-IsAuthorized_example :
    Outcome version decode encode
      (device LifecycleState.factory)
      factory_reset
      (handle version decode encode (device LifecycleState.factory) factory_reset [])
handle-IsAuthorized_example =
    handle-IsAuthorized version decode encode (device LifecycleState.factory) factory_reset []

serve-Sealed_example :
    (m : ManagementService) × (serve version decode encode (device LifecycleState.active) requests
      ≡ some m)
    × IsSealed (device LifecycleState.active) m
serve-Sealed_example =
    serve-Sealed version decode encode (device LifecycleState.active) requests (omega arith)
      (ground arith, (ground arith, (ground arith, (ground arith, tt)))) refl
