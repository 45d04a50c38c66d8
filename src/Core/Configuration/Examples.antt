-- ===== src/Core/Configuration/Examples.antt =====
-- Concrete configurations of crates/aegis-core/src/configuration.rs.
use aegis_token.Base.{◌≡◌, ◌⊎◌, refl, true, ok, err, none, replicate, [], ◌∷◌}
use aegis_token.Core.Error.{unauthorized}
use aegis_token.Core.Lifecycle.{LifecycleState, allows_config_change, allows_identity_provisioning}
use aegis_token.Core.Capabilities.{
  DeviceCapabilities, BoardIdentity, Rp2350Family, Rp2350Package, for_variant, gpio_count_of,
}
use aegis_token.Core.Configuration.{
  DeviceConfig, ValidationContext, validate, for_board, board_defaults, validate_usb,
  validate_custom_usb, validate_board_usb, validate_led, validate_presence, same_string,
}
use aegis_token.Core.Configuration.Identity.{IsCustom, IsBoards, validate-Identity}

abbrev caps : DeviceCapabilities
caps = for_variant Rp2350Family.rp2350 Rp2350Package.qfn60

abbrev identity : BoardIdentity
identity = record {
  manufacturer = 0x41 ∷ [];
  product = 0x54 ∷ 0x6f ∷ 0x6b ∷ [];
  board = 0x42 ∷ [];
  revision = 0;
  vendor_id = 0x1209;
  product_id = 1;
}

abbrev at_state : LifecycleState → ValidationContext
at_state lifecycle = record { capabilities = caps; lifecycle = lifecycle; identity = identity }

-- A product string of 65 bytes: the panic.
long_name_panics : for_board (record identity { product = replicate 65 0x54 }) caps ≡ none
unfolding for_board
long_name_panics = refl

-- The same configuration under another vendor.
abbrev custom : DeviceConfig
custom = record (board_defaults identity caps) {
  usb = record { product_string = 0x58 ∷ []; vid = 0x1050; pid = 7 };
}

custom_passes : validate custom (at_state LifecycleState.factory) ≡ ok tt
unfolding validate board_defaults allows_config_change allows_identity_provisioning validate_usb
    validate_custom_usb validate_led validate_presence gpio_count_of
custom_passes = refl

custom_refused : validate custom (at_state LifecycleState.commissioned) ≡ err unauthorized
unfolding validate board_defaults allows_config_change allows_identity_provisioning validate_usb
    validate_board_usb same_string validate_led validate_presence gpio_count_of
custom_refused = refl

validate-Identity_example :
    (allows_config_change LifecycleState.factory ≡ true)
    × (IsCustom custom.usb (at_state LifecycleState.factory)
        ⊎ IsBoards custom.usb (at_state LifecycleState.factory))
validate-Identity_example = validate-Identity custom (at_state LifecycleState.factory) custom_passes
