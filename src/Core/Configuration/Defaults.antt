-- ===== src/Core/Configuration/Defaults.antt =====
-- crates/aegis-core/src/configuration.rs: the default configuration of a board is valid.
use aegis_token.Base.{ℕ, ◌≤◌, ◌<◌, ◌≡◌, ◌≢◌, binary_digit, true, ◌||◌, some, length}
use aegis_token.Core.Lifecycle.{LifecycleState}
use aegis_token.Core.Capabilities.{BoardIdentity, DeviceCapabilities, LedCapabilities}
use aegis_token.Core.Configuration.{ValidationContext, max_string_len}

-- What the board catalog asserts of an LED: it declares a pin, which is one of the chip's and, where
-- the pin may be configured, one of the candidates, and a driver.
pub record IsUsableLed (led : LedCapabilities) (gpio_count : ℕ) : Type 0 where
  pub pin : ℕ
  pub declared : led.default_gpio ≡ some pin
  pub exists : pin < gpio_count
  pub candidate : led.configurable_gpio ≡ true → binary_digit pin led.candidate_gpio_mask ≡ 1
  pub driven : (led.drivers.gpio || led.drivers.pwm || led.drivers.ws2812) ≡ true

-- Capabilities and an identity that describe a board, as its catalog asserts: the product string
-- fits in the 64 bytes of an identity string, for which the capabilities have room; the identity is
-- set; there is a way to show presence; and the button's pin is one of the chip's and not the LED's.
pub record IsBoard (identity : BoardIdentity) (caps : DeviceCapabilities) : Type 0 where
  pub vendor : identity.vendor_id ≢ 0
  pub product : identity.product_id ≢ 0
  pub named : 0 < length identity.product
  pub bounded : length identity.product ≤ max_string_len
  pub room : max_string_len ≤ caps.usb.max_product_string_len
  pub led : caps.led.available ≡ true → IsUsableLed caps.led caps.gpio_count
  pub present : (caps.presence.bootsel || caps.presence.external_button) ≡ true
  pub button_exists :
      (pin : ℕ) → caps.presence.external_button_gpio ≡ some pin → pin < caps.gpio_count
  pub button_alone :
      (pin : ℕ) → caps.presence.external_button_gpio ≡ some pin → caps.led.default_gpio ≢ some pin

module _ (identity : BoardIdentity) (caps : DeviceCapabilities)
    (board : IsBoard identity caps) where
  abbrev context : LifecycleState → ValidationContext
  context lifecycle = record { capabilities = caps; lifecycle = lifecycle; identity = identity }
