-- ===== src/Core/Configuration.antt =====
-- crates/aegis-core/src/configuration.rs: the configuration, its validation and the default of a
-- board. Its CBOR codec is not modelled.
pub mod Identity
pub mod Defaults
mod Examples
use aegis_token.Base.{
  ℕ, ◌^◌, bit_and, Bool, true, false, not, ◌&&◌, ◌||◌, ◌==◌, ltb, leb, if◌then◌else◌, Result, ok,
  err, guard, ◌>>◌, Option, none, some, [], ◌∷◌, length, Bytes,
}
use aegis_token.Core.Error.{CoreError, invalid_capability, invalid_configuration, unauthorized}
use aegis_token.Core.Lifecycle.{LifecycleState, allows_config_change, allows_identity_provisioning}
use aegis_token.Core.Capabilities.{
  LedDriverCapabilities, LedCapabilities, PresenceCapabilities, DeviceCapabilities, BoardIdentity,
}

abbrev pub config_version : ℕ
config_version = 1

abbrev pub default_presence_debounce_ms : ℕ
default_presence_debounce_ms = 20

abbrev pub default_presence_timeout_ms : ℕ
default_presence_timeout_ms = 15000

abbrev pub min_debounce_ms : ℕ
min_debounce_ms = 5

abbrev pub max_debounce_ms : ℕ
max_debounce_ms = 1000

abbrev pub min_timeout_ms : ℕ
min_timeout_ms = 1000

abbrev pub max_timeout_ms : ℕ
max_timeout_ms = 60000

pub data LedDriver : Type 0 where
  gpio pwm ws2812 : LedDriver

pub data LedBehavior : Type 0 where
  off solid activity blink : LedBehavior

pub data PresenceSource : Type 0 where
  bootsel external_button : PresenceSource

pub record UsbConfig : Type 0 where
  pub product_string : Bytes
  pub vid : ℕ
  pub pid : ℕ

pub record LedConfig : Type 0 where
  pub enabled : Bool
  pub gpio : ℕ
  pub brightness : ℕ
  pub driver : LedDriver
  pub behavior : LedBehavior

pub record PresenceConfig : Type 0 where
  pub source : PresenceSource
  pub debounce_ms : ℕ
  pub timeout_ms : ℕ

pub record DeviceConfig : Type 0 where
  pub version : ℕ
  pub usb : UsbConfig
  pub led : LedConfig
  pub presence : PresenceConfig

pub record ValidationContext : Type 0 where
  pub capabilities : DeviceCapabilities
  pub lifecycle : LifecycleState
  pub identity : BoardIdentity

abbrev pub Check : Type 0
Check = Result CoreError (Unit {0})

-- `Some(self.gpio) != caps.default_gpio`
abbrev is_default : ℕ → Option ℕ → Bool
is_default pin none = false
is_default pin (some default) = pin == default

abbrev driver_supported : LedDriver → LedDriverCapabilities → Bool
driver_supported LedDriver.gpio drivers = drivers.gpio
driver_supported LedDriver.pwm drivers = drivers.pwm
driver_supported LedDriver.ws2812 drivers = drivers.ws2812

-- The pin is one that the configuration may select: `candidate_gpio_mask & (1 << gpio) != 0`.
abbrev pin_selectable : LedCapabilities → ℕ → Bool
pin_selectable caps pin =
    if caps.configurable_gpio
    then not (bit_and caps.candidate_gpio_mask (2 ^ pin) == 0)
    else is_default pin caps.default_gpio

pub validate_led : LedConfig → LedCapabilities → ℕ → Check
validate_led led caps gpio_count =
    if not caps.available
    then guard (not led.enabled) invalid_capability
    else if not led.enabled
    then ok tt
    else guard (ltb led.gpio gpio_count) invalid_configuration
      >> guard (pin_selectable caps led.gpio) invalid_capability
      >> guard (caps.brightness || led.brightness == caps.default_brightness) invalid_capability
      >> guard (driver_supported led.driver caps.drivers) invalid_capability

abbrev source_supported : PresenceSource → PresenceCapabilities → Bool
source_supported PresenceSource.bootsel caps = caps.bootsel
source_supported PresenceSource.external_button caps = caps.external_button

-- The button's pin, if that is the source, is one of the chip's.
abbrev button_in_range : PresenceSource → Option ℕ → ℕ → Bool
button_in_range PresenceSource.external_button (some pin) gpio_count = ltb pin gpio_count
button_in_range _ _ gpio_count = true

pub validate_presence : PresenceConfig → PresenceCapabilities → ℕ → Check
validate_presence presence caps gpio_count =
    guard (source_supported presence.source caps) invalid_capability
    >> guard (button_in_range presence.source caps.external_button_gpio gpio_count)
        invalid_configuration
    >> guard
        (not (ltb presence.debounce_ms min_debounce_ms || ltb max_debounce_ms presence.debounce_ms))
        invalid_configuration
    >> guard
        (not (ltb presence.timeout_ms min_timeout_ms || ltb max_timeout_ms presence.timeout_ms))
        invalid_configuration
    >> guard (not (leb presence.timeout_ms presence.debounce_ms)) invalid_configuration

-- Equality of strings.
unfoldable pub same_string : Bytes → Bytes → Bool
same_string [] [] = true
same_string (x ∷ xs) (y ∷ ys) = x == y && same_string xs ys
same_string _ _ = false

-- A custom identity, which a factory device may be given.
pub validate_custom_usb : UsbConfig → ℕ → Check
validate_custom_usb usb max_len =
    guard (not (usb.vid == 0 || usb.pid == 0)) invalid_configuration
    >> guard (not (length usb.product_string == 0 || ltb max_len (length usb.product_string)))
        invalid_configuration

-- The identity of the board.
pub validate_board_usb : UsbConfig → BoardIdentity → ℕ → Check
unfolding same_string
validate_board_usb usb identity max_len =
    guard (same_string usb.product_string identity.product) unauthorized
    >> guard (not (not (usb.vid == identity.vendor_id) || not (usb.pid == identity.product_id)))
        unauthorized
    >> guard (not (ltb max_len (length usb.product_string))) invalid_configuration

pub validate_usb : UsbConfig → ValidationContext → Check
unfolding validate_custom_usb validate_board_usb
validate_usb usb ctx =
    let max_len = ctx.capabilities.usb.max_product_string_len in
    if ctx.capabilities.usb.configurable_identity && allows_identity_provisioning ctx.lifecycle
    then validate_custom_usb usb max_len
    else validate_board_usb usb ctx.identity max_len

-- The external button and the LED do not share a pin.
abbrev pins_apart : PresenceSource → Bool → Option ℕ → ℕ → Bool
pins_apart PresenceSource.external_button true (some button) led_gpio = not (led_gpio == button)
pins_apart _ _ _ led_gpio = true

pub validate : DeviceConfig → ValidationContext → Check
unfolding validate_usb validate_led validate_presence
validate config ctx =
    guard (config.version == config_version) invalid_configuration
    >> guard (allows_config_change ctx.lifecycle) unauthorized
    >> validate_usb config.usb ctx
    >> validate_led config.led ctx.capabilities.led ctx.capabilities.gpio_count
    >> validate_presence config.presence ctx.capabilities.presence ctx.capabilities.gpio_count
    >> guard
        (pins_apart config.presence.source config.led.enabled
          ctx.capabilities.presence.external_button_gpio config.led.gpio)
        invalid_configuration

-- `led.default_gpio.unwrap_or(0)`
abbrev pin_or_zero : Option ℕ → ℕ
pin_or_zero none = 0
pin_or_zero (some pin) = pin

abbrev default_driver : LedDriverCapabilities → LedDriver
default_driver drivers =
    if drivers.gpio
    then LedDriver.gpio
    else if drivers.pwm
    then LedDriver.pwm
    else if drivers.ws2812
    then LedDriver.ws2812
    else LedDriver.gpio

-- `FixedString::<64>::new(…).expect(…)`, which panics on a longer string.
abbrev pub max_string_len : ℕ
max_string_len = 64

-- The record that `for_board` builds, once the product string has fitted.
pub board_defaults : BoardIdentity → DeviceCapabilities → DeviceConfig
board_defaults identity capabilities = record {
  version = config_version;
  usb = record {
    product_string = identity.product;
    vid = identity.vendor_id;
    pid = identity.product_id;
  };
  led = record {
    enabled = capabilities.led.available;
    gpio = pin_or_zero capabilities.led.default_gpio;
    brightness = capabilities.led.default_brightness;
    driver = default_driver capabilities.led.drivers;
    behavior = LedBehavior.activity;
  };
  presence = record {
    source =
        if capabilities.presence.bootsel
        then PresenceSource.bootsel
        else PresenceSource.external_button;
    debounce_ms = default_presence_debounce_ms;
    timeout_ms = default_presence_timeout_ms;
  };
}

-- `none` is the panic.
unfoldable pub for_board : BoardIdentity → DeviceCapabilities → Option DeviceConfig
unfolding board_defaults
for_board identity capabilities =
    if leb (length identity.product) max_string_len
    then some (board_defaults identity capabilities)
    else none
