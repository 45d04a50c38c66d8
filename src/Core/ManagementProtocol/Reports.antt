-- ===== src/Core/ManagementProtocol/Reports.antt =====
-- crates/aegis-core/src/management_protocol.rs and recovery.rs: the reports of the management
-- service. The firmware's version, which the build sets, is a parameter.
use aegis_token.Base.{ℕ, Bool, Option, some, none, if◌then◌else◌, leb, length, Bytes}
use aegis_token.Core.State
use aegis_token.Core.State.{BootPlan}
use aegis_token.Core.Lifecycle
use aegis_token.Core.Lifecycle.{LifecycleState}
use aegis_token.Core.Capabilities.{
  Rp2350Family, rp2350, rp2354, Rp2350Package, qfn60, qfn80, DeviceCapabilities, BoardIdentity,
}
use aegis_token.Core.Configuration.{DeviceConfig, config_version, max_string_len}

pub family_code : Rp2350Family → ℕ
family_code rp2350 = 0
family_code rp2354 = 1

pub package_code : Rp2350Package → ℕ
package_code qfn60 = 0
package_code qfn80 = 1

pub record Version : Type 0 where
  pub major : ℕ
  pub minor : ℕ
  pub patch : ℕ

pub record DeviceInfo : Type 0 where
  pub product : Bytes
  pub family : ℕ
  pub version_major : ℕ
  pub version_minor : ℕ
  pub version_patch : ℕ
  pub config_version : ℕ
  pub manufacturer : Bytes

-- The manufacturer goes into a `FixedString` of 64 bytes; `none` is the panic of its `expect`.
unfoldable pub for_service :
    Version → BoardIdentity → DeviceConfig → DeviceCapabilities → Option DeviceInfo
unfolding family_code
for_service version identity config capabilities =
    if leb (length identity.manufacturer) max_string_len
    then some (record {
      product = config.usb.product_string;
      family = family_code capabilities.family;
      version_major = version.major;
      version_minor = version.minor;
      version_patch = version.patch;
      config_version = config_version;
      manufacturer = identity.manufacturer;
    })
    else none

pub record CapabilityReport : Type 0 where
  pub family : ℕ
  pub chip : ℕ
  pub gpio_count : ℕ
  pub flash_external : Bool
  pub flash_internal : Bool
  pub flash_size_bytes : ℕ
  pub usb_device : Bool
  pub usb_fido_hid : Bool
  pub usb_management_hid : Bool
  pub usb_max_product_string_len : ℕ
  pub led_available : Bool
  pub led_configurable_gpio : Bool
  pub led_brightness : Bool
  pub led_driver_gpio : Bool
  pub led_driver_pwm : Bool
  pub led_driver_ws2812 : Bool
  pub led_default_gpio : Option ℕ
  pub led_default_brightness : ℕ
  pub presence_bootsel : Bool
  pub presence_external_button : Bool
  pub presence_external_button_gpio : Option ℕ
  pub led_candidate_gpio_mask : ℕ
  pub usb_configurable_identity : Bool

abbrev pub capability_report : DeviceCapabilities → CapabilityReport
unfolding family_code package_code
capability_report caps = record {
  family = family_code caps.family;
  chip = package_code caps.chip;
  gpio_count = caps.gpio_count;
  flash_external = caps.flash.external;
  flash_internal = caps.flash.internal;
  flash_size_bytes = caps.flash.size_bytes;
  usb_device = caps.usb.device;
  usb_fido_hid = caps.usb.fido_hid;
  usb_management_hid = caps.usb.management_hid;
  usb_max_product_string_len = caps.usb.max_product_string_len;
  led_available = caps.led.available;
  led_configurable_gpio = caps.led.configurable_gpio;
  led_brightness = caps.led.brightness;
  led_driver_gpio = caps.led.drivers.gpio;
  led_driver_pwm = caps.led.drivers.pwm;
  led_driver_ws2812 = caps.led.drivers.ws2812;
  led_default_gpio = caps.led.default_gpio;
  led_default_brightness = caps.led.default_brightness;
  presence_bootsel = caps.presence.bootsel;
  presence_external_button = caps.presence.external_button;
  presence_external_button_gpio = caps.presence.external_button_gpio;
  led_candidate_gpio_mask = caps.led.candidate_gpio_mask;
  usb_configurable_identity = caps.usb.configurable_identity;
}

pub record LifecycleReport : Type 0 where
  pub state : ℕ

pub record StatusReport : Type 0 where
  pub lifecycle : ℕ
  pub config_version : ℕ
  pub staged : Bool

pub record DiagnosticsReport : Type 0 where
  pub version_major : ℕ
  pub version_minor : ℕ
  pub version_patch : ℕ
  pub lifecycle : ℕ
  pub config_version : ℕ
  pub staged : Bool
  pub gpio_count : ℕ
  pub flash_size_bytes : ℕ
  pub boot_destination : ℕ
  pub fido_enabled : Bool
  pub ccid_enabled : Bool

abbrev pub current :
    Version → LifecycleState → ℕ → Bool → DeviceCapabilities → BootPlan → DiagnosticsReport
current version lifecycle config_version staged capabilities plan = record {
  version_major = version.major;
  version_minor = version.minor;
  version_patch = version.patch;
  lifecycle = Lifecycle.as_u8 lifecycle;
  config_version = config_version;
  staged = staged;
  gpio_count = capabilities.gpio_count;
  flash_size_bytes = capabilities.flash.size_bytes;
  boot_destination = State.as_u8 plan.destination;
  fido_enabled = plan.fido;
  ccid_enabled = plan.ccid;
}
