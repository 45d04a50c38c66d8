-- ===== src/Core/Capabilities.antt =====
-- crates/aegis-core/src/capabilities.rs and the board identity of identity.rs.
use aegis_token.Base.{ℕ, Bool, true, false, not, ◌*◌, ◌^◌, Option, some, none, Bytes}

pub data Rp2350Family : Type 0 where
  rp2350 rp2354 : Rp2350Family

pub data Rp2350Package : Type 0 where
  qfn60 qfn80 : Rp2350Package

unfoldable pub gpio_count_of : Rp2350Package → ℕ
gpio_count_of qfn60 = 30
gpio_count_of qfn80 = 48

pub from_package_sel : Bool → Rp2350Package
from_package_sel true = qfn60
from_package_sel false = qfn80

pub record FlashCapabilities : Type 0 where
  pub external : Bool
  pub internal : Bool
  pub size_bytes : ℕ

pub record UsbCapabilities : Type 0 where
  pub device : Bool
  pub fido_hid : Bool
  pub management_hid : Bool
  pub max_product_string_len : ℕ
  pub configurable_identity : Bool

pub record LedDriverCapabilities : Type 0 where
  pub gpio : Bool
  pub pwm : Bool
  pub ws2812 : Bool

pub record LedCapabilities : Type 0 where
  pub available : Bool
  pub configurable_gpio : Bool
  pub candidate_gpio_mask : ℕ
  pub brightness : Bool
  pub drivers : LedDriverCapabilities
  pub default_gpio : Option ℕ
  pub default_brightness : ℕ

pub record PresenceCapabilities : Type 0 where
  pub bootsel : Bool
  pub external_button : Bool
  pub external_button_gpio : Option ℕ

pub record DeviceCapabilities : Type 0 where
  pub family : Rp2350Family
  pub chip : Rp2350Package
  pub gpio_count : ℕ
  pub flash : FlashCapabilities
  pub usb : UsbCapabilities
  pub led : LedCapabilities
  pub presence : PresenceCapabilities

abbrev internal_flash : Rp2350Family → Bool
internal_flash rp2354 = true
internal_flash rp2350 = false

abbrev pub for_variant : Rp2350Family → Rp2350Package → DeviceCapabilities
unfolding gpio_count_of
for_variant family chip = record {
  family = family;
  chip = chip;
  gpio_count = gpio_count_of chip;
  flash = record {
    external = not (internal_flash family);
    internal = internal_flash family;
    size_bytes = 2 * 1024 * 1024;
  };
  usb = record {
    device = true;
    fido_hid = true;
    management_hid = true;
    max_product_string_len = 64;
    configurable_identity = true;
  };
  led = record {
    available = true;
    configurable_gpio = true;
    candidate_gpio_mask = 2 ^ 25;
    brightness = true;
    drivers = record { gpio = true; pwm = true; ws2812 = false };
    default_gpio = some 25;
    default_brightness = 255;
  };
  presence = record { bootsel = true; external_button = false; external_button_gpio = none };
}

-- Strings are their bytes.
pub record BoardIdentity : Type 0 where
  pub manufacturer : Bytes
  pub product : Bytes
  pub board : Bytes
  pub revision : ℕ
  pub vendor_id : ℕ
  pub product_id : ℕ
