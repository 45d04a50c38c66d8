-- ===== src/Core/Error.antt =====
-- crates/aegis-core/src/error.rs: the error categories of the core and their wire codes.
use aegis_token.Base.{ℕ}

pub data CoreError : Type 0 where
  invalid_command unsupported_command invalid_capability invalid_configuration : CoreError
  invalid_state unauthorized storage_error crypto_error firmware_error protocol_error : CoreError

unfoldable pub code : CoreError → ℕ
code invalid_command = 0x01
code unsupported_command = 0x02
code invalid_capability = 0x03
code invalid_configuration = 0x04
code invalid_state = 0x05
code unauthorized = 0x06
code storage_error = 0x07
code crypto_error = 0x08
code firmware_error = 0x09
code protocol_error = 0x0a
