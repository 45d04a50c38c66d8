-- ===== src/Core.antt =====
-- crates/aegis-core.
pub mod Error
pub mod State
pub mod Lifecycle
pub mod Recovery
pub mod Presence
pub mod CtapHid
pub mod OtpLab
pub mod Storage
pub mod Update
pub mod Management
pub mod Capabilities
pub mod Configuration
pub mod ClientPin
pub mod ManagementProtocol
