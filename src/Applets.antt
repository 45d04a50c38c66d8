-- ===== src/Applets.antt =====
-- crates/aegis-applets: the smart-card applets' shared layers.
pub mod Apdu
pub mod Tlv
pub mod PinSlot
pub mod Ccid
pub mod Router
pub mod Card
