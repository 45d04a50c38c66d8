-- ===== src/Lib.antt =====
-- AegisToken, a FIDO2 security key and smart card for the RP2350: the logic of its two portable
-- crates, crates/aegis-core (boot, lifecycle, presence, CTAPHID, storage, updates, management) and
-- crates/aegis-applets (the CCID card: frames, APDUs, TLV, PIN slots, the router), and the framing
-- of the host's tool, crates/aegistoken-host.
--
-- How the parts work together. The device boots into one execution state (state.rs), which decides
-- what it serves: FIDO over CTAPHID, the CCID card, management, or a recovery session. A FIDO
-- operation that needs a touch arms the presence controller (presence.rs) while the execution state
-- is FidoWaitPresence. On the CCID side bulk packets are fed into the card (card.rs), which takes
-- frames out of its assembler (ccid.rs), hands the APDU of an XfrBlock to the router (router.rs) and
-- encodes the answer; the router parses it (apdu.rs), selects or calls an applet, and chains a long
-- answer. The applets read and write TLV (tlv.rs) and keep their PINs in slots (pin.rs). The
-- configuration and sealed secrets are records in two alternating slots of a storage (storage.rs),
-- and a firmware update is staged in a region of one, and verified there (update.rs). The host cuts a
-- management command into reports (framing.rs), which the device reassembles (management.rs) and
-- hands to the management service (management_protocol.rs); a configuration is staged, validated
-- against the board and the lifecycle (configuration.rs, capabilities.rs), and committed. A FIDO
-- operation is authorised by a token that the platform obtains by showing the PIN (pin.rs).
--
-- Files and code. A module is named for the source file that it models, with the functions under
-- their names in it; its children prove what their names say, and its Examples hold the concrete
-- inputs.
--   Base: lists, results, machine words and Boolean tests on the native numbers.
--   Core/Error: crates/aegis-core/src/error.rs, CoreError and its codes.
--   Core/State: crates/aegis-core/src/state.rs, ExecutionState, BootPlan.
--   Core/Lifecycle: crates/aegis-core/src/lifecycle.rs, LifecycleState, LifecycleManager.
--   Core/Recovery: crates/aegis-core/src/recovery.rs, RecoverySession.
--   Core/Presence: crates/aegis-core/src/presence.rs, PresenceController; its children Waiter and
--     Gate model PresenceWaiter and ContextualPresence.
--   Core/CtapHid: crates/aegis-core/src/ctaphid.rs, commands, channels, reports and Assembler.
--   Core/OtpLab: crates/aegis-core/src/otp_lab.rs, parse_request, the encoders and handle_report.
--   Core/Storage: crates/aegis-core/src/storage.rs, SlotStore over the trait Storage of traits.rs,
--     and crc32 of configuration.rs; Storage/Device says what is asked of a storage, Storage/Config
--     models ConfigStorage and SecretStorage.
--   Core/Update: crates/aegis-core/src/update.rs, PackageHeader, verify_package, UpdateSession.
--   Core/Capabilities: crates/aegis-core/src/capabilities.rs, DeviceCapabilities and its parts, and
--     BoardIdentity of identity.rs.
--   Core/Configuration: crates/aegis-core/src/configuration.rs, DeviceConfig, validate, for_board.
--   Core/Management: crates/aegis-core/src/management.rs, reports and Assembler.
--   Core/ManagementProtocol: crates/aegis-core/src/management_protocol.rs, ManagementService; its
--     child Reports models the bodies of its answers and DiagnosticsReport of recovery.rs.
--   Core/ClientPin: crates/aegis-core/src/pin.rs, ClientPin::authorize and its parts; its children
--     Protocol and Operations model the requests, set_pin, change_pin, get_pin_token, key_agreement.
--   Host/Framing: crates/aegistoken-host/src/framing.rs, encode and ResponseAssembler.
--   Applets/Apdu: crates/aegis-applets/src/apdu.rs, Apdu, Response, Chainer; Apdu/Sw the status words.
--   Applets/Tlv: crates/aegis-applets/src/tlv.rs, Reader::next, find, write.
--   Applets/PinSlot: crates/aegis-applets/src/pin.rs, PinSlot, PinHash, PinPolicy.
--   Applets/Ccid: crates/aegis-applets/src/ccid.rs, Request, Response, Assembler.
--   Applets/Router: crates/aegis-applets/src/router.rs, Router, the trait Applet; placeholder.rs.
--   Applets/Card: crates/aegis-applets/src/card.rs, Card::feed, poll, complete_presence, reset.
--
-- How code is modelled. A method on `&mut self` is a function that returns the result and the state
-- after it, on the error paths too; a function that writes into a buffer returns the buffer. A
-- number is a native natural number, with the wrap-around of its width written out where the code
-- can reach it; a byte is a number below 256 where a theorem needs it. A panic of an index out of
-- range is `none`, and a theorem excludes it (Applets/Router, Applets/Card); so is the panic of an
-- identity string of more than 64 bytes (Core/Configuration, Core/ManagementProtocol), which the
-- catalog of boards excludes when it is built. The sum of lengths in verify_package is one of a
-- 64-bit `usize`.
--
-- Bounds and fuel. Reader::next consumes at least one byte, so the length of the input is fuel for
-- `find`; the drain of a chained response is given its length, each exchange serving at least one
-- byte; the loop of UpdateSession::finish is given the length of the image, each round reading at
-- least one byte; the card's loop over a buffer is given the buffer's length, each frame taking at least ten.
--
-- Parameters. SHA-256 of PinHash::of is a function `digest` on byte strings, of which only the
-- length of its result is assumed, and only where a theorem says so. The applets behind the router
-- are the functions of the trait Applet over one shared state, which includes the generator. A
-- storage is given by the methods of its trait, of which a theorem asks that reads inside the
-- capacity give the contents, that a write to erased bytes or an erase which succeeds has its effect,
-- and that none of them changes a byte outside its range, even where it fails half-way; a memory of
-- bytes has these laws. The streaming hash and the signatures of an update are parameters, of which
-- only the law of streaming is assumed; so are the CBOR codec of configurations and of the bodies of
-- management responses, and the version of the crate. The ciphers, hashes and the curve of the client
-- PIN, the generator and the state of the trait PinState are parameters; the theorems assume of them
-- that setting the retries keeps the PIN and that the generator fills its buffer.
--
-- Not modelled: the cryptographic and CBOR parts (authenticator.rs, ctap2.rs, u2f.rs, the CBOR of the
-- client PIN,
-- and the PIV, OpenPGP and OATH applets), the credential store, hardware profiles and discovery, the
-- commands and the USB I/O of crates/aegistoken-host, the board and firmware crates, which drive
-- hardware, and the zeroing of memory, which has no value to observe.
pub mod Base
pub mod Core
pub mod Applets
pub mod Host
