-- ===== src/Core/Storage/Config.antt =====
-- crates/aegis-core/src/storage.rs: the configuration in a slot store, and the store of secrets.
-- `DeviceConfig::encode` and `decode`, the CBOR codec, are parameters.
pub mod Persisted
use aegis_token.Base.{ℕ, Result, ok, err, Option, none, some, Bytes, take, zeros}
use aegis_token.Core.Error.{CoreError}
use aegis_token.Core.Storage.{
  Storage, SlotStore, Failure, failed, Found, Loaded, load, store, load_slot, max_payload_bytes,
}

module _ {S : Type 0} {C : Type 0} (device : Storage S) (decode : Bytes → Result CoreError C) where
  abbrev pub Configured : Type 0
  Configured = Result Failure (Option C) × SlotStore S

  abbrev decoded : Result CoreError C → Result Failure (Option C)
  decoded (ok config) = ok (some config)
  decoded (err e) = err (failed e)

  -- `Some((_sequence, length)) => Ok(Some(DeviceConfig::decode(&buf[..length])?))`
  abbrev from_record : Loaded device → Configured
  from_record (err e, buf, st) = (err e, st)
  from_record (ok none, buf, st) = (ok none, st)
  from_record (ok (some found), buf, st) = (decoded (decode (take found.1 buf)), st)

  pub config_load : SlotStore S → Configured
  config_load st = from_record (load device st (zeros max_payload_bytes))

-- `encode` is given the size of the buffer, and returns the bytes that it has written.
module _ {S : Type 0} {C : Type 0} (device : Storage S)
    (encode : ℕ → C → Result CoreError Bytes) where
  abbrev store_encoded : SlotStore S → Result CoreError Bytes → Result CoreError ℕ × SlotStore S
  store_encoded st (err e) = (err e, st)
  store_encoded st (ok bytes) = store device st bytes

  unfoldable pub commit : SlotStore S → C → Result CoreError ℕ × SlotStore S
  commit st config = store_encoded st (encode max_payload_bytes config)

module _ {S : Type 0} (device : Storage S) where
  abbrev pub secret_load : SlotStore S → Bytes → Loaded device
  secret_load st out = load device st out

  abbrev pub secret_load_slot : SlotStore S → ℕ → Bytes → Found device
  secret_load_slot st index out = load_slot device st index out

  abbrev pub secret_store : SlotStore S → Bytes → Result CoreError ℕ × SlotStore S
  secret_store st sealed = store device st sealed
