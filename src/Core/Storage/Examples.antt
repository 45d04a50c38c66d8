-- ===== src/Core/Storage/Examples.antt =====
-- Concrete stores of crates/aegis-core/src/storage.rs, on a memory of bytes.
use aegis_token.Base.{
  ℕ, ◌≡◌, refl, Result, ok, err, some, none, [], ◌∷◌, Bytes, length, take, zeros, length-replicate,
  arith,
}
use aegis_token.Core.Error.{CoreError, invalid_configuration}
use aegis_token.Core.Storage.{
  Storage, SlotStore, load, store, crc32, read_slot, parse_header, scan, write_slot, target,
  crc_bytes, crc_bits,
}
use aegis_token.Core.Storage.Config.{commit}
use aegis_token.Core.Storage.Device.{memory, memory-IsLawful, region}
use aegis_token.Core.Storage.Slots.{IsPlaced, measured, IsCopied, Same, announced}
use aegis_token.Core.Storage.Newest.{latest, load-newest}
use aegis_token.Core.Storage.Atomic.{Stores, next_sequence}
use aegis_token.Core.Storage.Refinement.{store-Refines, load-store}

abbrev device : Storage (ℕ → ℕ)
device = memory 8192

abbrev same_contents : (ℕ → ℕ) → ℕ → ℕ
same_contents c = c

abbrev erased_store : SlotStore (ℕ → ℕ)
erased_store = record { storage = λ a. 0xff; base = 0; slot_size = 4096 }

abbrev secret : Bytes
secret = 1 ∷ 2 ∷ 3 ∷ []

erased_store-IsPlaced : IsPlaced 8192 erased_store
erased_store-IsPlaced = record {
  inside = omega arith;
  addressable = omega arith;
  roomy = omega arith;
}

erased_store_empty : latest device same_contents 8192 erased_store ≡ none
unfolding region parse_header announced
erased_store_empty = refl

-- The check value of CRC-32: of the text 123456789.
crc32_check :
    crc32 (0x31 ∷ 0x32 ∷ 0x33 ∷ 0x34 ∷ 0x35 ∷ 0x36 ∷ 0x37 ∷ 0x38 ∷ 0x39 ∷ []) ≡ 0xcbf4_3926
unfolding crc32 crc_bytes crc_bits
crc32_check = refl

first_store : (store device erased_store secret).0 ≡ ok 1
unfolding store scan read_slot parse_header region write_slot target
first_store = refl

store-Refines_example :
    let (r, st') = store device erased_store secret in
    Stores
      (latest device same_contents 8192 erased_store)
      secret
      r
      (latest device same_contents 8192 st')
unfolding region parse_header announced
store-Refines_example =
    store-Refines device same_contents 8192 (memory-IsLawful 8192) erased_store secret
      erased_store-IsPlaced tt

load-store_example :
    let (r, out', st') = load device (store device erased_store secret).1 (zeros 2304) in
    (1 ≡ next_sequence (latest device same_contents 8192 erased_store))
    × (r ≡ ok (some (1, 3)))
    × (take 3 out' ≡ secret)
unfolding region parse_header announced
load-store_example =
    load-store device same_contents 8192 (memory-IsLawful 8192) erased_store secret (zeros 2304) 1
      erased_store-IsPlaced tt (omega (arith, length-replicate {A = ℕ} 2304 0)) first_store

load-newest_example :
    let (r, out', st') = load device erased_store (zeros 2304) in
    (r ≡ ok (measured (latest device same_contents 8192 erased_store)))
    × IsCopied (latest device same_contents 8192 erased_store) out'
    × (length out' ≡ length (zeros 2304))
    × Same device same_contents 8192 erased_store st'
load-newest_example =
    load-newest device same_contents 8192 (memory-IsLawful 8192) erased_store (zeros 2304)
      erased_store-IsPlaced (omega (arith, length-replicate {A = ℕ} 2304 0))

-- A configuration of one byte.
abbrev encode_byte : ℕ → ℕ → Result CoreError Bytes
encode_byte room config = ok (config ∷ [])

abbrev decode_byte : Bytes → Result CoreError ℕ
decode_byte [] = err invalid_configuration
decode_byte (b ∷ bytes) = ok b

first_commit : (commit device encode_byte erased_store 7).0 ≡ ok 1
unfolding commit store scan read_slot parse_header region write_slot target
first_commit = refl
