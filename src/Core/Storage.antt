-- ===== src/Core/Storage.antt =====
-- crates/aegis-core/src/storage.rs: records in two alternating slots of a storage, which is given
-- by the methods of its trait; crc32 is that of crates/aegis-core/src/configuration.rs.
pub mod Device
pub mod Slots
pub mod Newest
pub mod Storing
pub mod Atomic
pub mod Refinement
pub mod Config
mod Examples
use aegis_token.Base.{
  ℕ, zero, suc, ◌+◌, ◌-◌, ◌*◌, ◌/◌, ◌%◌, ◌^◌, bit_and, bit_xor, Bool, true, false, not, ◌&&◌, ◌||◌,
  ◌==◌, ltb, if◌then◌else◌, Result, ok, err, Option, none, some, List, [], ◌∷◌, ◌++◌, length, take,
  drop, Bytes, at, zeros, le16, le32, overlay, copy_at,
}
use aegis_token.Core.Error.{CoreError, storage_error}

-- Eight rounds of the loop over the bits of a byte.
crc_bits : ℕ → ℕ → ℕ
crc_bits zero crc = crc
crc_bits (suc n) crc =
    let mask = (2 ^ 32 - bit_and crc 1) % 2 ^ 32 in
    crc_bits n (bit_xor (crc / 2) (bit_and 0xedb8_8320 mask))

crc_bytes : ℕ → Bytes → ℕ
unfolding crc_bits
crc_bytes crc [] = crc
crc_bytes crc (byte ∷ bytes) = crc_bytes (crc_bits 8 (bit_xor crc byte)) bytes

-- `!crc` on 32 bits.
pub crc32 : Bytes → ℕ
unfolding crc_bytes
crc32 bytes = 0xffff_ffff - crc_bytes 0xffff_ffff bytes

abbrev pub slot_magic : Bytes
slot_magic = 0x41 ∷ 0x47 ∷ 0x53 ∷ 0x4c ∷ []

abbrev pub slot_header_len : ℕ
slot_header_len = 16

abbrev pub record_version : ℕ
record_version = 1

abbrev pub max_payload_bytes : ℕ
max_payload_bytes = 2304

abbrev pub slot_count : ℕ
slot_count = 2

-- The trait: a buffer is passed as it stands and comes back as the call leaves it.
pub record Storage (S : Type 0) : Type 0 where
  pub read : S → ℕ → Bytes → Result CoreError (Unit {0}) × Bytes × S
  pub write : S → ℕ → Bytes → Result CoreError (Unit {0}) × S
  pub erase : S → ℕ → ℕ → Result CoreError (Unit {0}) × S

pub record SlotStore (S : Type 0) : Type 0 where
  pub storage : S
  pub base : ℕ
  pub slot_size : ℕ

-- A call that indexes a buffer out of its bounds panics.
pub data Failure : Type 0 where
  failed : CoreError → Failure
  panicked : Failure

-- What the checks of a header leave: the sequence number, the payload's length and its checksum.
pub record Header : Type 0 where
  pub sequence : ℕ
  pub len : ℕ
  pub crc : ℕ

abbrev word : Bytes → ℕ → ℕ
word b i = at b i + at b (i + 1) * 256

abbrev dword : Bytes → ℕ → ℕ
dword b i = word b i + word b (i + 2) * 65536

-- `header[0..4] == SLOT_MAGIC`
abbrev has_magic : Bytes → Bool
has_magic b = at b 0 == 0x41 && at b 1 == 0x47 && at b 2 == 0x53 && at b 3 == 0x4c

pub parse_header : ℕ → Bytes → Option Header
parse_header limit b =
    if not (has_magic b)
    then none
    else if not (word b 8 == record_version)
    then none
    else if ltb limit (word b 10) || ltb max_payload_bytes (word b 10)
    then none
    else some (record { sequence = dword b 4; len = word b 10; crc = dword b 12 })

-- The header that `store` writes.
pub header_for : ℕ → Bytes → Bytes
header_for next_sequence payload =
    let header = copy_at 0 slot_magic (zeros slot_header_len) in
    let header = copy_at 4 (le32 next_sequence) header in
    let header = copy_at 8 (le16 record_version) header in
    let header = copy_at 10 (le16 (length payload % 2 ^ 16)) header in
    copy_at 12 (le32 (crc32 payload)) header

-- `best.is_none_or(|(best_sequence, _)| sequence > best_sequence)`
abbrev pub newer : Option (ℕ × ℕ) → ℕ → Bool
newer none sequence = true
newer (some best) sequence = ltb best.0 sequence

-- The next sequence number, and the slot that is not active.
pub target : Option (ℕ × ℕ) → ℕ × ℕ
target (some best) = ((best.0 + 1) % 2 ^ 32, 1 - best.1)
target none = (1, 0)

module _ {S : Type 0} (device : Storage S) where
  abbrev pub slot_offset : SlotStore S → ℕ → ℕ
  slot_offset st index = (st.base + index * st.slot_size) % 2 ^ 32

  abbrev pub payload_offset : SlotStore S → ℕ → ℕ
  payload_offset st index = (slot_offset st index + slot_header_len) % 2 ^ 32

  abbrev pub Found : Type 0
  Found = Result CoreError (Option (ℕ × ℕ)) × Bytes × SlotStore S

  -- What is made of the payload, once it is read.
  check_payload : SlotStore S → Header → Bytes → Result CoreError (Unit {0}) × Bytes × S → Found
  check_payload st h rest (err e, buf, s) = (err e, buf ++ rest, record st { storage = s })
  check_payload st h rest (ok done, buf, s) = (
    ok (if crc32 buf == h.crc then some (h.sequence, h.len) else none),
    buf ++ rest,
    record st { storage = s },
  )

  -- The rest of `read_slot`, once the header is checked.
  read_payload : SlotStore S → ℕ → Bytes → Option Header → Found
  unfolding check_payload
  read_payload st index out none = (ok none, out, st)
  read_payload st index out (some h) =
      check_payload st h (drop h.len out)
        (device.read st.storage (payload_offset st index) (take h.len out))

  after_header : SlotStore S → ℕ → Bytes → Result CoreError (Unit {0}) × Bytes × S → Found
  unfolding read_payload
  after_header st index out (err e, header, s) = (err e, out, record st { storage = s })
  after_header st index out (ok done, header, s) =
      read_payload (record st { storage = s }) index out (parse_header (length out) header)

  pub read_slot : SlotStore S → ℕ → Bytes → Found
  unfolding after_header
  read_slot st index out =
      after_header st index out
        (device.read st.storage (slot_offset st index) (zeros slot_header_len))

  -- One round of the loop of `scan`: the new best, on what the slot holds.
  abbrev pub better : Option (ℕ × ℕ) → ℕ → Option (ℕ × ℕ) → Option (ℕ × ℕ)
  better best index none = best
  better best index (some found) = if newer best found.0 then some (found.0, index) else best

  -- The rounds that are left, from `index` on; an error of `read_slot` ends them.
  scan_loop : ℕ → ℕ → Option (ℕ × ℕ) → Bytes → SlotStore S → Found
  scan_loop zero index best scratch st = (ok best, scratch, st)
  scan_loop (suc n) index best scratch st =
      let (found, scratch', st') = read_slot st index scratch in
      elim found [
        | err e ↦ (err e, scratch', st')
        | ok slot ↦ scan_loop n (index + 1) (better best index slot) scratch' st'
      ]

  pub scan : SlotStore S → Bytes → Found
  unfolding scan_loop
  scan st scratch = scan_loop slot_count 0 none scratch st

  pub load_slot : SlotStore S → ℕ → Bytes → Found
  load_slot st index out =
      if not (ltb index slot_count) then (err storage_error, out, st) else read_slot st index out

  abbrev pub Loaded : Type 0
  Loaded = Result Failure (Option (ℕ × ℕ)) × Bytes × SlotStore S

  -- `out[..length].copy_from_slice(&scratch[..length])`, then the next rounds.
  load_loop : ℕ → ℕ → Option (ℕ × ℕ) → Bytes → Bytes → SlotStore S → Loaded
  load_loop zero index best scratch out st = (ok best, out, st)
  load_loop (suc n) index best scratch out st =
      let (found, scratch', st') = read_slot st index scratch in
      elim found [
        | err e ↦ (err (failed e), out, st')
        | ok none ↦ load_loop n (index + 1) best scratch' out st'
        | ok (some slot) ↦ elim (newer best slot.0) [
          | true ↦ elim (ltb (length out) slot.1) [
            | true ↦ (err panicked, out, st')
            | false ↦
                load_loop n (index + 1) (some slot) scratch' (overlay (take slot.1 scratch') out)
                  st'
          ]
          | false ↦ load_loop n (index + 1) best scratch' out st'
        ]
      ]

  pub load : SlotStore S → Bytes → Loaded
  unfolding load_loop
  load st out = load_loop slot_count 0 none (zeros max_payload_bytes) out st

  -- The three writes of `store`, each after the one before has succeeded.
  write_payload : SlotStore S → ℕ → ℕ → Bytes → Result CoreError ℕ × SlotStore S
  write_payload st index next_sequence payload =
      let (done, s) = device.write st.storage (payload_offset st index) payload in
      elim done [
        | err e ↦ (err e, record st { storage = s })
        | ok _ ↦ (ok next_sequence, record st { storage = s })
      ]

  write_header : SlotStore S → ℕ → ℕ → Bytes → Result CoreError ℕ × SlotStore S
  unfolding write_payload header_for
  write_header st index next_sequence payload =
      let (done, s) =
        device.write st.storage (slot_offset st index) (header_for next_sequence payload) in
      elim done [
        | err e ↦ (err e, record st { storage = s })
        | ok _ ↦ write_payload (record st { storage = s }) index next_sequence payload
      ]

  pub write_slot : SlotStore S → ℕ → ℕ → Bytes → Result CoreError ℕ × SlotStore S
  unfolding write_header
  write_slot st index next_sequence payload =
      let (done, s) = device.erase st.storage (slot_offset st index) st.slot_size in
      elim done [
        | err e ↦ (err e, record st { storage = s })
        | ok _ ↦ write_header (record st { storage = s }) index next_sequence payload
      ]

  -- The writes of `store`, on what the scan has found.
  store_after : Found → Bytes → Result CoreError ℕ × SlotStore S
  store_after (err e, scratch, st) payload = (err e, st)
  store_after (ok best, scratch, st) payload =
      let (next_sequence, inactive) = target best in write_slot st inactive next_sequence payload

  pub store : SlotStore S → Bytes → Result CoreError ℕ × SlotStore S
  unfolding store_after
  store st payload =
      if ltb max_payload_bytes (length payload)
      then (err storage_error, st)
      else store_after (scan st (zeros max_payload_bytes)) payload
