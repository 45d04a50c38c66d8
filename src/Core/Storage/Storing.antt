-- ===== src/Core/Storage/Storing.antt =====
-- crates/aegis-core/src/storage.rs: the writes of `store`, complete or interrupted.
use aegis_token.Base.{
  ℕ, ◌+◌, ◌*◌, ◌%◌, ◌^◌, ◌≤◌, ◌<◌, ◌≡◌, refl, sym, ap, ◌∙◌, inl, inr, Result, ok, some, ◌++◌, Bytes,
  length, le32, le16, arith,
}
use aegis_token.Core.Error.{CoreError}
use aegis_token.Core.Storage.{
  Storage, SlotStore, header_for, parse_header, write_payload, write_header, write_slot,
  slot_offset, payload_offset, crc32, max_payload_bytes, slot_magic, record_version,
}
use aegis_token.Core.Storage.Device.{IsLawful, region, region-same, outcome, IsOutside, IsInside}
use aegis_token.Core.Storage.Slots.{slot_record, announced_match, IsPlaced, place}

crc32-Bounded : (bytes : Bytes) → crc32 bytes < 2 ^ 32
unfolding crc32
crc32-Bounded bytes = omega arith

header_bytes :
    (next : ℕ) (payload : Bytes)
    → header_for next payload
      ≡ slot_magic
        ++ (le32 next
            ++ (le16 record_version ++ (le16 (length payload % 2 ^ 16) ++ le32 (crc32 payload))))
unfolding header_for
header_bytes next payload = refl

length-header_for : (next : ℕ) (payload : Bytes) → length (header_for next payload) ≡ 16
unfolding header_for
length-header_for next payload = refl

-- The header that is written announces the payload.
parse-header_for :
    (next : ℕ) (payload : Bytes)
    → next < 2 ^ 32
    → length payload ≤ max_payload_bytes
    → parse_header max_payload_bytes (header_for next payload)
      ≡ some (record { sequence = next; len = length payload; crc = crc32 payload })
unfolding header_for parse_header
parse-header_for next payload small fits = ground (arith, crc32-Bounded payload)

-- What lies outside a range lies outside every part of it.
within :
    (offset n o m a : ℕ) → IsOutside offset n a → offset ≤ o → o + m ≤ offset + n → IsOutside o m a
within offset n o m a (inl h) low high = inl (omega arith)
within offset n o m a (inr h) low high = inr (omega arith)

module _ {S : Type 0} (device : Storage S) (contents : S → ℕ → ℕ) (capacity : ℕ) where
  -- Nothing outside the slot has changed, nor the place of the store.
  abbrev pub Untouched : SlotStore S → ℕ → S → Type 0
  Untouched st index s =
      (a : ℕ)
      → IsOutside (st.base + index * st.slot_size) st.slot_size a
      → contents s a ≡ contents st.storage a

  abbrev pub IsFramed : SlotStore S → ℕ → SlotStore S → Type 0
  IsFramed st index st' =
      Untouched st index st'.storage × (st'.base ≡ st.base) × (st'.slot_size ≡ st.slot_size)

  then-IsFramed :
      (st : SlotStore S) (s : S) (index : ℕ) (st' : SlotStore S)
      → Untouched st index s
      → IsFramed (record st { storage = s }) index st'
      → IsFramed st index st'
  then-IsFramed st s index st' first (rest, b, z) =
      (λ a outside. rest a outside ∙ first a outside, b, z)

  pub moved :
      (st : SlotStore S) (s : S)
      → IsPlaced capacity st
      → IsPlaced capacity (record st { storage = s })
  moved st s placed = record {
    inside = placed.inside;
    addressable = placed.addressable;
    roomy = placed.roomy;
  }

  module _ (lawful : IsLawful device contents capacity) where
    write_payload-Framed :
        (st : SlotStore S) (index next : ℕ) (payload : Bytes)
        → IsPlaced capacity st
        → index < 2
        → length payload ≤ max_payload_bytes
        → IsFramed st index (write_payload device st index next payload).1
    unfolding write_payload
    write_payload-Framed st index next payload placed lt fits =
        let (start, here, room, inside) =
          place device contents capacity lawful st index placed lt in
        let s' = (device.write st.storage (payload_offset device st index) payload).1 in
        let frame : Untouched st index s' = λ a outside.
          lawful.write_frame st.storage (payload_offset device st index) a payload
            (within _ _ _ _ a outside (omega arith) (omega arith)) in
        elim (outcome (device.write st.storage (payload_offset device st index) payload).0) [
          | inl (e, r) ↦ rw (r, write_payload) (frame, refl, refl)
          | inr r ↦ rw (r, write_payload) (frame, refl, refl)
        ]

    write_header-Framed :
        (st : SlotStore S) (index next : ℕ) (payload : Bytes)
        → IsPlaced capacity st
        → index < 2
        → length payload ≤ max_payload_bytes
        → IsFramed st index (write_header device st index next payload).1
    unfolding write_header
    write_header-Framed st index next payload placed lt fits =
        let (start, here, room, inside) =
          place device contents capacity lawful st index placed lt in
        let (r, s') =
          device.write st.storage (slot_offset device st index) (header_for next payload) in
        let frame : Untouched st index s' = λ a outside.
          lawful.write_frame st.storage (slot_offset device st index) a (header_for next payload) (
            within _ _ _ _ a outside (omega arith)
              (omega (arith, length-header_for next payload))) in
        elim (outcome r) [
          | inl (e, r) ↦ rw (r, write_header) (frame, refl, refl)
          | inr r ↦
              rw (r, write_header)
                (then-IsFramed st s' index _ frame (
                  write_payload-Framed (record st { storage = s' }) index next payload
                    (moved st s' placed) lt fits))
        ]

    pub write_slot-Framed :
        (st : SlotStore S) (index next : ℕ) (payload : Bytes)
        → IsPlaced capacity st
        → index < 2
        → length payload ≤ max_payload_bytes
        → IsFramed st index (write_slot device st index next payload).1
    unfolding write_slot
    write_slot-Framed st index next payload placed lt fits =
        let (start, here, room, inside) =
          place device contents capacity lawful st index placed lt in
        let (r, s') = device.erase st.storage (slot_offset device st index) st.slot_size in
        let frame : Untouched st index s' = λ a outside.
          lawful.erase_frame st.storage (slot_offset device st index) st.slot_size a
            (within _ _ _ _ a outside (omega arith) (omega arith)) in
        elim (outcome r) [
          | inl (e, r) ↦ rw (r, write_slot) (frame, refl, refl)
          | inr r ↦
              rw (r, write_slot)
                (then-IsFramed st s' index _ frame (
                  write_header-Framed (record st { storage = s' }) index next payload
                    (moved st s' placed) lt fits))
        ]

    -- What a slot holds, from the bytes of its header and its payload.
    written :
        (c : ℕ → ℕ) (offset next : ℕ) (payload : Bytes)
        → next < 2 ^ 32
        → length payload ≤ max_payload_bytes
        → region c offset 16 ≡ header_for next payload
        → region c (offset + 16) (length payload) ≡ payload
        → slot_record c offset max_payload_bytes ≡ some (next, payload)
    written c offset next payload small fits header body =
        rw (header, parse-header_for next payload small fits)
          (announced_match c (offset + 16) next payload body)

    abbrev IsErased : SlotStore S → ℕ → ℕ → Type 0
    IsErased st offset n = (a : ℕ) → IsInside offset n a → contents st.storage a ≡ 0xff

    -- A call that succeeds has written the record.
    abbrev pub IsWritten : SlotStore S → ℕ → ℕ → Bytes → Result CoreError ℕ × SlotStore S → Type 0
    IsWritten st index next payload (r, st') =
        (n : ℕ)
        → r ≡ ok n
        → (n ≡ next)
          × (slot_record (contents st'.storage) (st.base + index * st.slot_size) max_payload_bytes
              ≡ some (next, payload))

    write_payload-Written :
        (st : SlotStore S) (index next : ℕ) (payload : Bytes)
        → IsPlaced capacity st
        → index < 2
        → next < 2 ^ 32
        → length payload ≤ max_payload_bytes
        → let offset = st.base + index * st.slot_size in
          region (contents st.storage) offset 16 ≡ header_for next payload
          → IsErased st (offset + 16) (length payload)
          → IsWritten st index next payload (write_payload device st index next payload)
    unfolding write_payload
    write_payload-Written st index next payload placed lt small fits header erased =
        let offset = st.base + index * st.slot_size in
        let (start, here, room, inside) =
          place device contents capacity lawful st index placed lt in
        let (r, s') = device.write st.storage (payload_offset device st index) payload in
        elim (outcome r) [
          | inl (e, r) ↦ rw (r, write_payload) (λ n h. cc)
          | inr r ↦
              rw (r, write_payload)
                (λ n h. (
                  cc,
                  written (contents s') offset next payload small fits
                      (region-same (contents st.storage) (contents s') offset 16 (λ a low high.
                          lawful.write_frame st.storage (payload_offset device st index) a payload
                            (inl (omega arith)))
                        ∙ header)
                      (ap (λ o. region (contents s') o (length payload)) (sym here)
                        ∙ lawful.writes st.storage (payload_offset device st index) payload
                            (λ a within.
                              erased a (omega (arith, within.0), omega (arith, within.1)))
                            r),
                ))
        ]

    write_header-Written :
        (st : SlotStore S) (index next : ℕ) (payload : Bytes)
        → IsPlaced capacity st
        → index < 2
        → next < 2 ^ 32
        → length payload ≤ max_payload_bytes
        → IsErased st (st.base + index * st.slot_size) st.slot_size
        → IsWritten st index next payload (write_header device st index next payload)
    unfolding write_header
    write_header-Written st index next payload placed lt small fits erased =
        let offset = st.base + index * st.slot_size in
        let (start, here, room, inside) =
          place device contents capacity lawful st index placed lt in
        let (r, s') =
          device.write st.storage (slot_offset device st index) (header_for next payload) in
        let l = length-header_for next payload in
        elim (outcome r) [
          | inl (e, r) ↦ rw (r, write_header) (λ n h. cc)
          | inr r ↦
              rw (r, write_header)
                (write_payload-Written (record st { storage = s' }) index next payload
                  (moved st s' placed) lt small fits
                  (ap (λ o. region (contents s') o 16) (sym start)
                    ∙ ap (region (contents s') (slot_offset device st index)) (sym l)
                    ∙ lawful.writes st.storage (slot_offset device st index)
                        (header_for next payload)
                        (λ a within. erased a (omega (arith, within.0), omega (arith, within.1))) r)
                  (λ a within.
                    lawful.write_frame st.storage (slot_offset device st index) a
                      (header_for next payload) (inr (omega (arith, within.0)))
                    ∙ erased a (omega (arith, within.0), omega (arith, within.1))))
        ]

    pub write_slot-Written :
        (st : SlotStore S) (index next : ℕ) (payload : Bytes)
        → IsPlaced capacity st
        → index < 2
        → next < 2 ^ 32
        → length payload ≤ max_payload_bytes
        → IsWritten st index next payload (write_slot device st index next payload)
    unfolding write_slot
    write_slot-Written st index next payload placed lt small fits =
        let (start, here, room, inside) =
          place device contents capacity lawful st index placed lt in
        let (r, s') = device.erase st.storage (slot_offset device st index) st.slot_size in
        elim (outcome r) [
          | inl (e, r) ↦ rw (r, write_slot) (λ n h. cc)
          | inr r ↦
              rw (r, write_slot)
                (write_header-Written (record st { storage = s' }) index next payload
                  (moved st s' placed) lt small fits
                  (λ a within.
                    lawful.erases st.storage (slot_offset device st index) st.slot_size a
                      (omega (arith, within.0), omega (arith, within.1)) r))
        ]
