-- ===== src/Core/Storage/Slots.antt =====
-- crates/aegis-core/src/storage.rs: what `read_slot` returns, as a function of the contents.
use aegis_token.Base.{
  ℕ, suc, ◌+◌, ◌*◌, ◌^◌, ◌≤◌, ◌<◌, ◌≡◌, refl, ap, ◌∙◌, ◌==◌, eq→==, if◌then◌else◌, Result, ok, err,
  Option, none, some, ◌++◌, Bytes, length, take, drop, zeros, length-append, length-take,
  length-drop, take-append, Bool-cases, inl, inr, zero, subst, arith,
}
use aegis_token.Core.Error.{CoreError}
use aegis_token.Core.Storage.{
  Storage, SlotStore, Header, crc32, parse_header, read_slot, after_header, read_payload,
  check_payload, slot_offset, payload_offset, slot_header_len, max_payload_bytes, Found,
}
use aegis_token.Core.Storage.Device.{IsLawful, region, length-region, Done}

-- A record: its sequence number and its payload.
abbrev pub Stored : Type 0
Stored = ℕ × Bytes

-- The record that a header announces, if the checksum of the payload agrees.
unfoldable pub announced : (ℕ → ℕ) → ℕ → Option Header → Option Stored
announced c offset none = none
announced c offset (some h) =
    let payload = region c offset h.len in
    if crc32 payload == h.crc then some (h.sequence, payload) else none

pub announced_match :
    (c : ℕ → ℕ) (offset next : ℕ) (payload : Bytes)
    → region c offset (length payload) ≡ payload
    → announced c offset
        (some (record { sequence = next; len = length payload; crc = crc32 payload }))
      ≡ some (next, payload)
unfolding announced
announced_match c offset next payload e =
    rw e (rw (eq→== (crc32 payload) (crc32 payload) refl) refl)

-- A header that is accepted announces a payload that fits.
pub parse_header-Fits :
    (limit : ℕ) (b : Bytes) (h : Header)
    → parse_header limit b ≡ some h
    → (h.len ≤ limit) × (h.len ≤ max_payload_bytes)
unfolding parse_header
parse_header-Fits limit b h e = ground arith

announced-same_at :
    (c c' : ℕ → ℕ) (offset : ℕ) (parsed : Option Header)
    → ((h : Header) → parsed ≡ some h → region c' offset h.len ≡ region c offset h.len)
    → announced c' offset parsed ≡ announced c offset parsed
unfolding announced
announced-same_at c c' offset none same = refl
announced-same_at c c' offset (some h) same = rw (same h refl) refl

pub announced-same :
    (c c' : ℕ → ℕ) (offset limit : ℕ) (header : Bytes)
    → ((n : ℕ) → n ≤ max_payload_bytes → region c' offset n ≡ region c offset n)
    → announced c' offset (parse_header limit header)
      ≡ announced c offset (parse_header limit header)
announced-same c c' offset limit header same =
    announced-same_at c c' offset (parse_header limit header)
      (λ h e. same h.len (parse_header-Fits limit header h e).1)

-- The record that a slot holds, where its payload has room in a buffer of `limit` bytes.
abbrev pub slot_record : (ℕ → ℕ) → ℕ → ℕ → Option Stored
slot_record c offset limit =
    announced c (offset + slot_header_len) (parse_header limit (region c offset slot_header_len))

-- `(sequence, length)`
abbrev pub measured : Option Stored → Option (ℕ × ℕ)
measured none = none
measured (some found) = some (found.0, length found.1)

abbrev pub IsCopied : Option Stored → Bytes → Type 0
IsCopied none out = Unit
IsCopied (some found) out = take (length found.1) out ≡ found.1

pub announced-Fits :
    (c : ℕ → ℕ) (offset limit : ℕ) (parsed : Option Header)
    → ((h : Header) → parsed ≡ some h → (h.len ≤ limit) × (h.len ≤ max_payload_bytes))
    → (found : Stored) → announced c offset parsed ≡ some found
    → (length found.1 ≤ limit) × (length found.1 ≤ max_payload_bytes)
unfolding announced
announced-Fits c offset limit none fits found e = ground arith
announced-Fits c offset limit (some h) fits found e =
    let f = fits h refl in ground (arith, length-region c offset h.len)

-- The store lies inside the storage, and its slots have room for the longest record.
pub record IsPlaced {S : Type 0} (capacity : ℕ) (st : SlotStore S) : Type 0 where
  pub inside : st.base + 2 * st.slot_size ≤ capacity
  pub addressable : capacity ≤ 2 ^ 32
  pub roomy : slot_header_len + max_payload_bytes ≤ st.slot_size

module _ {S : Type 0} (device : Storage S) (contents : S → ℕ → ℕ) (capacity : ℕ) where
  -- A read leaves the contents and the place of the store as they are.
  abbrev pub Same : SlotStore S → SlotStore S → Type 0
  Same st st' =
      (contents st'.storage ≡ contents st.storage)
      × (st'.base ≡ st.base)
      × (st'.slot_size ≡ st.slot_size)

  abbrev pub slot_at : SlotStore S → ℕ → ℕ → Option Stored
  slot_at st index limit = slot_record (contents st.storage) (st.base + index * st.slot_size) limit

  abbrev pub IsRead : SlotStore S → Bytes → Option Stored → Found device → Type 0
  IsRead st out expected (r, out', st') =
      (r ≡ ok (measured expected))
      × IsCopied expected out'
      × (length out' ≡ length out)
      × Same st st'

  module _ (lawful : IsLawful device contents capacity) where
    -- The offsets of a slot do not wrap around, and the slot lies inside the storage.
    pub place :
        (st : SlotStore S) (index : ℕ)
        → IsPlaced capacity st
        → index < 2
        → let offset = st.base + index * st.slot_size in
          (slot_offset device st index ≡ offset)
          × (payload_offset device st index ≡ offset + 16)
          × (offset + 16 + 2304 ≤ capacity)
          × (offset + 16 + 2304 ≤ offset + st.slot_size)
    place st zero placed lt = ground (arith, placed.inside, placed.addressable, placed.roomy)
    place st (suc zero) placed lt = ground (arith, placed.inside, placed.addressable, placed.roomy)
    place st (suc (suc i)) placed lt = absurd (omega arith)

    check_payload_lem :
        (st : SlotStore S) (h : Header) (out : Bytes) (r : Result CoreError (Unit {0}))
        (buf : Bytes) (s : S) (offset : ℕ)
        → Done r
        → buf ≡ region (contents st.storage) offset h.len
        → contents s ≡ contents st.storage
        → h.len ≤ length out
        → IsRead st out
            (announced (contents st.storage) offset (some h))
            (check_payload device st h (drop h.len out) (r, buf, s))
    unfolding check_payload announced
    check_payload_lem st h out (err e) buf s offset done filled same fits = ground arith
    check_payload_lem st h out (ok done) buf s offset _ filled same fits =
        let p = region (contents st.storage) offset h.len in
        let l : length p ≡ h.len = length-region (contents st.storage) offset h.len in
        let whole : length (p ++ drop h.len out) ≡ length out =
          omega (arith, length-append p (drop h.len out), length-drop h.len out) in
        elim (Bool-cases (crc32 p == h.crc)) [
          | inl e ↦
              rw (filled, e) (rw l refl, take-append p (drop h.len out), whole, (same, refl, refl))
          | inr e ↦ rw (filled, e) (refl, tt, whole, (same, refl, refl))
        ]

    read_payload_lem :
        (st : SlotStore S) (index : ℕ) (out : Bytes) (parsed : Option Header)
        → IsPlaced capacity st
        → index < 2
        → ((h : Header) → parsed ≡ some h → (h.len ≤ length out) × (h.len ≤ max_payload_bytes))
        → IsRead st out
            (announced (contents st.storage) (st.base + index * st.slot_size + 16) parsed)
            (read_payload device st index out parsed)
    unfolding read_payload announced
    read_payload_lem st index out none placed lt fits = (refl, tt, refl, (refl, refl, refl))
    read_payload_lem st index out (some h) placed lt fits =
        let (small, fit) = fits h refl in
        let l : length (take h.len out) ≡ h.len = omega (arith, length-take h.len out) in
        let offset = st.base + index * st.slot_size + 16 in
        let (start, here, room, _) = place st index placed lt in
        let (done, filled, same) =
          lawful.reads st.storage (payload_offset device st index) (take h.len out) (omega arith) in
        check_payload_lem st h out _ _ _ offset done (filled ∙ rw (here, l) refl) same small

    after_header_lem :
        (st : SlotStore S) (index : ℕ) (out : Bytes) (r : Result CoreError (Unit {0}))
        (header : Bytes) (s : S)
        → IsPlaced capacity st
        → index < 2
        → Done r
        → header ≡ region (contents st.storage) (st.base + index * st.slot_size) 16
        → contents s ≡ contents st.storage
        → IsRead st out
            (slot_at st index (length out))
            (after_header device st index out (r, header, s))
    unfolding after_header
    after_header_lem st index out (err e) header s placed lt done filled same = ground arith
    after_header_lem st index out (ok done) header s placed lt _ filled same =
        let moved : SlotStore S = record st { storage = s } in
        let (read, copied, whole, (same', b, z)) =
          read_payload_lem moved index out (parse_header (length out) header)
            (record {
              inside = placed.inside;
              addressable = placed.addressable;
              roomy = placed.roomy;
            })
            lt (λ h e. parse_header-Fits (length out) header h e) in
        let offset = st.base + index * st.slot_size + 16 in
        let limit = length out in
        let e : announced (contents s) offset (parse_header limit header) ≡ slot_at st index limit =
          ap (λ c. announced c offset (parse_header limit header)) same
          ∙ ap (λ b. announced (contents st.storage) offset (parse_header limit b)) filled in
        (
          read ∙ ap (λ x. ok (measured x)) e,
          subst
              (λ x. IsCopied x (read_payload device moved index out (parse_header limit header)).1)
              e copied,
          whole,
          (same' ∙ same, b, z),
        )

    pub read_slot_lem :
        (st : SlotStore S) (index : ℕ) (out : Bytes)
        → IsPlaced capacity st
        → index < 2
        → IsRead st out (slot_at st index (length out)) (read_slot device st index out)
    unfolding read_slot
    read_slot_lem st index out placed lt =
        let (start, here, room, _) = place st index placed lt in
        let (done, filled, same) =
          lawful.reads st.storage (slot_offset device st index) (zeros 16) (omega arith) in
        after_header_lem st index out _ _ _ placed lt done (filled ∙ rw start refl) same
