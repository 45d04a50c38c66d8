-- ===== src/Core/Storage/Atomic.antt =====
-- crates/aegis-core/src/storage.rs: a store is atomic, whether it completes or not.
use aegis_token.Base.{
  ℕ, zero, suc, ◌+◌, ◌-◌, ◌*◌, ◌%◌, ◌^◌, ◌≤◌, ◌<◌, ◌≡◌, refl, ap, ◌∙◌, inl, inr, Bool-cases, ltb,
  if◌then◌else◌, Result, ok, err, Option, none, some, Bytes, arith,
}
use aegis_token.Core.Error.{CoreError}
use aegis_token.Core.Storage.{Storage, SlotStore, target, better, max_payload_bytes, parse_header}
use aegis_token.Core.Storage.Device.{region, region-same, IsOutside}
use aegis_token.Core.Storage.Slots.{Stored, announced, announced-same, measured, IsPlaced, slot_at}
use aegis_token.Core.Storage.Newest.{newest}
use aegis_token.Core.Storage.Storing.{IsFramed}

-- The slot of the newest record, and the one that the next store writes.
abbrev pub active : Option Stored → Option Stored → ℕ
active best none = 0
active none (some found) = 1
active (some best) (some found) = if ltb best.0 found.0 then 1 else 0

abbrev pub next_sequence : Option Stored → ℕ
next_sequence none = 1
next_sequence (some found) = (found.0 + 1) % 2 ^ 32

abbrev pub inactive : Option Stored → Option Stored → ℕ
inactive none none = 0
inactive a b = 1 - active a b

module _ {S : Type 0} (device : Storage S) (contents : S → ℕ → ℕ) (capacity : ℕ) where
  pub target_lem :
      (a b : Option Stored)
      → target (better device (better device none 0 (measured a)) 1 (measured b))
        ≡ (next_sequence (newest a b), inactive a b)
  unfolding target
  target_lem none none = refl
  target_lem (some a) none = refl
  target_lem none (some b) = refl
  target_lem (some a) (some b) = elim (Bool-cases (ltb a.0 b.0)) [
    | inl e ↦ rw e refl
    | inr e ↦ rw e refl
  ]

  apart :
      (st : SlotStore S) (index other a : ℕ)
      → index + other ≡ 1
      → st.base + other * st.slot_size ≤ a
      → a < st.base + other * st.slot_size + st.slot_size
      → IsOutside (st.base + index * st.slot_size) st.slot_size a
  apart st zero zero a e low high = absurd (omega arith)
  apart st zero (suc zero) a e low high = inr (omega arith)
  apart st (suc zero) zero a e low high = inl (omega arith)
  apart st (suc zero) (suc other) a e low high = absurd (omega arith)
  apart st zero (suc (suc other)) a e low high = absurd (omega arith)
  apart st (suc (suc index)) other a e low high = absurd (omega arith)

  -- The other slot still holds what it held.
  pub kept :
      (st st' : SlotStore S) (index other : ℕ)
      → IsPlaced capacity st
      → index + other ≡ 1
      → IsFramed device contents capacity st index st'
      → slot_at device contents capacity st' other max_payload_bytes
        ≡ slot_at device contents capacity st other max_payload_bytes
  kept st st' index other placed e (frame, b, z) =
      let c = contents st.storage in
      let c' = contents st'.storage in
      let offset = st.base + other * st.slot_size in
      let same : (o n : ℕ)
          → offset ≤ o
          → o + n ≤ offset + st.slot_size
          → region c' o n ≡ region c o n =
        λ o n low high.
          region-same c c' o n
            (λ a above below. frame a (apart st index other a e (omega arith) (omega arith))) in
      rw (b, z)
        (ap (λ h. announced c' (offset + 16) (parse_header max_payload_bytes h))
            (same offset 16 (omega arith) (omega (arith, placed.roomy)))
          ∙ announced-same c c' (offset + 16) max_payload_bytes (region c offset 16)
              (λ n fits. same (offset + 16) n (omega arith) (omega (arith, placed.roomy))))

-- What a store may do to the cell that the two slots make up: complete, with the next sequence
-- number; fail and leave the record; or fail in the middle of a write, so that the slot that was
-- being written passes for a record that is not older.
pub data Stores : Option Stored → Bytes → Result CoreError ℕ → Option Stored → Type 0 where
  completes :
      (cell : Option Stored) (payload : Bytes)
      → Stores cell payload (ok (next_sequence cell)) (some (next_sequence cell, payload))
  fails :
      (cell : Option Stored) (payload : Bytes) (e : CoreError) → Stores cell payload (err e) cell
  starts :
      (payload : Bytes) (e : CoreError) (left : Stored) → Stores none payload (err e) (some left)
  surfaces :
      (old left : Stored) (payload : Bytes) (e : CoreError)
      → old.0 ≤ left.0
      → Stores (some old) payload (err e) (some left)
