-- ===== src/Core/Storage/Newest.antt =====
-- crates/aegis-core/src/storage.rs: scanning and loading find the newest valid record.
use aegis_token.Base.{
  ℕ, suc, ◌+◌, ◌*◌, ◌≤◌, ◌<◌, ◌≡◌, refl, ap, ◌∙◌, subst, false, Bool-cases, inl, inr, ltb,
  if◌then◌else◌, ok, Option, none, some, Bytes, length, zeros, overlay, length-overlay,
  take-overlay, length-replicate, arith,
}
use aegis_token.Core.Storage.{
  Storage, SlotStore, read_slot, scan, scan_loop, better, load, load_loop, max_payload_bytes,
  parse_header, slot_count,
}
use aegis_token.Core.Storage.Device.{IsLawful, region}
use aegis_token.Core.Storage.Slots.{
  Stored, measured, IsCopied, announced-Fits, parse_header-Fits, IsPlaced, Same, slot_at,
  read_slot_lem,
}

-- Of two slots the one with the higher sequence number, the first where they are equal.
abbrev pub newest : Option Stored → Option Stored → Option Stored
newest best none = best
newest none (some found) = some found
newest (some best) (some found) = if ltb best.0 found.0 then some found else some best

module _ {S : Type 0} (device : Storage S) (contents : S → ℕ → ℕ) (capacity : ℕ) where
  -- The record that the store holds.
  abbrev pub latest : SlotStore S → Option Stored
  latest st =
      newest (slot_at device contents capacity st 0 max_payload_bytes)
        (slot_at device contents capacity st 1 max_payload_bytes)

  pub slot_at-Same :
      (st st' : SlotStore S) (index limit : ℕ)
      → Same device contents capacity st st'
      → slot_at device contents capacity st' index limit
        ≡ slot_at device contents capacity st index limit
  slot_at-Same st st' index limit (c, b, z) = rw (c, b, z) refl

  pub IsPlaced-Same :
      (st st' : SlotStore S)
      → Same device contents capacity st st'
      → IsPlaced capacity st
      → IsPlaced capacity st'
  IsPlaced-Same st st' (c, b, z) placed = record {
    inside = rw (b, z) placed.inside;
    addressable = placed.addressable;
    roomy = rw z placed.roomy;
  }

  pub slot_at-Fits :
      (st : SlotStore S) (index limit : ℕ) (found : Stored)
      → slot_at device contents capacity st index limit ≡ some found
      → length found.1 ≤ max_payload_bytes
  slot_at-Fits st index limit found e =
      let header = region (contents st.storage) (st.base + index * st.slot_size) 16 in
      let (small, fit) =
        announced-Fits (contents st.storage) (st.base + index * st.slot_size + 16) limit
          (parse_header limit header) (λ h e. parse_header-Fits limit header h e) found e in
      fit

  module _ (lawful : IsLawful device contents capacity) where
    scan_step :
        (n index : ℕ) (best : Option (ℕ × ℕ)) (scratch : Bytes) (st : SlotStore S)
        → IsPlaced capacity st
        → index < 2
        → let read = read_slot device st index scratch in
          scan_loop device (suc n) index best scratch st
          ≡ scan_loop device n
              (index + 1)
              (better device best index
                (measured (slot_at device contents capacity st index (length scratch))))
              read.1
              read.2
    unfolding scan_loop
    scan_step n index best scratch st placed lt =
        rw ((read_slot_lem device contents capacity lawful st index scratch placed lt).0, scan_loop)
          refl

    -- Where the newest record stands: its sequence number and its slot.
    abbrev pub located : SlotStore S → Option (ℕ × ℕ)
    located st =
        better device
          (better device none 0
            (measured (slot_at device contents capacity st 0 max_payload_bytes)))
          1 (measured (slot_at device contents capacity st 1 max_payload_bytes))

    pub scan_lem :
        (st : SlotStore S) (scratch : Bytes)
        → IsPlaced capacity st
        → length scratch ≡ max_payload_bytes
        → let (r, scratch', st') = scan device st scratch in
          (r ≡ ok (located st)) × Same device contents capacity st st'
    unfolding scan scan_loop
    scan_lem st scratch placed room =
        let (r, scratch1, st1) = read_slot device st 0 scratch in
        let (read, copied, whole, same) =
          read_slot_lem device contents capacity lawful st 0 scratch placed (omega arith) in
        let placed1 = IsPlaced-Same st st1 same placed in
        let (r1, scratch2, st2) = read_slot device st1 1 scratch1 in
        let (read1, copied1, whole1, same1) =
          read_slot_lem device contents capacity lawful st1 1 scratch1 placed1 (omega arith) in
        let e : slot_at device contents capacity st1 1 (length scratch1)
            ≡ slot_at device contents capacity st 1 max_payload_bytes =
          slot_at-Same st st1 1 (length scratch1) same
          ∙ ap (slot_at device contents capacity st 1) (whole ∙ room) in
        let run : scan device st scratch ≡ (
          ok (
              better device
                (better device none 0
                  (measured (slot_at device contents capacity st 0 (length scratch))))
                1 (measured (slot_at device contents capacity st1 1 (length scratch1)))),
          scratch2,
          st2,
        ) =
          scan_step 1 0 none scratch st placed (omega arith)
          ∙ scan_step 0 1 _ scratch1 st1 placed1 (omega arith) in
        rw run (rw (e, room) refl, (same1.0 ∙ same.0, same1.1 ∙ same.1, same1.2 ∙ same.2))

    -- One round of `load`, on a slot that holds `slot`.
    load_round :
        (n index : ℕ) (best slot : Option Stored) (scratch out : Bytes) (st : SlotStore S)
        → 2304 ≤ length out
        → IsCopied best out
        → (read_slot device st index scratch).0 ≡ ok (measured slot)
        → IsCopied slot (read_slot device st index scratch).1
        → ((found : Stored) → slot ≡ some found → length found.1 ≤ 2304)
        → (out' : Bytes) × (load_loop device (suc n) index (measured best) scratch out st
            ≡ load_loop device n
                (index + 1)
                (measured (newest best slot))
                (read_slot device st index scratch).1
                out'
                (read_slot device st index scratch).2)
          × IsCopied (newest best slot) out'
          × (length out' ≡ length out)
    unfolding load_loop
    load_round n index best none scratch out st room had read copied fits =
        (out, rw (read, load_loop) refl, had, refl)
    load_round n index none (some found) scratch out st room had read copied fits =
        let fit = fits found refl in
        let short : ltb (length out) (length found.1) ≡ false = ground arith in
        (
          overlay found.1 out,
          rw (read, load_loop) (rw (short, copied) refl),
          take-overlay found.1 out (omega arith),
          length-overlay found.1 out,
        )
    load_round n index (some best) (some found) scratch out st room had read copied fits =
        let fit = fits found refl in
        let short : ltb (length out) (length found.1) ≡ false = ground arith in
        elim (Bool-cases (ltb best.0 found.0)) [
          | inl e ↦ rw e (
            overlay found.1 out,
            rw (read, load_loop) (rw (e, short, copied) refl),
            take-overlay found.1 out (omega arith),
            length-overlay found.1 out,
          )
          | inr e ↦ rw e (out, rw (read, load_loop) (rw e refl), had, refl)
        ]

    newest-none : (found : Option Stored) → newest none found ≡ found
    newest-none none = refl
    newest-none (some found) = refl

    loaded :
        (st : SlotStore S) (scratch out : Bytes)
        → IsPlaced capacity st
        → max_payload_bytes ≤ length out
        → length scratch ≡ max_payload_bytes
        → let (r, out', st') = load_loop device slot_count 0 none scratch out st in
          (r ≡ ok (measured (latest st)))
          × IsCopied (latest st) out'
          × (length out' ≡ length out)
          × Same device contents capacity st st'
    unfolding load_loop
    loaded st scratch out placed room enough =
        let (r, scratch1, st1) = read_slot device st 0 scratch in
        let (read, copied, whole, same) =
          read_slot_lem device contents capacity lawful st 0 scratch placed (omega arith) in
        let placed1 = IsPlaced-Same st st1 same placed in
        let (r1, scratch2, st2) = read_slot device st1 1 scratch1 in
        let (read1, copied1, whole1, same1) =
          read_slot_lem device contents capacity lawful st1 1 scratch1 placed1 (omega arith) in
        let s0 : Option Stored = slot_at device contents capacity st 0 (length scratch) in
        let s1 : Option Stored = slot_at device contents capacity st1 1 (length scratch1) in
        let (out1, run, had, len) =
          load_round 1 0 none s0 scratch out st room tt read copied
            (slot_at-Fits st 0 (length scratch)) in
        let (out2, run1, had1, len1) =
          load_round 0 1 (newest none s0) s1 scratch1 out1 st1 (omega (arith, len)) had read1
            copied1 (slot_at-Fits st1 1 (length scratch1)) in
        let e0 : s0 ≡ slot_at device contents capacity st 0 max_payload_bytes =
          ap (slot_at device contents capacity st 0) enough in
        let e1 : s1 ≡ slot_at device contents capacity st 1 max_payload_bytes =
          slot_at-Same st st1 1 (length scratch1) same
          ∙ ap (slot_at device contents capacity st 1) (whole ∙ enough) in
        let e : newest (newest none s0) s1 ≡ latest st = rw (newest-none s0) (rw (e0, e1) refl) in
        rw (run ∙ run1) (
          ap (λ x. ok (measured x)) e,
          subst (λ x. IsCopied x out2) e had1,
          len1 ∙ len,
          (same1.0 ∙ same.0, same1.1 ∙ same.1, same1.2 ∙ same.2),
        )

    -- Loading finds the newest valid record: into a buffer of at least 2304 bytes, it returns the
    -- sequence number and the length of the one of the two slots with the higher sequence number,
    -- has its payload in front of the buffer, and changes nothing. It returns none if neither slot
    -- holds a valid record.
    pub load-newest :
        (st : SlotStore S) (out : Bytes)
        → IsPlaced capacity st
        → max_payload_bytes ≤ length out
        → let (r, out', st') = load device st out in
          (r ≡ ok (measured (latest st)))
          × IsCopied (latest st) out'
          × (length out' ≡ length out)
          × Same device contents capacity st st'
    unfolding load
    load-newest st out placed room =
        loaded st (zeros max_payload_bytes) out placed room
          (length-replicate {A = ℕ} max_payload_bytes 0)
