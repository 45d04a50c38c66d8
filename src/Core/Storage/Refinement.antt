-- ===== src/Core/Storage/Refinement.antt =====
-- crates/aegis-core/src/storage.rs: the two slots implement one cell that a store replaces.
use aegis_token.Base.{
  ℕ, ◌+◌, ◌*◌, ◌%◌, ◌^◌, ◌≤◌, ◌<◌, ◌≡◌, refl, sym, ap, ◌∙◌, subst, true, false, inl, inr,
  Bool-cases, ltb, Result, ok, err, Option, none, some, Bytes, length, zeros, length-replicate,
  dec_lt, arith, take,
}
use aegis_token.Core.Error.{CoreError, storage_error}
use aegis_token.Core.Storage.{
  Storage, SlotStore, target, scan, store, store_after, write_slot, max_payload_bytes, load,
}
use aegis_token.Core.Storage.Device.{IsLawful}
use aegis_token.Core.Storage.Slots.{
  Stored, slot_record, measured, IsCopied, IsPlaced, slot_at, Same,
}
use aegis_token.Core.Storage.Newest.{
  newest, latest, scan_lem, slot_at-Same, IsPlaced-Same, load-newest,
}
use aegis_token.Core.Storage.Storing.{IsFramed, IsWritten, write_slot-Framed, write_slot-Written}
use aegis_token.Core.Storage.Atomic.{
  inactive, next_sequence, target_lem, kept, Stores, completes, fails, starts, surfaces,
}

-- What is left of the older record, beside what now stands in the other slot.
beside_first :
    (a : Stored) (x : Option Stored) (payload : Bytes) (e : CoreError)
    → Stores (some a) payload (err e) (newest (some a) x)
beside_first a none payload e = fails (some a) payload e
beside_first a (some x) payload e = elim (Bool-cases (ltb a.0 x.0)) [
  | inl h ↦ rw h (surfaces a x payload e (ground arith))
  | inr h ↦ rw h (fails (some a) payload e)
]

beside_second :
    (b : Stored) (x : Option Stored) (payload : Bytes) (e : CoreError)
    → Stores (some b) payload (err e) (newest x (some b))
beside_second b none payload e = fails (some b) payload e
beside_second b (some x) payload e = elim (Bool-cases (ltb x.0 b.0)) [
  | inl h ↦ rw h (fails (some b) payload e)
  | inr h ↦ rw h (surfaces b x payload e (ground arith))
]

-- The slots before and after a write to the inactive one.
abbrev IsKept : Option Stored → Option Stored → Option Stored → Option Stored → Type 0
IsKept a b a' b' = (inactive a b ≡ 0 → b' ≡ b) × (inactive a b ≡ 1 → a' ≡ a)

failure-Stores :
    (a b a' b' : Option Stored) (payload : Bytes) (e : CoreError)
    → IsKept a b a' b'
    → Stores (newest a b) payload (err e) (newest a' b')
failure-Stores none none none b' payload e (first, second) = rw (first refl) (fails none payload e)
failure-Stores none none (some x) b' payload e (first, second) =
    rw (first refl) (starts payload e x)
failure-Stores (some a) none a' b' payload e (first, second) =
    rw (second refl) (beside_first a b' payload e)
failure-Stores none (some b) a' b' payload e (first, second) =
    rw (first refl) (beside_second b a' payload e)
failure-Stores (some a) (some b) a' b' payload e (first, second) = elim (Bool-cases (ltb a.0 b.0)) [
  | inl h ↦ rw (h, first (rw h refl)) (beside_second b a' payload e)
  | inr h ↦ rw (h, second (rw h refl)) (beside_first a b' payload e)
]

-- The inactive slot holds the new record.
abbrev IsReplaced : Option Stored → Option Stored → Option Stored → Option Stored → Stored → Type 0
IsReplaced a b a' b' new = (inactive a b ≡ 0 → a' ≡ some new) × (inactive a b ≡ 1 → b' ≡ some new)

-- The sequence number of the record has a successor on 32 bits.
abbrev pub HasSuccessor : Option Stored → Type 0
HasSuccessor none = Unit
HasSuccessor (some found) = found.0 + 1 < 2 ^ 32

success-Newest :
    (a b a' b' : Option Stored) (payload : Bytes)
    → HasSuccessor (newest a b)
    → IsKept a b a' b'
    → IsReplaced a b a' b' (next_sequence (newest a b), payload)
    → newest a' b' ≡ some (next_sequence (newest a b), payload)
success-Newest none none a' b' payload more (first, second) (left, right) =
    rw (first refl, left refl) refl
success-Newest (some a) none a' b' payload more (first, second) (left, right) =
    let up : ltb a.0 ((a.0 + 1) % 2 ^ 32) ≡ true = ground arith in
    rw (second refl, right refl) (rw up refl)
success-Newest none (some b) a' b' payload more (first, second) (left, right) =
    let up : ltb ((b.0 + 1) % 2 ^ 32) b.0 ≡ false = ground arith in
    rw (first refl, left refl) (rw up refl)
success-Newest (some a) (some b) a' b' payload more (first, second) (left, right) =
    elim (dec_lt a.0 b.0) [
      | yes h ↦
          let pick : ltb a.0 b.0 ≡ true = ground arith in
          let now : newest (some a) (some b) ≡ some b = rw pick refl in
          let bound : b.0 + 1 < 2 ^ 32 = subst HasSuccessor now more in
          let down : ltb ((b.0 + 1) % 2 ^ 32) b.0 ≡ false = ground arith in
          let new = left (rw pick refl) ∙ ap (λ x. some (next_sequence x, payload)) now in
          rw (now, first (rw pick refl)) (rw new (rw down refl))
      | no h ↦
          let pick : ltb a.0 b.0 ≡ false = ground arith in
          let now : newest (some a) (some b) ≡ some a = rw pick refl in
          let bound : a.0 + 1 < 2 ^ 32 = subst HasSuccessor now more in
          let up : ltb a.0 ((a.0 + 1) % 2 ^ 32) ≡ true = ground arith in
          let new = right (rw pick refl) ∙ ap (λ x. some (next_sequence x, payload)) now in
          rw (now, second (rw pick refl)) (rw new (rw up refl))
    ]

completed :
    (cell cell' : Option Stored) (payload : Bytes) (r : Result CoreError ℕ) (n : ℕ)
    → Stores cell payload r cell'
    → r ≡ ok n
    → (n ≡ next_sequence cell) × (cell' ≡ some (n, payload))
completed _ _ _ _ n (completes cell payload) e =
    let number : next_sequence cell ≡ n = cc in (sym number, rw number refl)
completed _ _ _ _ n (fails cell payload f) e = cc
completed _ _ _ _ n (starts payload f left) e = cc
completed _ _ _ _ n (surfaces old left payload f h) e = cc

module _ {S : Type 0} (device : Storage S) (contents : S → ℕ → ℕ) (capacity : ℕ) where
  module _ (lawful : IsLawful device contents capacity) where
    after_scan :
        (found : Result CoreError (Option (ℕ × ℕ))) (scratch : Bytes) (st : SlotStore S)
        (best : Option (ℕ × ℕ)) (next index : ℕ) (payload : Bytes)
        → found ≡ ok best
        → target best ≡ (next, index)
        → store_after device (found, scratch, st) payload ≡ write_slot device st index next payload
    unfolding store_after
    after_scan (err e) scratch st best next index payload f t = cc
    after_scan (ok found) scratch st best next index payload f t =
        let same : found ≡ best = cc in rw (same, t) refl

    short_enough :
        (st : SlotStore S) (payload : Bytes)
        → length payload ≤ max_payload_bytes
        → store device st payload
          ≡ store_after device (scan device st (zeros max_payload_bytes)) payload
    unfolding store
    short_enough st payload fits =
        let short : ltb max_payload_bytes (length payload) ≡ false = ground arith in rw short refl

    too_long :
        (st : SlotStore S) (payload : Bytes)
        → max_payload_bytes < length payload
        → store device st payload ≡ (err storage_error, st)
    unfolding store
    too_long st payload long =
        let l : ltb max_payload_bytes (length payload) ≡ true = ground arith in rw l refl

    module _ (st st1 st' : SlotStore S) (placed : IsPlaced capacity st)
        (same : Same device contents capacity st st1) where
      abbrev a : Option Stored
      a = slot_at device contents capacity st 0 max_payload_bytes

      abbrev b : Option Stored
      b = slot_at device contents capacity st 1 max_payload_bytes

      abbrev a' : Option Stored
      a' = slot_at device contents capacity st' 0 max_payload_bytes

      abbrev b' : Option Stored
      b' = slot_at device contents capacity st' 1 max_payload_bytes

      IsKept-pair : IsFramed device contents capacity st1 (inactive a b) st' → IsKept a b a' b'
      IsKept-pair frame =
          let placed1 = IsPlaced-Same device contents capacity st st1 same placed in
          (
            λ e.
                kept device contents capacity st1 st' 0 1 placed1 refl
                  (subst (λ i. IsFramed device contents capacity st1 i st') e frame)
                ∙ slot_at-Same device contents capacity st st1 1 max_payload_bytes same,
            λ e.
                kept device contents capacity st1 st' 1 0 placed1 refl
                  (subst (λ i. IsFramed device contents capacity st1 i st') e frame)
                ∙ slot_at-Same device contents capacity st st1 0 max_payload_bytes same,
          )

      replaced :
          (new : Stored)
          → IsFramed device contents capacity st1 (inactive a b) st'
          → slot_record
              (contents st'.storage)
              (st1.base + inactive a b * st1.slot_size)
              max_payload_bytes
            ≡ some new
          → IsReplaced a b a' b' new
      replaced new (frame, base, size) there = (
        λ e.
            rw (base, size)
              (subst
                (λ i.
                  slot_record (contents st'.storage) (st1.base + i * st1.slot_size)
                    max_payload_bytes
                  ≡ some new)
                e there),
        λ e.
            rw (base, size)
              (subst
                (λ i.
                  slot_record (contents st'.storage) (st1.base + i * st1.slot_size)
                    max_payload_bytes
                  ≡ some new)
                e there),
      )

      after_write :
          (payload : Bytes) (r : Result CoreError ℕ)
          → HasSuccessor (newest a b)
          → IsFramed device contents capacity st1 (inactive a b) st'
          → IsWritten device contents capacity lawful st1
              (inactive a b)
              (next_sequence (newest a b))
              payload
              (r, st')
          → Stores (newest a b) payload r (newest a' b')
      after_write payload (err e) more frame written =
          failure-Stores a b a' b' payload e (IsKept-pair frame)
      after_write payload (ok n) more frame written =
          let (number, there) = written n refl in
          let now =
            success-Newest a b a' b' payload more (IsKept-pair frame)
              (replaced (next_sequence (newest a b), payload) frame there) in
          rw (number, now) (completes (newest a b) payload)

    next_sequence-Bounded : (cell : Option Stored) → next_sequence cell < 2 ^ 32
    next_sequence-Bounded none = omega arith
    next_sequence-Bounded (some found) = omega arith

    inactive-Slot : (a b : Option Stored) → inactive a b < 2
    inactive-Slot none none = omega arith
    inactive-Slot (some a) none = omega arith
    inactive-Slot none (some b) = omega arith
    inactive-Slot (some a) (some b) = ground arith

    framed-IsPlaced :
        (st1 st' : SlotStore S) (index : ℕ)
        → IsFramed device contents capacity st1 index st'
        → IsPlaced capacity st1
        → IsPlaced capacity st'
    framed-IsPlaced st1 st' index (frame, base, size) placed = record {
      inside = rw (base, size) placed.inside;
      addressable = placed.addressable;
      roomy = rw size placed.roomy;
    }

    store_facts :
        (st : SlotStore S) (payload : Bytes)
        → IsPlaced capacity st
        → HasSuccessor (latest device contents capacity st)
        → let (r, st') = store device st payload in
          Stores
            (latest device contents capacity st)
            payload
            r
            (latest device contents capacity st')
          × IsPlaced capacity st'
    store_facts st payload placed more = elim (dec_lt max_payload_bytes (length payload)) [
      | yes long ↦ rw (too_long st payload long) (fails _ payload storage_error, placed)
      | no short ↦
          let st1 = (scan device st (zeros max_payload_bytes)).2 in
          let (found, same) =
            scan_lem device contents capacity lawful st (zeros max_payload_bytes) placed
              (length-replicate {A = ℕ} max_payload_bytes 0) in
          let placed1 = IsPlaced-Same device contents capacity st st1 same placed in
          let a = slot_at device contents capacity st 0 max_payload_bytes in
          let b = slot_at device contents capacity st 1 max_payload_bytes in
          let run : store device st payload
              ≡ write_slot device st1 (inactive a b) (next_sequence (newest a b)) payload =
            short_enough st payload (omega arith)
            ∙ after_scan _ _ st1 _ (next_sequence (newest a b)) (inactive a b) payload found
                (target_lem device contents capacity a b) in
          let frame =
            write_slot-Framed device contents capacity lawful st1 (inactive a b)
              (next_sequence (newest a b)) payload placed1 (inactive-Slot a b) (omega arith) in
          rw run (
            after_write st st1 _ placed same payload _ more frame (
                write_slot-Written device contents capacity lawful st1 (inactive a b)
                  (next_sequence (newest a b)) payload placed1 (inactive-Slot a b)
                  (next_sequence-Bounded (newest a b)) (omega arith)),
            framed-IsPlaced st1 _ (inactive a b) frame placed1,
          )
    ]

    -- The two slots are one cell: whatever the storage does, a store of a payload takes the newest
    -- record to its successor in one of the ways of `Stores`, provided that the sequence number has
    -- a successor on 32 bits. In particular an error leaves the record, or a slot in the middle of
    -- its write that passes for a record which is not older.
    pub store-Refines :
        (st : SlotStore S) (payload : Bytes)
        → IsPlaced capacity st
        → HasSuccessor (latest device contents capacity st)
        → let (r, st') = store device st payload in
          Stores
            (latest device contents capacity st)
            payload
            r
            (latest device contents capacity st')
    store-Refines st payload placed more = (store_facts st payload placed more).0

    -- What is stored is loaded: after a store that succeeds, loading into a buffer of at least 2304
    -- bytes returns the sequence number of the store, one more than that of the record before it,
    -- and the payload, all of it, in front of the buffer.
    pub load-store :
        (st : SlotStore S) (payload out : Bytes) (n : ℕ)
        → IsPlaced capacity st
        → HasSuccessor (latest device contents capacity st)
        → max_payload_bytes ≤ length out
        → (store device st payload).0 ≡ ok n
        → let (r, out', st') = load device (store device st payload).1 out in
          (n ≡ next_sequence (latest device contents capacity st))
          × (r ≡ ok (some (n, length payload)))
          × (take (length payload) out' ≡ payload)
    load-store st payload out n placed more room success =
        let stored = (store device st payload).1 in
        let (number, cell) =
          completed _ _ payload _ n (store-Refines st payload placed more) success in
        let (r, copied, whole, same) =
          load-newest device contents capacity lawful stored out
            (store_facts st payload placed more).1 room in
        (
          number,
          r ∙ ap (λ x. ok (measured x)) cell,
          subst (λ x. IsCopied x (load device stored out).1) cell copied,
        )
