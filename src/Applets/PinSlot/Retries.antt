-- ===== src/Applets/PinSlot/Retries.antt =====
-- The retry counter: its bound, what each operation does to it, and the block.
use aegis_token.Base.{
  ℕ, suc, ◌-◌, ◌≤◌, ◌≡◌, ◌≢◌, ◌∙◌, true, false, Bool-cases, ok, err, Option, none, some, inl, inr,
  List, [], ◌∷◌, length, All, Bytes, arith,
}
use aegis_token.Applets.Apdu.Sw
use aegis_token.Applets.PinSlot.{
  PinPolicy, PinSlot, PinHash, hash_of, hash_verify, pin_hash_len, new_slot, set, verify, change,
  unblock, resolve_change, is_blocked,
}
use aegis_token.Applets.PinSlot.Compare.{hash_verify_iff}

abbrev pub HasHashLength : Option PinHash → Type 0
HasHashLength none = Unit
HasHashLength (some h) = length h ≡ pin_hash_len

-- The counter never exceeds the policy's attempts, and a stored hash has the length of a digest.
pub record IsValid (s : PinSlot) : Type 0 where
  pub bounded : s.retries_remaining ≤ s.policy.max_attempts
  pub hashed : HasHashLength s.hash

pub new_slot-IsValid : (policy : PinPolicy) → IsValid (new_slot policy)
unfolding new_slot
new_slot-IsValid policy = record { bounded = omega arith; hashed = tt }

module _ (digest : Bytes → Bytes) (sized : (pin : Bytes) → length (digest pin) ≡ pin_hash_len) where
  set-IsValid : (s : PinSlot) (pin : Bytes) → IsValid s → IsValid (set digest s pin).1
  unfolding set
  set-IsValid s pin h = ground (arith, sized pin)

  verify-IsValid : (s : PinSlot) (pin : Bytes) → IsValid s → IsValid (verify digest s pin).1
  unfolding verify
  verify-IsValid s pin h = ground arith

  change-IsValid :
      (s : PinSlot) (current new : Bytes) → IsValid s → IsValid (change digest s current new).1
  unfolding change
  change-IsValid s current new h =
      ground (arith, verify-IsValid s current h, set-IsValid (verify digest s current).1 new)

  resolve_change-IsValid :
      (s : PinSlot) (body : Bytes) → IsValid s → IsValid (resolve_change digest s body).1
  unfolding resolve_change
  resolve_change-IsValid s body h = ground arith

  -- With a digest of 32 bytes, every operation of a valid slot keeps it valid, whether it succeeds
  -- or fails: the counter is at most the attempts of the policy, a stored hash has 32 bytes.
  pub slot-IsValid :
      (s : PinSlot) (pin new : Bytes)
      → IsValid s
      → IsValid (set digest s pin).1
        × IsValid (verify digest s pin).1
        × IsValid (change digest s pin new).1
        × IsValid (unblock digest s pin).1
        × IsValid (resolve_change digest s pin).1
  unfolding unblock
  slot-IsValid s pin new h = (
    set-IsValid s pin h,
    verify-IsValid s pin h,
    change-IsValid s pin new h,
    set-IsValid s pin h,
    resolve_change-IsValid s pin h,
  )

module _ (digest : Bytes → Bytes) where
  -- A presented PIN does not have the stored digest.
  abbrev pub IsWrong : PinSlot → PinHash → Bytes → Type 0
  IsWrong s h pin = h ≢ hash_of digest pin s.policy.format

  pub wrong_refused :
      (s : PinSlot) (h : PinHash) (pin : Bytes)
      → IsWrong s h pin
      → hash_verify digest h pin s.policy.format ≡ false
  wrong_refused s h pin w = elim (Bool-cases (hash_verify digest h pin s.policy.format)) [
    | inl e ↦ absurd (w ((hash_verify_iff digest h pin s.policy.format).0 e))
    | inr e ↦ e
  ]

  pub right_accepted :
      (s : PinSlot) (h : PinHash) (pin : Bytes)
      → h ≡ hash_of digest pin s.policy.format
      → hash_verify digest h pin s.policy.format ≡ true
  right_accepted s h pin e = (hash_verify_iff digest h pin s.policy.format).1 e

  -- `verify` with attempts left: the right PIN passes and changes nothing; a wrong one costs one
  -- attempt, answers 63Cx with those that remain, and changes nothing else.
  pub verify_outcome :
      (s : PinSlot) (h : PinHash) (pin : Bytes) (r : ℕ)
      → s.hash ≡ some h
      → s.retries_remaining ≡ suc r
      → (h ≡ hash_of digest pin s.policy.format → verify digest s pin ≡ (ok tt, s))
        × (IsWrong s h pin
            → verify digest s pin ≡ (err (Sw.retries_left r), record s { retries_remaining = r }))
  unfolding verify
  verify_outcome s h pin r e n =
      (λ q. ground (arith, right_accepted s h pin q), λ w. ground (arith, wrong_refused s h pin w))

  -- A slot after a sequence of presented PINs.
  pub present : PinSlot → List Bytes → PinSlot
  present s [] = s
  present s (pin ∷ pins) = present (verify digest s pin).1 pins

  verify_wrong :
      (s : PinSlot) (h : PinHash) (pin : Bytes)
      → s.hash ≡ some h
      → IsWrong s h pin
      → (verify digest s pin).1 ≡ record s { retries_remaining = s.retries_remaining - 1 }
  unfolding verify
  verify_wrong s h pin e w = ground (arith, wrong_refused s h pin w)

  present-wrong :
      (s : PinSlot) (h : PinHash) (pins : List Bytes)
      → s.hash ≡ some h
      → All (IsWrong s h) pins
      → present s pins ≡ record s { retries_remaining = s.retries_remaining - length pins }
  unfolding present
  present-wrong s h [] e w = ground arith
  present-wrong s h (pin ∷ pins) e w = rw (verify_wrong s h pin e w.0) (
      present-wrong (record s { retries_remaining = s.retries_remaining - 1 }) h pins e w.1
      ∙ ground arith)

  -- Guesses are bounded: after as many wrong PINs as the counter had attempts, the slot is blocked,
  -- and every PIN, the right one too, is refused with 6983 and changes nothing.
  pub wrong_pins_block :
      (s : PinSlot) (h : PinHash) (pins : List Bytes) (pin : Bytes)
      → s.hash ≡ some h
      → All (IsWrong s h) pins
      → s.retries_remaining ≤ length pins
      → (is_blocked (present s pins) ≡ true)
        × (verify digest (present s pins) pin ≡ (err Sw.authentication_blocked, present s pins))
  unfolding is_blocked verify
  wrong_pins_block s h pins pin e w n = rw (present-wrong s h pins e w) (ground arith)
