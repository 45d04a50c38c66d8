-- ===== src/Applets/PinSlot/Examples.antt =====
-- Concrete slots of crates/aegis-applets/src/pin.rs. The digest is a stand-in for SHA-256 of the
-- same length: the first 32 bytes of the PIN and zeros.
use aegis_token.Base.{
  ℕ, ◌≤◌, ◌<◌, ◌≡◌, refl, ◌++◌, true, false, ok, err, some, [], ◌∷◌, Bytes, length, take, zeros,
  length-take, length-append, arith,
}
use aegis_token.Applets.Apdu.Sw
use aegis_token.Applets.PinSlot.{
  PinPolicy, PinSlot, sha256, pin_state_len, set, verify, change, unblock, resolve_change,
  is_blocked, constant_time_eq, encode, decode, hash_verify, diff_loop,
}
use aegis_token.Applets.PinSlot.Retries.{IsValid, slot-IsValid, present, wrong_pins_block}
use aegis_token.Applets.PinSlot.Encoding.{decode-encode}
use aegis_token.Applets.PinSlot.Change.{change_at, passes, resolve_change-append}

abbrev digest : Bytes → Bytes
digest pin = take 32 (pin ++ zeros 32)

sized : (pin : Bytes) → length (digest pin) ≡ 32
sized pin = omega (arith, length-take 32 (pin ++ zeros 32), length-append pin (zeros 32))

abbrev policy : PinPolicy
policy = record { min_len = 2; max_len = 8; max_attempts = 3; format = sha256 }

abbrev stored : Bytes
stored = digest (1 ∷ 2 ∷ 3 ∷ [])

abbrev slot : PinSlot
slot = record { policy = policy; hash = some stored; retries_remaining = 2 }

slot-IsValid_here : IsValid slot
slot-IsValid_here = record { bounded = omega arith; hashed = refl }

wrong_pins_block_example :
    (is_blocked (present digest slot ((9 ∷ []) ∷ (8 ∷ []) ∷ [])) ≡ true)
    × (verify digest (present digest slot ((9 ∷ []) ∷ (8 ∷ []) ∷ [])) (1 ∷ 2 ∷ 3 ∷ [])
        ≡ (err Sw.authentication_blocked, present digest slot ((9 ∷ []) ∷ (8 ∷ []) ∷ [])))
wrong_pins_block_example =
    wrong_pins_block digest slot stored ((9 ∷ []) ∷ (8 ∷ []) ∷ []) (1 ∷ 2 ∷ 3 ∷ []) refl
      ((λ e. absurd cc), ((λ e. absurd cc), tt)) (omega arith)

slot-IsValid_example :
    IsValid (set digest slot (4 ∷ 5 ∷ [])).1
    × IsValid (verify digest slot (4 ∷ 5 ∷ [])).1
    × IsValid (change digest slot (4 ∷ 5 ∷ []) (6 ∷ 7 ∷ [])).1
    × IsValid (unblock digest slot (4 ∷ 5 ∷ [])).1
    × IsValid (resolve_change digest slot (4 ∷ 5 ∷ [])).1
slot-IsValid_example = slot-IsValid digest sized slot (4 ∷ 5 ∷ []) (6 ∷ 7 ∷ []) slot-IsValid_here

decode-encode_example :
    (sealed : Bytes) × (encode slot (zeros 40) ≡ ok (pin_state_len, sealed))
    × (decode policy (take pin_state_len sealed) ≡ ok slot)
decode-encode_example = decode-encode slot (zeros 40) slot-IsValid_here (omega arith)

shorter_fails :
    (j : ℕ) → 2 ≤ j → j < 3 → passes digest slot stored 1 (1 ∷ 2 ∷ 3 ∷ 4 ∷ 5 ∷ []) j ≡ false
unfolding hash_verify constant_time_eq diff_loop
shorter_fails j h k = let e : j ≡ 2 = omega arith in rw e refl

resolve_change-append_example :
    (resolve_change digest slot (1 ∷ 2 ∷ 3 ∷ 4 ∷ 5 ∷ []) ≡ (ok (some 3), slot))
    × (change_at digest slot (1 ∷ 2 ∷ 3 ∷ 4 ∷ 5 ∷ []) 3
        ≡ (ok tt, record slot { hash = some (digest (4 ∷ 5 ∷ [])); retries_remaining = 3 }))
resolve_change-append_example =
    resolve_change-append digest slot stored 1 (1 ∷ 2 ∷ 3 ∷ []) (4 ∷ 5 ∷ []) refl refl refl
      (omega arith, omega arith) (omega arith, omega arith) (λ j w lt. shorter_fails j w.0 lt)
