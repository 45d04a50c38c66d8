-- ===== src/Applets/PinSlot.antt =====
-- crates/aegis-applets/src/pin.rs: the PIN slot shared by the applets. SHA-256 is a parameter.
pub mod Compare
pub mod Retries
pub mod Encoding
pub mod Change
mod Examples
use aegis_token.Base.{
  ℕ, zero, suc, ◌+◌, ◌-◌, ◌≤◌, min, max, bit_and, bit_or, bit_xor, Bool, true, false, not, ◌||◌,
  ◌==◌, ltb, leb, if◌then◌else◌, is_some, Result, ok, err, ok_or, Option, none, some, List, [], ◌∷◌,
  ◌++◌, length, take, drop, Bytes, at, zeros, copy_at, overlay, ◌>>=◌,
}
use aegis_token.Applets.Apdu.Sw
use aegis_token.Applets.Apdu.Sw.{StatusWord}

abbrev pub pin_hash_len : ℕ
pin_hash_len = 32

abbrev pub pin_state_len : ℕ
pin_state_len = 4 + pin_hash_len

abbrev pub pin_state_version : ℕ
pin_state_version = 1

pub data PinHashFormat : Type 0 where
  sha256 : PinHashFormat

pub format_code : PinHashFormat → ℕ
format_code sha256 = 1

pub format_from_code : ℕ → Option PinHashFormat
format_from_code c = if c == 1 then some sha256 else none

pub record PinPolicy : Type 0 where
  pub min_len : ℕ
  pub max_len : ℕ
  pub max_attempts : ℕ  -- u8
  pub format : PinHashFormat

-- `diff |= x ^ y` over the pairs of bytes.
unfoldable pub diff_loop : ℕ → Bytes → Bytes → ℕ
diff_loop diff (x ∷ xs) (y ∷ ys) = diff_loop (bit_or diff (bit_xor x y)) xs ys
diff_loop diff _ _ = diff

unfoldable pub constant_time_eq : Bytes → Bytes → Bool
constant_time_eq a b = if not (length a == length b) then false else diff_loop 0 a b == 0

-- A hash is its 32 bytes; `PinHash::from_bytes` refuses any other length.
abbrev pub PinHash : Type 0
PinHash = Bytes

pub hash_from_bytes : Bytes → Option PinHash
hash_from_bytes bytes = if length bytes == pin_hash_len then some bytes else none

pub record PinSlot : Type 0 where
  pub policy : PinPolicy
  pub hash : Option PinHash
  pub retries_remaining : ℕ  -- u8

pub new_slot : PinPolicy → PinSlot
new_slot policy = record { policy = policy; hash = none; retries_remaining = policy.max_attempts }

pub is_blocked : PinSlot → Bool
is_blocked s = elim s.hash [ none ↦ false | some h ↦ s.retries_remaining == 0 ]

check_length : PinSlot → Bytes → Result StatusWord (Unit {0})
check_length s pin =
    if ltb (length pin) s.policy.min_len || ltb s.policy.max_len (length pin)
    then err Sw.wrong_length
    else ok tt

-- `decode`, once the hash field is read.
decoded : PinPolicy → ℕ → Result StatusWord (Option PinHash) → Result StatusWord PinSlot
decoded policy retries (err e) = err e
decoded policy retries (ok hash) =
    ok (record { policy = policy; hash = hash; retries_remaining = retries })

-- `PinHashFormat::from_code(code) != Some(format)`
abbrev other_format : Option PinHashFormat → PinHashFormat → Bool
other_format none f = true
other_format (some sha256) sha256 = false

pub decode : PinPolicy → Bytes → Result StatusWord PinSlot
unfolding format_from_code hash_from_bytes decoded
decode policy buf =
    if not (length buf == pin_state_len)
    then err Sw.no_precise_diagnosis
    else if not (at buf 0 == pin_state_version)
    then err Sw.no_precise_diagnosis
    else if other_format (format_from_code (at buf 1)) policy.format
    then err Sw.no_precise_diagnosis
    else if ltb policy.max_attempts (at buf 2)
    then err Sw.no_precise_diagnosis
    else decoded policy (at buf 2) (
        if not (bit_and (at buf 3) 0x01 == 0)
        then (do h ← ok_or (hash_from_bytes (drop 4 buf)) Sw.no_precise_diagnosis; ok (some h))
        else ok none)

-- The hash field of `encode`.
abbrev hash_field : Option PinHash → Bytes
hash_field none = zeros pin_hash_len
hash_field (some h) = h

abbrev flag : Bool → ℕ
flag true = 1
flag false = 0

-- The number of bytes, and `out` as the call leaves it.
pub encode : PinSlot → Bytes → Result StatusWord (ℕ × Bytes)
unfolding format_code
encode s out =
    if ltb (length out) pin_state_len
    then err Sw.no_precise_diagnosis
    else let head =
        pin_state_version
        ∷ format_code s.policy.format
        ∷ s.retries_remaining
        ∷ flag (is_some s.hash)
        ∷ [] in
      ok (pin_state_len, copy_at 4 (hash_field s.hash) (copy_at 0 head out))

-- The window of splits that `resolve_change` scans. `-` is the saturating subtraction in the first;
-- in the second the caller has checked that the body is long enough.
abbrev lowest : PinPolicy → Bytes → ℕ
lowest policy body = max policy.min_len (length body - policy.max_len)

-- The caller has checked that the body has at least twice the minimum length, so that the code's
-- subtraction does not pass below 0.
abbrev highest : PinPolicy → Bytes → ℕ
highest policy body = min policy.max_len (length body - policy.min_len)

-- `Sha256::digest`
module _ (digest : Bytes → Bytes) where
  -- `PinHash::of`
  abbrev pub hash_of : Bytes → PinHashFormat → PinHash
  hash_of pin sha256 = digest pin

  pub hash_verify : PinHash → Bytes → PinHashFormat → Bool
  hash_verify hash pin format = constant_time_eq hash (hash_of pin format)

  -- A method of `&mut self`: its result, and the slot that it leaves.
  pub set : PinSlot → Bytes → Result StatusWord (Unit {0}) × PinSlot
  unfolding check_length
  set s pin = elim (check_length s pin) [
    | err e ↦ (err e, s)
    | ok u ↦ (
      ok tt,
      record s {
        hash = some (hash_of pin s.policy.format);
        retries_remaining = s.policy.max_attempts;
      },
    )
  ]

  -- `verify`, past `let Some(hash) = &self.hash`.
  verify_with : Option PinHash → PinSlot → Bytes → Result StatusWord (Unit {0}) × PinSlot
  verify_with none s pin = (err Sw.conditions_not_satisfied, s)
  verify_with (some hash) s pin =
      if s.retries_remaining == 0
      then (err Sw.authentication_blocked, s)
      else if hash_verify hash pin s.policy.format
      then (ok tt, s)
      else (
        err (Sw.retries_left (s.retries_remaining - 1)),
        record s { retries_remaining = s.retries_remaining - 1 },
      )

  pub verify : PinSlot → Bytes → Result StatusWord (Unit {0}) × PinSlot
  unfolding verify_with
  verify s pin = verify_with s.hash s pin

  change_after :
      Result StatusWord (Unit {0}) × PinSlot → Bytes → Result StatusWord (Unit {0}) × PinSlot
  change_after (err e, s) new = (err e, s)
  change_after (ok u, s) new = set s new

  pub change : PinSlot → Bytes → Bytes → Result StatusWord (Unit {0}) × PinSlot
  unfolding change_after
  change s current new = change_after (verify s current) new

  pub unblock : PinSlot → Bytes → Result StatusWord (Unit {0}) × PinSlot
  unblock s new = set s new

  -- `for split in low..=high { if … { matched.get_or_insert(split); } }`, with `count` splits left.
  -- The first match is kept: a later one does not replace it.
  scan : PinHash → PinHashFormat → Bytes → ℕ → ℕ → Option ℕ → Option ℕ
  scan hash format body zero split matched = matched
  scan hash format body (suc count) split matched = scan hash format body count (split + 1) (
      if hash_verify hash (take split body) format
      then (elim matched [ none ↦ some split | some m ↦ some m ])
      else matched)

  resolved : Option ℕ → PinSlot → Result StatusWord (Option ℕ) × PinSlot
  resolved (some split) s = (ok (some split), s)
  resolved none s = (ok none, record s { retries_remaining = s.retries_remaining - 1 })

  resolve_with : Option PinHash → PinSlot → Bytes → Result StatusWord (Option ℕ) × PinSlot
  unfolding resolved
  resolve_with none s body = (err Sw.conditions_not_satisfied, s)
  resolve_with (some hash) s body =
      if s.retries_remaining == 0
      then (err Sw.authentication_blocked, s)
      else resolved
          (scan hash s.policy.format body (highest s.policy body + 1 - lowest s.policy body)
            (lowest s.policy body) none)
          s

  pub resolve_change : PinSlot → Bytes → Result StatusWord (Option ℕ) × PinSlot
  unfolding resolve_with
  resolve_change s body = resolve_with s.hash s body
