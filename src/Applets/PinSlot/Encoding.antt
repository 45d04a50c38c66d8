-- ===== src/Applets/PinSlot/Encoding.antt =====
-- The sealed encoding of a slot.
use aegis_token.Base.{
  copy_at, copy_at-append, drop-drop, take-append_at, is_some, ◌≤◌, ◌≡◌, refl, ap, ◌∙◌, ok, Option,
  none, some, [], ◌∷◌, ◌++◌, length, take, drop, Bytes, overlay, overlay-eq-append, length-drop,
  arith,
}
use aegis_token.Applets.PinSlot.{
  PinPolicy, PinSlot, PinHash, encode, decode, pin_state_len, pin_state_version, hash_field, flag,
}
use aegis_token.Applets.PinSlot.Retries.{IsValid, HasHashLength}

-- Whatever decodes is a valid slot under the policy that was asked for: a counter above the
-- policy's attempts, another version, format or length is refused.
pub decode-IsValid :
    (policy : PinPolicy) (buf : Bytes) (s : PinSlot)
    → decode policy buf ≡ ok s
    → IsValid s × (s.policy ≡ policy)
unfolding decode
decode-IsValid policy buf s h = ground (arith, length-drop 4 buf)

-- The 36 bytes of a sealed slot.
abbrev head : PinSlot → Bytes
head s = pin_state_version ∷ 1 ∷ s.retries_remaining ∷ flag (is_some s.hash) ∷ []

abbrev record_bytes : PinSlot → Bytes
record_bytes s = head s ++ hash_field s.hash

length-hash_field : (h : Option PinHash) → HasHashLength h → length (hash_field h) ≡ 32
length-hash_field none e = refl
length-hash_field (some h) e = e

written :
    (s : PinSlot) (out : Bytes)
    → length (hash_field s.hash) ≡ 32
    → 36 ≤ length out
    → copy_at 4 (hash_field s.hash) (overlay (head s) out) ≡ record_bytes s ++ drop 36 out
written s out e n = rw (overlay-eq-append (head s) out (omega arith)) (
    copy_at-append 4 (head s) (hash_field s.hash) (drop 4 out) refl
    ∙ ap (λ (b : Bytes). head s ++ b)
        (overlay-eq-append (hash_field s.hash) (drop 4 out) (omega (arith, length-drop 4 out))
          ∙ ap (λ (b : Bytes). hash_field s.hash ++ b) (rw e (drop-drop 32 4 out))))

decode-record_bytes :
    (s : PinSlot) (h : Option PinHash)
    → s.hash ≡ h
    → HasHashLength h
    → s.retries_remaining ≤ s.policy.max_attempts
    → decode s.policy (record_bytes s) ≡ ok s
unfolding decode
decode-record_bytes s none q e b = ground arith
decode-record_bytes s (some h) q e b = ground arith

-- A valid slot survives being sealed and loaded again: with room for its 36 bytes it is encoded,
-- and those bytes decode, under its policy, to the slot.
pub decode-encode :
    (s : PinSlot) (out : Bytes)
    → IsValid s
    → pin_state_len ≤ length out
    → (sealed : Bytes) × (encode s out ≡ ok (pin_state_len, sealed))
      × (decode s.policy (take pin_state_len sealed) ≡ ok s)
unfolding encode
decode-encode s out h n = (
  record_bytes s ++ drop 36 out,
  ground (arith, written s out (length-hash_field s.hash h.hashed) n),
  rw
      (take-append_at 36 (record_bytes s) (drop 36 out)
        (omega (arith, length-hash_field s.hash h.hashed)))
      (decode-record_bytes s s.hash refl h.hashed h.bounded),
)
