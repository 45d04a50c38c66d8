-- ===== src/Core/ClientPin/Compare.antt =====
-- crates/aegis-core/src/pin.rs: what the comparisons of the client PIN decide.
use aegis_token.Base.{
  ℕ, ◌≤◌, ◌≡◌, refl, sym, ◌∙◌, true, [], ◌∷◌, length, take, Bytes, bit_or, bit_xor, ◌⊎◌, arith,
}
use aegis_token.Applets.PinSlot.{diff_loop, constant_time_eq}
use aegis_token.Applets.PinSlot.Compare.{constant_time_eq_iff}
use aegis_token.Core.ClientPin.{difference, ct_eq, spec_length}
use aegis_token.Core.ClientPin.Protocol.{shows_pin}

difference-eq-diff_loop : (acc : ℕ) (a b : Bytes) → difference acc a b ≡ diff_loop acc a b
unfolding difference diff_loop
difference-eq-diff_loop acc [] b = refl
difference-eq-diff_loop acc (x ∷ xs) [] = refl
difference-eq-diff_loop acc (x ∷ xs) (y ∷ ys) =
    difference-eq-diff_loop (bit_or acc (bit_xor x y)) xs ys

ct_eq-eq-constant_time_eq : (a b : Bytes) → ct_eq a b ≡ constant_time_eq a b
unfolding ct_eq constant_time_eq
ct_eq-eq-constant_time_eq a b = rw (difference-eq-diff_loop 0 a b) refl

pub ct_eq→eq : (a b : Bytes) → ct_eq a b ≡ true → a ≡ b
ct_eq→eq a b h = (constant_time_eq_iff a b).0 (sym (ct_eq-eq-constant_time_eq a b) ∙ h)

pub spec_length→eq :
    (param : Bytes) → spec_length param ≡ true → (length param ≡ 16) ⊎ (length param ≡ 32)
spec_length→eq param h = ground arith

-- A PIN is shown by 16 bytes that agree with the stored hash.
pub shows_pin→eq :
    (plain stored : Bytes)
    → shows_pin plain stored ≡ true
    → (16 ≤ length plain) × (take 16 plain ≡ take 16 stored)
unfolding shows_pin
shows_pin→eq plain stored h =
    (ground arith, ct_eq→eq (take 16 plain) (take 16 stored) (ground arith))
