-- ===== src/Applets/PinSlot/Compare.antt =====
-- The constant-time comparator decides equality.
use aegis_token.Base.{
  ℕ, ◌≡◌, ◌↔◌, refl, ap₂, true, [], ◌∷◌, length, Bytes, bit_or, bit_xor, bit_or_eq_zero,
  bit_xor_self, bit_xor_eq_zero, arith,
}
use aegis_token.Applets.PinSlot.{
  constant_time_eq, diff_loop, PinHash, hash_verify, hash_of, PinHashFormat,
}

diff_loop_self : (a : Bytes) → diff_loop 0 a a ≡ 0
unfolding diff_loop
diff_loop_self [] = refl
diff_loop_self (x ∷ xs) = rw (bit_xor_self x) (diff_loop_self xs)

-- A zero at the end was zero all along.
diff_loop_start : (d : ℕ) (a b : Bytes) → diff_loop d a b ≡ 0 → d ≡ 0
unfolding diff_loop
diff_loop_start d [] b e = e
diff_loop_start d (x ∷ xs) [] e = e
diff_loop_start d (x ∷ xs) (y ∷ ys) e =
    (bit_or_eq_zero d (bit_xor x y) (diff_loop_start (bit_or d (bit_xor x y)) xs ys e)).0

diff_loop_eq : (d : ℕ) (a b : Bytes) → length a ≡ length b → diff_loop d a b ≡ 0 → a ≡ b
unfolding diff_loop
diff_loop_eq d [] [] n e = refl
diff_loop_eq d [] (y ∷ ys) n e = absurd (omega arith)
diff_loop_eq d (x ∷ xs) [] n e = absurd (omega arith)
diff_loop_eq d (x ∷ xs) (y ∷ ys) n e =
    let z = bit_or_eq_zero d (bit_xor x y) (diff_loop_start (bit_or d (bit_xor x y)) xs ys e) in
    ap₂ ◌∷◌ (bit_xor_eq_zero x y z.1) (diff_loop_eq (bit_or d (bit_xor x y)) xs ys (omega arith) e)

-- The comparator answers `true` exactly on equal byte strings: no pair of different strings, of
-- equal or of different lengths, passes for equal.
pub constant_time_eq_iff : (a b : Bytes) → (constant_time_eq a b ≡ true) ↔ (a ≡ b)
unfolding constant_time_eq
constant_time_eq_iff a b = (
  λ e. diff_loop_eq 0 a b (ground arith) (ground arith),
  λ e. rw e (ground (arith, diff_loop_self b)),
)

module _ (digest : Bytes → Bytes) where
  -- A candidate passes exactly when its digest is the stored hash.
  pub hash_verify_iff :
      (h : PinHash) (pin : Bytes) (f : PinHashFormat)
      → (hash_verify digest h pin f ≡ true) ↔ (h ≡ hash_of digest pin f)
  unfolding hash_verify
  hash_verify_iff h pin f = constant_time_eq_iff h (hash_of digest pin f)
