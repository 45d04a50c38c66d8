-- ===== src/Base/Lists.antt =====
-- Lists measured, cut and indexed by native numbers, under the library's names.
use Prim.Native.Nat.{ℕ, zero, suc, ◌+◌, ◌-◌, ◌≤◌, ◌<◌, min}
use mathlib.Core.Path.{◌≡◌, refl, sym, ap, ◌∙◌}
use mathlib.Core.List.{List, [], ◌∷◌, ◌++◌}
use native.Mathlib.Omega.{arith}

module _ {ℓ} {A : Type ℓ} where
  abbrev pub length : List A → ℕ
  length [] = 0
  length (x ∷ xs) = suc (length xs)

  abbrev pub get_or : List A → ℕ → A → A
  get_or [] i d = d
  get_or (x ∷ xs) zero d = x
  get_or (x ∷ xs) (suc i) d = get_or xs i d

  abbrev pub take : ℕ → List A → List A
  take zero xs = []
  take (suc n) [] = []
  take (suc n) (x ∷ xs) = x ∷ take n xs

  abbrev pub drop : ℕ → List A → List A
  drop zero xs = xs
  drop (suc n) [] = []
  drop (suc n) (x ∷ xs) = drop n xs

  abbrev pub replicate : ℕ → A → List A
  replicate zero a = []
  replicate (suc n) a = a ∷ replicate n a

  -- `dst[..src.len()].copy_from_slice(src)`; what does not fit is dropped.
  abbrev pub overlay : List A → List A → List A
  overlay [] dst = dst
  overlay (s ∷ src) [] = []
  overlay (s ∷ src) (d ∷ dst) = s ∷ overlay src dst

  -- `dst[at..at + src.len()].copy_from_slice(src)`
  abbrev pub copy_at : ℕ → List A → List A → List A
  copy_at zero src dst = overlay src dst
  copy_at (suc n) src [] = []
  copy_at (suc n) src (d ∷ dst) = d ∷ copy_at n src dst

  abbrev pub All {κ} : (A → Type κ) → List A → Type κ
  All P [] = Unit
  All P (x ∷ xs) = P x × All P xs

suc-add : (m n : ℕ) → suc (m + n) ≡ suc m + n
suc-add m n = omega arith

module _ {ℓ} {A : Type ℓ} where
  pub length-append : (xs ys : List A) → length (xs ++ ys) ≡ length xs + length ys
  length-append [] ys = omega arith
  length-append (x ∷ xs) ys = omega (arith, length-append xs ys)

  pub length-take : (n : ℕ) (xs : List A) → length (take n xs) ≡ min n (length xs)
  length-take zero xs = omega arith
  length-take (suc n) [] = omega arith
  length-take (suc n) (x ∷ xs) = omega (arith, length-take n xs)

  pub length-drop : (n : ℕ) (xs : List A) → length (drop n xs) ≡ length xs - n
  length-drop zero xs = omega arith
  length-drop (suc n) [] = omega arith
  length-drop (suc n) (x ∷ xs) = omega (arith, length-drop n xs)

  pub length-replicate : (n : ℕ) (a : A) → length (replicate n a) ≡ n
  length-replicate zero a = refl
  length-replicate (suc n) a = ap suc (length-replicate n a)

  pub take-append-drop : (n : ℕ) (xs : List A) → take n xs ++ drop n xs ≡ xs
  take-append-drop zero xs = refl
  take-append-drop (suc n) [] = refl
  take-append-drop (suc n) (x ∷ xs) = rw (take-append-drop n xs)

  pub drop-nil : (n : ℕ) → drop {A = A} n [] ≡ []
  drop-nil zero = refl
  drop-nil (suc n) = refl

  pub drop-drop : (n m : ℕ) (xs : List A) → drop n (drop m xs) ≡ drop (m + n) xs
  drop-drop n zero xs = ap (λ (k : ℕ). drop k xs) (omega arith)
  drop-drop n (suc m) [] = simp drop-nil
  drop-drop n (suc m) (x ∷ xs) = drop-drop n m xs ∙ ap (λ (k : ℕ). drop k (x ∷ xs)) (suc-add m n)

  pub take-all : (n : ℕ) (xs : List A) → length xs ≤ n → take n xs ≡ xs
  take-all zero [] h = refl
  take-all zero (x ∷ xs) h = absurd (omega arith)
  take-all (suc n) [] h = refl
  take-all (suc n) (x ∷ xs) h = rw (take-all n xs (omega arith))

  pub drop-all : (n : ℕ) (xs : List A) → length xs ≤ n → drop n xs ≡ []
  drop-all zero [] h = refl
  drop-all zero (x ∷ xs) h = absurd (omega arith)
  drop-all (suc n) [] h = refl
  drop-all (suc n) (x ∷ xs) h = drop-all n xs (omega arith)

  pub take-append : (xs ys : List A) → take (length xs) (xs ++ ys) ≡ xs
  take-append [] ys = refl
  take-append (x ∷ xs) ys = rw (take-append xs ys)

  pub drop-append : (xs ys : List A) → drop (length xs) (xs ++ ys) ≡ ys
  drop-append [] ys = refl
  drop-append (x ∷ xs) ys = drop-append xs ys

  -- The same where the cut is a number that equals the length.
  pub take-append_at : (n : ℕ) (xs ys : List A) → n ≡ length xs → take n (xs ++ ys) ≡ xs
  take-append_at n xs ys h = rw h (take-append xs ys)

  pub drop-append_at : (n : ℕ) (xs ys : List A) → n ≡ length xs → drop n (xs ++ ys) ≡ ys
  drop-append_at n xs ys h = rw h (drop-append xs ys)

  pub length-overlay : (src dst : List A) → length (overlay src dst) ≡ length dst
  length-overlay [] dst = refl
  length-overlay (s ∷ src) [] = refl
  length-overlay (s ∷ src) (d ∷ dst) = ap suc (length-overlay src dst)

  -- What fits is written in front of what stays.
  pub overlay-eq-append :
      (src dst : List A) → length src ≤ length dst → overlay src dst ≡ src ++ drop (length src) dst
  overlay-eq-append [] dst h = refl
  overlay-eq-append (s ∷ src) [] h = absurd (omega arith)
  overlay-eq-append (s ∷ src) (d ∷ dst) h = rw (overlay-eq-append src dst (omega arith))

  pub take-overlay :
      (src dst : List A) → length src ≤ length dst → take (length src) (overlay src dst) ≡ src
  take-overlay [] dst h = refl
  take-overlay (s ∷ src) [] h = absurd (omega arith)
  take-overlay (s ∷ src) (d ∷ dst) h = rw (take-overlay src dst (omega arith))

  -- Reading past a prefix reads what follows it.
  pub get_or-append :
      (n k : ℕ) (xs ys : List A) (d : A) → n ≡ length xs + k → get_or (xs ++ ys) n d ≡ get_or ys k d
  get_or-append n k [] ys d e = ap (λ (i : ℕ). get_or ys i d) (omega arith)
  get_or-append zero k (x ∷ xs) ys d e = absurd (omega arith)
  get_or-append (suc n) k (x ∷ xs) ys d e = get_or-append n k xs ys d (omega arith)

  pub length-zero : (xs : List A) → length xs ≤ 0 → xs ≡ []
  length-zero [] h = refl
  length-zero (x ∷ xs) h = absurd (omega arith)

  -- A write behind a prefix.
  pub copy_at-append :
      (n : ℕ) (xs src ys : List A) → n ≡ length xs → copy_at n src (xs ++ ys) ≡ xs ++ overlay src ys
  copy_at-append zero [] src ys e = refl
  copy_at-append zero (x ∷ xs) src ys e = absurd (omega arith)
  copy_at-append (suc n) [] src ys e = absurd (omega arith)
  copy_at-append (suc n) (x ∷ xs) src ys e = rw (copy_at-append n xs src ys (omega arith))

  pub take-append_le : (n : ℕ) (xs ys : List A) → n ≤ length xs → take n (xs ++ ys) ≡ take n xs
  take-append_le zero xs ys h = refl
  take-append_le (suc n) [] ys h = absurd (omega arith)
  take-append_le (suc n) (x ∷ xs) ys h = rw (take-append_le n xs ys (omega arith))

  pub drop-append_le :
      (n : ℕ) (xs ys : List A) → n ≤ length xs → drop n (xs ++ ys) ≡ drop n xs ++ ys
  drop-append_le zero xs ys h = refl
  drop-append_le (suc n) [] ys h = absurd (omega arith)
  drop-append_le (suc n) (x ∷ xs) ys h = drop-append_le n xs ys (omega arith)

  -- Reading inside a prefix reads the prefix.
  pub get_or-append_lt :
      (n : ℕ) (xs ys : List A) (d : A) → n < length xs → get_or (xs ++ ys) n d ≡ get_or xs n d
  get_or-append_lt n [] ys d h = absurd (omega arith)
  get_or-append_lt zero (x ∷ xs) ys d h = refl
  get_or-append_lt (suc n) (x ∷ xs) ys d h = get_or-append_lt n xs ys d (omega arith)

  -- A prefix of the same list, at least as long, begins with the other prefix.
  pub prefix_split :
      (xs ys zs ws : List A)
      → xs ++ ys ≡ zs ++ ws
      → length zs ≤ length xs
      → (zs ++ drop (length zs) xs ≡ xs) × (drop (length zs) xs ++ ys ≡ ws)
  prefix_split xs ys zs ws e h = (
    ap (λ (l : List A). l ++ drop (length zs) xs)
          (sym (take-append zs ws)
            ∙ ap (take (length zs)) (sym e)
            ∙ take-append_le (length zs) xs ys h)
        ∙ take-append-drop (length zs) xs,
    sym (drop-append_le (length zs) xs ys h) ∙ ap (drop (length zs)) e ∙ drop-append zs ws,
  )
