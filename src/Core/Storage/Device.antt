-- ===== src/Core/Storage/Device.antt =====
-- crates/aegis-core/src/traits.rs: what the store relies on of a `Storage`, and a memory of bytes
-- that behaves so.
use aegis_token.Base.{
  ℕ, zero, suc, ◌+◌, ◌≤◌, ◌<◌, ◌≡◌, refl, ap, ◌∙◌, Result, ok, [], ◌∷◌, ◌++◌, ◌⊎◌, inl, inr, Bytes,
  length, arith, err, leb, Bool, if◌then◌else◌, get_or, ltb, ◌&&◌, ◌-◌,
}
use aegis_token.Core.Error.{CoreError, storage_error}
use aegis_token.Core.Storage.{Storage}

-- The bytes at the n addresses from `offset` on.
unfoldable pub region : (ℕ → ℕ) → ℕ → ℕ → Bytes
region c offset zero = []
region c offset (suc n) = c offset ∷ region c (offset + 1) n

zero_add : (n : ℕ) → 0 + n ≡ n
zero_add n = omega arith

add_zero : (n : ℕ) → n + 0 ≡ n
add_zero n = omega arith

suc_add : (m n : ℕ) → suc m + n ≡ suc (m + n)
suc_add m n = omega arith

abbrev pub IsOutside : ℕ → ℕ → ℕ → Type 0
IsOutside offset n a = (a < offset) ⊎ (offset + n ≤ a)

abbrev pub IsInside : ℕ → ℕ → ℕ → Type 0
IsInside offset n a = (offset ≤ a) × (a < offset + n)

abbrev pub Done : Result CoreError (Unit {0}) → Type 0
Done r = r ≡ ok tt

pub outcome : (r : Result CoreError (Unit {0})) → ((e : CoreError) × (r ≡ err e)) ⊎ Done r
outcome (err e) = inl (e, refl)
outcome (ok tt) = inr refl

pub refused {α} :
    {A : Type α} (r : Result CoreError A) (e : CoreError) (a : A) → r ≡ err e → r ≡ ok a → ⊥
refused r e a failure success = cc

-- Reads inside the capacity succeed and give the contents, which they leave as they are. A write
-- to erased bytes that succeeds has written its data, an erase that succeeds has erased its range.
-- Whether or not they succeed, so also where they stop half-way, they change no byte outside it.
pub record IsLawful {S : Type 0} (device : Storage S) (contents : S → ℕ → ℕ) (capacity : ℕ)
    : Type 0 where
  pub reads :
      (s : S) (offset : ℕ) (buf : Bytes)
      → offset + length buf ≤ capacity
      → let (r, buf', s') = device.read s offset buf in
        (r ≡ ok tt) × (buf' ≡ region (contents s) offset (length buf)) × (contents s' ≡ contents s)
  pub writes :
      (s : S) (offset : ℕ) (bytes : Bytes)
      → let (r, s') = device.write s offset bytes in
        ((a : ℕ) → IsInside offset (length bytes) a → contents s a ≡ 0xff)
        → Done r
        → region (contents s') offset (length bytes) ≡ bytes
  pub erases :
      (s : S) (offset n a : ℕ)
      → let (r, s') = device.erase s offset n in IsInside offset n a → Done r → contents s' a ≡ 0xff
  pub write_frame :
      (s : S) (offset a : ℕ) (bytes : Bytes)
      → IsOutside offset (length bytes) a
      → contents (device.write s offset bytes).1 a ≡ contents s a
  pub erase_frame :
      (s : S) (offset n a : ℕ)
      → IsOutside offset n a
      → contents (device.erase s offset n).1 a ≡ contents s a

pub length-region : (c : ℕ → ℕ) (offset n : ℕ) → length (region c offset n) ≡ n
unfolding region
length-region c offset zero = refl
length-region c offset (suc n) = ap suc (length-region c (offset + 1) n)

pub region-zero : (c : ℕ → ℕ) (offset n : ℕ) → n ≡ 0 → region c offset n ≡ []
unfolding region
region-zero c offset n e = rw e refl

pub region-append :
    (c : ℕ → ℕ) (offset m n : ℕ)
    → region c offset (m + n) ≡ region c offset m ++ region c (offset + m) n
unfolding region
region-append c offset zero n = cc (zero_add n, add_zero offset)
region-append c offset (suc m) n =
    let rest : region c (offset + 1) (m + n)
        ≡ region c (offset + 1) m ++ region c (offset + suc m) n =
      region-append c (offset + 1) m n
      ∙ ap (λ o. region c (offset + 1) m ++ region c o n) (omega arith) in
    ap (region c offset) (suc_add m n) ∙ ap (◌∷◌ (c offset)) rest

-- Contents that agree on a region have the same bytes in it.
pub region-same :
    (c c' : ℕ → ℕ) (offset n : ℕ)
    → ((a : ℕ) → offset ≤ a → a < offset + n → c' a ≡ c a)
    → region c' offset n ≡ region c offset n
unfolding region
region-same c c' offset zero same = refl
region-same c c' offset (suc n) same =
    let head = same offset (omega arith) (omega arith) in
    let rest = region-same c c' (offset + 1) n (λ a h k. same a (omega arith) (omega arith)) in
    cc (head, rest)

-- A memory of `capacity` bytes, as the tests of storage.rs use one.
abbrev inside : ℕ → ℕ → ℕ → Bool
inside offset n a = leb offset a && ltb a (offset + n)

abbrev pub set_bytes : (ℕ → ℕ) → ℕ → Bytes → ℕ → ℕ
set_bytes c offset bytes a =
    if inside offset (length bytes) a then get_or bytes (a - offset) 0 else c a

abbrev pub fill : (ℕ → ℕ) → ℕ → ℕ → ℕ → ℕ
fill c offset n a = if inside offset n a then 0xff else c a

abbrev pub memory : ℕ → Storage (ℕ → ℕ)
memory capacity = record {
  read = λ c offset buf.
      if leb (offset + length buf) capacity
      then (ok tt, region c offset (length buf), c)
      else (err storage_error, buf, c);
  write = λ c offset bytes.
      if leb (offset + length bytes) capacity
      then (ok tt, set_bytes c offset bytes)
      else (err storage_error, c);
  erase = λ c offset n.
      if leb (offset + n) capacity then (ok tt, fill c offset n) else (err storage_error, c);
}

region-get_or :
    (c : ℕ → ℕ) (offset : ℕ) (bytes : Bytes)
    → ((a : ℕ) → IsInside offset (length bytes) a → c a ≡ get_or bytes (a - offset) 0)
    → region c offset (length bytes) ≡ bytes
unfolding region
region-get_or c offset [] h = refl
region-get_or c offset (b ∷ bytes) h =
    let first : offset - offset ≡ 0 = omega arith in
    let head : c offset ≡ b =
      h offset (omega arith, omega arith) ∙ ap (λ i. get_or (b ∷ bytes) i 0) first in
    let rest : region c (offset + 1) (length bytes) ≡ bytes =
      region-get_or c (offset + 1) bytes (λ a inside_rest.
        let (low, high) = inside_rest in
        let next : a - offset ≡ suc (a - (offset + 1)) = omega arith in
        h a (omega arith, omega arith) ∙ ap (λ i. get_or (b ∷ bytes) i 0) next) in
    cc (head, rest)

stored :
    (s : ℕ → ℕ) (offset : ℕ) (bytes : Bytes)
    → region (set_bytes s offset bytes) offset (length bytes) ≡ bytes
stored s offset bytes = region-get_or (set_bytes s offset bytes) offset bytes (λ a h. ground arith)

pub memory-IsLawful : (capacity : ℕ) → IsLawful (memory capacity) (λ c. c) capacity
memory-IsLawful capacity = record {
  reads = λ s offset buf h. ground arith;
  writes = λ s offset bytes erased done. ground (arith, stored s offset bytes);
  erases = λ s offset n a. ground arith;
  write_frame = λ s offset a bytes h. ground arith;
  erase_frame = λ s offset n a h. ground arith;
}
