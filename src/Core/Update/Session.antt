-- ===== src/Core/Update/Session.antt =====
-- crates/aegis-core/src/update.rs: a session from its header to its last chunk.
use aegis_token.Base.{
  ℕ, ◌+◌, ◌-◌, ◌*◌, ◌/◌, ◌%◌, ◌^◌, ◌≤◌, ◌<◌, ◌≡◌, refl, sym, ap, ◌∙◌, false, Bool-cases, inl, inr,
  ◌⊎◌, ltb, Result, ok, err, ◌++◌, Bytes, length, length-append, arith,
}
use native.Mathlib.Nat.{div-add-mod', mod-lt}
use aegis_token.Core.Error.{CoreError, firmware_error}
use aegis_token.Core.Storage.{Storage}
use aegis_token.Core.Storage.Device.{
  IsLawful, region, region-append, region-same, Done, refused, IsInside,
}
use aegis_token.Core.Update.{Crypto, UpdateSession, write, write_at, erase_len}

not_above : (a b : ℕ) → ltb a b ≡ false → b ≤ a
not_above a b h = ground arith

-- The erased length covers the image.
pub covers :
    (image_len erase_size : ℕ)
    → 0 < erase_size
    → (image_len + erase_size - 1) / erase_size * erase_size < 2 ^ 32
    → image_len ≤ erase_len image_len erase_size
covers image_len erase_size pos small = omega (
  arith,
  div-add-mod' (image_len + erase_size - 1) erase_size,
  mod-lt (image_len + erase_size - 1) pos,
)

abbrev pub IsPlaced : UpdateSession → Type 0
IsPlaced u = u.base + u.header.image_len < 2 ^ 32

-- The same session, but for what it has received.
abbrev pub SameUpdate : UpdateSession → UpdateSession → Type 0
SameUpdate u u' =
    (u'.header ≡ u.header)
    × (u'.prefix ≡ u.prefix)
    × (u'.key_sec1 ≡ u.key_sec1)
    × (u'.min_rollback ≡ u.min_rollback)
    × (u'.base ≡ u.base)

module _ {S : Type 0} (contents : S → ℕ → ℕ) where
  -- What has been received stands at the base, and the rest of the region is erased.
  pub record IsStaged (u : UpdateSession) (s : S) (bytes : Bytes) : Type 0 where
    pub counted : u.received ≡ length bytes
    pub bounded : u.received ≤ u.header.image_len
    pub there : region (contents s) u.base u.received ≡ bytes
    pub erased :
        (a : ℕ)
        → IsInside (u.base + u.received) (u.header.image_len - u.received) a
        → contents s a ≡ 0xff

module _ (crypto : Crypto) {S : Type 0} (device : Storage S) (contents : S → ℕ → ℕ) (capacity : ℕ)
    (lawful : IsLawful device contents capacity) where
  write_at-Done :
      (u : UpdateSession) (stop : ℕ) (r : Result CoreError (Unit {0})) (s : S)
      → (write_at crypto device u stop (r, s)).0 ≡ ok tt
      → Done r × (write_at crypto device u stop (r, s) ≡ (ok tt, record u { received = stop }, s))
  unfolding write_at
  write_at-Done u stop (err e) s h = cc
  write_at-Done u stop (ok tt) s h = (refl, refl)

  -- What a write does, by its two bounds.
  write_cases :
      (u : UpdateSession) (s : S) (chunk : Bytes)
      → let stop = u.received + length chunk % 2 ^ 32 in
        (write crypto device u s chunk ≡ (err firmware_error, u, s))
        ⊎ ((stop ≤ u.header.image_len)
            × (write crypto device u s chunk
                ≡ write_at crypto device u stop
                    (device.write s ((u.base + u.received) % 2 ^ 32) chunk)))
  unfolding write
  write_cases u s chunk = elim (Bool-cases (ltb 0xffff_ffff (u.received + length chunk % 2 ^ 32))) [
    | inl e ↦ inl (rw e refl)
    | inr e ↦ elim (Bool-cases (ltb u.header.image_len (u.received + length chunk % 2 ^ 32))) [
      | inl f ↦ inl (rw (e, f) refl)
      | inr f ↦ inr (not_above _ _ f, rw (e, f) refl)
    ]
  ]

  -- A write that succeeds has gone through both bounds and to the device.
  write-Done :
      (u : UpdateSession) (s : S) (chunk : Bytes)
      → IsPlaced u
      → u.received ≤ u.header.image_len
      → length chunk < 2 ^ 32
      → (write crypto device u s chunk).0 ≡ ok tt
      → let (r, s') = device.write s (u.base + u.received) chunk in
        (u.received + length chunk ≤ u.header.image_len)
        × Done r
        × (write crypto device u s chunk
            ≡ (ok tt, record u { received = u.received + length chunk }, s'))
  write-Done u s chunk placed bounded short h = elim (write_cases u s chunk) [
    | inl stays ↦ absurd (refused _ firmware_error tt (ap (λ x. x.0) stays) h)
    | inr (fits, run) ↦
        let l : length chunk % 2 ^ 32 ≡ length chunk = omega arith in
        let here : (u.base + u.received) % 2 ^ 32 ≡ u.base + u.received = omega arith in
        let (done, after) = write_at-Done u _ _ _ (ap (λ x. x.0) (sym run) ∙ h) in
        (omega arith, rw (sym here) done, run ∙ after ∙ rw (l, here) refl)
  ]

  pub write-Staged :
      (u : UpdateSession) (s : S) (bytes chunk : Bytes)
      → IsPlaced u
      → length chunk < 2 ^ 32
      → IsStaged contents u s bytes
      → (write crypto device u s chunk).0 ≡ ok tt
      → let (r, u', s') = write crypto device u s chunk in
        IsStaged contents u' s' (bytes ++ chunk) × SameUpdate u u'
  write-Staged u s bytes chunk placed short st h =
      let (fits, done, run) = write-Done u s chunk placed st.bounded short h in
      let (r, s') = device.write s (u.base + u.received) chunk in
      let prefix : region (contents s') u.base u.received ≡ bytes =
        region-same (contents s) (contents s') u.base u.received
          (λ a low high. lawful.write_frame s (u.base + u.received) a chunk (inl (omega arith)))
        ∙ st.there in
      let new : region (contents s') (u.base + u.received) (length chunk) ≡ chunk =
        lawful.writes s (u.base + u.received) chunk
          (λ a within. st.erased a (omega (arith, within.0), omega (arith, within.1))) done in
      rw run (
        record {
          counted = omega (arith, st.counted, length-append bytes chunk);
          bounded = fits;
          there =
              region-append (contents s') u.base u.received (length chunk) ∙ rw (prefix, new) refl;
          erased = λ a within.
              lawful.write_frame s (u.base + u.received) a chunk (inr (omega (arith, within.0)))
              ∙ st.erased a (omega (arith, within.0), omega (arith, within.1));
        },
        (refl, refl, refl, refl, refl),
      )
