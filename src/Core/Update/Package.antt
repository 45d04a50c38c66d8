-- ===== src/Core/Update/Package.antt =====
-- crates/aegis-core/src/update.rs: which packages are accepted.
use aegis_token.Base.{
  ℕ, ◌+◌, ◌≤◌, ◌≡◌, refl, sym, ap, true, false, eq→==, ltb, ◌↔◌, ok, bind-ok, [], ◌∷◌, ◌++◌, Bytes,
  length, arith, Bool-cases, inl, inr,
}
use aegis_token.Core.Update.{
  Crypto, PackageHeader, VerifiedImage, parse, verified, slice, signed_prefix, header_len,
  same_bytes, check_image, verify_parsed, verify_package, verify_signature, digest,
}

-- Hashing in pieces is hashing the whole, as the documentation of `Digest::update` says.
pub record IsStreaming (crypto : Crypto) : Type 0 where
  pub update-update :
      (h : crypto.Hasher) (xs ys : Bytes)
      → crypto.update (crypto.update h xs) ys ≡ crypto.update h (xs ++ ys)
  pub update-nil : (h : crypto.Hasher) → crypto.update h [] ≡ h

pub not_below : (a b : ℕ) → b ≤ a → ltb a b ≡ false
not_below a b h = ground arith

same_bytes→eq : (xs ys : Bytes) → same_bytes xs ys ≡ true → xs ≡ ys
unfolding same_bytes
same_bytes→eq [] [] h = refl
same_bytes→eq [] (y ∷ ys) h = ground arith
same_bytes→eq (x ∷ xs) [] h = ground arith
same_bytes→eq (x ∷ xs) (y ∷ ys) h = ground (arith, same_bytes→eq xs ys)

same_bytes_self : (xs : Bytes) → same_bytes xs xs ≡ true
unfolding same_bytes
same_bytes_self [] = refl
same_bytes_self (x ∷ xs) = rw (eq→== x x refl) (same_bytes_self xs)

-- What an accepted package is: it holds a header and the whole image, the header's hash is that of
-- the image, its rollback counter is not below the floor, and its signature is one of the key's
-- over the hash of the header's prefix with the image.
pub record IsAuthentic (crypto : Crypto) (pkg key : Bytes) (min_rollback : ℕ) (v : VerifiedImage)
    (h : PackageHeader) : Type 0 where
  pub parsed : parse pkg ≡ ok h
  pub complete : header_len + h.image_len ≤ length pkg
  pub intact : digest crypto (slice pkg header_len h.image_len) ≡ h.image_sha256
  pub fresh : min_rollback ≤ h.rollback
  pub signed :
      verify_signature crypto key
        (digest crypto (signed_prefix pkg ++ slice pkg header_len h.image_len))
        h.signature
      ≡ true
  pub announced : v ≡ verified h

module _ (crypto : Crypto) (streaming : IsStreaming crypto) where
  checked :
      (h : PackageHeader) (image_hash prehash : Bytes) (min_rollback : ℕ) (key : Bytes)
      (v : VerifiedImage)
      → check_image crypto h image_hash prehash min_rollback key ≡ ok v
      → (image_hash ≡ h.image_sha256)
        × (min_rollback ≤ h.rollback)
        × (verify_signature crypto key prehash h.signature ≡ true)
        × (v ≡ verified h)
  unfolding check_image
  checked h image_hash prehash min_rollback key v e =
      ground (arith, same_bytes→eq image_hash h.image_sha256)

  passes :
      (h : PackageHeader) (image_hash prehash : Bytes) (min_rollback : ℕ) (key : Bytes)
      → image_hash ≡ h.image_sha256
      → min_rollback ≤ h.rollback
      → verify_signature crypto key prehash h.signature ≡ true
      → check_image crypto h image_hash prehash min_rollback key ≡ ok (verified h)
  unfolding check_image
  passes h image_hash prehash min_rollback key e fresh signed =
      rw e (ground (arith, same_bytes_self h.image_sha256))

  -- The hash over the prefix and the image, as it is computed.
  pub streamed :
      (prefix image : Bytes)
      → crypto.finalize (crypto.update (crypto.update crypto.new prefix) image)
        ≡ digest crypto (prefix ++ image)
  streamed prefix image = ap crypto.finalize (streaming.update-update crypto.new prefix image)

  complete_image :
      (pkg key : Bytes) (min_rollback : ℕ) (h : PackageHeader) (v : VerifiedImage)
      → verify_parsed crypto pkg key min_rollback h ≡ ok v
      → (header_len + h.image_len ≤ length pkg)
        × (let image = slice pkg header_len h.image_len in
            check_image crypto h
              (digest crypto image)
              (crypto.finalize (crypto.update (crypto.update crypto.new (signed_prefix pkg)) image))
              min_rollback
              key
            ≡ ok v)
  unfolding verify_parsed
  complete_image pkg key min_rollback h v e =
      elim (Bool-cases (ltb (length pkg) (115 + h.image_len))) [
        | inl short ↦ ground arith
        | inr long ↦ ground arith
      ]

  accepted :
      (pkg key : Bytes) (min_rollback : ℕ) (v : VerifiedImage)
      → verify_package crypto pkg key min_rollback ≡ ok v
      → (h : PackageHeader) × IsAuthentic crypto pkg key min_rollback v h
  unfolding verify_package
  accepted pkg key min_rollback v e =
      let (h, parsed, rest) =
        bind-ok (λ h. verify_parsed crypto pkg key min_rollback h) (parse pkg) e in
      let (complete, checks) = complete_image pkg key min_rollback h v rest in
      let (intact, fresh, signed, announced) = checked h _ _ min_rollback key v checks in
      (
        h,
        record {
          parsed = parsed;
          complete = complete;
          intact = intact;
          fresh = fresh;
          signed =
              rw (sym (streamed (signed_prefix pkg) (slice pkg header_len h.image_len))) signed;
          announced = announced;
        },
      )

  authentic :
      (pkg key : Bytes) (min_rollback : ℕ) (v : VerifiedImage) (h : PackageHeader)
      → IsAuthentic crypto pkg key min_rollback v h
      → verify_package crypto pkg key min_rollback ≡ ok v
  unfolding verify_package verify_parsed
  authentic pkg key min_rollback v h a =
      rw (a.parsed, not_below (length pkg) (115 + h.image_len) a.complete, a.announced)
        (passes h _ _ min_rollback key a.intact a.fresh
          (rw (streamed (signed_prefix pkg) (slice pkg header_len h.image_len)) a.signed))

  -- A package is accepted exactly if it is authentic, and the image that is announced is that of
  -- its header.
  pub verify_package_iff :
      (pkg key : Bytes) (min_rollback : ℕ) (v : VerifiedImage)
      → (verify_package crypto pkg key min_rollback ≡ ok v)
        ↔ ((h : PackageHeader) × IsAuthentic crypto pkg key min_rollback v h)
  verify_package_iff pkg key min_rollback v =
      (accepted pkg key min_rollback v, λ found. authentic pkg key min_rollback v found.0 found.1)
