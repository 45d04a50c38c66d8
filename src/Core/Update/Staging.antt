-- ===== src/Core/Update/Staging.antt =====
-- crates/aegis-core/src/update.rs: a staged image is verified as a package is.
use aegis_token.Base.{
  ℕ, ◌+◌, ◌-◌, ◌^◌, ◌≤◌, ◌≡◌, refl, sym, ap, ◌∙◌, eq→==, Result, ok, err, ◌++◌, Bytes, length, take,
  zeros, length-append, length-replicate, take-append_le, take-all, drop-append_at, arith,
}
use aegis_token.Core.Error.{CoreError}
use aegis_token.Core.Storage.{Storage}
use aegis_token.Core.Storage.Device.{IsLawful, region, length-region}
use aegis_token.Core.Update.{
  Crypto, PackageHeader, UpdateSession, parse, finish, finish_hashed, read_loop, both, check_image,
  verify_package, verify_parsed, digest, signed_prefix, slice, header_len, Hashers,
}
use aegis_token.Core.Update.Header.{parse-append}
use aegis_token.Core.Update.Package.{IsStreaming, not_below}
use aegis_token.Core.Update.Reading.{read_loop_lem}

module _ (crypto : Crypto) (streaming : IsStreaming crypto) {S : Type 0} (device : Storage S)
    (contents : S → ℕ → ℕ) (capacity : ℕ) (lawful : IsLawful device contents capacity) where
  -- A session of a header: its fields are those that `begin` takes from it.
  pub record IsSession (header key : Bytes) (min_rollback : ℕ) (u : UpdateSession) : Type 0 where
    pub whole : length header ≡ header_len
    pub parsed : parse header ≡ ok u.header
    pub prefixed : u.prefix ≡ signed_prefix header
    pub keyed : u.key_sec1 ≡ key
    pub floored : u.min_rollback ≡ min_rollback
    pub inside : u.base + u.header.image_len ≤ capacity

  -- The image as it stands in the staging region.
  abbrev pub staged : UpdateSession → S → Bytes
  staged u s = region (contents s) u.base u.header.image_len

  whole_pkg :
      (header image key : Bytes) (min_rollback : ℕ) (h : PackageHeader)
      → length header ≡ header_len
      → parse header ≡ ok h
      → length image ≡ h.image_len
      → verify_package crypto (header ++ image) key min_rollback
        ≡ check_image crypto h
            (digest crypto image)
            (crypto.finalize
              (crypto.update (crypto.update crypto.new (signed_prefix header)) image))
            min_rollback
            key
  unfolding verify_package verify_parsed
  whole_pkg header image key min_rollback h whole parsed fits =
      let long =
        not_below (length (header ++ image)) (115 + h.image_len)
          (omega (arith, length-append header image)) in
      let body : slice (header ++ image) header_len h.image_len ≡ image =
        ap (take h.image_len) (drop-append_at 115 header image (sym whole))
        ∙ take-all h.image_len image (omega arith) in
      let prefix : signed_prefix (header ++ image) ≡ signed_prefix header =
        take-append_le 51 header image (omega arith) in
      rw (parse-append header image whole, parsed, long) (rw (body, prefix) refl)

  finish_hashed_lem :
      (u : UpdateSession) (r : Result CoreError (Hashers crypto device)) (s : S) (image : Bytes)
      → r ≡ ok (both crypto device (crypto.new, crypto.update crypto.new u.prefix) image)
      → (finish_hashed crypto device u (r, s)).0
        ≡ check_image crypto u.header
            (digest crypto image)
            (crypto.finalize (crypto.update (crypto.update crypto.new u.prefix) image))
            u.min_rollback
            u.key_sec1
  unfolding finish_hashed
  finish_hashed_lem u (err e) s image h = cc
  finish_hashed_lem u (ok hashers) s image h =
      let same : hashers
          ≡ both crypto device (crypto.new, crypto.update crypto.new u.prefix) image =
        cc in
      rw same refl

  finish_full :
      (u : UpdateSession) (s : S)
      → u.received ≡ u.header.image_len
      → finish crypto device u s
        ≡ finish_hashed crypto device u (
            read_loop crypto device u.header.image_len u.base u.header.image_len 0
              (zeros 256)
              (crypto.new, crypto.update crypto.new u.prefix)
              s)
  unfolding finish
  finish_full u s full = rw (eq→== u.received u.header.image_len full) refl

  -- The region that the loop reads is the staging region.
  staged_lem :
      (u : UpdateSession) (s : S)
      → region (contents s) (u.base + 0) (u.header.image_len - 0) ≡ staged u s
  staged_lem u s =
      let b : u.base + 0 ≡ u.base = omega arith in
      let l : u.header.image_len - 0 ≡ u.header.image_len = omega arith in rw (b, l) refl

  -- Finishing a session whose bytes have all been received returns what `verify_package` returns
  -- for the header followed by the image in the staging region, be it an image or an error.
  pub finish-eq-verify_package :
      (header key : Bytes) (min_rollback : ℕ) (u : UpdateSession) (s : S)
      → IsSession header key min_rollback u
      → capacity ≤ 2 ^ 32
      → u.received ≡ u.header.image_len
      → (finish crypto device u s).0 ≡ verify_package crypto (header ++ staged u s) key min_rollback
  finish-eq-verify_package header key min_rollback u s session small full =
      let (hashed, same) =
        read_loop_lem crypto streaming device contents capacity lawful u.header.image_len u.base
          u.header.image_len 0 (zeros 256) (crypto.new, crypto.update crypto.new u.prefix) s
          (omega arith) (omega (arith, length-replicate {A = ℕ} 256 0)) session.inside small in
      let l : length (staged u s) ≡ u.header.image_len =
        length-region (contents s) u.base u.header.image_len in
      ap (λ x. x.0) (finish_full u s full)
      ∙ finish_hashed_lem u _ _ (staged u s) (
          hashed
          ∙ ap (λ x. ok (both crypto device (crypto.new, crypto.update crypto.new u.prefix) x))
              (staged_lem u s))
      ∙ rw (session.prefixed, session.keyed, session.floored)
          (sym (
            whole_pkg header (staged u s) key min_rollback u.header session.whole session.parsed l))
