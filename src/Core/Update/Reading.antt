-- ===== src/Core/Update/Reading.antt =====
-- crates/aegis-core/src/update.rs: the loop of `finish` hashes the whole staged image.
use aegis_token.Base.{
  ℕ, zero, suc, ◌+◌, ◌-◌, ◌%◌, ◌^◌, ◌≤◌, ◌<◌, min, ◌≡◌, refl, sym, ap, ◌∙◌, true, false, ltb,
  dec_lt, Result, ok, [], ◌++◌, Bytes, length, take, drop, length-take, length-append, arith,
}
use aegis_token.Core.Error.{CoreError}
use aegis_token.Core.Storage.{Storage}
use aegis_token.Core.Storage.Device.{IsLawful, region, region-append, region-zero, length-region}
use aegis_token.Core.Update.{Crypto, Hashers, both, read_loop}
use aegis_token.Core.Update.Package.{IsStreaming}

module _ (crypto : Crypto) (streaming : IsStreaming crypto) {S : Type 0} (device : Storage S)
    (contents : S → ℕ → ℕ) (capacity : ℕ) (lawful : IsLawful device contents capacity) where
  both-nil : (hashers : Hashers crypto device) → both crypto device hashers [] ≡ hashers
  both-nil (image, signed) = cc (streaming.update-nil image, streaming.update-nil signed)

  both-both :
      (hashers : Hashers crypto device) (xs ys : Bytes)
      → both crypto device (both crypto device hashers xs) ys
        ≡ both crypto device hashers (xs ++ ys)
  both-both (image, signed) xs ys =
      cc (streaming.update-update image xs ys, streaming.update-update signed xs ys)

  -- What is still to be read.
  abbrev rest_of : S → ℕ → ℕ → ℕ → Bytes
  rest_of s base image_len offset = region (contents s) (base + offset) (image_len - offset)

  abbrev IsHashed :
      S → Hashers crypto device → Bytes → Result CoreError (Hashers crypto device) × S → Type 0
  IsHashed s hashers bytes (r, s') =
      (r ≡ ok (both crypto device hashers bytes)) × (contents s' ≡ contents s)

  nothing_left :
      (s : S) (base image_len offset : ℕ) (hashers : Hashers crypto device)
      → image_len ≤ offset
      → both crypto device hashers (rest_of s base image_len offset) ≡ hashers
  nothing_left s base image_len offset hashers h =
      rw (region-zero (contents s) (base + offset) (image_len - offset) (omega arith))
        (both-nil hashers)

  -- The first chunk and the rest are what was still to be read.
  chunk_and_rest :
      (s s' : S) (base image_len offset n here : ℕ) (chunk : Bytes)
      → contents s' ≡ contents s
      → here ≡ base + offset
      → offset + n ≤ image_len
      → chunk ≡ region (contents s) here n
      → chunk ++ rest_of s' base image_len (offset + n) ≡ rest_of s base image_len offset
  chunk_and_rest s s' base image_len offset n here chunk same place fits filled =
      let split : image_len - offset ≡ n + (image_len - (offset + n)) = omega arith in
      let moved : base + (offset + n) ≡ base + offset + n = omega arith in
      rw (same, filled, place, moved, split)
        (sym (region-append (contents s) (base + offset) n (image_len - (offset + n))))

  pub read_loop_lem :
      (fuel base image_len offset : ℕ) (buffer : Bytes) (hashers : Hashers crypto device) (s : S)
      → image_len - offset ≤ fuel
      → 0 < length buffer
      → base + image_len ≤ capacity
      → capacity ≤ 2 ^ 32
      → IsHashed s hashers
          (rest_of s base image_len offset)
          (read_loop crypto device fuel base image_len offset buffer hashers s)
  unfolding read_loop
  read_loop_lem zero base image_len offset buffer hashers s enough some inside small =
      (sym (ap ok (nothing_left s base image_len offset hashers (omega arith))), refl)
  read_loop_lem (suc fuel) base image_len offset buffer hashers s enough some inside small =
      elim (dec_lt offset image_len) [
        | yes more ↦
            let n = min (image_len - offset) (length buffer) in
            let here = (base + offset) % 2 ^ 32 in
            let taken : length (take n buffer) ≡ n = omega (arith, length-take n buffer) in
            let go : ltb offset image_len ≡ true = ground arith in
            let (done, filled, same) = lawful.reads s here (take n buffer) (omega arith) in
            let (r, chunk, s') = device.read s here (take n buffer) in
            let full : length chunk ≡ n =
              ap length filled ∙ length-region (contents s) here (length (take n buffer)) ∙ taken in
            let (hashed, same') =
              read_loop_lem fuel base image_len (offset + n) (chunk ++ drop n buffer)
                (both crypto device hashers chunk) s' (omega arith)
                (omega (arith, length-append chunk (drop n buffer), full)) inside small in
            rw (go, done, read_loop)
              (
                hashed
                    ∙ ap ok (
                        both-both hashers chunk _
                        ∙ ap (both crypto device hashers) (
                            chunk_and_rest s s' base image_len offset n here chunk same
                              (omega arith) (omega arith)
                              (filled ∙ ap (region (contents s) here) taken))),
                same' ∙ same,
              )
        | no done ↦
            let stop : ltb offset image_len ≡ false = ground arith in
            rw (stop, read_loop)
              (sym (ap ok (nothing_left s base image_len offset hashers (omega arith))), refl)
      ]
