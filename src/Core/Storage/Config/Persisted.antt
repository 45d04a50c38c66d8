-- ===== src/Core/Storage/Config/Persisted.antt =====
-- crates/aegis-core/src/storage.rs: a configuration that is committed is loaded.
use aegis_token.Base.{
  ℕ, ◌≡◌, refl, sym, ap, ◌∙◌, Result, ok, err, Option, some, none, Bytes, length, take, zeros,
  length-replicate, arith,
}
use aegis_token.Core.Error.{CoreError}
use aegis_token.Core.Storage.{Storage, SlotStore, Failure, store, max_payload_bytes}
use aegis_token.Core.Storage.Config.{config_load, commit, from_record}
use aegis_token.Core.Storage.Device.{IsLawful}
use aegis_token.Core.Storage.Slots.{IsPlaced}
use aegis_token.Core.Storage.Newest.{latest}
use aegis_token.Core.Storage.Refinement.{HasSuccessor, load-store}

module _ {S : Type 0} {C : Type 0} (device : Storage S) (contents : S → ℕ → ℕ) (capacity : ℕ)
    (lawful : IsLawful device contents capacity) (decode : Bytes → Result CoreError C)
    (encode : ℕ → C → Result CoreError Bytes) where
  from_record_lem :
      (r : Result Failure (Option (ℕ × ℕ))) (buf bytes : Bytes) (st : SlotStore S) (n : ℕ)
      (config : C)
      → r ≡ ok (some (n, length bytes))
      → take (length bytes) buf ≡ bytes
      → decode bytes ≡ ok config
      → (from_record device decode (r, buf, st)).0 ≡ ok (some config)
  from_record_lem (err e) buf bytes st n config r there d = cc
  from_record_lem (ok none) buf bytes st n config r there d = cc
  from_record_lem (ok (some found)) buf bytes st n config r there d =
      let l : found.1 ≡ length bytes = cc in rw (l, there, d) refl

  encoded :
      (st : SlotStore S) (config : C) (bytes : Bytes)
      → encode max_payload_bytes config ≡ ok bytes
      → commit device encode st config ≡ store device st bytes
  unfolding commit
  encoded st config bytes e = rw e refl

  -- A configuration that is committed is the one that is loaded next, where its encoding decodes
  -- to it: the commit and the load agree on the record, whatever the codec is.
  pub config_load-commit :
      (st : SlotStore S) (config : C) (bytes : Bytes) (n : ℕ)
      → IsPlaced capacity st
      → HasSuccessor (latest device contents capacity st)
      → encode max_payload_bytes config ≡ ok bytes
      → decode bytes ≡ ok config
      → (commit device encode st config).0 ≡ ok n
      → (config_load device decode (commit device encode st config).1).0 ≡ ok (some config)
  unfolding config_load
  config_load-commit st config bytes n placed more e d success =
      let run = encoded st config bytes e in
      let buf : Bytes = zeros max_payload_bytes in
      let (number, r, there) =
        load-store device contents capacity lawful st bytes (zeros max_payload_bytes) n placed more
          (omega (arith, length-replicate {A = ℕ} max_payload_bytes 0))
          (ap (λ x. x.0) (sym run) ∙ success) in
      rw run (from_record_lem _ _ bytes _ n config r there d)
