-- ===== src/Core/Update/Examples.antt =====
-- Concrete packages and a concrete session of crates/aegis-core/src/update.rs, with a hash that
-- keeps the first 32 bytes and a signature that repeats the hash.
use aegis_token.Base.{
  ℕ, ◌≡◌, ◌↔◌, refl, ok, err, some, [], ◌∷◌, ◌++◌, append_assoc, append-nil, Bytes, take, zeros,
  arith,
}
use aegis_token.Core.Error.{firmware_error}
use aegis_token.Core.Storage.{Storage}
use aegis_token.Core.Storage.Device.{memory, memory-IsLawful}
use aegis_token.Core.Update.{
  Crypto, PackageHeader, UpdateSession, fields, verified, parse, same_bytes, begin, finish, write,
  verify_package, verify_signature, check_image, verify_parsed, begin_parsed, session_of,
}
use aegis_token.Core.Update.Package.{IsStreaming, IsAuthentic, verify_package_iff}
use aegis_token.Core.Update.Complete.{write_all, concat, update-eq-verify_package}

abbrev toy : Crypto
toy = record {
  Hasher = Bytes;
  Key = Bytes;
  Signature = Bytes;
  new = [];
  update = λ h xs. h ++ xs;
  finalize = λ h. take 32 (h ++ zeros 32);
  key_from_bytes = λ key. some key;
  signature_from_slice = λ signature. some signature;
  verify_prehash = λ key hash signature. same_bytes signature (hash ++ hash);
}

toy-IsStreaming : IsStreaming toy
toy-IsStreaming = record {
  update-update = λ h xs ys. append_assoc h xs ys;
  update-nil = λ h. append-nil h;
}

-- Rollback counter 5, version 1.2.3, an image of four bytes.
abbrev start : Bytes
start = 0x41 ∷ 0x47 ∷ 0x46 ∷ 0x55 ∷ 1 ∷ 0 ∷ 115 ∷ 0 ∷ 5 ∷ 0 ∷ 0 ∷ 0 ∷ 1 ∷ 2 ∷ 3 ∷ 4 ∷ 0 ∷ 0 ∷ 0 ∷ []

abbrev prefix : Bytes
prefix = start ++ (1 ∷ 2 ∷ 3 ∷ 4 ∷ zeros 28)

abbrev header : Bytes
header = prefix ++ (take 32 prefix ++ take 32 prefix)

abbrev image : Bytes
image = 1 ∷ 2 ∷ 3 ∷ 4 ∷ []

abbrev device : Storage (ℕ → ℕ)
device = memory 8192

abbrev used : ℕ → ℕ
used a = 7

abbrev session : UpdateSession
session = session_of toy device header (9 ∷ []) 5 0 4096 (fields header)

package_accepted : verify_package toy (header ++ image) (9 ∷ []) 5 ≡ ok (verified (fields header))
unfolding verify_package verify_parsed parse check_image same_bytes verify_signature
package_accepted = refl

rollback_refused : verify_package toy (header ++ image) (9 ∷ []) 6 ≡ err firmware_error
unfolding verify_package verify_parsed parse check_image same_bytes
rollback_refused = refl

verify_package_iff_example :
    (verify_package toy (header ++ image) (9 ∷ []) 5 ≡ ok (verified (fields header))) ↔ (
      (h : PackageHeader) × IsAuthentic toy
        (header ++ image)
        (9 ∷ [])
        5
        (verified (fields header))
        h)
verify_package_iff_example =
    verify_package_iff toy toy-IsStreaming (header ++ image) (9 ∷ []) 5 (verified (fields header))

begins : (begin toy device header (9 ∷ []) 5 0 4096 used).0 ≡ ok session
unfolding begin begin_parsed parse
begins = refl

update-eq-verify_package_example :
    let s1 = (begin toy device header (9 ∷ []) 5 0 4096 used).1 in
    let (r, u, s2) = write_all toy device session s1 ((1 ∷ 2 ∷ []) ∷ (3 ∷ 4 ∷ []) ∷ []) in
    (finish toy device u s2).0
    ≡ verify_package toy (header ++ concat ((1 ∷ 2 ∷ []) ∷ (3 ∷ 4 ∷ []) ∷ [])) (9 ∷ []) 5
unfolding begin begin_parsed parse write write_all
update-eq-verify_package_example =
    update-eq-verify_package toy device (λ c. c) 8192 header (9 ∷ []) 5 0 4096 used
      ((1 ∷ 2 ∷ []) ∷ (3 ∷ 4 ∷ []) ∷ []) session toy-IsStreaming (memory-IsLawful 8192)
      (omega arith) refl (omega arith, (omega arith, tt)) begins (omega arith) refl refl
