-- ===== src/Core/Update.antt =====
-- crates/aegis-core/src/update.rs: firmware packages and the session that stages one. SHA-256 and
-- the verification of ECDSA signatures are parameters.
pub mod Header
pub mod Package
pub mod Reading
pub mod Staging
pub mod Session
pub mod Complete
mod Examples
use aegis_token.Base.{
  ℕ, zero, suc, ◌+◌, ◌-◌, ◌*◌, ◌/◌, ◌%◌, ◌^◌, min, Bool, true, false, not, ◌&&◌, ◌||◌, ◌==◌, ltb,
  if◌then◌else◌, Result, ok, err, ◌>>=◌, Option, none, some, [], ◌∷◌, ◌++◌, length, take, drop,
  Bytes, at, zeros,
}
use aegis_token.Core.Error.{CoreError, firmware_error}
use aegis_token.Core.Storage.{Storage}

abbrev pub format_version : ℕ
format_version = 1

abbrev pub signed_header_len : ℕ
signed_header_len = 51

abbrev pub signature_offset : ℕ
signature_offset = 51

abbrev pub header_len : ℕ
header_len = 115

abbrev pub signature_len : ℕ
signature_len = 64

-- What the code takes of the crates sha2 and p256: a streaming hash, the decoding of a public key
-- and of a signature, and the verification of a signature over a hash.
pub record Crypto : Type 1 where
  pub Hasher : Type 0
  pub Key : Type 0
  pub Signature : Type 0
  pub new : Hasher
  pub update : Hasher → Bytes → Hasher
  pub finalize : Hasher → Bytes
  pub key_from_bytes : Bytes → Option Key
  pub signature_from_slice : Bytes → Option Signature
  pub verify_prehash : Key → Bytes → Signature → Bool

pub record FirmwareVersion : Type 0 where
  pub major : ℕ
  pub minor : ℕ
  pub patch : ℕ

pub record PackageHeader : Type 0 where
  pub rollback : ℕ
  pub version : FirmwareVersion
  pub image_len : ℕ
  pub image_sha256 : Bytes
  pub signature : Bytes

pub record VerifiedImage : Type 0 where
  pub version : FirmwareVersion
  pub rollback : ℕ
  pub image_len : ℕ

-- `u16::from_le_bytes` and `u32::from_le_bytes` at an offset, and `bytes[i..i + n]`.
abbrev pub word : Bytes → ℕ → ℕ
word b i = at b i + at b (i + 1) * 256

abbrev pub dword : Bytes → ℕ → ℕ
dword b i = word b i + word b (i + 2) * 65536

abbrev pub slice : Bytes → ℕ → ℕ → Bytes
slice b i n = take n (drop i b)

-- `bytes[0..4] == MAGIC`, the text AGFU.
abbrev pub has_magic : Bytes → Bool
has_magic b = at b 0 == 0x41 && at b 1 == 0x47 && at b 2 == 0x46 && at b 3 == 0x55

abbrev pub fields : Bytes → PackageHeader
fields b = record {
  rollback = dword b 8;
  version = record { major = at b 12; minor = at b 13; patch = at b 14 };
  image_len = dword b 15;
  image_sha256 = slice b 19 32;
  signature = slice b signature_offset signature_len;
}

pub parse : Bytes → Result CoreError PackageHeader
parse b =
    if ltb (length b) header_len
    then err firmware_error
    else if not (has_magic b)
    then err firmware_error
    else if not (word b 4 == format_version)
    then err firmware_error
    else if not (word b 6 == header_len)
    then err firmware_error
    else ok (fields b)

abbrev pub signed_prefix : Bytes → Bytes
signed_prefix b = take signed_header_len b

-- Equality of byte strings.
pub same_bytes : Bytes → Bytes → Bool
same_bytes [] [] = true
same_bytes (x ∷ xs) (y ∷ ys) = x == y && same_bytes xs ys
same_bytes _ _ = false

abbrev pub verified : PackageHeader → VerifiedImage
verified h = record { version = h.version; rollback = h.rollback; image_len = h.image_len }

-- A session's fields; the storage is passed to each call.
pub record UpdateSession : Type 0 where
  pub header : PackageHeader
  pub prefix : Bytes
  pub key_sec1 : Bytes
  pub min_rollback : ℕ
  pub base : ℕ
  pub erase_size : ℕ
  pub received : ℕ

-- `image_len.div_ceil(erase_size) * erase_size`
abbrev pub erase_len : ℕ → ℕ → ℕ
erase_len image_len erase_size = (image_len + erase_size - 1) / erase_size * erase_size % 2 ^ 32

module _ (crypto : Crypto) where
  abbrev with_signature : crypto.Key → Bytes → Option crypto.Signature → Bool
  with_signature key prehash none = false
  with_signature key prehash (some signature) = crypto.verify_prehash key prehash signature

  abbrev with_key : Option crypto.Key → Bytes → Bytes → Bool
  with_key none prehash signature = false
  with_key (some key) prehash signature =
      with_signature key prehash (crypto.signature_from_slice signature)

  pub verify_signature : Bytes → Bytes → Bytes → Bool
  verify_signature key_sec1 prehash signature =
      with_key (crypto.key_from_bytes key_sec1) prehash signature

  -- The checks that end both `verify_package` and `finish`, on the two hashes.
  pub check_image : PackageHeader → Bytes → Bytes → ℕ → Bytes → Result CoreError VerifiedImage
  check_image h image_hash prehash min_rollback key_sec1 =
      if not (same_bytes image_hash h.image_sha256)
      then err firmware_error
      else if ltb h.rollback min_rollback
      then err firmware_error
      else if not (verify_signature key_sec1 prehash h.signature)
      then err firmware_error
      else ok (verified h)

  abbrev pub digest : Bytes → Bytes
  digest b = crypto.finalize (crypto.update crypto.new b)

  -- The rest of `verify_package`, once the header is parsed. The sum of the lengths does not wrap, as
  -- on a 64-bit `usize`: where `usize` has 32 bits and the sum passes them, the code panics at the
  -- slice, and the model refuses; no package is accepted in either.
  verify_parsed : Bytes → Bytes → ℕ → PackageHeader → Result CoreError VerifiedImage
  unfolding check_image
  verify_parsed pkg vendor_key min_rollback h =
      if ltb (length pkg) (header_len + h.image_len)
      then err firmware_error
      else let image = slice pkg header_len h.image_len in
        let hasher = crypto.update crypto.new (signed_prefix pkg) in
        check_image h (digest image) (crypto.finalize (crypto.update hasher image)) min_rollback
          vendor_key

  pub verify_package : Bytes → Bytes → ℕ → Result CoreError VerifiedImage
  unfolding verify_parsed
  verify_package pkg vendor_key min_rollback =
      parse pkg >>= λ h. verify_parsed pkg vendor_key min_rollback h

  module _ {S : Type 0} (device : Storage S) where
    -- The end of `begin`: the staging region is erased.
    begin_erased :
        UpdateSession → Result CoreError (Unit {0}) × S → Result CoreError UpdateSession × S
    begin_erased session (err e, s) = (err e, s)
    begin_erased session (ok done, s) = (ok session, s)

    -- The session that `begin` makes of a header.
    abbrev pub session_of : Bytes → Bytes → ℕ → ℕ → ℕ → PackageHeader → UpdateSession
    session_of header_bytes vendor_key min_rollback base erase_size h = record {
      header = h;
      prefix = signed_prefix header_bytes;
      key_sec1 = vendor_key;
      min_rollback = min_rollback;
      base = base;
      erase_size = erase_size;
      received = 0;
    }

    -- `VerifyingKey::from_sec1_bytes(..)?`, and what follows.
    begin_keyed : UpdateSession → S → Option crypto.Key → Result CoreError UpdateSession × S
    unfolding begin_erased
    begin_keyed session s none = (err firmware_error, s)
    begin_keyed session s (some key) =
        begin_erased session
          (device.erase s session.base (erase_len session.header.image_len session.erase_size))

    begin_parsed :
        Bytes
        → Bytes
        → ℕ
        → ℕ
        → ℕ
        → S
        → Result CoreError PackageHeader
        → Result CoreError UpdateSession × S
    unfolding begin_keyed
    begin_parsed header_bytes vendor_key min_rollback base erase_size s (err e) = (err e, s)
    begin_parsed header_bytes vendor_key min_rollback base erase_size s (ok h) =
        if ltb h.rollback min_rollback
        then (err firmware_error, s)
        else begin_keyed (session_of header_bytes vendor_key min_rollback base erase_size h) s
            (crypto.key_from_bytes vendor_key)

    pub begin : Bytes → Bytes → ℕ → ℕ → ℕ → S → Result CoreError UpdateSession × S
    unfolding begin_parsed
    begin header_bytes vendor_key min_rollback base erase_size s =
        if ltb 65 (length vendor_key) || erase_size == 0
        then (err firmware_error, s)
        else begin_parsed header_bytes vendor_key min_rollback base erase_size s
            (parse header_bytes)

    -- What each call of `write` leaves: its result, the session and the storage.
    abbrev pub Written : Type 0
    Written = Result CoreError (Unit {0}) × UpdateSession × S

    write_at : UpdateSession → ℕ → Result CoreError (Unit {0}) × S → Written
    write_at session stop (err e, s) = (err e, session, s)
    write_at session stop (ok done, s) = (ok tt, record session { received = stop }, s)

    pub write : UpdateSession → S → Bytes → Written
    unfolding write_at
    write session s chunk =
        let stop = session.received + length chunk % 2 ^ 32 in
        if ltb 0xffff_ffff stop
        then (err firmware_error, session, s)
        else if ltb session.header.image_len stop
        then (err firmware_error, session, s)
        else write_at session stop
            (device.write s ((session.base + session.received) % 2 ^ 32) chunk)

    -- The two hashers behind a chunk that is read.
    abbrev pub Hashers : Type 0
    Hashers = crypto.Hasher × crypto.Hasher

    abbrev pub both : Hashers → Bytes → Hashers
    both (image, signed) bytes = (crypto.update image bytes, crypto.update signed bytes)

    -- The loop of `finish`. Each round reads at least one byte, so that `image_len` rounds of fuel
    -- are enough.
    pub read_loop : ℕ → ℕ → ℕ → ℕ → Bytes → Hashers → S → Result CoreError Hashers × S
    read_loop zero base image_len offset buffer hashers s = (ok hashers, s)
    read_loop (suc fuel) base image_len offset buffer hashers s =
        let n = min (image_len - offset) (length buffer) in
        let (done, chunk, s') = device.read s ((base + offset) % 2 ^ 32) (take n buffer) in
        let rest =
          read_loop fuel base image_len (offset + n) (chunk ++ drop n buffer) (both hashers chunk)
            s' in
        if ltb offset image_len
        then elim done [ err e ↦ (err e, s') | ok _ ↦ rest ]
        else (ok hashers, s)

    finish_hashed :
        UpdateSession → Result CoreError Hashers × S → Result CoreError VerifiedImage × S
    unfolding check_image
    finish_hashed session (err e, s) = (err e, s)
    finish_hashed session (ok hashers, s) = (
      check_image session.header (crypto.finalize hashers.0) (crypto.finalize hashers.1)
          session.min_rollback session.key_sec1,
      s,
    )

    pub finish : UpdateSession → S → Result CoreError VerifiedImage × S
    unfolding finish_hashed read_loop
    finish session s =
        if not (session.received == session.header.image_len)
        then (err firmware_error, s)
        else finish_hashed session (
            read_loop session.header.image_len session.base session.header.image_len 0 (zeros 256)
              (crypto.new, crypto.update crypto.new session.prefix) s)
