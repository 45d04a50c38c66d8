-- ===== src/Core/Update/Complete.antt =====
-- crates/aegis-core/src/update.rs: a whole update, from the header through its chunks to `finish`.
use aegis_token.Base.{
  ℕ, ◌+◌, ◌-◌, ◌*◌, ◌/◌, ◌^◌, ◌≤◌, ◌<◌, ◌≡◌, refl, sym, ap, ◌∙◌, false, Bool-cases, inl, inr, ltb,
  ◌==◌, ◌||◌, Result, ok, err, Option, none, some, List, [], ◌∷◌, ◌++◌, append_assoc, append-nil,
  All, Bytes, length, arith,
}
use aegis_token.Core.Error.{CoreError, firmware_error}
use aegis_token.Core.Storage.{Storage}
use aegis_token.Core.Storage.Device.{IsLawful, region, Done, outcome, refused}
use aegis_token.Core.Update.{
  Crypto, PackageHeader, UpdateSession, parse, begin, begin_parsed, begin_keyed, begin_erased,
  session_of, write, finish, verify_package, header_len, erase_len, Written,
}
use aegis_token.Core.Update.Package.{IsStreaming}
use aegis_token.Core.Update.Staging.{IsSession, staged, finish-eq-verify_package}
use aegis_token.Core.Update.Session.{IsStaged, IsPlaced, SameUpdate, write-Staged, covers}

pub concat : List Bytes → Bytes
concat [] = []
concat (c ∷ cs) = c ++ concat cs

usable : (n erase_size : ℕ) → (ltb 65 n || erase_size == 0) ≡ false → 0 < erase_size
usable n erase_size good = ground arith

abbrev pub IsShort : Bytes → Type 0
IsShort chunk = length chunk < 2 ^ 32

then_same : (u u' u'' : UpdateSession) → SameUpdate u u' → SameUpdate u' u'' → SameUpdate u u''
then_same u u' u'' (h, p, k, m, b) (h', p', k', m', b') = (h' ∙ h, p' ∙ p, k' ∙ k, m' ∙ m, b' ∙ b)

module _ (crypto : Crypto) {S : Type 0} (device : Storage S) where
  -- The chunks of an image, up to the first error.
  unfoldable pub write_all : UpdateSession → S → List Bytes → Written crypto device
  write_all u s [] = (ok tt, u, s)
  write_all u s (chunk ∷ chunks) =
      let (r, u', s') = write crypto device u s chunk in
      elim r [ err e ↦ (err e, u', s') | ok done ↦ write_all u' s' chunks ]

module _ (crypto : Crypto) {S : Type 0} (device : Storage S) (contents : S → ℕ → ℕ) (capacity : ℕ)
    (lawful : IsLawful device contents capacity) where
  first-Done :
      (u : UpdateSession) (s : S) (chunk : Bytes) (chunks : List Bytes)
      → (write_all crypto device u s (chunk ∷ chunks)).0 ≡ ok tt
      → let (r, u', s') = write crypto device u s chunk in
        Done r
        × (write_all crypto device u s (chunk ∷ chunks) ≡ write_all crypto device u' s' chunks)
  unfolding write_all
  first-Done u s chunk chunks h = elim (outcome (write crypto device u s chunk).0) [
    | inl (e, r) ↦ absurd (refused _ e tt (rw (r, write_all) refl) h)
    | inr r ↦ (r, rw (r, write_all) refl)
  ]

  write_all-Staged :
      (u : UpdateSession) (s : S) (bytes : Bytes) (chunks : List Bytes)
      → IsPlaced u
      → All IsShort chunks
      → IsStaged contents u s bytes
      → (write_all crypto device u s chunks).0 ≡ ok tt
      → let (r, u', s') = write_all crypto device u s chunks in
        IsStaged contents u' s' (bytes ++ concat chunks) × SameUpdate u u'
  unfolding concat write_all
  write_all-Staged u s bytes [] placed short st h =
      (rw append-nil st, (refl, refl, refl, refl, refl))
  write_all-Staged u s bytes (chunk ∷ chunks) placed (one, more) st h =
      let (r, run) = first-Done u s chunk chunks h in
      let (result, u', s') = write crypto device u s chunk in
      let (st', same) =
        write-Staged crypto device contents capacity lawful u s bytes chunk placed one st r in
      let placed' : IsPlaced u' = rw (same.0, same.4) placed in
      let (all, same') =
        write_all-Staged u' s' (bytes ++ chunk) chunks placed' more st'
          (ap (λ x. x.0) (sym run) ∙ h) in
      rw run (
        rw (sym (append_assoc bytes chunk (concat chunks))) all,
        then_same u u' (write_all crypto device u' s' chunks).1 same same',
      )

  module _ (u : UpdateSession) where
    -- If the call succeeds, it returns that session and has erased its region.
    abbrev Begins : UpdateSession → S → Result CoreError UpdateSession × S → Type 0
    Begins session s (r, s') =
        let (done, erased) =
          device.erase s session.base (erase_len session.header.image_len session.erase_size) in
        r ≡ ok u → (u ≡ session) × Done done × (s' ≡ erased)

    begin_erased-Begins :
        (session : UpdateSession) (r : Result CoreError (Unit {0})) (s' : S)
        → (begin_erased crypto device session (r, s')).0 ≡ ok u
        → (u ≡ session) × Done r × ((begin_erased crypto device session (r, s')).1 ≡ s')
    unfolding begin_erased
    begin_erased-Begins session (err e) s' h = cc
    begin_erased-Begins session (ok tt) s' h = (cc, refl, refl)

    begin_keyed-Begins :
        (session : UpdateSession) (s : S) (key : Option crypto.Key)
        → Begins session s (begin_keyed crypto device session s key)
    unfolding begin_keyed
    begin_keyed-Begins session s none = λ h. cc
    begin_keyed-Begins session s (some key) = λ h. begin_erased-Begins session _ _ h

    module _ (header key : Bytes) (min_rollback base erase_size : ℕ) (s : S) where
      abbrev fresh : PackageHeader → UpdateSession
      fresh = session_of crypto device header key min_rollback base erase_size

      begin_parsed-Begins :
          (parsed : Result CoreError PackageHeader)
          → (begin_parsed crypto device header key min_rollback base erase_size s parsed).0 ≡ ok u
          → (h : PackageHeader) × (parsed ≡ ok h)
            × Begins
                (fresh h)
                s
                (begin_parsed crypto device header key min_rollback base erase_size s parsed)
      unfolding begin_parsed
      begin_parsed-Begins (err e) success = cc
      begin_parsed-Begins (ok h) success = (
        h,
        refl,
        elim (Bool-cases (ltb h.rollback min_rollback)) [
          | inl low ↦ rw low (λ failure. cc)
          | inr high ↦ rw high (begin_keyed-Begins (fresh h) s (crypto.key_from_bytes key))
        ],
      )

      -- A `begin` that succeeds.
      begin_lem :
          (begin crypto device header key min_rollback base erase_size s).0 ≡ ok u
          → (h : PackageHeader) × (parse header ≡ ok h)
            × (u ≡ fresh h)
            × (0 < erase_size)
            × (let (done, erased) = device.erase s base (erase_len h.image_len erase_size) in
                Done done
                × ((begin crypto device header key min_rollback base erase_size s).1 ≡ erased))
      unfolding begin
      begin_lem success = elim (Bool-cases (ltb 65 (length key) || erase_size == 0)) [
        | inl bad ↦ absurd (refused _ firmware_error u (rw bad refl) success)
        | inr good ↦
            let run : begin crypto device header key min_rollback base erase_size s
                ≡ begin_parsed crypto device header key min_rollback base erase_size s
                    (parse header) =
              rw good refl in
            let success' = ap (λ x. x.0) (sym run) ∙ success in
            let (h, parsed, begins) = begin_parsed-Begins (parse header) success' in
            let (same, done, erased) = begins success' in
            (
              h,
              parsed,
              same,
              usable (length key) erase_size good,
              (done, ap (λ x. x.1) run ∙ erased),
            )
      ]

module _ (crypto : Crypto) {S : Type 0} (device : Storage S) (contents : S → ℕ → ℕ) (capacity : ℕ)
    (lawful : IsLawful device contents capacity) (header key : Bytes)
    (min_rollback base erase_size : ℕ) (s : S) (u : UpdateSession) where
  abbrev begun : S
  begun = (begin crypto device header key min_rollback base erase_size s).1

  -- After `begin` nothing is received, and the region of the image is erased.
  begin-Staged :
      capacity ≤ 2 ^ 32
      → (begin crypto device header key min_rollback base erase_size s).0 ≡ ok u
      → base + (u.header.image_len + erase_size - 1) / erase_size * erase_size < capacity
      → IsStaged contents u begun [] × IsPlaced u × (u.base + u.header.image_len ≤ capacity)
  unfolding region
  begin-Staged small success room =
      let (h, parsed, same, pos, (done, erased)) =
        begin_lem crypto device contents capacity lawful u header key min_rollback base erase_size s
          success in
      let len : u.header.image_len ≡ h.image_len = ap (λ x. x.header.image_len) same in
      let b : u.base ≡ base = ap (λ x. x.base) same in
      let r : u.received ≡ 0 = ap (λ x. x.received) same in
      let c = covers u.header.image_len erase_size pos (omega arith) in
      let c' : h.image_len ≤ erase_len h.image_len erase_size = rw (sym len) c in
      (
        record {
          counted = r;
          bounded = omega arith;
          there = rw r refl;
          erased = λ a within. rw erased (
              lawful.erases s base (erase_len h.image_len erase_size) a
                (omega (arith, within.0), omega (arith, within.1)) done);
        },
        omega arith,
        omega arith,
      )

-- A whole update does what the verification of the package does: where `begin` succeeds on a header
-- of 115 bytes, the chunks are written without an error and make up the length that the header
-- announces, `finish` returns what `verify_package` returns for the header followed by the chunks.
-- The region, in whole erase units, lies below 2 ^ 32 and inside the storage.
pub update-eq-verify_package :
    (crypto : Crypto) {S : Type 0} (device : Storage S) (contents : S → ℕ → ℕ) (capacity : ℕ)
    (header key : Bytes) (min_rollback base erase_size : ℕ) (s : S) (chunks : List Bytes)
    (u : UpdateSession)
    → IsStreaming crypto
    → IsLawful device contents capacity
    → capacity ≤ 2 ^ 32
    → length header ≡ header_len
    → All IsShort chunks
    → (begin crypto device header key min_rollback base erase_size s).0 ≡ ok u
    → base + (u.header.image_len + erase_size - 1) / erase_size * erase_size < capacity
    → let s1 = (begin crypto device header key min_rollback base erase_size s).1 in
      let (r, u', s2) = write_all crypto device u s1 chunks in
      Done r
      → u'.received ≡ u.header.image_len
      → (finish crypto device u' s2).0
        ≡ verify_package crypto (header ++ concat chunks) key min_rollback
update-eq-verify_package crypto device contents capacity header key min_rollback base erase_size s
      chunks u streaming lawful small whole short success room written full =
    let (st, placed, inside) =
      begin-Staged crypto device contents capacity lawful header key min_rollback base erase_size s
        u small success room in
    let (h, parsed, same, pos, _) =
      begin_lem crypto device contents capacity lawful u header key min_rollback base erase_size s
        success in
    let s1 = (begin crypto device header key min_rollback base erase_size s).1 in
    let (r, u', s2) = write_all crypto device u s1 chunks in
    let (st', (eh, ep, ek, em, eb)) =
      write_all-Staged crypto device contents capacity lawful u s1 [] chunks placed short st
        written in
    let eq_h : u'.header ≡ h = eh ∙ ap (λ x. x.header) same in
    let session : IsSession crypto streaming device contents capacity lawful header key min_rollback
        u' =
      record {
        whole = whole;
        parsed = parsed ∙ ap ok (sym eq_h);
        prefixed = ep ∙ ap (λ x. x.prefix) same;
        keyed = ek ∙ ap (λ x. x.key_sec1) same;
        floored = em ∙ ap (λ x. x.min_rollback) same;
        inside = rw (eb, eh) inside;
      } in
    let full' : u'.received ≡ u'.header.image_len = full ∙ ap (λ x. x.image_len) (sym eh) in
    let image : staged crypto streaming device contents capacity lawful u' s2 ≡ concat chunks =
      ap (region (contents s2) u'.base) (sym full') ∙ st'.there in
    finish-eq-verify_package crypto streaming device contents capacity lawful header key
      min_rollback u' s2 session small full'
    ∙ ap (λ x. verify_package crypto (header ++ x) key min_rollback) image
