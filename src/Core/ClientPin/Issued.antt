-- ===== src/Core/ClientPin/Issued.antt =====
-- crates/aegis-core/src/pin.rs: what a token that is issued has proven.
use aegis_token.Base.{
  ℕ, ◌-◌, ◌%◌, ◌||◌, not, ltb, ◌≡◌, ◌≢◌, refl, sym, ap, ◌∙◌, Bool, true, false, Result, ok, err,
  bind-ok, guard, ok_or, Option, none, some, length, take, Bytes, if◌then◌else◌, ◌==◌,
}
use aegis_token.Core.Error.{CoreError}
use aegis_token.Core.ClientPin.{ClientPin, Ctap2Status, ct_eq_prefix}
use aegis_token.Core.ClientPin.Protocol.{
  Crypto, default_retries, PinState, ClientPinRequest, requested_permissions, shows_pin, shared,
  opened, aes_cbc_decrypt,
}
use aegis_token.Core.ClientPin.Operations.{
  get_pin_token, token_with, issue, TokenProof, prove_token, stored_pin, spent, spend, Answer,
}
use aegis_token.Core.ClientPin.Compare.{shows_pin→eq}
use aegis_token.Core.ClientPin.Costs.{IsLawful, stored_pin-ok}

guarded-ok :
    (refused : Bool) (e : Ctap2Status) (x y : Bytes)
    → (if refused then err e else ok x) ≡ ok y
    → x ≡ y
guarded-ok true e x y h = cc
guarded-ok false e x y h = cc

pub proof-ok : (p q : TokenProof) (r : Result Ctap2Status TokenProof) → r ≡ ok p → r ≡ ok q → p ≡ q
proof-ok p q r h k = cc

module _ (crypto : Crypto) {S : Type 0} (pins : PinState S) (lawful : IsLawful pins) where
  -- The request holds, encrypted under the secret shared with the platform, the first 16 bytes of the
  -- hash of the PIN that is stored.
  abbrev pub ShowsPin : ClientPin → S → ClientPinRequest → Type 0
  ShowsPin c st request =
      (stored : Bytes) × (secret : Bytes) × (enc : Bytes) × (pins.pin_hash st ≡ some stored)
      × (shared crypto c request ≡ ok secret)
      × (request.pin_hash_enc ≡ some enc)
      × (take 16 (crypto.cbc_decrypt secret (take 16 secret) enc) ≡ take 16 stored)

  ok_or-some {α} :
      {A : Type α} (o : Option A) (e : Ctap2Status) (value : A)
      → ok_or o e ≡ ok value
      → o ≡ some value
  ok_or-some none e value h = cc
  ok_or-some (some x) e value h = cc

  decrypt-ok :
      (secret enc plain : Bytes) (room : ℕ)
      → aes_cbc_decrypt crypto secret enc room ≡ ok plain
      → crypto.cbc_decrypt secret (take 16 secret) enc ≡ plain
  unfolding aes_cbc_decrypt
  decrypt-ok secret enc plain room h =
      guarded-ok (length enc == 0 || not (length enc % 16 == 0) || ltb room (length enc))
        Ctap2Status.invalid_length (crypto.cbc_decrypt secret (take 16 secret) enc) plain h

  opened-ok :
      (secret message enc plain : Bytes) (param : Option Bytes) (room : ℕ)
      → opened crypto secret message enc param room ≡ ok plain
      → crypto.cbc_decrypt secret (take 16 secret) enc ≡ plain
  unfolding opened
  opened-ok secret message enc plain param room h =
      let (auth, first, rest) = bind-ok _ (ok_or param Ctap2Status.missing_parameter) h in
      let (done, tested, decrypted) =
        bind-ok _
          (guard (ct_eq_prefix (crypto.hmac secret message) auth) Ctap2Status.pin_auth_invalid)
          rest in
      decrypt-ok secret enc plain room decrypted

  prove_token-ShowsPin :
      (c : ClientPin) (st : S) (request : ClientPinRequest) (proof : TokenProof)
      → prove_token crypto pins c st request ≡ ok proof
      → shows_pin proof.plain proof.stored ≡ true
      → ShowsPin c st request
        × (pins.pin_retries st ≢ 0)
        × (requested_permissions request ≡ ok proof.permissions)
  unfolding prove_token
  prove_token-ShowsPin c st request proof h shown =
      let (stored, first, h1) = bind-ok _ (stored_pin crypto pins st) h in
      let (permissions, asked, h2) = bind-ok _ (requested_permissions request) h1 in
      let (secret, agreed, h3) = bind-ok _ (shared crypto c request) h2 in
      let (enc, sent, h4) =
        bind-ok _ (ok_or request.pin_hash_enc Ctap2Status.missing_parameter) h3 in
      let (plain, authentic, same) =
        bind-ok _ (opened crypto secret enc enc request.pin_uv_auth_param 32) h4 in
      let fields =
        proof-ok
          (record { stored = stored; permissions = permissions; secret = secret; plain = plain })
          proof _ refl same in
      let is_plain = ap (λ (p : TokenProof). p.plain) fields in
      let is_stored = ap (λ (p : TokenProof). p.stored) fields in
      let (has_pin, unblocked) = stored_pin-ok pins crypto lawful st stored first in
      (
        (
          proof.stored,
          secret,
          enc,
          has_pin ∙ ap some is_stored,
          agreed,
          ok_or-some request.pin_hash_enc Ctap2Status.missing_parameter enc sent,
          ap (take 16)
                (opened-ok secret enc enc plain request.pin_uv_auth_param 32 authentic ∙ is_plain)
              ∙ (shows_pin→eq proof.plain proof.stored shown).1,
        ),
        unblocked,
        asked ∙ ap ok (ap (λ (p : TokenProof). p.permissions) fields),
      )

  module _ {R : Type 0} (fill_bytes : R → ℕ → Bytes × R) where
    issue-Issued :
        (c : ClientPin) (request : ClientPinRequest) (proof : TokenProof) (rng : R)
        (r : Result CoreError (Unit {0}) × S) (token : Bytes)
        → (issue crypto pins fill_bytes c request proof rng r).0 ≡ ok token
        → (issue crypto pins fill_bytes c request proof rng r).1 ≡ record c {
          pin_uv_auth_token = some (fill_bytes rng 32).0;
          pin_uv_auth_permissions = proof.permissions;
          pin_uv_auth_rp_id = request.rp_id;
        }
    unfolding issue
    issue-Issued c request proof rng (err e, st) token h = cc
    issue-Issued c request proof rng (ok tt, st) token h = refl

    -- The handler after a token was issued to the request.
    abbrev pub Issued : ClientPin → S → ClientPinRequest → R → ClientPin → Type 0
    Issued c st request rng c' =
        ShowsPin c st request
        × (pins.pin_retries st ≢ 0)
        × (requested_permissions request ≡ ok c'.pin_uv_auth_permissions)
        × (c'.pin_uv_auth_rp_id ≡ request.rp_id)
        × (c'.pin_uv_auth_token ≡ some (fill_bytes rng 32).0)

    proven-Issued :
        (c : ClientPin) (st : S) (request : ClientPinRequest) (rng : R) (proof : TokenProof)
        (r : Result CoreError (Unit {0}) × S) (token : Bytes)
        → prove_token crypto pins c st request ≡ ok proof
        → shows_pin proof.plain proof.stored ≡ true
        → (issue crypto pins fill_bytes c request proof rng r).0 ≡ ok token
        → Issued c st request rng (issue crypto pins fill_bytes c request proof rng r).1
    proven-Issued c st request rng proof r token p shown h =
        let (shows, unblocked, asked) = prove_token-ShowsPin c st request proof p shown in
        let is = issue-Issued c request proof rng r token h in
        (
          shows,
          unblocked,
          asked ∙ ap ok (sym (ap (λ (d : ClientPin). d.pin_uv_auth_permissions) is)),
          ap (λ (d : ClientPin). d.pin_uv_auth_rp_id) is,
          ap (λ (d : ClientPin). d.pin_uv_auth_token) is,
        )

    shown_cases :
        (c : ClientPin) (st : S) (request : ClientPinRequest) (rng : R) (proof : TokenProof)
        (token : Bytes) (wrong : Answer crypto pins fill_bytes) (e : Ctap2Status)
        (r : Result CoreError (Unit {0}) × S) (shown : Bool)
        → wrong.0 ≡ err e
        → prove_token crypto pins c st request ≡ ok proof
        → shows_pin proof.plain proof.stored ≡ shown
        → (if shown then issue crypto pins fill_bytes c request proof rng r else wrong).0 ≡ ok token
        → Issued c st request rng
            (if shown then issue crypto pins fill_bytes c request proof rng r else wrong).1
    shown_cases c st request rng proof token wrong e r true w p s h =
        proven-Issued c st request rng proof r token p s h
    shown_cases c st request rng proof token wrong e r false w p s h = cc

    token_with-Issued :
        (c : ClientPin) (st : S) (request : ClientPinRequest) (rng : R)
        (proof : Result Ctap2Status TokenProof) (token : Bytes)
        → prove_token crypto pins c st request ≡ proof
        → (token_with crypto pins fill_bytes c st request rng proof).0 ≡ ok token
        → Issued c st request rng (token_with crypto pins fill_bytes c st request rng proof).1
    unfolding token_with
    token_with-Issued c st request rng (err e) token p h = cc
    token_with-Issued c st request rng (ok proof) token p h =
        shown_cases c st request rng proof token
          (
            err (spent (pins.pin_retries st - 1) (spend crypto pins st).0),
            c,
            (spend crypto pins st).1,
            rng,
          )
          (spent (pins.pin_retries st - 1) (spend crypto pins st).0)
          (pins.set_pin_retries st default_retries) (shows_pin proof.plain proof.stored) refl p refl
          h

    -- A token is issued only where a PIN is set that is not blocked, to a request that shows it: its
    -- pinHashEnc decrypts, under the secret shared with the platform, to bytes that begin with the
    -- first 16 of the stored hash. The token is the generator's next 32 bytes, and it carries the
    -- permissions that the request may ask for, and the relying party of the request.
    pub get_pin_token-Issued :
        (c : ClientPin) (st : S) (request : ClientPinRequest) (rng : R) (token : Bytes)
        → (get_pin_token crypto pins fill_bytes c st request rng).0 ≡ ok token
        → Issued c st request rng (get_pin_token crypto pins fill_bytes c st request rng).1
    unfolding get_pin_token
    get_pin_token-Issued c st request rng token h =
        token_with-Issued c st request rng (prove_token crypto pins c st request) token refl h
