-- ===== src/Core/ClientPin/Operations.antt =====
-- crates/aegis-core/src/pin.rs: set_pin, get_pin_token and change_pin, over a state of the trait
-- PinState and a generator. Each returns its result, the handler and the state after it.
use aegis_token.Base.{
  ℕ, zero, suc, ◌+◌, ◌-◌, not, ◌==◌, leb, if◌then◌else◌, Result, ok, err, guard, ◌>>=◌, ◌>>◌, ok_or,
  Option, none, some, is_some, ◌++◌, length, Bytes,
}
use aegis_token.Core.Error.{CoreError}
use aegis_token.Core.ClientPin.{ClientPin, Ctap2Status, Check, invalidate_token}
use aegis_token.Core.ClientPin.Protocol.{
  Crypto, PinState, Ec2KeyAgreement, ClientPinRequest, default_retries, requested_permissions,
  unpad_pin, shows_pin, hash_pin, aes_cbc_encrypt, aes_cbc_decrypt, shared, opened,
}

-- What a token request has proven before anything changes.
pub record TokenProof : Type 0 where
  pub stored : Bytes
  pub permissions : ℕ
  pub secret : Bytes
  pub plain : Bytes

pub record ChangeProof : Type 0 where
  pub stored : Bytes
  pub secret : Bytes
  pub new_pin_enc : Bytes
  pub plain : Bytes

-- `map_err(|_| Ctap2Status::Other)`
abbrev pub or_other : Result CoreError (Unit {0}) → Check
or_other (ok done) = ok tt
or_other (err e) = err Ctap2Status.other

-- The storage's answer to a spent retry, as a status.
abbrev pub spent : ℕ → Result CoreError (Unit {0}) → Ctap2Status
spent retries (err e) = Ctap2Status.other
spent retries (ok done) = if retries == 0 then Ctap2Status.pin_blocked else Ctap2Status.pin_invalid

-- The state of the platform's key agreement after a wrong PIN in `change_pin`.
abbrev pub renegotiate : Result CoreError (Unit {0}) → ClientPin → ClientPin
renegotiate (err e) c = c
renegotiate (ok done) c = invalidate_token (record c { agreement_private = none })

module _ (crypto : Crypto) {S : Type 0} (pins : PinState S) where
  -- One retry less.
  abbrev pub spend : S → Result CoreError (Unit {0}) × S
  spend st = pins.set_pin_retries st (pins.pin_retries st - 1)

  abbrev pub stored_pin : S → Result Ctap2Status Bytes
  stored_pin st = ok_or (pins.pin_hash st) Ctap2Status.pin_not_set >>= λ stored.
      if pins.pin_retries st == 0 then err Ctap2Status.pin_blocked else ok stored

  unfoldable pub prove_token : ClientPin → S → ClientPinRequest → Result Ctap2Status TokenProof
  unfolding requested_permissions shared opened
  prove_token c st request = stored_pin st >>= λ stored.
      requested_permissions request >>= λ permissions. shared crypto c request >>= λ secret.
      ok_or request.pin_hash_enc Ctap2Status.missing_parameter >>= λ enc.
      opened crypto secret enc enc request.pin_uv_auth_param 32 >>= λ plain.
      ok (record { stored = stored; permissions = permissions; secret = secret; plain = plain })

  unfoldable pub prove_change : ClientPin → S → ClientPinRequest → Result Ctap2Status ChangeProof
  unfolding shared opened
  prove_change c st request = stored_pin st >>= λ stored. shared crypto c request >>= λ secret.
      ok_or request.new_pin_enc Ctap2Status.missing_parameter >>= λ new_pin_enc.
      ok_or request.pin_hash_enc Ctap2Status.missing_parameter >>= λ enc.
      ok_or request.pin_uv_auth_param Ctap2Status.missing_parameter >>= λ auth.
      guard (leb (length new_pin_enc + length enc) 128) Ctap2Status.invalid_parameter
      >> (opened crypto secret (new_pin_enc ++ enc) enc (some auth) 32 >>= λ plain.
          ok
            (record { stored = stored; secret = secret; new_pin_enc = new_pin_enc; plain = plain }))

  -- The payload of `set_pin`: the first PIN.
  pub prove_new : ClientPin → S → ClientPinRequest → Result Ctap2Status Bytes
  unfolding shared opened unpad_pin
  prove_new c st request =
      guard (not (is_some (pins.pin_hash st))) Ctap2Status.pin_auth_invalid
      >> (shared crypto c request >>= λ secret.
          ok_or request.new_pin_enc Ctap2Status.missing_parameter >>= λ new_pin_enc.
          opened crypto secret new_pin_enc new_pin_enc request.pin_uv_auth_param 96 >>= unpad_pin)

  -- `set_pin`, with what the payload holds.
  unfoldable pub store_new : S → Result Ctap2Status Bytes → Check × S
  unfolding hash_pin
  store_new st (err e) = (err e, st)
  store_new st (ok pin) =
      let (done, st') = pins.set_pin_hash st (hash_pin crypto pin) in (or_other done, st')

  unfoldable pub set_pin : ClientPin → S → ClientPinRequest → Check × S
  unfolding prove_new store_new
  set_pin c st request = store_new st (prove_new c st request)

  -- `change_pin`, with the new PIN that the payload holds.
  unfoldable pub store_retries : ClientPin → Result CoreError (Unit {0}) × S → Check × ClientPin × S
  store_retries c (err e, st) = (err Ctap2Status.other, c, st)
  store_retries c (ok done, st) = (ok tt, invalidate_token c, st)

  unfoldable pub store_hash : ClientPin → Result CoreError (Unit {0}) × S → Check × ClientPin × S
  unfolding store_retries
  store_hash c (err e, st) = (err Ctap2Status.other, c, st)
  store_hash c (ok done, st) = store_retries c (pins.set_pin_retries st default_retries)

  unfoldable pub rotate : ClientPin → S → Result Ctap2Status Bytes → Check × ClientPin × S
  unfolding store_hash hash_pin
  rotate c st (err e) = (err e, c, st)
  rotate c st (ok pin) = store_hash c (pins.set_pin_hash st (hash_pin crypto pin))

  unfoldable pub change_with :
      ClientPin → S → Result Ctap2Status ChangeProof → Check × ClientPin × S
  unfolding rotate shows_pin unpad_pin aes_cbc_decrypt
  change_with c st (err e) = (err e, c, st)
  change_with c st (ok proof) =
      if shows_pin proof.plain proof.stored
      then rotate c st (aes_cbc_decrypt crypto proof.secret proof.new_pin_enc 96 >>= unpad_pin)
      else (
        err (spent (pins.pin_retries st - 1) (spend st).0),
        renegotiate (spend st).0 c,
        (spend st).1,
      )

  unfoldable pub change_pin : ClientPin → S → ClientPinRequest → Check × ClientPin × S
  unfolding change_with prove_change
  change_pin c st request = change_with c st (prove_change c st request)

  module _ {R : Type 0} (fill_bytes : R → ℕ → Bytes × R) where
    -- A token request's answer: the encrypted token, the handler, the state and the generator.
    abbrev pub Answer : Type 0
    Answer = Result Ctap2Status Bytes × ClientPin × S × R

    -- The token is issued once the retries are restored.
    unfoldable pub issue :
        ClientPin → ClientPinRequest → TokenProof → R → Result CoreError (Unit {0}) × S → Answer
    unfolding aes_cbc_encrypt
    issue c request proof rng (err e, st) = (err Ctap2Status.other, c, st, rng)
    issue c request proof rng (ok done, st) =
        let (token, rng') = fill_bytes rng 32 in
        (
          aes_cbc_encrypt crypto proof.secret token 48,
          record c {
            pin_uv_auth_token = some token;
            pin_uv_auth_permissions = proof.permissions;
            pin_uv_auth_rp_id = request.rp_id;
          },
          st,
          rng',
        )

    unfoldable pub token_with :
        ClientPin → S → ClientPinRequest → R → Result Ctap2Status TokenProof → Answer
    unfolding issue shows_pin
    token_with c st request rng (err e) = (err e, c, st, rng)
    token_with c st request rng (ok proof) =
        if shows_pin proof.plain proof.stored
        then issue c request proof rng (pins.set_pin_retries st default_retries)
        else (err (spent (pins.pin_retries st - 1) (spend st).0), c, (spend st).1, rng)

    unfoldable pub get_pin_token : ClientPin → S → ClientPinRequest → R → Answer
    unfolding token_with prove_token
    get_pin_token c st request rng = token_with c st request rng (prove_token c st request)

    -- The rounds of `generate_secret_key`: bytes are drawn until they are a key.
    pub generate_secret_key : ℕ → R → Result Ctap2Status Bytes × R
    generate_secret_key zero rng = (err Ctap2Status.other, rng)
    generate_secret_key (suc rounds) rng =
        let (bytes, rng') = fill_bytes rng 32 in
        let rest = generate_secret_key rounds rng' in
        if crypto.is_secret_key bytes then (ok bytes, rng') else rest

    -- `key_agreement`, with the point of the key that was drawn.
    pub agree_on :
        ClientPin → Bytes → Option Ec2KeyAgreement → Result Ctap2Status Ec2KeyAgreement × ClientPin
    agree_on c secret none = (err Ctap2Status.other, c)
    agree_on c secret (some point) = (ok point, record c { agreement_private = some secret })

    pub agree_with :
        ClientPin → Result Ctap2Status Bytes → Result Ctap2Status Ec2KeyAgreement × ClientPin
    unfolding agree_on
    agree_with c (err e) = (err e, c)
    agree_with c (ok secret) = agree_on c secret (crypto.public_point secret)

    pub key_agreement : ClientPin → R → Result Ctap2Status Ec2KeyAgreement × ClientPin × R
    unfolding agree_with generate_secret_key
    key_agreement c rng =
        let (key, rng') = generate_secret_key 16 rng in
        let (answer, c') = agree_with c key in (answer, c', rng')
