-- ===== src/Core/ClientPin/Costs.antt =====
-- crates/aegis-core/src/pin.rs: what each operation costs: a wrong PIN costs one retry.
use aegis_token.Base.{
  ℕ, ◌+◌, ◌-◌, ◌≡◌, ◌≢◌, refl, Bool, true, false, ◌==◌, if◌then◌else◌, ◌⊎◌, inl, inr, Result, ok,
  err, ◌>>=◌, bind-ok, ok_or, Option, none, some, length, Bytes, arith,
}
use aegis_token.Core.Error.{CoreError}
use aegis_token.Core.ClientPin.{ClientPin, Ctap2Status}
use aegis_token.Core.ClientPin.Protocol.{
  Crypto, PinState, ClientPinRequest, default_retries, shows_pin, unpad_pin, aes_cbc_decrypt,
  aes_cbc_encrypt, hash_pin,
}
use aegis_token.Core.ClientPin.Operations.{
  TokenProof, ChangeProof, spent, spend, stored_pin, prove_token, prove_change, store_new, set_pin,
  prove_new, store_retries, store_hash, rotate, change_with, change_pin, Answer, issue, token_with,
  get_pin_token, or_other,
}

-- What an operation answers, `none` for a success.
abbrev pub failure_of {α} : {A : Type α} → Result Ctap2Status A → Option Ctap2Status
failure_of (err e) = some e
failure_of (ok value) = none

-- The wrong PINs in a request that has proven so much: one, if what it holds is not the start of the
-- stored hash.
abbrev pub wrong_token : Result Ctap2Status TokenProof → ℕ
wrong_token (err e) = 0
wrong_token (ok proof) = if shows_pin proof.plain proof.stored then 0 else 1

abbrev pub wrong_change : Result Ctap2Status ChangeProof → ℕ
wrong_change (err e) = 0
wrong_change (ok proof) = if shows_pin proof.plain proof.stored then 0 else 1

unblocked_value :
    (blocked : Bool) (value stored : Bytes)
    → (if blocked then err Ctap2Status.pin_blocked else ok value) ≡ ok stored
    → (blocked ≡ false) × (value ≡ stored)
unblocked_value true value stored e = cc
unblocked_value false value stored e = (refl, cc)

stored_cases :
    (hash : Option Bytes) (retries : ℕ) (value stored : Bytes)
    → ok_or hash Ctap2Status.pin_not_set ≡ ok value
    → (if retries == 0 then err Ctap2Status.pin_blocked else ok value) ≡ ok stored
    → (hash ≡ some stored) × (retries ≢ 0)
stored_cases none retries value stored first rest = cc
stored_cases (some hash) retries value stored first rest =
    let (unblocked, same) = unblocked_value (retries == 0) value stored rest in (cc, ground arith)

module _ {S : Type 0} (pins : PinState S) where
  -- The retries that a state is set to are the ones it has, and the PIN stays; both hold in memory
  -- where the state could not be written back, too.
  pub record IsLawful : Type 0 where
    pub retries_set : (st : S) (n : ℕ) → pins.pin_retries (pins.set_pin_retries st n).1 ≡ n
    pub hash_kept :
        (st : S) (n : ℕ) → pins.pin_hash (pins.set_pin_retries st n).1 ≡ pins.pin_hash st

  -- An answer to a request with so many wrong PINs costs the state as many retries and leaves the
  -- PIN, unless the operation succeeds or the storage fails.
  abbrev pub Costs : S → ℕ → Option Ctap2Status → S → Type 0
  Costs st wrong answer st' =
      (answer ≡ none)
      ⊎ (answer ≡ some Ctap2Status.other)
      ⊎ ((pins.pin_hash st' ≡ pins.pin_hash st)
          × (wrong + pins.pin_retries st' ≡ pins.pin_retries st))

  same-Costs : (st : S) (answer : Option Ctap2Status) → Costs st 0 answer st
  same-Costs st answer = inr (inr (refl, omega arith))

  module _ (crypto : Crypto) (lawful : IsLawful) where
    spent-Costs :
        (st st' : S) (done : Result CoreError (Unit {0}))
        → pins.pin_retries st ≢ 0
        → pins.pin_retries st' ≡ pins.pin_retries st - 1
        → pins.pin_hash st' ≡ pins.pin_hash st
        → Costs st 1 (some (spent (pins.pin_retries st - 1) done)) st'
    spent-Costs st st' (err e) nonzero r h = inr (inl refl)
    spent-Costs st st' (ok tt) nonzero r h = inr (inr (h, omega arith))

    spend-Costs :
        (st : S)
        → pins.pin_retries st ≢ 0
        → Costs st 1
            (some (spent (pins.pin_retries st - 1) (spend crypto pins st).0))
            (spend crypto pins st).1
    spend-Costs st nonzero =
        spent-Costs st (spend crypto pins st).1 (spend crypto pins st).0 nonzero
          (lawful.retries_set st (pins.pin_retries st - 1))
          (lawful.hash_kept st (pins.pin_retries st - 1))

    pub stored_pin-ok :
        (st : S) (stored : Bytes)
        → stored_pin crypto pins st ≡ ok stored
        → (pins.pin_hash st ≡ some stored) × (pins.pin_retries st ≢ 0)
    stored_pin-ok st stored e =
        let (value, first, rest) =
          bind-ok
            (λ stored. if pins.pin_retries st == 0 then err Ctap2Status.pin_blocked else ok stored)
            (ok_or (pins.pin_hash st) Ctap2Status.pin_not_set) e in
        stored_cases (pins.pin_hash st) (pins.pin_retries st) value stored first rest

    -- What a proof rests on: a PIN is set and not blocked.
    prove_token-ok :
        (c : ClientPin) (st : S) (request : ClientPinRequest) (proof : TokenProof)
        → prove_token crypto pins c st request ≡ ok proof
        → pins.pin_retries st ≢ 0
    unfolding prove_token
    prove_token-ok c st request proof e =
        let (stored, first, rest) = bind-ok _ (stored_pin crypto pins st) e in
        (stored_pin-ok st stored first).1

    prove_change-ok :
        (c : ClientPin) (st : S) (request : ClientPinRequest) (proof : ChangeProof)
        → prove_change crypto pins c st request ≡ ok proof
        → pins.pin_retries st ≢ 0
    unfolding prove_change
    prove_change-ok c st request proof e =
        let (stored, first, rest) = bind-ok _ (stored_pin crypto pins st) e in
        (stored_pin-ok st stored first).1

    encrypted :
        (secret token : Bytes)
        → length token ≡ 32
        → failure_of (aes_cbc_encrypt crypto secret token 48) ≡ none
    unfolding aes_cbc_encrypt
    encrypted secret token h = rw h refl

    if-Costs {β} :
        {B : Type β} (st : S) (test : Bool) (x y : Result Ctap2Status B × ClientPin × S)
        → Costs st 0 (failure_of x.0) x.2
        → Costs st 1 (failure_of y.0) y.2
        → Costs st
            (if test then 0 else 1)
            (failure_of (if test then x else y).0)
            (if test then x else y).2
    if-Costs st true x y h k = h
    if-Costs st false x y h k = k

    store_retries-Costs :
        (c : ClientPin) (st : S) (r : Result CoreError (Unit {0}) × S)
        → Costs st 0
            (failure_of (store_retries crypto pins c r).0)
            (store_retries crypto pins c r).2
    unfolding store_retries
    store_retries-Costs c st (err e, st') = inr (inl refl)
    store_retries-Costs c st (ok tt, st') = inl refl

    store_hash-Costs :
        (c : ClientPin) (st : S) (r : Result CoreError (Unit {0}) × S)
        → Costs st 0 (failure_of (store_hash crypto pins c r).0) (store_hash crypto pins c r).2
    unfolding store_hash
    store_hash-Costs c st (err e, st') = inr (inl refl)
    store_hash-Costs c st (ok tt, st') =
        store_retries-Costs c st (pins.set_pin_retries st' default_retries)

    rotate-Costs :
        (c : ClientPin) (st : S) (pin : Result Ctap2Status Bytes)
        → Costs st 0 (failure_of (rotate crypto pins c st pin).0) (rotate crypto pins c st pin).2
    unfolding rotate
    rotate-Costs c st (err e) = same-Costs st (some e)
    rotate-Costs c st (ok pin) = store_hash-Costs c st (pins.set_pin_hash st (hash_pin crypto pin))

    change_with-Costs :
        (c : ClientPin) (st : S) (proof : Result Ctap2Status ChangeProof)
        → ((p : ChangeProof) → proof ≡ ok p → pins.pin_retries st ≢ 0)
        → Costs st
            (wrong_change proof)
            (failure_of (change_with crypto pins c st proof).0)
            (change_with crypto pins c st proof).2
    unfolding change_with
    change_with-Costs c st (err e) unblocked = same-Costs st (some e)
    change_with-Costs c st (ok p) unblocked =
        if-Costs st (shows_pin p.plain p.stored) _ _
          (rotate-Costs c st (aes_cbc_decrypt crypto p.secret p.new_pin_enc 96 >>= unpad_pin))
          (spend-Costs st (unblocked p refl))

    pub change_pin-Costs :
        (c : ClientPin) (st : S) (request : ClientPinRequest)
        → Costs st
            (wrong_change (prove_change crypto pins c st request))
            (failure_of (change_pin crypto pins c st request).0)
            (change_pin crypto pins c st request).2
    unfolding change_pin
    change_pin-Costs c st request =
        change_with-Costs c st (prove_change crypto pins c st request)
          (λ p e. prove_change-ok c st request p e)

    or_other-Costs :
        (st st' : S) (r : Result CoreError (Unit {0})) → Costs st 0 (failure_of (or_other r)) st'
    or_other-Costs st st' (err e) = inr (inl refl)
    or_other-Costs st st' (ok tt) = inl refl

    store_new-Costs :
        (st : S) (pin : Result Ctap2Status Bytes)
        → Costs st 0 (failure_of (store_new crypto pins st pin).0) (store_new crypto pins st pin).1
    unfolding store_new
    store_new-Costs st (err e) = same-Costs st (some e)
    store_new-Costs st (ok pin) =
        or_other-Costs st (pins.set_pin_hash st (hash_pin crypto pin)).1
          (pins.set_pin_hash st (hash_pin crypto pin)).0

    pub set_pin-Costs :
        (c : ClientPin) (st : S) (request : ClientPinRequest)
        → Costs st 0
            (failure_of (set_pin crypto pins c st request).0)
            (set_pin crypto pins c st request).1
    unfolding set_pin
    set_pin-Costs c st request = store_new-Costs st (prove_new crypto pins c st request)

    module _ {R : Type 0} (fill_bytes : R → ℕ → Bytes × R)
        (fills : (rng : R) (n : ℕ) → length (fill_bytes rng n).0 ≡ n) where
      issue-Costs :
          (c : ClientPin) (st : S) (request : ClientPinRequest) (proof : TokenProof) (rng : R)
          (r : Result CoreError (Unit {0}) × S)
          → Costs st 0
              (failure_of (issue crypto pins fill_bytes c request proof rng r).0)
              (issue crypto pins fill_bytes c request proof rng r).2
      unfolding issue
      issue-Costs c st request proof rng (err e, st') = inr (inl refl)
      issue-Costs c st request proof rng (ok tt, st') =
          inl (encrypted proof.secret (fill_bytes rng 32).0 (fills rng 32))

      if_answer-Costs :
          (st : S) (test : Bool) (x y : Answer crypto pins fill_bytes)
          → Costs st 0 (failure_of x.0) x.2
          → Costs st 1 (failure_of y.0) y.2
          → Costs st
              (if test then 0 else 1)
              (failure_of (if test then x else y).0)
              (if test then x else y).2
      if_answer-Costs st true x y h k = h
      if_answer-Costs st false x y h k = k

      token_with-Costs :
          (c : ClientPin) (st : S) (request : ClientPinRequest) (rng : R)
          (proof : Result Ctap2Status TokenProof)
          → ((p : TokenProof) → proof ≡ ok p → pins.pin_retries st ≢ 0)
          → Costs st
              (wrong_token proof)
              (failure_of (token_with crypto pins fill_bytes c st request rng proof).0)
              (token_with crypto pins fill_bytes c st request rng proof).2
      unfolding token_with
      token_with-Costs c st request rng (err e) unblocked = same-Costs st (some e)
      token_with-Costs c st request rng (ok p) unblocked =
          if_answer-Costs st (shows_pin p.plain p.stored) _ _
            (issue-Costs c st request p rng (pins.set_pin_retries st default_retries))
            (spend-Costs st (unblocked p refl))

      pub get_pin_token-Costs :
          (c : ClientPin) (st : S) (request : ClientPinRequest) (rng : R)
          → Costs st
              (wrong_token (prove_token crypto pins c st request))
              (failure_of (get_pin_token crypto pins fill_bytes c st request rng).0)
              (get_pin_token crypto pins fill_bytes c st request rng).2
      unfolding get_pin_token
      get_pin_token-Costs c st request rng =
          token_with-Costs c st request rng (prove_token crypto pins c st request)
            (λ p e. prove_token-ok c st request p e)
