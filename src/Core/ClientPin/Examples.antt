-- ===== src/Core/ClientPin/Examples.antt =====
-- crates/aegis-core/src/pin.rs at concrete inputs. The ciphers are stand-ins: a cipher that leaves
-- the bytes as they are, and hashes that are constant.
use aegis_token.Base.{
  ℕ, ◌+◌, ◌≡◌, ◌≢◌, refl, inl, inr, true, ok, Option, none, some, List, [], ◌∷◌, All, Bytes, length,
  length-replicate, zeros, replicate, bit_and,
}
use aegis_token.Core.Configuration.{same_string}
use aegis_token.Core.ClientPin.{
  ClientPin, TokenRequest, make_credential, get_assertion, permission_of, authorize, authorize_with,
  with_param, granted, apply_scope, bind_rp_id, bind_to, verify_with, ct_eq, ct_eq_prefix,
  difference, new,
}
use aegis_token.Core.ClientPin.Protocol.{
  Crypto, PinState, ClientPinRequest, requested_permissions, shows_pin, aes_cbc_encrypt,
  aes_cbc_decrypt, shared_secret, shared, opened,
}
use aegis_token.Core.ClientPin.Operations.{get_pin_token, token_with, issue, prove_token}
use aegis_token.Core.ClientPin.Scope.{
  authorize-Granted, authorize_one_relying_party, after_requests, IsProven, IsInScope,
}
use aegis_token.Core.ClientPin.Costs.{IsLawful}
use aegis_token.Core.ClientPin.Guesses.{
  Attempt, Session, ask, answers, after, wrong_pins, IsRefusal, wrong_pins_are_bounded,
}
use aegis_token.Core.ClientPin.Issued.{Issued, get_pin_token-Issued}

abbrev no_digest : Bytes → Bytes
no_digest bytes = zeros 32

abbrev no_mac : Bytes → Bytes → Bytes
no_mac key message = zeros 32

abbrev no_cipher : Crypto
no_cipher = record {
  sha256 = no_digest;
  hmac = no_mac;
  cbc_encrypt = λ key iv bytes. bytes;
  cbc_decrypt = λ key iv bytes. bytes;
  is_secret_key = λ bytes. true;
  is_public_key = λ bytes. true;
  diffie_hellman = λ secret public. zeros 32;
  public_point = λ secret. some (record { x = secret; y = secret });
}

-- A PIN in memory.
record Memory : Type 0 where
  pub hash : Option Bytes
  pub retries : ℕ

abbrev in_memory : PinState Memory
in_memory = record {
  pin_hash = λ m. m.hash;
  pin_retries = λ m. m.retries;
  set_pin_hash = λ m hash. (ok tt, record { hash = some hash; retries = 8 });
  set_pin_retries = λ m n. (ok tt, record m { retries = n });
  clear_pin_state = λ m. (ok tt, record { hash = none; retries = 8 });
}

in_memory-IsLawful : IsLawful in_memory
in_memory-IsLawful = record { retries_set = λ m n. refl; hash_kept = λ m n. refl }

-- A generator that counts its draws.
abbrev draw : ℕ → ℕ → Bytes × ℕ
draw rng n = (replicate n rng, rng + 1)

draw-fills : (rng n : ℕ) → length (draw rng n).0 ≡ n
draw-fills rng n = length-replicate n rng

abbrev holder : ClientPin
holder = record new {
  agreement_private = some (zeros 32);
  pin_uv_auth_token = some (zeros 32);
  pin_uv_auth_permissions = 3;
}

abbrev site : Bytes
site = 97 ∷ []

abbrev registration : TokenRequest
registration = record {
  param = some (zeros 16);
  message = 1 ∷ 2 ∷ [];
  uv_requested = true;
  operation = make_credential site;
}

abbrev assertion : TokenRequest
assertion = record registration { operation = get_assertion site }

registration-granted : (authorize no_digest no_mac holder true registration).0 ≡ ok true
unfolding authorize authorize_with with_param granted apply_scope bind_rp_id bind_to verify_with
    ct_eq difference
registration-granted = refl

authorize-Granted_example :
    IsProven no_digest no_mac holder registration
    × (bit_and holder.pin_uv_auth_permissions (permission_of registration.operation) ≢ 0)
    × IsInScope no_digest no_mac
        (authorize no_digest no_mac holder true registration).1.pin_uv_auth_rp_id
        registration.operation
authorize-Granted_example =
    authorize-Granted no_digest no_mac holder true registration registration-granted

assertion-granted :
    (authorize no_digest no_mac
      (after_requests no_digest no_mac (authorize no_digest no_mac holder true registration).1 [])
      true
      assertion).0
    ≡ ok true
unfolding authorize authorize_with with_param granted apply_scope bind_rp_id bind_to verify_with
    ct_eq difference same_string
assertion-granted = refl

authorize_one_relying_party_example : site ≡ site
authorize_one_relying_party_example =
    authorize_one_relying_party no_digest no_mac holder true true registration assertion [] site
      site (inl refl) (inr refl) registration-granted assertion-granted

abbrev guess : Bytes → ClientPinRequest
guess enc = record {
  protocol = 1;
  sub_command = 5;
  key_agreement = some (record { x = zeros 32; y = zeros 32 });
  pin_uv_auth_param = some (zeros 16);
  new_pin_enc = none;
  pin_hash_enc = some enc;
  permissions = none;
  rp_id = none;
}

abbrev protected : Memory
protected = record { hash = some (replicate 32 1); retries = 2 }

abbrev session : Session Memory ℕ
session = record { handler = holder; pins = protected; rng = 7 }

abbrev guesses_made : List Attempt
guesses_made = ask (guess (zeros 16)) ∷ ask (guess (zeros 16)) ∷ ask (guess (replicate 16 1)) ∷ []

guesses_made-refused : All IsRefusal (answers no_cipher in_memory draw session guesses_made)
unfolding get_pin_token token_with prove_token requested_permissions shared shared_secret opened
    ct_eq_prefix ct_eq difference aes_cbc_decrypt shows_pin
guesses_made-refused = ((λ e. cc, λ e. cc), ((λ e. cc, λ e. cc), ((λ e. cc, λ e. cc), tt)))

wrong_pins_are_bounded_example :
    ((after no_cipher in_memory draw session guesses_made).pins.hash ≡ protected.hash)
    × (wrong_pins no_cipher in_memory draw session guesses_made
          + (after no_cipher in_memory draw session guesses_made).pins.retries
        ≡ 2)
wrong_pins_are_bounded_example =
    wrong_pins_are_bounded no_cipher in_memory draw in_memory-IsLawful draw-fills session
      guesses_made guesses_made-refused

right-answer :
    (get_pin_token no_cipher in_memory draw holder protected (guess (replicate 16 1)) 7).0
    ≡ ok (replicate 32 7)
unfolding get_pin_token token_with prove_token requested_permissions shared shared_secret opened
    ct_eq_prefix ct_eq difference aes_cbc_decrypt aes_cbc_encrypt issue shows_pin
right-answer = refl

get_pin_token-Issued_example :
    Issued no_cipher in_memory in_memory-IsLawful draw holder protected
      (guess (replicate 16 1))
      7
      (get_pin_token no_cipher in_memory draw holder protected (guess (replicate 16 1)) 7).1
get_pin_token-Issued_example =
    get_pin_token-Issued no_cipher in_memory in_memory-IsLawful draw holder protected
      (guess (replicate 16 1)) 7 (replicate 32 7) right-answer
