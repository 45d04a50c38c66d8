-- ===== src/Core/ClientPin/Guesses.antt =====
-- crates/aegis-core/src/pin.rs: how many wrong PINs there are, and what a token proves.
use aegis_token.Base.{
  ℕ, ◌+◌, ◌≡◌, ◌≢◌, refl, ◌∙◌, inl, inr, Option, none, some, List, [], ◌∷◌, All, length, Bytes,
  arith,
}
use aegis_token.Core.ClientPin.{ClientPin, Ctap2Status}
use aegis_token.Core.ClientPin.Protocol.{Crypto, PinState, ClientPinRequest}
use aegis_token.Core.ClientPin.Operations.{
  set_pin, change_pin, get_pin_token, prove_token, prove_change,
}
use aegis_token.Core.ClientPin.Costs.{
  IsLawful, Costs, failure_of, wrong_token, wrong_change, get_pin_token-Costs, change_pin-Costs,
  set_pin-Costs,
}

-- The subcommands that try a PIN, or set one.
pub data Attempt : Type 0 where
  provision change ask : ClientPinRequest → Attempt

-- The handler, the state of the PIN and the generator.
pub record Session (S : Type 0) (R : Type 0) : Type 0 where
  pub handler : ClientPin
  pub pins : S
  pub rng : R

-- Neither a success nor a failure of the storage.
abbrev pub IsRefusal : Option Ctap2Status → Type 0
IsRefusal answer = (answer ≢ none) × (answer ≢ some Ctap2Status.other)

module _ (crypto : Crypto) {S : Type 0} (pins : PinState S) {R : Type 0}
    (fill_bytes : R → ℕ → Bytes × R) where
  -- The answer to an attempt, and the session after it.
  abbrev pub attempt : Attempt → Session S R → Option Ctap2Status × Session S R
  attempt (provision request) s =
      let (answer, st) = set_pin crypto pins s.handler s.pins request in
      (failure_of answer, record s { pins = st })
  attempt (change request) s =
      let (answer, c, st) = change_pin crypto pins s.handler s.pins request in
      (failure_of answer, record s { handler = c; pins = st })
  attempt (ask request) s =
      let (answer, c, st, rng) =
        get_pin_token crypto pins fill_bytes s.handler s.pins request s.rng in
      (failure_of answer, record { handler = c; pins = st; rng = rng })

  abbrev pub answers : Session S R → List Attempt → List (Option Ctap2Status)
  answers s [] = []
  answers s (a ∷ rest) = (attempt a s).0 ∷ answers (attempt a s).1 rest

  abbrev pub after : Session S R → List Attempt → Session S R
  after s [] = s
  after s (a ∷ rest) = after (attempt a s).1 rest

  -- The wrong PIN that an attempt tries: it is authenticated, the PIN is not blocked, and what it
  -- holds is not the start of the stored hash.
  abbrev pub wrong_pin : Attempt → Session S R → ℕ
  wrong_pin (provision request) s = 0
  wrong_pin (change request) s = wrong_change (prove_change crypto pins s.handler s.pins request)
  wrong_pin (ask request) s = wrong_token (prove_token crypto pins s.handler s.pins request)

  -- The wrong PINs in a sequence of attempts.
  abbrev pub wrong_pins : Session S R → List Attempt → ℕ
  wrong_pins s [] = 0
  wrong_pins s (a ∷ rest) = wrong_pin a s + wrong_pins (attempt a s).1 rest

  module _ (lawful : IsLawful pins)
      (fills : (rng : R) (n : ℕ) → length (fill_bytes rng n).0 ≡ n) where
    attempt-Costs :
        (a : Attempt) (s : Session S R)
        → Costs pins s.pins (wrong_pin a s) (attempt a s).0 (attempt a s).1.pins
    attempt-Costs (provision request) s = set_pin-Costs pins crypto lawful s.handler s.pins request
    attempt-Costs (change request) s = change_pin-Costs pins crypto lawful s.handler s.pins request
    attempt-Costs (ask request) s =
        get_pin_token-Costs pins crypto lawful fill_bytes fills s.handler s.pins request s.rng

    refused-Costs :
        (st st' : S) (wrong : ℕ) (answer : Option Ctap2Status)
        → Costs pins st wrong answer st'
        → IsRefusal answer
        → (pins.pin_hash st' ≡ pins.pin_hash st)
          × (wrong + pins.pin_retries st' ≡ pins.pin_retries st)
    refused-Costs st st' wrong answer (inl e) r = absurd (r.0 e)
    refused-Costs st st' wrong answer (inr (inl e)) r = absurd (r.1 e)
    refused-Costs st st' wrong answer (inr (inr costs)) r = costs

    -- Over any sequence of requests to set, to change or to prove the PIN that are all refused, none
    -- for a failure of the storage, the wrong PINs that are tried, the one that blocks included, and
    -- the retries that are left are together the retries at the start, so that no more wrong PINs are
    -- tried than there were retries; and the stored PIN is the same. The state is assumed to keep its
    -- PIN where the retries are set, and the generator to fill its buffer.
    pub wrong_pins_are_bounded :
        (s : Session S R) (attempts : List Attempt)
        → All IsRefusal (answers s attempts)
        → (pins.pin_hash (after s attempts).pins ≡ pins.pin_hash s.pins)
          × (wrong_pins s attempts + pins.pin_retries (after s attempts).pins
              ≡ pins.pin_retries s.pins)
    wrong_pins_are_bounded s [] h = (refl, omega arith)
    wrong_pins_are_bounded s (a ∷ rest) (h, hs) =
        let (same, cost) =
          refused-Costs s.pins (attempt a s).1.pins (wrong_pin a s) (attempt a s).0
            (attempt-Costs a s) h in
        let (same', cost') = wrong_pins_are_bounded (attempt a s).1 rest hs in
        (same' ∙ same, omega arith)
