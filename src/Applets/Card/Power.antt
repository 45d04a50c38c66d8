-- ===== src/Applets/Card/Power.antt =====
-- crates/aegis-applets/src/card.rs: power, and what it takes to reach an applet.
use aegis_token.Base.{
  ℕ, ◌≡◌, refl, Bool, true, false, Bool-cases, ◌==◌, Result, ok, err, Option, none, some, and_then,
  List, Bytes, arith, inl, inr,
}
use aegis_token.Applets.Apdu.Sw
use aegis_token.Applets.Apdu.{Response as ApduResponse, new_chainer}
use aegis_token.Applets.Ccid.{
  CcidError, Request, parse_request, request_slot, Response, icc_power_on, icc_power_off,
  get_slot_status, set_parameters, get_parameters, reset_parameters, set_data_rate_and_clock,
  xfr_block, escape, abort,
}
use aegis_token.Applets.Router.{Applet, Router, reset as router_reset}
use aegis_token.Applets.Router.Selection.{
  IsValid as IsValidRouter, Settled, command-IsValid, InRange,
}
use aegis_token.Applets.Card.{
  FrameOutcome, Handled, encode, encoded_result, replied, with_response, xfr_response,
  handle_request, handle_parsed, handle_frame,
}

-- Without power nothing is selected and no response waits.
pub IsOff : {S : Type 0} → Router S → Type 0
IsOff r = (r.selected ≡ none) × (r.chain ≡ new_chainer)

module _ {S : Type 0} (capacity : ℕ) (applets : List (Applet S)) where
  pub record IsPoweredRight (router : Router S) (powered : Bool) : Type 0 where
    pub routed : IsValidRouter capacity applets router
    pub unpowered : powered ≡ false → IsOff router

  pub reset-IsPoweredRight :
      (router : Router S) (powered : Bool) → IsPoweredRight (router_reset router) powered
  unfolding IsOff InRange
  reset-IsPoweredRight router powered = record {
    routed = record {
      in_range = tt;
      serving = record { within = omega arith; fits = omega arith };
    };
    unpowered = λ e. (refl, refl);
  }

  -- What handling a frame leaves: a valid router, and power where a command waits for presence.
  unfoldable pub Stable : Option (Handled S) → Type 0
  Stable none = ⊥
  Stable (some h) =
      IsPoweredRight h.router h.powered
      × ((sequence : ℕ)
          → h.result ≡ ok (FrameOutcome.presence_required sequence)
          → h.powered ≡ true)

  replied-Stable :
      (router : Router S) (powered : Bool) (out : Result CcidError ℕ × Bytes)
      → IsPoweredRight router powered
      → Stable (some (replied router powered out))
  unfolding Stable replied encoded_result
  replied-Stable router powered (err e, out) h = (h, λ s e. absurd cc)
  replied-Stable router powered (ok len, out) h = (h, λ s e. absurd cc)

  with_response-Stable :
      (r : Response) (router : Router S) (powered : Bool) (out : Bytes)
      → IsPoweredRight router powered
      → Stable (some (with_response r router powered out))
  unfolding with_response
  with_response-Stable r router powered out h = replied-Stable router powered (encode r out) h

  on-IsPoweredRight :
      (router : Router S) → IsValidRouter capacity applets router → IsPoweredRight router true
  on-IsPoweredRight router h = record { routed = h; unpowered = λ e. absurd cc }

  xfr-Stable :
      (sequence : ℕ) (out : Bytes) (answer : Option (ApduResponse × Router S))
      → Settled capacity applets answer
      → Stable (and_then answer (λ a. some (xfr_response sequence out a)))
  unfolding xfr_response Settled
  xfr-Stable sequence out none h = absurd h
  xfr-Stable sequence out (some (r, router)) h = elim (Bool-cases (r.sw == Sw.presence_required)) [
    | inl e ↦ rw e (unfold Stable in (on-IsPoweredRight router h, λ s e. refl))
    | inr e ↦ rw e (replied-Stable router true _ (on-IsPoweredRight router h))
  ]

  handle_request-Stable :
      (request : Request) (router : Router S) (powered : Bool) (out : Bytes)
      → IsPoweredRight router powered
      → Stable (handle_request capacity applets request router powered out)
  unfolding handle_request
  handle_request-Stable (icc_power_on slot sequence p) router powered out h =
      with_response-Stable _ _ _ _ (reset-IsPoweredRight router true)
  handle_request-Stable (icc_power_off slot sequence) router powered out h =
      with_response-Stable _ _ _ _ (reset-IsPoweredRight router false)
  handle_request-Stable (get_slot_status slot sequence) router powered out h =
      with_response-Stable _ _ _ _ h
  handle_request-Stable (set_parameters slot sequence protocol payload) router powered out h =
      with_response-Stable _ _ _ _ h
  handle_request-Stable (get_parameters slot sequence) router powered out h =
      with_response-Stable _ _ _ _ h
  handle_request-Stable (reset_parameters slot sequence) router powered out h =
      with_response-Stable _ _ _ _ h
  handle_request-Stable (set_data_rate_and_clock slot sequence payload) router powered out h =
      with_response-Stable _ _ _ _ h
  handle_request-Stable (xfr_block slot sequence bwi level payload) router false out h =
      with_response-Stable _ _ _ _ h
  handle_request-Stable (xfr_block slot sequence bwi level payload) router true out h =
      xfr-Stable sequence out _ (command-IsValid capacity applets payload router h.routed)
  handle_request-Stable (escape slot sequence payload) router powered out h =
      with_response-Stable _ _ _ _ h
  handle_request-Stable (abort slot sequence) router powered out h =
      with_response-Stable _ _ _ _ (reset-IsPoweredRight router powered)

  handle_parsed-Stable :
      (frame : Bytes) (parsed : Result CcidError Request) (router : Router S) (powered : Bool)
      (out : Bytes)
      → IsPoweredRight router powered
      → Stable (handle_parsed capacity applets frame parsed router powered out)
  unfolding handle_parsed
  handle_parsed-Stable frame (err e) router powered out h = with_response-Stable _ _ _ _ h
  handle_parsed-Stable frame (ok request) router powered out h =
      elim (Bool-cases (request_slot request == 0)) [
        | inl e ↦ rw e (handle_request-Stable request router powered out h)
        | inr e ↦ rw e (with_response-Stable _ _ _ _ h)
      ]

  pub handle_frame-Stable :
      (frame : Bytes) (router : Router S) (powered : Bool) (out : Bytes)
      → IsPoweredRight router powered
      → Stable (handle_frame capacity applets frame router powered out)
  unfolding handle_frame
  handle_frame-Stable frame router powered out h =
      handle_parsed-Stable frame (parse_request frame) router powered out h

  -- The applets' state after a frame is the state before it.
  pub Untouched : Router S → Option (Handled S) → Type 0
  Untouched router none = ⊥
  Untouched router (some h) = h.router.applets_state ≡ router.applets_state

  handle_request-Untouched :
      (request : Request) (router : Router S) (out : Bytes)
      → Untouched router (handle_request capacity applets request router false out)
  unfolding handle_request Untouched with_response replied
  handle_request-Untouched (icc_power_on slot sequence p) router out = refl
  handle_request-Untouched (icc_power_off slot sequence) router out = refl
  handle_request-Untouched (get_slot_status slot sequence) router out = refl
  handle_request-Untouched (set_parameters slot sequence protocol payload) router out = refl
  handle_request-Untouched (get_parameters slot sequence) router out = refl
  handle_request-Untouched (reset_parameters slot sequence) router out = refl
  handle_request-Untouched (set_data_rate_and_clock slot sequence payload) router out = refl
  handle_request-Untouched (xfr_block slot sequence bwi level payload) router out = refl
  handle_request-Untouched (escape slot sequence payload) router out = refl
  handle_request-Untouched (abort slot sequence) router out = refl

  handle_parsed-Untouched :
      (frame : Bytes) (parsed : Result CcidError Request) (router : Router S) (out : Bytes)
      → Untouched router (handle_parsed capacity applets frame parsed router false out)
  unfolding handle_parsed
  handle_parsed-Untouched frame (err e) router out = unfold Untouched with_response replied in refl
  handle_parsed-Untouched frame (ok request) router out =
      elim (Bool-cases (request_slot request == 0)) [
        | inl e ↦ rw e (handle_request-Untouched request router out)
        | inr e ↦ rw e (unfold Untouched with_response replied in refl)
      ]

  -- Without power no frame reaches an applet: whatever the frame holds, the state of the applets
  -- after it is the state before it.
  pub unpowered-Untouched :
      (frame : Bytes) (router : Router S) (out : Bytes)
      → Untouched router (handle_frame capacity applets frame router false out)
  unfolding handle_frame
  unpowered-Untouched frame router out =
      handle_parsed-Untouched frame (parse_request frame) router out
