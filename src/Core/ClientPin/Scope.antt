-- ===== src/Core/ClientPin/Scope.antt =====
-- crates/aegis-core/src/pin.rs: what a token authorises.
use aegis_token.Base.{
  ◌≡◌, ◌≢◌, refl, sym, ap, subst, ◌∙◌, Bool, true, false, not, ◌==◌, leb, ◌⊎◌, inl, inr, Bool-cases,
  Result, ok, err, Option, none, some, is_some, List, [], ◌∷◌, length, take, Bytes, bit_and,
  if◌then◌else◌, arith,
}
use aegis_token.Core.Configuration.Identity.{same_string→eq}
use aegis_token.Core.ClientPin.{
  ClientPin, Ctap2Status, Check, ManagementScope, TokenOperation, TokenRequest, permission_of,
  bind_to, bind_rp_id, check_scope, apply_scope, granted, verify_with, with_param, without_param,
  authorize_with, authorize, make_credential, get_assertion, credential_management, device,
  relying_party_hash, credential_relying_party, spec_length, max_rp_id_len, ct_eq,
}
use aegis_token.Core.ClientPin.Compare.{ct_eq→eq, spec_length→eq}

-- The tests before a token's scope is applied.
passed :
    (active missing proven : Bool) (rest failed : Result Ctap2Status Bool × ClientPin)
    → failed.0 ≡ err Ctap2Status.pin_auth_invalid
    → (if not active
        then failed
        else if missing
        then failed
        else if not proven
        then failed
        else rest).0
      ≡ ok true
    → (active ≡ true)
      × (missing ≡ false)
      × (proven ≡ true)
      × (rest.0 ≡ ok true)
      × ((if not active
            then failed
            else if missing
            then failed
            else if not proven
            then failed
            else rest)
          ≡ rest)
passed false missing proven rest failed f e = cc
passed true true proven rest failed f e = cc
passed true false false rest failed f e = cc
passed true false true rest failed f e = (refl, refl, refl, e, refl)

-- The handler after the tests, whichever fails.
kept :
    (t₁ t₂ t₃ : Bool) (rest failed : Result Ctap2Status Bool × ClientPin) (c : ClientPin)
    → failed.1 ≡ c
    → rest.1 ≡ c
    → (if t₁ then failed else if t₂ then failed else if t₃ then failed else rest).1 ≡ c
kept true t₂ t₃ rest failed c f r = f
kept false true t₃ rest failed c f r = f
kept false false true rest failed c f r = f
kept false false false rest failed c f r = r

some-injective : {x y : Bytes} → some x ≡ some y → x ≡ y
some-injective e = cc

module _ (sha256 : Bytes → Bytes) (hmac : Bytes → Bytes → Bytes) where
  -- An operation stays inside the relying party, if any, that the token is bound to.
  abbrev pub IsInScope : Option Bytes → TokenOperation → Type 0
  IsInScope bound (make_credential rp_id) = bound ≡ some rp_id
  IsInScope bound (get_assertion rp_id) = bound ≡ some rp_id
  IsInScope bound (credential_management device) = bound ≡ none
  IsInScope bound (credential_management (relying_party_hash hash)) =
      (bound ≡ none) ⊎ (b : Bytes) × (bound ≡ some b) × (sha256 b ≡ hash)
  IsInScope bound (credential_management (credential_relying_party none)) = bound ≡ none
  IsInScope bound (credential_management (credential_relying_party (some rp_id))) =
      (bound ≡ none) ⊎ (bound ≡ some rp_id)

  -- The token and the parameter of a request that is granted.
  abbrev pub IsProven : ClientPin → TokenRequest → Type 0
  IsProven c request =
      (token : Bytes) × (param : Bytes) × (c.pin_uv_auth_token ≡ some token)
      × (request.param ≡ some param)
      × ((length param ≡ 16) ⊎ (length param ≡ 32))
      × (take (length param) (hmac token request.message) ≡ param)

  bind_to-IsInScope :
      (c : ClientPin) (rp_id : Bytes) (bound : Option Bytes)
      → c.pin_uv_auth_rp_id ≡ bound
      → (bind_to c rp_id bound).0 ≡ ok tt
      → (bind_to c rp_id bound).1.pin_uv_auth_rp_id ≡ some rp_id
  unfolding bind_to
  bind_to-IsInScope c rp_id (some b) h e = h ∙ ap some (same_string→eq b rp_id (ground arith))
  bind_to-IsInScope c rp_id none h e = elim (Bool-cases (leb (length rp_id) max_rp_id_len)) [
    | inl fits ↦ rw fits refl
    | inr long ↦ ground arith
  ]

  check_scope-IsInScope :
      (bound : Option Bytes) (scope : ManagementScope)
      → check_scope sha256 hmac bound scope ≡ ok tt
      → IsInScope bound (credential_management scope)
  unfolding check_scope
  check_scope-IsInScope none device e = refl
  check_scope-IsInScope (some b) device e = cc
  check_scope-IsInScope none (relying_party_hash hash) e = inl refl
  check_scope-IsInScope (some b) (relying_party_hash hash) e =
      inr (b, refl, same_string→eq (sha256 b) hash (ground arith))
  check_scope-IsInScope none (credential_relying_party none) e = refl
  check_scope-IsInScope (some b) (credential_relying_party none) e = cc
  check_scope-IsInScope none (credential_relying_party (some rp_id)) e = inl refl
  check_scope-IsInScope (some b) (credential_relying_party (some rp_id)) e =
      inr (ap some (same_string→eq b rp_id (ground arith)))

  apply_scope-IsInScope :
      (c : ClientPin) (operation : TokenOperation)
      → (apply_scope sha256 hmac c operation).0 ≡ ok tt
      → IsInScope (apply_scope sha256 hmac c operation).1.pin_uv_auth_rp_id operation
  unfolding apply_scope bind_rp_id
  apply_scope-IsInScope c (make_credential rp_id) e =
      bind_to-IsInScope c rp_id c.pin_uv_auth_rp_id refl e
  apply_scope-IsInScope c (get_assertion rp_id) e =
      bind_to-IsInScope c rp_id c.pin_uv_auth_rp_id refl e
  apply_scope-IsInScope c (credential_management scope) e =
      check_scope-IsInScope c.pin_uv_auth_rp_id scope e

  granted-ok :
      (r : Check × ClientPin)
      → (granted sha256 hmac r).0 ≡ ok true
      → (r.0 ≡ ok tt) × ((granted sha256 hmac r).1 ≡ r.1)
  unfolding granted
  granted-ok (err e, c) h = cc
  granted-ok (ok tt, c) h = (refl, refl)

  verify_with-true :
      (token : Option Bytes) (param message : Bytes)
      → verify_with sha256 hmac token param message ≡ true
      → (key : Bytes) × (token ≡ some key)
        × ((length param ≡ 16) ⊎ (length param ≡ 32))
        × (take (length param) (hmac key message) ≡ param)
  unfolding verify_with
  verify_with-true none param message h = ground arith
  verify_with-true (some key) param message h = elim (Bool-cases (spec_length param)) [
    | inl l ↦ (
      key,
      refl,
      spec_length→eq param l,
      ct_eq→eq (take (length param) (hmac key message)) param (
          subst
            (λ b.
              (if not b then false else ct_eq (take (length param) (hmac key message)) param)
              ≡ true)
            l h),
    )
    | inr l ↦ ground arith
  ]

  -- What a granted request with a parameter has passed.
  with_param-ok :
      (c : ClientPin) (request : TokenRequest) (param : Bytes)
      → (with_param sha256 hmac c request param).0 ≡ ok true
      → ((bit_and c.pin_uv_auth_permissions (permission_of request.operation) == 0) ≡ false)
        × (verify_with sha256 hmac c.pin_uv_auth_token param request.message ≡ true)
        × ((granted sha256 hmac (apply_scope sha256 hmac c request.operation)).0 ≡ ok true)
        × (with_param sha256 hmac c request param
            ≡ granted sha256 hmac (apply_scope sha256 hmac c request.operation))
  unfolding with_param
  with_param-ok c request param e =
      let (active, carried, proven, rest, same) =
        passed (is_some c.pin_uv_auth_token)
          (bit_and c.pin_uv_auth_permissions (permission_of request.operation) == 0)
          (verify_with sha256 hmac c.pin_uv_auth_token param request.message)
          (granted sha256 hmac (apply_scope sha256 hmac c request.operation))
          (err Ctap2Status.pin_auth_invalid, c) refl e in
      (carried, proven, rest, same)

  authorize_with-Granted :
      (c : ClientPin) (has_pin : Bool) (request : TokenRequest) (param : Option Bytes)
      → request.param ≡ param
      → (authorize_with sha256 hmac c has_pin request param).0 ≡ ok true
      → IsProven c request
        × (bit_and c.pin_uv_auth_permissions (permission_of request.operation) ≢ 0)
        × IsInScope
            (authorize_with sha256 hmac c has_pin request param).1.pin_uv_auth_rp_id
            request.operation
  unfolding authorize_with without_param
  authorize_with-Granted c has_pin request none h e = absurd (ground arith)
  authorize_with-Granted c has_pin request (some param) h e =
      let (carried, proven, rest, same) = with_param-ok c request param e in
      let (key, active, size, agrees) =
        verify_with-true c.pin_uv_auth_token param request.message proven in
      let (applied, after) = granted-ok (apply_scope sha256 hmac c request.operation) rest in
      (
        (key, param, active, h, size, agrees),
        ground (arith),
        subst (λ (d : ClientPin). IsInScope d.pin_uv_auth_rp_id request.operation)
            (sym (ap (λ (r : Result Ctap2Status Bool × ClientPin). r.1) same ∙ after))
            (apply_scope-IsInScope c request.operation applied),
      )

  -- An operation is granted to a parameter only if a token is active that carries the permission the
  -- operation needs, if the parameter is the 16 or 32 first bytes of the HMAC of the message under
  -- that token, and if the operation stays in the scope of the relying party to which the token is
  -- bound afterwards: for a registration or an assertion it is bound to theirs.
  pub authorize-Granted :
      (c : ClientPin) (has_pin : Bool) (request : TokenRequest)
      → (authorize sha256 hmac c has_pin request).0 ≡ ok true
      → IsProven c request
        × (bit_and c.pin_uv_auth_permissions (permission_of request.operation) ≢ 0)
        × IsInScope (authorize sha256 hmac c has_pin request).1.pin_uv_auth_rp_id request.operation
  unfolding authorize
  authorize-Granted c has_pin request e =
      authorize_with-Granted c has_pin request request.param refl e

  granted_state : (r : Check × ClientPin) → (granted sha256 hmac r).1 ≡ r.1
  unfolding granted
  granted_state (err e, c) = refl
  granted_state (ok tt, c) = refl

  -- The relying party of a token stays what it is through every request.
  bind_to-keeps :
      (c : ClientPin) (rp_id b : Bytes) (bound : Option Bytes)
      → bound ≡ some b
      → (bind_to c rp_id bound).1 ≡ c
  unfolding bind_to
  bind_to-keeps c rp_id b none h = cc
  bind_to-keeps c rp_id b (some b') h = refl

  apply_scope-keeps :
      (c : ClientPin) (operation : TokenOperation) (b : Bytes)
      → c.pin_uv_auth_rp_id ≡ some b
      → (granted sha256 hmac (apply_scope sha256 hmac c operation)).1 ≡ c
  unfolding apply_scope bind_rp_id
  apply_scope-keeps c (make_credential rp_id) b h =
      granted_state (bind_to c rp_id c.pin_uv_auth_rp_id)
      ∙ bind_to-keeps c rp_id b c.pin_uv_auth_rp_id h
  apply_scope-keeps c (get_assertion rp_id) b h =
      granted_state (bind_to c rp_id c.pin_uv_auth_rp_id)
      ∙ bind_to-keeps c rp_id b c.pin_uv_auth_rp_id h
  apply_scope-keeps c (credential_management scope) b h =
      granted_state (check_scope sha256 hmac c.pin_uv_auth_rp_id scope, c)

  authorize_with-keeps :
      (c : ClientPin) (has_pin : Bool) (request : TokenRequest) (param : Option Bytes) (b : Bytes)
      → c.pin_uv_auth_rp_id ≡ some b
      → (authorize_with sha256 hmac c has_pin request param).1 ≡ c
  unfolding authorize_with with_param
  authorize_with-keeps c has_pin request none b h = refl
  authorize_with-keeps c has_pin request (some param) b h =
      kept (not (is_some c.pin_uv_auth_token))
        (bit_and c.pin_uv_auth_permissions (permission_of request.operation) == 0)
        (not (verify_with sha256 hmac c.pin_uv_auth_token param request.message))
        (granted sha256 hmac (apply_scope sha256 hmac c request.operation))
        (err Ctap2Status.pin_auth_invalid, c) c refl (apply_scope-keeps c request.operation b h)

  authorize-keeps :
      (c : ClientPin) (has_pin : Bool) (request : TokenRequest) (b : Bytes)
      → c.pin_uv_auth_rp_id ≡ some b
      → (authorize sha256 hmac c has_pin request).1 ≡ c
  unfolding authorize
  authorize-keeps c has_pin request b h = authorize_with-keeps c has_pin request request.param b h

  -- The handler after a sequence of requests for its token.
  abbrev pub after_requests : ClientPin → List (Bool × TokenRequest) → ClientPin
  after_requests c [] = c
  after_requests c (r ∷ rs) = after_requests (authorize sha256 hmac c r.0 r.1).1 rs

  after_requests-keeps :
      (c : ClientPin) (rs : List (Bool × TokenRequest)) (b : Bytes)
      → c.pin_uv_auth_rp_id ≡ some b
      → after_requests c rs ≡ c
  unfolding authorize
  after_requests-keeps c [] b h = refl
  after_requests-keeps c (r ∷ rs) b h =
      ap (λ d. after_requests d rs) (authorize_with-keeps c r.0 r.1 r.1.param b h)
      ∙ after_requests-keeps c rs b h

  -- The relying party of a registration or an assertion.
  abbrev pub IsFor : TokenOperation → Bytes → Type 0
  IsFor operation rp_id = (operation ≡ make_credential rp_id) ⊎ (operation ≡ get_assertion rp_id)

  IsFor-bound :
      (bound : Option Bytes) (operation : TokenOperation) (rp_id : Bytes)
      → IsFor operation rp_id
      → IsInScope bound operation
      → bound ≡ some rp_id
  IsFor-bound bound operation rp_id (inl e) s = subst (IsInScope bound) e s
  IsFor-bound bound operation rp_id (inr e) s = subst (IsInScope bound) e s

  -- One token serves one relying party: once it has authorised a registration or an assertion, then
  -- after any sequence of further requests it authorises registrations and assertions for the same
  -- relying party only.
  pub authorize_one_relying_party :
      (c : ClientPin) (pin pin' : Bool) (first later : TokenRequest)
      (between : List (Bool × TokenRequest)) (rp_id rp_id' : Bytes)
      → IsFor first.operation rp_id
      → IsFor later.operation rp_id'
      → (authorize sha256 hmac c pin first).0 ≡ ok true
      → (authorize sha256 hmac
          (after_requests (authorize sha256 hmac c pin first).1 between)
          pin'
          later).0
        ≡ ok true
      → rp_id' ≡ rp_id
  authorize_one_relying_party c pin pin' first later between rp_id rp_id' for_first for_later e e' =
      let c₁ = (authorize sha256 hmac c pin first).1 in
      let bound =
        IsFor-bound c₁.pin_uv_auth_rp_id first.operation rp_id for_first
          (authorize-Granted c pin first e).2 in
      let still = after_requests-keeps c₁ between rp_id bound in
      let e₁ = subst (λ d. (authorize sha256 hmac d pin' later).0 ≡ ok true) still e' in
      let bound' =
        IsFor-bound (authorize sha256 hmac c₁ pin' later).1.pin_uv_auth_rp_id later.operation rp_id'
          for_later (authorize-Granted c₁ pin' later e₁).2 in
      let same = authorize-keeps c₁ pin' later rp_id bound in
      some-injective (sym bound' ∙ (ap (λ (d : ClientPin). d.pin_uv_auth_rp_id) same ∙ bound))
