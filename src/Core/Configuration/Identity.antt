-- ===== src/Core/Configuration/Identity.antt =====
-- crates/aegis-core/src/configuration.rs: which configurations pass, and the identity they carry.
use aegis_token.Base.{
  ℕ, ◌≤◌, ◌<◌, ◌≢◌, ◌≡◌, refl, sym, ◌∙◌, Bool, true, false, ◌&&◌, ==→eq, ◌⊎◌, inl, inr, Bool-cases,
  ok, err, guard, ◌>>◌, [], ◌∷◌, length, Bytes, arith,
}
use aegis_token.Core.Error.{CoreError}
use aegis_token.Core.Lifecycle.{LifecycleState, allows_config_change, allows_identity_provisioning}
use aegis_token.Core.Lifecycle.Ops.{provisioning-Factory}
use aegis_token.Core.Capabilities.{BoardIdentity}
use aegis_token.Core.Configuration.{
  DeviceConfig, UsbConfig, ValidationContext, Check, validate, validate_usb, validate_custom_usb,
  validate_board_usb, validate_led, validate_presence, same_string, config_version,
}

pub guard-ok : (test : Bool) (failure : CoreError) → guard test failure ≡ ok tt → test ≡ true
guard-ok true failure h = refl
guard-ok false failure h = cc

pub then-ok :
    (first second : Check) → (first >> second) ≡ ok tt → (first ≡ ok tt) × (second ≡ ok tt)
then-ok (err e) second h = cc
then-ok (ok tt) second h = (refl, h)

pub same_string→eq : (xs ys : Bytes) → same_string xs ys ≡ true → xs ≡ ys
unfolding same_string
same_string→eq [] [] h = refl
same_string→eq [] (y ∷ ys) h = ground arith
same_string→eq (x ∷ xs) [] h = ground arith
same_string→eq (x ∷ xs) (y ∷ ys) h = ground (arith, same_string→eq xs ys)

-- The parts of a validation that passes.
pub validate-ok :
    (config : DeviceConfig) (ctx : ValidationContext)
    → validate config ctx ≡ ok tt
    → (config.version ≡ config_version)
      × (allows_config_change ctx.lifecycle ≡ true)
      × (validate_usb config.usb ctx ≡ ok tt)
      × (validate_led config.led ctx.capabilities.led ctx.capabilities.gpio_count ≡ ok tt)
      × (validate_presence config.presence ctx.capabilities.presence ctx.capabilities.gpio_count
          ≡ ok tt)
unfolding validate
validate-ok config ctx h =
    let (h4, apart) = then-ok _ _ h in
    let (h3, presence) = then-ok _ _ h4 in
    let (h2, led) = then-ok _ _ h3 in
    let (h1, usb) = then-ok _ _ h2 in
    let (version, lifecycle) = then-ok _ _ h1 in
    (
      ==→eq config.version config_version (guard-ok _ _ version),
      guard-ok _ _ lifecycle,
      usb,
      led,
      presence,
    )

board_usb-ok :
    (usb : UsbConfig) (identity : BoardIdentity) (max_len : ℕ)
    → validate_board_usb usb identity max_len ≡ ok tt
    → (usb.product_string ≡ identity.product)
      × (usb.vid ≡ identity.vendor_id)
      × (usb.pid ≡ identity.product_id)
unfolding validate_board_usb
board_usb-ok usb identity max_len h =
    let (h1, long) = then-ok _ _ h in
    let (string, ids) = then-ok _ _ h1 in
    let same = guard-ok _ _ ids in
    (
      same_string→eq usb.product_string identity.product (guard-ok _ _ string),
      ground arith,
      ground arith,
    )

and-true : (a b : Bool) → (a && b) ≡ true → (a ≡ true) × (b ≡ true)
and-true true true h = (refl, refl)
and-true true false h = cc
and-true false b h = cc

custom_usb-ok :
    (usb : UsbConfig) (max_len : ℕ)
    → validate_custom_usb usb max_len ≡ ok tt
    → (usb.vid ≢ 0)
      × (usb.pid ≢ 0)
      × (0 < length usb.product_string)
      × (length usb.product_string ≤ max_len)
unfolding validate_custom_usb
custom_usb-ok usb max_len h = (ground arith, ground arith, ground arith, ground arith)

-- A custom identity: the device is in its factory state and lets its identity be configured, and
-- the vendor, the product and the product string are set, the string within the board's limit.
abbrev pub IsCustom : UsbConfig → ValidationContext → Type 0
IsCustom usb ctx =
    (ctx.capabilities.usb.configurable_identity ≡ true)
    × (ctx.lifecycle ≡ LifecycleState.factory)
    × (usb.vid ≢ 0)
    × (usb.pid ≢ 0)
    × (0 < length usb.product_string)
    × (length usb.product_string ≤ ctx.capabilities.usb.max_product_string_len)

-- The identity of the board.
abbrev pub IsBoards : UsbConfig → ValidationContext → Type 0
IsBoards usb ctx =
    (usb.product_string ≡ ctx.identity.product)
    × (usb.vid ≡ ctx.identity.vendor_id)
    × (usb.pid ≡ ctx.identity.product_id)

usb_identity :
    (usb : UsbConfig) (ctx : ValidationContext)
    → validate_usb usb ctx ≡ ok tt
    → IsCustom usb ctx ⊎ IsBoards usb ctx
unfolding validate_usb
usb_identity usb ctx h =
    let free =
      ctx.capabilities.usb.configurable_identity && allows_identity_provisioning ctx.lifecycle in
    let max_len = ctx.capabilities.usb.max_product_string_len in
    elim (Bool-cases free) [
      | inl e ↦
          let (configurable, provisioning) = and-true _ _ e in
          let run : validate_usb usb ctx ≡ validate_custom_usb usb max_len = rw e refl in
          let (vid, pid, named, fits) = custom_usb-ok usb max_len (sym run ∙ h) in
          inl (configurable, provisioning-Factory ctx.lifecycle provisioning, vid, pid, named, fits)
      | inr e ↦
          let run : validate_usb usb ctx ≡ validate_board_usb usb ctx.identity max_len =
            rw e refl in
          inr (board_usb-ok usb ctx.identity max_len (sym run ∙ h))
    ]

-- A configuration that passes carries the identity of the board, unless the device is in its
-- factory state and its identity is configurable: the only way to a custom identity, which then has
-- a vendor and a product that are not zero and a product string that is not empty and within the
-- limit. And none passes in a state of the lifecycle in which the configuration is sealed.
pub validate-Identity :
    (config : DeviceConfig) (ctx : ValidationContext)
    → validate config ctx ≡ ok tt
    → (allows_config_change ctx.lifecycle ≡ true)
      × (IsCustom config.usb ctx ⊎ IsBoards config.usb ctx)
validate-Identity config ctx h =
    let (version, lifecycle, usb, led, presence) = validate-ok config ctx h in
    (lifecycle, usb_identity config.usb ctx usb)
