-- ===== src/Core/State/Paths.antt =====
-- What a path of transitions must pass through.
use aegis_token.Base.{◌≡◌, sym, true, false, List, [], ◌∷◌, ok, ◌⊎◌, inl, inr, arith}
use aegis_token.Base.{◌≢◌, subst, bind-ok}
use mathlib.Core.List.{Memᴰ}
use aegis_token.Core.State.{
  ExecutionState, active, recovery, locked, can_transition, transition, run, fido_allowed,
}

transition-ok :
    (s n t : ExecutionState) → transition s n ≡ ok t → (t ≡ n) × (can_transition s n ≡ true)
unfolding transition
transition-ok s n t h = ground arith

-- Out of a state in which FIDO is not served, the next is `active` or serves no FIDO either.
step_without_fido :
    (s n : ExecutionState)
    → fido_allowed s ≡ false
    → can_transition s n ≡ true
    → (n ≡ active) ⊎ (fido_allowed n ≡ false)
unfolding can_transition fido_allowed
step_without_fido s n h e = ground arith

step_from_locked :
    (n : ExecutionState) → can_transition locked n ≡ true → (n ≡ locked) ⊎ (n ≡ recovery)
unfolding can_transition
step_from_locked n e = ground arith

run-cons :
    (s n t : ExecutionState) (path : List ExecutionState)
    → run s (n ∷ path) ≡ ok t
    → (can_transition s n ≡ true) × (run n path ≡ ok t)
unfolding run
run-cons s n t path h =
    let (a, q, r) = bind-ok (λ u. run u path) (transition s n) h in
    let (e, c) = transition-ok s n a q in (c, subst (λ u. run u path ≡ ok t) e r)

stays_without_fido :
    (s t : ExecutionState) → fido_allowed s ≡ false → run s [] ≡ ok t → fido_allowed t ≡ true → ⊥
unfolding run fido_allowed
stays_without_fido s t h e f = ground arith

-- From any state in which FIDO may not be served, the boot, management, recovery, a firmware update
-- or the lock, a path of successful transitions that ends in a state where FIDO may be served has
-- entered `active` on its way.
pub sealed_needs_active :
    (s t : ExecutionState) (path : List ExecutionState)
    → fido_allowed s ≡ false
    → run s path ≡ ok t
    → fido_allowed t ≡ true
    → Memᴰ active path
sealed_needs_active s t [] h e f = absurd (stays_without_fido s t h e f)
sealed_needs_active s t (n ∷ path) h e f =
    let (c, r) = run-cons s n t path e in
    elim (step_without_fido s n h c) [
      | inl p ↦ Memᴰ.head (sym p)
      | inr q ↦ Memᴰ.tail (sealed_needs_active n t path q r f)
    ]

locked_start : (t : ExecutionState) → run locked [] ≡ ok t → t ≡ locked
unfolding run
locked_start t e = cc

-- The only way out of the lock is recovery: a path of successful transitions from `locked` that
-- ends in another state has entered `recovery`.
pub locked_needs_recovery :
    (t : ExecutionState) (path : List ExecutionState)
    → run locked path ≡ ok t
    → t ≢ locked
    → Memᴰ recovery path
locked_needs_recovery t [] e f = absurd (f (locked_start t e))
locked_needs_recovery t (n ∷ path) e f =
    let (c, r) = run-cons locked n t path e in
    elim (step_from_locked n c) [
      | inl p ↦ Memᴰ.tail (locked_needs_recovery t path (subst (λ u. run u path ≡ ok t) p r) f)
      | inr q ↦ Memᴰ.head (sym q)
    ]
