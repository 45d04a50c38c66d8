-- ===== src/Base/Outcome.antt =====
-- Rust's `Result<A, E>`, with `?` as the bind of `do`.
use mathlib.Core.Path.{◌≡◌, refl}
use mathlib.Core.Bool.{Bool, true, false}
use mathlib.Core.Option.{Option, none, some}

pub data Result {ε α} (E : Type ε) (A : Type α) : Type (α ⊔ ε) where
  err : E → Result E A
  ok : A → Result E A

-- `.ok_or(failure)`
abbrev pub ok_or {ε α} : {E : Type ε} {A : Type α} → Option A → E → Result E A
ok_or (some value) failure = ok value
ok_or none failure = err failure

-- `if !test { return Err(failure); }`
abbrev pub guard {ε} : {E : Type ε} → Bool → E → Result E (Unit {0})
guard test failure = elim test [ true ↦ ok tt | false ↦ err failure ]

-- `result?`, and what the code does with the value.
infixl 5 ◌>>=◌
abbrev pub ◌>>=◌ {ε α β} :
    {E : Type ε} {A : Type α} {B : Type β} → Result E A → (A → Result E B) → Result E B
err failure >>= next = err failure
ok value >>= next = next value

infixl 5 ◌>>◌
abbrev pub ◌>>◌ {ε β} : {E : Type ε} {B : Type β} → Result E (Unit {0}) → Result E B → Result E B
first >> second = first >>= λ done. second

-- A `let Some(x) = … else` or a `?` on an option.
abbrev pub and_then {α β} : {A : Type α} {B : Type β} → Option A → (A → Option B) → Option B
and_then (some value) next = next value
and_then none next = none

abbrev pub is_some {α} : {A : Type α} → Option A → Bool
is_some (some value) = true
is_some none = false

-- What a bind that succeeds has gone through.
pub bind-ok {ε α β} :
    {E : Type ε} {A : Type α} {B : Type β} (next : A → Result E B) (first : Result E A) {out : B}
    → (first >>= next) ≡ ok out
    → (value : A) × (first ≡ ok value) × (next value ≡ ok out)
bind-ok next (err failure) e = cc
bind-ok next (ok value) e = (value, refl, e)
