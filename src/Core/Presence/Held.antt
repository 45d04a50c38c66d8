-- ===== src/Core/Presence/Held.antt =====
-- A button that is held while an operation is armed never confirms it.
use aegis_token.Base.{ℕ, ◌≡◌, Bool, true, false, Option, none, some, ◌⊎◌, List, [], ◌∷◌, All, arith}
use aegis_token.Core.Presence.{PresenceOutcome, confirmed, PresenceController, arm, update}

abbrev pub is_confirmed : Option PresenceOutcome → Bool
is_confirmed (some (confirmed id)) = true
is_confirmed _ = false

-- The outcomes of samples that all read the button as pressed, at the given times.
pub hold : PresenceController → List ℕ → List (Option PresenceOutcome)
hold c [] = []
hold c (now ∷ times) = (update c true now).0 ∷ hold (update c true now).1 times

-- The button is down, and either nothing is armed or a release is still awaited.
record IsDown (c : PresenceController) : Type 0 where
  down : c.raw_pressed ≡ true
  safe : (c.armed ≡ none) ⊎ (c.awaiting_release ≡ true)

update-IsDown :
    (c : PresenceController) (now : ℕ)
    → IsDown c
    → IsDown (update c true now).1 × (is_confirmed (update c true now).0 ≡ false)
unfolding update
update-IsDown c now h = ground arith

hold-IsDown :
    (c : PresenceController) (times : List ℕ)
    → IsDown c
    → All (λ o. is_confirmed o ≡ false) (hold c times)
unfolding hold
hold-IsDown c [] h = tt
hold-IsDown c (now ∷ times) h =
    let (d, quiet) = update-IsDown c now h in (quiet, hold-IsDown (update c true now).1 times d)

arm-IsDown :
    (c : PresenceController) (id now : ℕ)
    → c.raw_pressed ≡ true
    → c.armed ≡ none
    → IsDown (arm c id now).1
unfolding arm
arm-IsDown c id now h n = ground arith

-- An operation that is armed while the button is down is not confirmed by holding the button,
-- however long: none of the samples that follow, all pressed, at any times, confirms it.
pub held_never_confirms :
    (c : PresenceController) (id now : ℕ) (times : List ℕ)
    → c.raw_pressed ≡ true
    → c.armed ≡ none
    → All (λ o. is_confirmed o ≡ false) (hold (arm c id now).1 times)
held_never_confirms c id now times h n =
    hold-IsDown (arm c id now).1 times (arm-IsDown c id now h n)
