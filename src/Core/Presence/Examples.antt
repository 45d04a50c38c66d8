-- ===== src/Core/Presence/Examples.antt =====
-- Concrete runs of crates/aegis-core/src/presence.rs.
use aegis_token.Base.{ℕ, ◌≡◌, refl, true, false, [], ◌∷◌, All, arith}
use aegis_token.Core.Presence.{PresenceTiming, PresenceController, new, arm, update}
use aegis_token.Core.Presence.Freshness.{
  start, next, arms, samples, act, IsEarned, confirmed-IsEarned,
}
use aegis_token.Core.Presence.Held.{is_confirmed, hold, held_never_confirms}

abbrev timing : PresenceTiming
timing = record { debounce_ms = 10; timeout_ms = 500 }

abbrev armed_at : ℕ → PresenceController
armed_at now = (act (arms 9) (new timing) now).1

abbrev pressed_at : ℕ → ℕ → PresenceController
pressed_at armed pressed = (act (samples true) (armed_at armed) pressed).1

-- Armed at 100, pressed at 120, and confirmed by the sample at 130.
confirmed-IsEarned_example :
    IsEarned timing
      (omega arith)
      9
      130
      (pressed_at 100 120)
      (act (samples true) (pressed_at 100 120) 130).1
unfolding update arm new
confirmed-IsEarned_example =
    confirmed-IsEarned timing (omega arith)
      (next (next start (arms 9) 100 (omega arith) (omega arith)) (samples true) 120 (omega arith)
        (omega arith))
      (samples true) 130 9 (omega arith) (omega arith) refl

-- The button is down before the operation is armed.
abbrev held : PresenceController
held = (update (new timing) true 50).1

held_never_confirms_example :
    All (λ o. is_confirmed o ≡ false) (hold (arm held 9 100).1 (120 ∷ 140 ∷ 900 ∷ []))
unfolding update new
held_never_confirms_example = held_never_confirms held 9 100 (120 ∷ 140 ∷ 900 ∷ []) refl refl

abbrev short_timing : PresenceTiming
short_timing = record { debounce_ms = 1; timeout_ms = 3 }
