-- ===== src/Core/Presence/Waiter.antt =====
-- `PresenceWaiter`: the controller driven one sample, and one millisecond, at a time.
use aegis_token.Base.{
  ℕ, ◌+◌, ◌-◌, ◌%◌, ◌^◌, min, ◌≡◌, Bool, true, false, if◌then◌else◌, Result, ok, err, Option, none,
  some, List, [], ◌∷◌,
}
use aegis_token.Core.Presence.{
  PresenceError, PresenceOutcome, confirmed, timed_out, PresenceTiming, PresenceController, new,
  arm, disarm, update,
}

pub record PresenceWaiter : Type 0 where
  pub controller : PresenceController
  pub operation_counter : ℕ  -- u32
  pub now_ms : ℕ  -- u64
  pub armed : Bool

unfoldable pub new_waiter : PresenceTiming → PresenceWaiter
new_waiter timing = record {
  controller = new timing;
  operation_counter = 0;
  now_ms = 0;
  armed = false;
}

-- What `begin` does with the answer of `arm`.
begin_with :
    Result PresenceError (Unit {0}) × PresenceController
    → PresenceWaiter
    → Result PresenceError (Unit {0}) × PresenceWaiter
begin_with (ok u, c) w = (ok tt, record w { controller = c; now_ms = 0; armed = true })
begin_with (err e, c) w = (err e, record w { controller = c })

pub begin : PresenceWaiter → Result PresenceError (Unit {0}) × PresenceWaiter
unfolding begin_with
begin w =
    let counter = (w.operation_counter + 1) % 2 ^ 32 in
    begin_with (arm (disarm w.controller) counter 0) (record w { operation_counter = counter })

-- The `match outcome` of `poll`.
answer : Option PresenceOutcome → PresenceWaiter → Result PresenceError Bool × PresenceWaiter
answer (some (confirmed id)) w = (ok true, record w { armed = false })
answer (some (timed_out id)) w = (err PresenceError.timeout, record w { armed = false })
answer none w = (ok false, w)

-- `saturating_add(1)` on a u64
abbrev next_ms : ℕ → ℕ
next_ms n = min (n + 1) (2 ^ 64 - 1)

-- `poll` once an operation is armed.
sampled : PresenceWaiter → Bool → Result PresenceError Bool × PresenceWaiter
unfolding answer
sampled w pressed =
    let (outcome, c) = update w.controller pressed w.now_ms in
    answer outcome (record w { controller = c; now_ms = next_ms w.now_ms })

poll_begun :
    Result PresenceError (Unit {0}) × PresenceWaiter
    → Bool
    → Result PresenceError Bool × PresenceWaiter
unfolding sampled
poll_begun (ok u, w) pressed = sampled w pressed
poll_begun (err e, w) pressed = (err e, w)

pub poll : PresenceWaiter → Bool → Result PresenceError Bool × PresenceWaiter
unfolding sampled poll_begun
poll w pressed = if w.armed then sampled w pressed else poll_begun (begin w) pressed

abbrev settled : Result PresenceError Bool → Bool
settled (ok false) = false
settled _ = true

-- The first answer, over a sequence of samples, that is not `Ok(false)`.
pub first_answer : PresenceWaiter → List Bool → Option (Result PresenceError Bool)
first_answer w [] = none
first_answer w (pressed ∷ rest) =
    let later = first_answer (poll w pressed).1 rest in
    if settled (poll w pressed).0 then some (poll w pressed).0 else later

-- An operation is pending since time 0.
record IsWaiting (operation timeout : ℕ) (w : PresenceWaiter) : Type 0 where
  started : w.armed ≡ true
  pending : w.controller.armed ≡ some (record { operation_id = operation; deadline_ms = timeout })

abbrev counter' : PresenceWaiter → ℕ
counter' w = (w.operation_counter + 1) % 2 ^ 32
