-- ===== src/Core/Presence.antt =====
-- crates/aegis-core/src/presence.rs: user presence. The controller is a state machine over sampled
-- button levels and a millisecond clock; the waiter drives it, and the gate ties it to the state.
pub mod Waiter
pub mod Gate
pub mod Freshness
pub mod Held
mod Examples
use aegis_token.Base.{
  ℕ, ◌+◌, ◌-◌, ◌%◌, ◌^◌, min, Bool, true, false, not, ◌&&◌, ◌||◌, leb, if◌then◌else◌, is_some,
  Result, ok, err, Option, none, some,
}
use aegis_token.Core.Error.{CoreError, unauthorized, invalid_state}
use aegis_token.Core.State.{ExecutionState, bootsel_allowed_as_presence}

pub data PresenceError : Type 0 where
  timeout cancelled already_armed not_armed : PresenceError

-- `From<PresenceError> for CoreError`
pub core_error : PresenceError → CoreError
core_error cancelled = unauthorized
core_error _ = invalid_state

pub record PresenceTiming : Type 0 where
  pub debounce_ms : ℕ  -- u16
  pub timeout_ms : ℕ  -- u16

pub data PresenceOutcome : Type 0 where
  confirmed : ℕ → PresenceOutcome
  timed_out : ℕ → PresenceOutcome

pub record Armed : Type 0 where
  pub operation_id : ℕ
  pub deadline_ms : ℕ  -- u64

pub record PresenceController : Type 0 where
  pub timing : PresenceTiming
  pub armed : Option Armed
  pub raw_pressed : Bool
  pub debounced_pressed : Bool
  pub raw_change_ms : ℕ  -- u64
  pub awaiting_release : Bool

pub new : PresenceTiming → PresenceController
new timing = record {
  timing = timing;
  armed = none;
  raw_pressed = false;
  debounced_pressed = false;
  raw_change_ms = 0;
  awaiting_release = false;
}

pub arm : PresenceController → ℕ → ℕ → Result PresenceError (Unit {0}) × PresenceController
arm c operation_id now_ms = if is_some c.armed then (err already_armed, c) else (
  ok tt,
  record c {
    armed = some (record {
      operation_id = operation_id;
      deadline_ms = (now_ms + c.timing.timeout_ms) % 2 ^ 64;
    });
    awaiting_release = c.raw_pressed || c.debounced_pressed;
  },
)

pub disarm : PresenceController → PresenceController
disarm c = record c { armed = none; awaiting_release = false }

-- `a != b` on Booleans
abbrev differ : Bool → Bool → Bool
differ true b = not b
differ false b = b

-- The `if let Some(armed) = self.armed` at the end of `settle`.
expire_armed : Option Armed → PresenceController → ℕ → Option PresenceOutcome × PresenceController
expire_armed none c now_ms = (none, c)
expire_armed (some a) c now_ms =
    if leb a.deadline_ms now_ms
    then (some (timed_out a.operation_id), record c { armed = none; awaiting_release = false })
    else (none, c)

-- The `else if let Some(armed) = self.armed.take()`, and the rest of `settle` where there is none.
take_armed : Option Armed → PresenceController → ℕ → Option PresenceOutcome × PresenceController
unfolding expire_armed
take_armed (some a) c now_ms = (some (confirmed a.operation_id), record c { armed = none })
take_armed none c now_ms = expire_armed none c now_ms

-- The raw level has been stable for the debounce window. `-` is the saturating subtraction.
stable : PresenceController → ℕ → Bool
stable c now_ms =
    differ c.raw_pressed c.debounced_pressed && leb c.timing.debounce_ms (now_ms - c.raw_change_ms)

pub settle : PresenceController → ℕ → Option PresenceOutcome × PresenceController
unfolding expire_armed take_armed stable
settle c now_ms =
    if stable c now_ms
    then if c.raw_pressed
      then if c.awaiting_release
        then expire_armed c.armed (record c { debounced_pressed = true }) now_ms
        else take_armed c.armed (record c { debounced_pressed = true }) now_ms
      else expire_armed c.armed (record c { debounced_pressed = false; awaiting_release = false })
          now_ms
    else expire_armed c.armed c now_ms

-- The raw level of a sample, with the time of its change.
sample : PresenceController → Bool → ℕ → PresenceController
sample c pressed now_ms =
    if differ pressed c.raw_pressed
    then record c { raw_pressed = pressed; raw_change_ms = now_ms }
    else c

pub update : PresenceController → Bool → ℕ → Option PresenceOutcome × PresenceController
unfolding settle sample
update c pressed now_ms = settle (sample c pressed now_ms) now_ms

pub poll : PresenceController → ℕ → Option PresenceOutcome × PresenceController
unfolding settle
poll c now_ms = settle c now_ms
