-- ===== src/Core/Presence/Freshness.antt =====
-- A confirmation answers to a press that began after the operation was armed.
use aegis_token.Base.{
  ℕ, ◌+◌, ◌^◌, ◌≤◌, ◌<◌, ◌≡◌, refl, Bool, true, false, Option, none, some, arith,
}
use aegis_token.Core.Presence.{
  PresenceTiming, PresenceOutcome, confirmed, PresenceController, Armed, new, arm, disarm, update,
  poll,
}

-- What the surroundings do with a controller.
pub data Action : Type 0 where
  arms : ℕ → Action
  disarms : Action
  samples : Bool → Action
  ticks : Action

abbrev pub act : Action → PresenceController → ℕ → Option PresenceOutcome × PresenceController
act (arms id) c now = (none, (arm c id now).1)
act disarms c now = (none, disarm c)
act (samples pressed) c now = update c pressed now
act ticks c now = poll c now

-- The controllers that a run reaches, with the time of its last action. Time does not go back, and
-- stays far from the end of a u64.
pub data Reach (timing : PresenceTiming) : ℕ → PresenceController → Type 0 where
  start : Reach timing 0 (new timing)
  next :
      {then : ℕ} {c : PresenceController}
      → Reach timing then c
      → (a : Action) (now : ℕ) → then ≤ now
      → now < 2 ^ 63
      → Reach timing now (act a c now).1

-- What is known of a pending operation at time t: it was armed by then, and unless a release is
-- awaited, the button was up when it was armed and any press since then is later.
abbrev IsFreshFor : Option Armed → ℕ → PresenceController → Type 0
IsFreshFor none t c = Unit
IsFreshFor (some a) t c =
    (a.deadline_ms ≤ t + c.timing.timeout_ms)
    × (c.awaiting_release ≡ false → c.debounced_pressed ≡ false)
    × (c.awaiting_release ≡ false
        → c.raw_pressed ≡ true
        → a.deadline_ms ≤ c.raw_change_ms + c.timing.timeout_ms)

record IsFresh (timing : PresenceTiming) (t : ℕ) (c : PresenceController) : Type 0 where
  same : c.timing ≡ timing
  past : c.raw_change_ms ≤ t
  fresh : IsFreshFor c.armed t c

module _ (timing : PresenceTiming) (short : timing.timeout_ms < 2 ^ 16) where
  act-IsFresh :
      (a : Action) (then now : ℕ) (c : PresenceController)
      → then ≤ now
      → now < 2 ^ 63
      → IsFresh timing then c
      → IsFresh timing now (act a c now).1
  unfolding arm disarm update poll
  act-IsFresh (arms id) then now c h b f = ground arith
  act-IsFresh disarms then now c h b f = ground arith
  act-IsFresh (samples true) then now c h b f = ground arith
  act-IsFresh (samples false) then now c h b f = ground arith
  act-IsFresh ticks then now c h b f = ground arith

  Reach-IsFresh : {t : ℕ} {c : PresenceController} → Reach timing t c → IsFresh timing t c
  unfolding new
  Reach-IsFresh start = record { same = refl; past = omega arith; fresh = tt }
  Reach-IsFresh (next {then = t} {c = c} r a now h b) = act-IsFresh a t now c h b (Reach-IsFresh r)

  -- What a confirmation of operation `id` at time `now` rests on: `id` was the operation armed
  -- before, and nothing is armed after; the button is down, for the debounce window at least; and
  -- it went down no earlier than the operation was armed, `timeout_ms` before its deadline.
  pub record IsEarned (id now : ℕ) (c c' : PresenceController) : Type 0 where
    pub armed : Armed
    pub was_armed : c.armed ≡ some armed
    pub same_operation : armed.operation_id ≡ id
    pub spent : c'.armed ≡ none
    pub down : c'.raw_pressed ≡ true
    pub debounced : c'.raw_change_ms + timing.debounce_ms ≤ now
    pub after_arming : armed.deadline_ms ≤ c'.raw_change_ms + timing.timeout_ms

  earned :
      (a : Action) (then now id : ℕ) (c : PresenceController)
      → then ≤ now
      → now < 2 ^ 63
      → IsFresh timing then c
      → (act a c now).0 ≡ some (confirmed id)
      → (o : Option Armed) → c.armed ≡ o
      → IsEarned id now c (act a c now).1
  unfolding update poll
  earned (arms i) then now id c h b f e o q = cc
  earned disarms then now id c h b f e o q = cc
  earned (samples true) then now id c h b f e none q = absurd (ground arith)
  earned (samples true) then now id c h b f e (some x) q = record {
    armed = x;
    was_armed = q;
    same_operation = ground arith;
    spent = ground arith;
    down = ground arith;
    debounced = ground arith;
    after_arming = ground arith;
  }
  earned (samples false) then now id c h b f e o q = absurd (ground arith)
  earned ticks then now id c h b f e none q = absurd (ground arith)
  earned ticks then now id c h b f e (some x) q = record {
    armed = x;
    was_armed = q;
    same_operation = ground arith;
    spent = ground arith;
    down = ground arith;
    debounced = ground arith;
    after_arming = ground arith;
  }

  -- In every run of the controller from `new`, with a timeout of a u16, times that do not go back
  -- and stay below 2 ^ 63, an action that confirms an operation confirms the armed one and disarms
  -- it; the button is down at that time, was pressed no earlier than the arming, and has been down
  -- for the debounce window.
  pub confirmed-IsEarned :
      {then : ℕ} {c : PresenceController}
      → Reach timing then c
      → (a : Action) (now id : ℕ) → then ≤ now
      → now < 2 ^ 63
      → (act a c now).0 ≡ some (confirmed id)
      → IsEarned id now c (act a c now).1
  confirmed-IsEarned {then} {c} r a now id h b e =
      earned a then now id c h b (Reach-IsFresh r) e c.armed refl
