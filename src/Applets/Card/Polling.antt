-- ===== src/Applets/Card/Polling.antt =====
-- crates/aegis-applets/src/card.rs: the card as its task drives it, by packets, polls and presence.
use aegis_token.Base.{
  ℕ, ◌≡◌, refl, Bool, true, false, Result, ok, err, Option, none, some, and_then, List, Bytes,
  length, subst,
}
use aegis_token.Applets.Apdu.{Response as ApduResponse}
use aegis_token.Applets.Ccid.{CcidError, pending, consume}
use aegis_token.Applets.Router.{Applet, Router}
use aegis_token.Applets.Router.Selection.{Settled, presence-IsValid}
use aegis_token.Applets.Card.{
  Card, Outcome, FrameOutcome, encoded, Handled, encode_data_block, feed, polled, match_result,
  poll_pending, poll_unless, poll, completed, complete_sequence, complete_presence, reset, new_card,
}
use aegis_token.Applets.Card.Power.{
  IsPoweredRight, Stable, handle_frame-Stable, reset-IsPoweredRight,
}

module _ {S : Type 0} (capacity : ℕ) (applets : List (Applet S)) where
  -- The router is valid and without power it is off; an operation waits only under power.
  pub record IsValid (c : Card S) : Type 0 where
    pub powered_right : IsPoweredRight capacity applets c.router c.powered
    pub waiting : (sequence : ℕ) → c.pending_sequence ≡ some sequence → c.powered ≡ true

  -- An operation that returns, with a valid card.
  pub Returns {ℓ} : {A : Type ℓ} → Option (A × Card S × Bytes) → Type 0
  Returns none = ⊥
  Returns (some (result, c, out)) = IsValid c

  polled-IsValid :
      (assembler : Bytes) (waits : Option ℕ) (h : Handled S)
      (result : Result CcidError FrameOutcome)
      → h.result ≡ result
      → waits ≡ none
      → Stable capacity applets (some h)
      → Returns (some (polled capacity applets assembler waits h))
  unfolding polled match_result Stable Returns
  polled-IsValid assembler waits h (err e) r n s =
      rw (r, n) (record { powered_right = s.0; waiting = λ q e. absurd cc })
  polled-IsValid assembler waits h (ok (encoded len)) r n s =
      rw (r, n) (record { powered_right = s.0; waiting = λ q e. absurd cc })
  polled-IsValid assembler waits h (ok (FrameOutcome.presence_required q)) r n s =
      rw r (record { powered_right = s.0; waiting = λ q' e. s.1 q r })

  then_polled-IsValid :
      (assembler : Bytes) (waits : Option ℕ) (out : Option (Handled S))
      → waits ≡ none
      → Stable capacity applets out
      → Returns (and_then out (λ h. some (polled capacity applets assembler waits h)))
  unfolding Stable
  then_polled-IsValid assembler waits none n s = absurd s
  then_polled-IsValid assembler waits (some h) n s =
      polled-IsValid assembler waits h h.result refl n s

  poll_pending-IsValid :
      (ready : Result CcidError (Option Bytes)) (c : Card S) (out : Bytes)
      → c.pending_sequence ≡ none
      → IsValid c
      → Returns (poll_pending capacity applets ready c out)
  unfolding poll_pending Returns
  poll_pending-IsValid (err e) c out n h = h
  poll_pending-IsValid (ok none) c out n h = h
  poll_pending-IsValid (ok (some frame)) c out n h =
      then_polled-IsValid (consume c.assembler (length frame)) c.pending_sequence _ n
        (handle_frame-Stable capacity applets frame c.router c.powered out h.powered_right)

  poll_unless-IsValid :
      (waits : Option ℕ) (message : ℕ) (c : Card S) (out : Bytes)
      → c.pending_sequence ≡ waits
      → IsValid c
      → Returns (poll_unless capacity applets waits message c out)
  unfolding poll_unless Returns
  poll_unless-IsValid none message c out n h =
      poll_pending-IsValid (pending message c.assembler) c out n h
  poll_unless-IsValid (some q) message c out n h = h

  completed-IsValid :
      (c : Card S) (out : Result CcidError ℕ × Bytes)
      → IsValid c
      → Returns (some (completed capacity applets c out))
  unfolding completed Returns
  completed-IsValid c (err e, out) h = h
  completed-IsValid c (ok len, out) h = h

  then_completed :
      (sequence : ℕ) (c : Card S) (out : Bytes) (answered : Option (ApduResponse × Router S))
      → c.powered ≡ true
      → Settled capacity applets answered
      → Returns (
          and_then answered (λ (r, router). some (
            completed capacity applets
              (record c { router = router; pending_sequence = none })
              (encode_data_block sequence r out))))
  unfolding Settled
  then_completed sequence c out none p h = absurd h
  then_completed sequence c out (some (r, router)) p h = completed-IsValid _ _ (record {
    powered_right = record { routed = h; unpowered = λ e. absurd cc };
    waiting = λ q e. absurd cc;
  })

  complete_sequence-IsValid :
      (waits : Option ℕ) (confirmed : Bool) (c : Card S) (out : Bytes)
      → c.pending_sequence ≡ waits
      → IsValid c
      → Returns (complete_sequence capacity applets waits confirmed c out)
  unfolding complete_sequence Returns
  complete_sequence-IsValid none confirmed c out w h = h
  complete_sequence-IsValid (some q) true c out w h =
      then_completed q c out _ (h.waiting q w)
        (presence-IsValid capacity applets c.router h.powered_right.routed).0
  complete_sequence-IsValid (some q) false c out w h =
      then_completed q c out _ (h.waiting q w)
        (presence-IsValid capacity applets c.router h.powered_right.routed).1

  -- How the firmware's task drives a card, from the power-up of the device.
  pub data Reaches (message : ℕ) : Card S → Type 0 where
    started : (s : S) → Reaches message (new_card s)
    fed :
        (c : Card S) (chunk : Bytes)
        → Reaches message c
        → Reaches message (feed capacity applets message c chunk).1
    polled_to :
        (c c' : Card S) (out out' : Bytes) (result : Result CcidError (Option Outcome))
        → poll capacity applets message c out ≡ some (result, c', out')
        → Reaches message c
        → Reaches message c'
    completed_to :
        (c c' : Card S) (confirmed : Bool) (out out' : Bytes) (result : Result CcidError (Option ℕ))
        → complete_presence capacity applets confirmed c out ≡ some (result, c', out')
        → Reaches message c
        → Reaches message c'
    reset_to : (c : Card S) → Reaches message c → Reaches message (reset c)

  Returns-at :
      {A : Type 0} (out : Option (A × Card S × Bytes)) (result : A) (c : Card S) (after : Bytes)
      → out ≡ some (result, c, after)
      → Returns out
      → IsValid c
  unfolding Returns
  Returns-at out result c after e h = subst Returns e h

  -- Every card that packets, polls, completions and resets reach from the start is valid: without
  -- power nothing is selected, no response is chained and no operation waits; the selected applet
  -- exists.
  pub Reaches-IsValid : (message : ℕ) (c : Card S) → Reaches message c → IsValid c
  unfolding feed complete_presence poll
  Reaches-IsValid message c (started s) = record {
    powered_right = reset-IsPoweredRight capacity applets (new_card s).router false;
    waiting = λ q e. absurd cc;
  }
  Reaches-IsValid message c (fed c' chunk r) =
      let h = Reaches-IsValid message c' r in
      record { powered_right = h.powered_right; waiting = h.waiting }
  Reaches-IsValid message c (polled_to c' c'' out out' result e r) =
      Returns-at _ result c'' out' e
        (poll_unless-IsValid c'.pending_sequence message c' out refl (Reaches-IsValid message c' r))
  Reaches-IsValid message c (completed_to c' c'' confirmed out out' result e r) =
      Returns-at _ result c'' out' e (
        complete_sequence-IsValid c'.pending_sequence confirmed c' out refl
          (Reaches-IsValid message c' r))
  Reaches-IsValid message c (reset_to c' r) = record {
    powered_right = reset-IsPoweredRight capacity applets c'.router false;
    waiting = λ q e. absurd cc;
  }

  -- The two operations of a valid card that reach the applets return, no index of an applet out of
  -- range, and leave the card valid.
  pub card-Returns :
      (message : ℕ) (confirmed : Bool) (c : Card S) (out : Bytes)
      → IsValid c
      → Returns (poll capacity applets message c out)
        × Returns (complete_presence capacity applets confirmed c out)
  unfolding complete_presence poll
  card-Returns message confirmed c out h = (
    poll_unless-IsValid c.pending_sequence message c out refl h,
    complete_sequence-IsValid c.pending_sequence confirmed c out refl h,
  )
