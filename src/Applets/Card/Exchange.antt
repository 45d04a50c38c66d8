-- ===== src/Applets/Card/Exchange.antt =====
-- crates/aegis-applets/src/card.rs: one exchange, from a frame in the buffer to its reply, and the wait
-- for presence in between.
use aegis_token.Base.{
  ℕ, ◌≡◌, refl, ap, ◌∙◌, Bool, true, false, Result, ok, err, Option, none, some, and_then, List,
  ◌++◌, Bytes, length, at, subst,
}
use aegis_token.Applets.Apdu.{Response as ApduResponse}
use aegis_token.Applets.Ccid.{CcidError, overflow, pending, consume}
use aegis_token.Applets.Router.{Applet, Router}
use aegis_token.Applets.Router.Selection.{Settled, presence-IsValid}
use aegis_token.Applets.Card.{
  Card, Outcome, FrameOutcome, encoded, Handled, encode_data_block, feed, polled, match_result,
  response, poll_pending, poll_unless, poll, completed, complete_sequence, complete_presence,
}
use aegis_token.Applets.Ccid.Frames.{IsFrame, pending-append}
use aegis_token.Applets.Card.Reply.{
  IsReply, Replied, Answers, AnswersWith, encode_data_block-Replied, handle_frame-Answers,
}
use aegis_token.Applets.Card.Polling.{IsValid}

module _ {S : Type 0} (capacity : ℕ) (applets : List (Applet S)) where
  -- A poll that took a frame: what follows it is left in the buffer, and the result is a reply
  -- that echoes its sequence number, or the wait for presence under it, or the overflow of `out`.
  pub Polled : ℕ → Bytes → Option (Result CcidError (Option Outcome) × Card S × Bytes) → Type 0
  Polled sequence behind none = ⊥
  Polled sequence behind (some (err e, c, out)) = (c.assembler ≡ behind) × (e ≡ overflow)
  Polled sequence behind (some (ok none, c, out)) = ⊥
  Polled sequence behind (some (ok (some (response len)), c, out)) =
      (c.assembler ≡ behind) × IsReply sequence len out
  Polled sequence behind (some (ok (some Outcome.presence_required), c, out)) =
      (c.assembler ≡ behind) × (c.pending_sequence ≡ some sequence)

  match_result-Polled :
      (sequence : ℕ) (behind : Bytes) (result : Result CcidError FrameOutcome)
      (card : Option ℕ → Card S) (waits : Option ℕ) (out : Bytes)
      → ((q : Option ℕ) → ((card q).assembler ≡ behind) × ((card q).pending_sequence ≡ q))
      → AnswersWith sequence result out
      → Polled sequence behind (some (match_result capacity applets result card waits out))
  unfolding match_result AnswersWith Polled
  match_result-Polled sequence behind (err e) card waits out left a = ((left waits).0, a)
  match_result-Polled sequence behind (ok (encoded len)) card waits out left a = ((left waits).0, a)
  match_result-Polled sequence behind (ok (FrameOutcome.presence_required q)) card waits out left
        a =
      ((left (some q)).0, (left (some q)).1 ∙ ap some a)

  then_polled-Polled :
      (sequence : ℕ) (assembler behind : Bytes) (waits : Option ℕ) (handled : Option (Handled S))
      → assembler ≡ behind
      → Answers sequence handled
      → Polled sequence behind
          (and_then handled (λ h. some (polled capacity applets assembler waits h)))
  unfolding Answers polled
  then_polled-Polled sequence assembler behind waits none e a = absurd a
  then_polled-Polled sequence assembler behind waits (some h) e a =
      match_result-Polled sequence behind h.result _ waits h.out (λ q. (e, refl)) a

  taken-Polled :
      (waits : Option ℕ) (ready : Result CcidError (Option Bytes)) (message : ℕ) (c : Card S)
      (frame behind out : Bytes)
      → IsValid capacity applets c
      → ready ≡ ok (some frame)
      → consume c.assembler (length frame) ≡ behind
      → Polled (at frame 6) behind (poll_pending capacity applets ready c out)
  unfolding poll_pending
  taken-Polled waits ready message c frame behind out h r left = rw r (
      then_polled-Polled (at frame 6) (consume c.assembler (length frame)) behind c.pending_sequence
        _ left
        (handle_frame-Answers capacity applets frame c.router c.powered out h.powered_right.routed))

  unless-Polled :
      (waits : Option ℕ) (message : ℕ) (c : Card S) (frame behind out : Bytes)
      → IsValid capacity applets c
      → waits ≡ none
      → pending message c.assembler ≡ ok (some frame)
      → consume c.assembler (length frame) ≡ behind
      → Polled (at frame 6) behind (poll_unless capacity applets waits message c out)
  unfolding poll_unless
  unless-Polled none message c frame behind out h n r left =
      taken-Polled none _ message c frame behind out h r left
  unless-Polled (some q) message c frame behind out h n r left = absurd cc

  -- A whole frame at the front of the buffer, whatever it says, is taken by the next poll of a
  -- valid card on which nothing waits; the poll replies under byte 6 of the frame, or lets the
  -- operation wait under it, or fails by an overflow of `out`; the bytes behind the frame stay.
  pub poll_answers :
      (message : ℕ) (c : Card S) (frame behind out : Bytes)
      → IsValid capacity applets c
      → c.pending_sequence ≡ none
      → IsFrame message frame
      → c.assembler ≡ frame ++ behind
      → Polled (at frame 6) behind (poll capacity applets message c out)
  unfolding poll
  poll_answers message c frame behind out h n whole e =
      let (taken, left) = pending-append message frame behind whole in
      unless-Polled c.pending_sequence message c frame behind out h n
        (ap (λ (b : Bytes). pending message b) e ∙ taken)
        (ap (λ (b : Bytes). consume b (length frame)) e ∙ left)

  -- Packets and polls, the card's only events while an operation waits for presence.
  pub data Idles (message : ℕ) : Card S → Card S → Type 0 where
    here : (c : Card S) → Idles message c c
    fed :
        (c c' : Card S) (chunk : Bytes)
        → Idles message (feed capacity applets message c chunk).1 c'
        → Idles message c c'
    polled_to :
        (c c' c'' : Card S) (out out' : Bytes) (result : Result CcidError (Option Outcome))
        → poll capacity applets message c out ≡ some (result, c', out')
        → Idles message c' c''
        → Idles message c c''

  poll_waits :
      (waits : Option ℕ) (message : ℕ) (c c' : Card S) (out out' : Bytes)
      (result : Result CcidError (Option Outcome)) (sequence : ℕ)
      → waits ≡ some sequence
      → poll_unless capacity applets waits message c out ≡ some (result, c', out')
      → c' ≡ c
  unfolding poll_unless
  poll_waits none message c c' out out' result sequence w e = absurd cc
  poll_waits (some q) message c c' out out' result sequence w e = cc

  -- While an operation waits, no packet and no poll reaches the router: the applets, the selection,
  -- the power and the sequence number to answer under are what they were.
  pub waiting_holds :
      (message : ℕ) (c c' : Card S) (sequence : ℕ)
      → Idles message c c'
      → c.pending_sequence ≡ some sequence
      → (c'.router ≡ c.router) × (c'.powered ≡ c.powered) × (c'.pending_sequence ≡ some sequence)
  unfolding feed poll
  waiting_holds message c c' sequence (here _) w = (refl, refl, w)
  waiting_holds message c c' sequence (fed _ _ chunk rest) w =
      waiting_holds message _ c' sequence rest w
  waiting_holds message _ c'' sequence (polled_to c c' _ out out' result e rest) w =
      let same = poll_waits c.pending_sequence message c c' out out' result sequence w e in
      let held =
        waiting_holds message c' c'' sequence rest
          (ap (λ (x : Card S). x.pending_sequence) same ∙ w) in
      (
        held.0 ∙ ap (λ (x : Card S). x.router) same,
        held.1 ∙ ap (λ (x : Card S). x.powered) same,
        held.2,
      )

  -- The presence given or refused: the reply goes out under the sequence number that waited.
  pub Completed : ℕ → Option (Result CcidError (Option ℕ) × Card S × Bytes) → Type 0
  Completed sequence none = ⊥
  Completed sequence (some (err e, c, out)) = (e ≡ overflow) × (c.pending_sequence ≡ none)
  Completed sequence (some (ok none, c, out)) = ⊥
  Completed sequence (some (ok (some len), c, out)) =
      IsReply sequence len out × (c.pending_sequence ≡ none)

  completed-Completed :
      (sequence : ℕ) (c : Card S) (out : Result CcidError ℕ × Bytes)
      → c.pending_sequence ≡ none
      → Replied sequence out
      → Completed sequence (some (completed capacity applets c out))
  unfolding Completed completed Replied
  completed-Completed sequence c (err e, out) n r = (r, n)
  completed-Completed sequence c (ok len, out) n r = (r, n)

  then_completed-Completed :
      (sequence : ℕ) (c : Card S) (out : Bytes) (answered : Option (ApduResponse × Router S))
      → Settled capacity applets answered
      → Completed sequence (
          and_then answered (λ (r, router). some (
            completed capacity applets
              (record c { router = router; pending_sequence = none })
              (encode_data_block sequence r out))))
  unfolding Settled
  then_completed-Completed sequence c out none h = absurd h
  then_completed-Completed sequence c out (some (r, router)) h =
      completed-Completed sequence _ _ refl (encode_data_block-Replied sequence r out)

  sequence-Completed :
      (waits : Option ℕ) (confirmed : Bool) (c : Card S) (sequence : ℕ) (out : Bytes)
      → IsValid capacity applets c
      → waits ≡ some sequence
      → Completed sequence (complete_sequence capacity applets waits confirmed c out)
  unfolding complete_sequence
  sequence-Completed none confirmed c sequence out h w = absurd cc
  sequence-Completed (some q) true c sequence out h w =
      let same : q ≡ sequence = cc in
      subst (λ n. Completed n (complete_sequence capacity applets (some q) true c out)) same
        (then_completed-Completed q c out _
          (presence-IsValid capacity applets c.router h.powered_right.routed).0)
  sequence-Completed (some q) false c sequence out h w =
      let same : q ≡ sequence = cc in
      subst (λ n. Completed n (complete_sequence capacity applets (some q) false c out)) same
        (then_completed-Completed q c out _
          (presence-IsValid capacity applets c.router h.powered_right.routed).1)

  -- A valid card on which an operation waits completes it, confirmed or denied, by a reply under
  -- the sequence number that waits, or fails by an overflow of `out`, and waits no more.
  pub complete_answers :
      (confirmed : Bool) (c : Card S) (sequence : ℕ) (out : Bytes)
      → IsValid capacity applets c
      → c.pending_sequence ≡ some sequence
      → Completed sequence (complete_presence capacity applets confirmed c out)
  unfolding complete_presence
  complete_answers confirmed c sequence out h w =
      sequence-Completed c.pending_sequence confirmed c sequence out h w
