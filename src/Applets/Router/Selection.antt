-- ===== src/Applets/Router/Selection.antt =====
-- crates/aegis-applets/src/router.rs: what is selected, and that `applets[index]` stays in range.
use aegis_token.Base.{
  ℕ, zero, suc, ◌<◌, ◌≡◌, refl, true, false, Bool-cases, Option, none, some, and_then, List, [],
  ◌∷◌, ◌++◌, Bytes, length, ◌==◌, arith, Result, ok, err, ◌&&◌, ◌||◌, inl, inr,
}
use aegis_token.Applets.Apdu.Sw
use aegis_token.Applets.Apdu.Sw.{StatusWord}
use aegis_token.Applets.Apdu.{Apdu, Response, Chainer, parse, clear, is_pending, expected_len}
use aegis_token.Applets.Apdu.Chaining.{IsServing, get_response-IsServing, begin-IsServing}
use aegis_token.Applets.Router.{
  Applet, Router, starts_with, applet_at, position, select, select_found, call, on_selected, route,
  ins_send_remaining, answer, forward, command, confirm_presence, deny_presence, cla_interindustry,
  ins_select, ins_get_response, select_by_df_name,
}

-- An index in range has its applet.
unfoldable pub InRange : {S : Type 0} → List (Applet S) → Option ℕ → Type 0
InRange applets none = Unit
InRange applets (some index) = index < length applets

pub applet_at_lt :
    {S : Type 0} (applets : List (Applet S)) (index : ℕ)
    → index < length applets
    → (a : Applet S) × (applet_at applets index ≡ some a)
unfolding applet_at
applet_at_lt [] index h = absurd (omega arith)
applet_at_lt (a ∷ applets) zero h = (a, refl)
applet_at_lt (a ∷ applets) (suc index) h = applet_at_lt applets index (omega arith)

-- The first applet whose AID the name begins with: none before it matches, and it does.
pub IsFirst : {S : Type 0} → List (Applet S) → Bytes → Option ℕ → Type 0
IsFirst [] payload none = Unit
IsFirst [] payload (some index) = ⊥
IsFirst (a ∷ applets) payload none =
    (starts_with payload a.aid ≡ false) × IsFirst applets payload none
IsFirst (a ∷ applets) payload (some zero) = starts_with payload a.aid ≡ true
IsFirst (a ∷ applets) payload (some (suc index)) =
    (starts_with payload a.aid ≡ false) × IsFirst applets payload (some index)

IsFirst-later :
    {S : Type 0} (a : Applet S) (applets : List (Applet S)) (payload : Bytes) (found : Option ℕ)
    → starts_with payload a.aid ≡ false
    → IsFirst applets payload found
    → IsFirst (a ∷ applets) payload (and_then found (λ i. some (suc i)))
unfolding IsFirst
IsFirst-later a applets payload none h f = (h, f)
IsFirst-later a applets payload (some index) h f = (h, f)

pub position-IsFirst :
    {S : Type 0} (applets : List (Applet S)) (payload : Bytes)
    → IsFirst applets payload (position applets payload)
unfolding IsFirst position
position-IsFirst [] payload = tt
position-IsFirst (a ∷ applets) payload = elim (Bool-cases (starts_with payload a.aid)) [
  | inl e ↦ rw e e
  | inr e ↦ rw e (
      IsFirst-later a applets payload (position applets payload) e
        (position-IsFirst applets payload))
]

pub IsFirst-InRange :
    {S : Type 0} (applets : List (Applet S)) (payload : Bytes) (found : Option ℕ)
    → IsFirst applets payload found
    → InRange applets found
unfolding IsFirst InRange
IsFirst-InRange applets payload none h = tt
IsFirst-InRange [] payload (some index) h = absurd h
IsFirst-InRange (a ∷ applets) payload (some zero) h = omega arith
IsFirst-InRange (a ∷ applets) payload (some (suc index)) h =
    omega (arith, IsFirst-InRange applets payload (some index) h.1)

-- `starts_with` is the prefix order.
pub starts_with-append : (aid tail : Bytes) → starts_with (aid ++ tail) aid ≡ true
unfolding starts_with
starts_with-append [] tail = refl
starts_with-append (a ∷ aid) tail = ground (arith, starts_with-append aid tail)

starts_with_sound :
    (payload aid : Bytes)
    → starts_with payload aid ≡ true
    → (tail : Bytes) × (payload ≡ aid ++ tail)
unfolding starts_with
starts_with_sound payload [] h = (payload, refl)
starts_with_sound [] (a ∷ aid) h = absurd (ground arith)
starts_with_sound (x ∷ payload) (a ∷ aid) h =
    let (tail, e) = starts_with_sound payload aid (ground arith) in
    let head : x ≡ a = ground arith in (tail, cc)

-- What every operation keeps: the selection names an applet, the chainer holds what it may.
pub record IsValid {S : Type 0} (capacity : ℕ) (applets : List (Applet S)) (r : Router S)
    : Type 0 where
  pub in_range : InRange applets r.selected
  pub serving : IsServing capacity r.chain

-- A result that is there, with a router that is valid.
unfoldable pub Settled : {S : Type 0} → ℕ → List (Applet S) → Option (Response × Router S) → Type 0
Settled capacity applets none = ⊥
Settled capacity applets (some (response, r)) = IsValid capacity applets r

module _ {S : Type 0} (capacity : ℕ) (applets : List (Applet S)) where
  cleared : (c : Chainer) → IsServing capacity (clear c)
  cleared c = record { within = omega arith; fits = omega arith }

  call-Settled :
      (method : Applet S → S → Response × S) (index : ℕ) (r : Router S)
      → index < length applets
      → IsValid capacity applets r
      → Settled capacity applets (call capacity applets method index r)
  unfolding call Settled
  call-Settled method index r lt h =
      let (a, e) = applet_at_lt applets index lt in
      rw e (record { in_range = h.in_range; serving = h.serving })

  select_found-Settled :
      (found : Option ℕ) (r : Router S)
      → InRange applets found
      → IsServing capacity r.chain
      → Settled capacity applets (select_found capacity applets found r)
  unfolding select_found Settled InRange
  select_found-Settled none r lt h = record { in_range = tt; serving = h }
  select_found-Settled (some index) r lt h =
      call-Settled (λ a. a.select_with_rng) index (record r { selected = some index }) lt
        (record { in_range = lt; serving = h })

  select-Settled :
      (apdu : Apdu) (r : Router S)
      → IsValid capacity applets r
      → Settled capacity applets (select capacity applets apdu r)
  unfolding select Settled
  select-Settled apdu r h = elim (Bool-cases (apdu.p1 == select_by_df_name)) [
    | inr e ↦ rw e h
    | inl e ↦ rw e (
        select_found-Settled (position applets apdu.payload) (record r { chain = clear r.chain })
          (IsFirst-InRange applets apdu.payload _ (position-IsFirst applets apdu.payload))
          (cleared r.chain))
  ]

  answer-IsValid :
      (apdu : Apdu) (response : Response) (r : Router S)
      → IsValid capacity applets r
      → IsValid capacity applets (answer capacity applets apdu response r).1
  unfolding answer
  answer-IsValid apdu response r h = elim (Bool-cases (response.sw == Sw.presence_required)) [
    | inl e ↦ rw e h
    | inr e ↦ elim (Bool-cases (Sw.is_success response.sw)) [
      | inl f ↦
          rw (e, f)
            (record {
              in_range = h.in_range;
              serving = begin-IsServing capacity r.chain response.payload (expected_len apdu);
            })
      | inr f ↦ rw (e, f) h
    ]
  ]

  then_answer :
      (apdu : Apdu) (out : Option (Response × Router S))
      → Settled capacity applets out
      → Settled capacity applets
          (and_then out (λ (response, r). some (answer capacity applets apdu response r)))
  unfolding Settled
  then_answer apdu none h = absurd h
  then_answer apdu (some (response, r)) h = answer-IsValid apdu response r h

  forward-Settled :
      (to : Option ℕ) (apdu : Apdu) (r : Router S)
      → InRange applets to
      → IsValid capacity applets r
      → Settled capacity applets (forward capacity applets to apdu r)
  unfolding forward Settled InRange
  forward-Settled none apdu r lt h = h
  forward-Settled (some index) apdu r lt h =
      then_answer apdu _ (call-Settled (λ a. a.process apdu) index r lt h)

  routed :
      (parsed : Result StatusWord Apdu) (r : Router S)
      → IsValid capacity applets r
      → Settled capacity applets (route capacity applets parsed r)
  unfolding route Settled
  routed (err sw) r h = h
  routed (ok apdu) r h = elim (Bool-cases (apdu.cla == cla_interindustry)) [
    | inr e ↦ rw e h
    | inl e ↦ elim (Bool-cases (apdu.ins == ins_select)) [
      | inl f ↦ rw (e, f) (select-Settled apdu r h)
      | inr f ↦
          elim (Bool-cases (
            apdu.ins == ins_get_response
            || (apdu.ins == ins_send_remaining && is_pending r.chain))) [
              | inl g ↦
                  rw (e, f, g)
                    (record {
                      in_range = h.in_range;
                      serving =
                          get_response-IsServing capacity r.chain (expected_len apdu) h.serving;
                    })
              | inr g ↦ rw (e, f, g) (forward-Settled r.selected apdu r h.in_range h)
            ]
    ]
  ]

  -- A valid router answers every frame, `applets[index]` in range, and stays valid.
  pub command-IsValid :
      (frame : Bytes) (r : Router S)
      → IsValid capacity applets r
      → Settled capacity applets (command capacity applets frame r)
  unfolding command
  command-IsValid frame r h = routed (parse frame) r h

  on_selected-Settled :
      (to : Option ℕ) (method : Applet S → S → Response × S) (r : Router S)
      → InRange applets to
      → IsValid capacity applets r
      → Settled capacity applets (on_selected capacity applets to method r)
  unfolding on_selected Settled InRange
  on_selected-Settled none method r lt h = h
  on_selected-Settled (some index) method r lt h = call-Settled method index r lt h

  -- So do the two completions of an operation that waits for presence.
  pub presence-IsValid :
      (r : Router S)
      → IsValid capacity applets r
      → Settled capacity applets (confirm_presence capacity applets r)
        × Settled capacity applets (deny_presence capacity applets r)
  unfolding confirm_presence deny_presence
  presence-IsValid r h = (
    on_selected-Settled r.selected (λ a. a.confirm_presence) r h.in_range h,
    on_selected-Settled r.selected (λ a. a.deny_presence) r h.in_range h,
  )
