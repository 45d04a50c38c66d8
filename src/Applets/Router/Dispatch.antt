-- ===== src/Applets/Router/Dispatch.antt =====
-- crates/aegis-applets/src/router.rs: what a command does to the selection, to the applets and to
-- the response that is being chained.
use aegis_token.Base.{
  ap, ℕ, ◌≡◌, ◌≢◌, refl, Bool-cases, Option, none, some, and_then, List, Bytes, ◌==◌, ==→eq, eq→==,
  arith, Result, ok, err, ◌&&◌, ◌||◌, inl, inr,
}
use aegis_token.Applets.Apdu.Sw
use aegis_token.Applets.Apdu.Sw.{StatusWord}
use aegis_token.Applets.Apdu.{Apdu, Response, parse, clear, new_chainer, status, is_pending}
use aegis_token.Applets.Router.{
  Applet, Router, applet_at, position, select, select_found, call, answer, forward, route, command,
  cla_interindustry, ins_select, ins_get_response, select_by_df_name, ins_send_remaining,
}
use aegis_token.Applets.Router.Selection.{
  IsFirst, position-IsFirst, InRange, IsFirst-InRange, applet_at_lt, IsValid, Settled,
  command-IsValid,
}

module _ {S : Type 0} (capacity : ℕ) (applets : List (Applet S)) where
  -- What `SELECT` by the name `payload` leaves behind.
  pub Selected : Bytes → Router S → Option (Response × Router S) → Type 0
  Selected payload r none = ⊥
  Selected payload r (some (response, r')) =
      IsFirst applets payload r'.selected
      × (r'.chain ≡ new_chainer)
      × (r'.selected ≡ none
          → (response ≡ status Sw.file_not_found) × (r'.applets_state ≡ r.applets_state))
      × ((index : ℕ) (a : Applet S)
          → r'.selected ≡ some index
          → applet_at applets index ≡ some a
          → (response, r'.applets_state) ≡ a.select_with_rng r.applets_state)

  select_found-Selected :
      (payload : Bytes) (found : Option ℕ) (r : Router S)
      → IsFirst applets payload found
      → InRange applets found
      → Selected payload r
          (select_found capacity applets found (record r { chain = clear r.chain }))
  unfolding Selected select_found call InRange
  select_found-Selected payload none r h lt = (h, refl, (λ e. (refl, refl)), (λ i b t f. absurd cc))
  select_found-Selected payload (some index) r h lt =
      let (a, e) = applet_at_lt applets index lt in
      rw e (
        h,
        refl,
        (λ n. absurd cc),
        (λ i b t f.
            let same : a ≡ b = cc in ap (λ (x : Applet S). x.select_with_rng r.applets_state) same),
      )

  -- `SELECT` by name selects the first applet whose AID the name begins with and answers as its
  -- `select_with_rng`, or deselects, with status 6A82 and no applet called, where there is none; a
  -- pending response is dropped.
  pub select-Selected :
      (frame : Bytes) (apdu : Apdu) (r : Router S)
      → parse frame ≡ ok apdu
      → apdu.cla ≡ cla_interindustry
      → apdu.ins ≡ ins_select
      → apdu.p1 ≡ select_by_df_name
      → Selected apdu.payload r (command capacity applets frame r)
  unfolding command route select
  select-Selected frame apdu r e cla ins p1 =
      let first = position-IsFirst applets apdu.payload in
      rw (e, eq→== _ _ cla, eq→== _ _ ins, eq→== _ _ p1)
        (select_found-Selected apdu.payload (position applets apdu.payload) r first
          (IsFirst-InRange applets apdu.payload _ first))

  -- What a command that is no `SELECT` keeps.
  pub Kept : Router S → Option (Response × Router S) → Type 0
  Kept r none = Unit
  Kept r (some (response, r')) = r'.selected ≡ r.selected

  answer-Kept :
      (apdu : Apdu) (response : Response) (r : Router S)
      → (answer capacity applets apdu response r).1.selected ≡ r.selected
  unfolding answer
  answer-Kept apdu response r = ground arith

  call_answer-Kept :
      (apdu : Apdu) (r : Router S) (index : ℕ) (found : Option (Applet S))
      → Kept r (
          and_then
            (and_then found (λ a.
              let (response, s) = a.process apdu r.applets_state in
              some (response, record r { applets_state = s })))
            (λ (response, r'). some (answer capacity applets apdu response r')))
  unfolding Kept
  call_answer-Kept apdu r index none = tt
  call_answer-Kept apdu r index (some a) =
      answer-Kept apdu (a.process apdu r.applets_state).0
        (record r { applets_state = (a.process apdu r.applets_state).1 })

  forward-Kept :
      (to : Option ℕ) (apdu : Apdu) (r : Router S) → Kept r (forward capacity applets to apdu r)
  unfolding forward Kept call
  forward-Kept none apdu r = refl
  forward-Kept (some index) apdu r = call_answer-Kept apdu r index (applet_at applets index)

  route-Kept :
      (parsed : Result StatusWord Apdu) (r : Router S)
      → ((apdu : Apdu) → parsed ≡ ok apdu → apdu.cla ≡ cla_interindustry → apdu.ins ≢ ins_select)
      → Kept r (route capacity applets parsed r)
  unfolding route Kept
  route-Kept (err sw) r h = refl
  route-Kept (ok apdu) r h = elim (Bool-cases (apdu.cla == cla_interindustry)) [
    | inr e ↦ rw e refl
    | inl e ↦ elim (Bool-cases (apdu.ins == ins_select)) [
      | inl f ↦ absurd (h apdu refl (==→eq _ _ e) (==→eq _ _ f))
      | inr f ↦
          elim (Bool-cases (
            apdu.ins == ins_get_response
            || (apdu.ins == ins_send_remaining && is_pending r.chain))) [
              | inl g ↦ rw (e, f, g) refl
              | inr g ↦ rw (e, f, g) (forward-Kept r.selected apdu r)
            ]
    ]
  ]

  Settled-Kept :
      (r : Router S) (out : Option (Response × Router S))
      → Settled capacity applets out
      → Kept r out
      → (response : Response) × (r' : Router S) × (out ≡ some (response, r'))
        × (r'.selected ≡ r.selected)
  unfolding Settled Kept
  Settled-Kept r none s k = absurd s
  Settled-Kept r (some (response, r')) s k = (response, r', refl, k)

  -- A frame that is no `SELECT` of the interindustry class, malformed frames included, is answered
  -- and keeps the selection, whatever the applet does: only `SELECT` switches applets.
  pub command-keeps_selection :
      (frame : Bytes) (r : Router S)
      → IsValid capacity applets r
      → ((apdu : Apdu)
          → parse frame ≡ ok apdu
          → apdu.cla ≡ cla_interindustry
          → apdu.ins ≢ ins_select)
      → (response : Response) × (r' : Router S) × (command capacity applets frame r
          ≡ some (response, r'))
        × (r'.selected ≡ r.selected)
  unfolding command
  command-keeps_selection frame r valid h =
      Settled-Kept r (command capacity applets frame r)
        (command-IsValid capacity applets frame r valid) (route-Kept (parse frame) r h)
