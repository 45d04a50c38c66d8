-- ===== src/Applets/Router.antt =====
-- crates/aegis-applets/src/router.rs: the selection of one applet by AID, the dispatch to it and the
-- chaining of its answers. The applets share one state `S`, which holds the generator too; `none`
-- is the panic of `applets[index]` out of range.
pub mod Selection
pub mod Dispatch
pub mod Chained
mod Examples
use aegis_token.Base.{
  ℕ, zero, suc, Bool, true, false, ◌&&◌, ◌||◌, not, ◌==◌, if◌then◌else◌, Option, none, some, List,
  [], ◌∷◌, Bytes, and_then, Result, ok, err,
}
use aegis_token.Applets.Apdu.Sw
use aegis_token.Applets.Apdu.Sw.{StatusWord}
use aegis_token.Applets.Apdu.{
  Apdu, Response, Chainer, status, ok_response, new_chainer, clear, is_pending, get_response, begin,
  parse, expected_len,
}

abbrev pub cla_interindustry : ℕ
cla_interindustry = 0x00

abbrev pub ins_select : ℕ
ins_select = 0xa4

abbrev pub ins_get_response : ℕ
ins_get_response = 0xc0

abbrev pub ins_send_remaining : ℕ
ins_send_remaining = 0xa5

abbrev pub select_by_df_name : ℕ
select_by_df_name = 0x04

-- The trait, its methods as functions of the applets' state.
pub record Applet (S : Type 0) : Type 0 where
  pub aid : Bytes
  pub select_with_rng : S → Response × S
  pub process : Apdu → S → Response × S
  pub confirm_presence : S → Response × S
  pub deny_presence : S → Response × S

-- crates/aegis-applets/src/placeholder.rs, with the trait's own bodies for what it leaves out.
abbrev pub placeholder : {S : Type 0} → Bytes → Applet S
placeholder aid = record {
  aid = aid;
  select_with_rng = λ s. (ok_response [], s);
  process = λ apdu s. (status Sw.ins_not_supported, s);
  confirm_presence = λ s. (status Sw.conditions_not_satisfied, s);
  deny_presence = λ s. (status Sw.security_status_not_satisfied, s);
}

pub record Router (S : Type 0) : Type 0 where
  pub selected : Option ℕ
  pub chain : Chainer
  pub applets_state : S

abbrev pub new_router : {S : Type 0} → S → Router S
new_router s = record { selected = none; chain = new_chainer; applets_state = s }

abbrev pub reset : {S : Type 0} → Router S → Router S
reset r = record r { selected = none; chain = clear r.chain }

-- `apdu.data.starts_with(aid)`
pub starts_with : Bytes → Bytes → Bool
starts_with payload [] = true
starts_with [] (a ∷ aid) = false
starts_with (x ∷ payload) (a ∷ aid) = x == a && starts_with payload aid

-- `applets[index]`
unfoldable pub applet_at : {S : Type 0} → List (Applet S) → ℕ → Option (Applet S)
applet_at [] index = none
applet_at (a ∷ applets) zero = some a
applet_at (a ∷ applets) (suc index) = applet_at applets index

-- `applets.iter().position(…)`
pub position : {S : Type 0} → List (Applet S) → Bytes → Option ℕ
position [] payload = none
position (a ∷ applets) payload =
    let later = and_then (position applets payload) (λ i. some (suc i)) in
    if starts_with payload a.aid then some zero else later

-- What the chainer answers, and the router around it.
abbrev with_chain : {S : Type 0} → Router S → Response × Chainer → Response × Router S
with_chain r (response, chain) = (response, record r { chain = chain })

module _ {S : Type 0} (capacity : ℕ) (applets : List (Applet S)) where
  pub selected_aid : Router S → Option Bytes
  selected_aid r =
      and_then r.selected (λ index. and_then (applet_at applets index) (λ a. some a.aid))

  -- A method of `applets[index]`.
  unfoldable pub call : (Applet S → S → Response × S) → ℕ → Router S → Option (Response × Router S)
  call method index r = and_then (applet_at applets index) (λ a.
      let (response, s) = method a r.applets_state in
      some (response, record r { applets_state = s }))

  -- The `match found` of `SELECT`, the chain cleared before it.
  pub select_found : Option ℕ → Router S → Option (Response × Router S)
  select_found none r = some (status Sw.file_not_found, record r { selected = none })
  select_found (some index) r =
      call (λ a. a.select_with_rng) index (record r { selected = some index })

  -- `SELECT` by name, the class and the instruction tested before.
  pub select : Apdu → Router S → Option (Response × Router S)
  select apdu r =
      if not (apdu.p1 == select_by_df_name)
      then some (status Sw.incorrect_parameters, r)
      else select_found (position applets apdu.payload) (record r { chain = clear r.chain })

  -- What becomes of an applet's answer.
  unfoldable pub answer : Apdu → Response → Router S → Response × Router S
  answer apdu response r =
      if response.sw == Sw.presence_required
      then (response, r)
      else if Sw.is_success response.sw
      then with_chain r (begin capacity r.chain response.payload (expected_len apdu))
      else (response, r)

  -- Every other command goes to the selected applet.
  unfoldable pub forward : Option ℕ → Apdu → Router S → Option (Response × Router S)
  forward none apdu r = some (status Sw.conditions_not_satisfied, r)
  forward (some index) apdu r =
      and_then (call (λ a. a.process apdu) index r)
        (λ (response, r'). some (answer apdu response r'))

  -- `command`, the frame parsed.
  unfoldable pub route : Result StatusWord Apdu → Router S → Option (Response × Router S)
  route (err sw) r = some (status sw, r)
  route (ok apdu) r =
      if not (apdu.cla == cla_interindustry)
      then some (status Sw.cla_not_supported, r)
      else if apdu.ins == ins_select
      then select apdu r
      else if apdu.ins == ins_get_response || (apdu.ins == ins_send_remaining && is_pending r.chain)
      then some (with_chain r (get_response r.chain (expected_len apdu)))
      else forward r.selected apdu r

  unfoldable pub command : Bytes → Router S → Option (Response × Router S)
  command frame r = route (parse frame) r

  -- The `let Some(index) = self.selected else` of the two that follow.
  pub on_selected :
      Option ℕ → (Applet S → S → Response × S) → Router S → Option (Response × Router S)
  on_selected none method r = some (status Sw.conditions_not_satisfied, r)
  on_selected (some index) method r = call method index r

  pub confirm_presence : Router S → Option (Response × Router S)
  confirm_presence r = on_selected r.selected (λ a. a.confirm_presence) r

  pub deny_presence : Router S → Option (Response × Router S)
  deny_presence r = on_selected r.selected (λ a. a.deny_presence) r
