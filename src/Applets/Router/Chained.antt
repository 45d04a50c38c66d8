-- ===== src/Applets/Router/Chained.antt =====
-- crates/aegis-applets/src/router.rs: an applet's long answer, through the router to the host.
use aegis_token.Base.{ℕ, zero, suc, none, some, List, [], ◌++◌, Bytes, if◌then◌else◌}
use aegis_token.Applets.Apdu.Sw
use aegis_token.Applets.Apdu.Sw.{StatusWord}
use aegis_token.Applets.Apdu.{Apdu, is_pending}
use aegis_token.Applets.Router.{Applet, Router, command}

module _ {S : Type 0} (capacity : ℕ) (applets : List (Applet S)) where
  -- The host's loop: the same `GET RESPONSE` frame while something is pending.
  pub collect : ℕ → Bytes → Router S → Bytes
  collect zero get r = []
  collect (suc fuel) get r =
      let later : Bytes = elim (command capacity applets get r) [
        | none ↦ []
        | some (response, r') ↦ response.payload ++ collect fuel get r'
      ] in
      if is_pending r.chain then later else []
