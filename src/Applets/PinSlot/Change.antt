-- ===== src/Applets/PinSlot/Change.antt =====
-- The change by a body that holds both PINs: the scan finds the split.
use aegis_token.Base.{
  dec_lt, subst, ℕ, zero, suc, ◌+◌, ◌-◌, ◌≤◌, ◌<◌, ◌≡◌, ◌≢◌, refl, sym, ap, ◌∙◌, Bool, true, false,
  Bool-cases, Result, ok, none, some, inl, inr, ◌++◌, length, take, drop, Bytes, length-append,
  take-append, drop-append, arith,
}
use aegis_token.Applets.Apdu.Sw
use aegis_token.Applets.PinSlot.{
  PinSlot, PinHash, PinHashFormat, hash_of, hash_verify, scan, lowest, highest, resolve_change,
  change, set, verify,
}
use aegis_token.Applets.PinSlot.Retries.{right_accepted}

module _ (digest : Bytes → Bytes) (hash : PinHash) (format : PinHashFormat) (body : Bytes) where
  -- The prefix of the given length verifies.
  abbrev matches : ℕ → Bool
  matches split = hash_verify digest hash (take split body) format

  scan_kept : (count split m : ℕ) → scan digest hash format body count split (some m) ≡ some m
  unfolding scan
  scan_kept zero split m = refl
  scan_kept (suc count) split m = ground (arith, scan_kept count (split + 1) m)

  -- The first match, if the splits from `split` on hold one within `count`.
  scan_found :
      (count split k : ℕ)
      → split ≤ k
      → k < split + count
      → matches k ≡ true
      → ((j : ℕ) → split ≤ j → j < k → matches j ≡ false)
      → scan digest hash format body count split none ≡ some k
  unfolding scan
  scan_found zero split k h b m first = absurd (omega arith)
  scan_found (suc count) split k h b m first = elim (dec_lt split k) [
    | yes later ↦ rw (first split (omega arith) later) (
        scan_found count (split + 1) k (omega arith) (omega arith) m
          (λ j p q. first j (omega arith) q))
    | no now ↦
        let here : k ≡ split = omega arith in
        rw (subst (λ (i : ℕ). matches i ≡ true) here m)
          (scan_kept count (split + 1) split ∙ ap some (sym here))
  ]

  scan_stops :
      (count split : ℕ)
      → matches split ≡ true
      → scan digest hash format body (suc count) split none ≢ none
  unfolding scan
  scan_stops count split m e = ground (arith, scan_kept count (split + 1) split)

  scan_goes_on :
      (count split : ℕ)
      → matches split ≡ false
      → scan digest hash format body (suc count) split none ≡ none
      → scan digest hash format body count (split + 1) none ≡ none
  unfolding scan
  scan_goes_on count split m e = rw m at e

  scan-none :
      (count split : ℕ)
      → scan digest hash format body count split none ≡ none
      → (j : ℕ) → split ≤ j
      → j < split + count
      → matches j ≡ false
  scan-none zero split e j h b = absurd (omega arith)
  scan-none (suc count) split e j h b = elim (Bool-cases (matches split)) [
    | inl m ↦ absurd (scan_stops count split m e)
    | inr m ↦ elim (dec_lt split j) [
      | yes later ↦
          scan-none count (split + 1) (scan_goes_on count split m e) j (omega arith) (omega arith)
      | no now ↦ subst (λ (i : ℕ). matches i ≡ false) (omega arith) m
    ]
  ]

-- The change that a command makes with the body, once the split is known.
abbrev pub change_at :
    (Bytes → Bytes) → PinSlot → Bytes → ℕ → Result Sw.StatusWord (Unit {0}) × PinSlot
change_at digest s body split = change digest s (take split body) (drop split body)

module _ (digest : Bytes → Bytes) (s : PinSlot) (h : PinHash) (r : ℕ) where
  abbrev pub passes : Bytes → ℕ → Bool
  passes body split = hash_verify digest h (take split body) s.policy.format

  -- The window of splits that leave both halves within the policy's lengths.
  abbrev pub InWindow : Bytes → ℕ → Type 0
  InWindow body split = (lowest s.policy body ≤ split) × (split ≤ highest s.policy body)

  resolved_some :
      (body : Bytes) (k : ℕ)
      → s.hash ≡ some h
      → s.retries_remaining ≡ suc r
      → scan digest h s.policy.format body
          (highest s.policy body + 1 - lowest s.policy body)
          (lowest s.policy body)
          none
        ≡ some k
      → resolve_change digest s body ≡ (ok (some k), s)
  unfolding resolve_change
  resolved_some body k e n q = ground arith

  changed :
      (current new : Bytes)
      → s.hash ≡ some h
      → s.retries_remaining ≡ suc r
      → h ≡ hash_of digest current s.policy.format
      → (s.policy.min_len ≤ length new) × (length new ≤ s.policy.max_len)
      → change digest s current new ≡ (
        ok tt,
        record s {
          hash = some (hash_of digest new s.policy.format);
          retries_remaining = s.policy.max_attempts;
        },
      )
  unfolding change verify set
  changed current new e n q b = ground (arith, right_accepted digest s h current q)

  -- A body `current‖new` of the stored PIN and a new one, both of the policy's lengths, resolves
  -- to the length of the stored PIN and consumes no attempt, unless a shorter prefix in the window
  -- has the same digest; and the change at that split installs the new PIN with all attempts.
  pub resolve_change-append :
      (current new : Bytes)
      → s.hash ≡ some h
      → s.retries_remaining ≡ suc r
      → h ≡ hash_of digest current s.policy.format
      → (s.policy.min_len ≤ length current) × (length current ≤ s.policy.max_len)
      → (s.policy.min_len ≤ length new) × (length new ≤ s.policy.max_len)
      → ((j : ℕ)
          → InWindow (current ++ new) j
          → j < length current
          → passes (current ++ new) j ≡ false)
      → (resolve_change digest s (current ++ new) ≡ (ok (some (length current)), s))
        × (change_at digest s (current ++ new) (length current) ≡ (
          ok tt,
          record s {
            hash = some (hash_of digest new s.policy.format);
            retries_remaining = s.policy.max_attempts;
          },
        ))
  resolve_change-append current new e n q (c0, c1) (n0, n1) first =
      let size : length (current ++ new) ≡ length current + length new =
        length-append current new in
      let here : take (length current) (current ++ new) ≡ current = take-append current new in
      (
        resolved_some (current ++ new) (length current) e n (
            scan_found digest h s.policy.format (current ++ new) _
              (lowest s.policy (current ++ new)) (length current) (omega arith) (omega arith)
              (rw here (right_accepted digest s h current q))
              (λ j p b. first j (p, omega arith) b)),
        rw (here, drop-append current new) (changed current new e n q (n0, n1)),
      )

  unresolved :
      (body : Bytes)
      → s.hash ≡ some h
      → s.retries_remaining ≡ suc r
      → (resolve_change digest s body).0 ≡ ok none
      → (resolve_change digest s body).1 ≡ record s { retries_remaining = r }
  unfolding resolve_change
  unresolved body e n q = ground arith

  scanned :
      (body : Bytes)
      → s.hash ≡ some h
      → s.retries_remaining ≡ suc r
      → (resolve_change digest s body).0 ≡ ok none
      → scan digest h s.policy.format body
          (highest s.policy body + 1 - lowest s.policy body)
          (lowest s.policy body)
          none
        ≡ none
  unfolding resolve_change
  scanned body e n q = ground arith

  -- A body that does not resolve matches nowhere in the window, and consumes exactly one attempt.
  pub resolve_change-none :
      (body : Bytes)
      → s.hash ≡ some h
      → s.retries_remaining ≡ suc r
      → (resolve_change digest s body).0 ≡ ok none
      → ((resolve_change digest s body).1 ≡ record s { retries_remaining = r })
        × ((split : ℕ) → InWindow body split → passes body split ≡ false)
  resolve_change-none body e n q = (
    unresolved body e n q,
    λ split w.
        scan-none digest h s.policy.format body (highest s.policy body + 1 - lowest s.policy body)
          (lowest s.policy body) (scanned body e n q) split w.0 (omega (arith, w.1)),
  )
