-- ===== src/Core/Management/Assembly.antt =====
-- crates/aegis-core/src/management.rs: the assembler on the frames of one message.
use aegis_token.Base.{
  ℕ, zero, suc, ◌+◌, ◌-◌, ◌%◌, ◌^◌, ◌≤◌, ◌<◌, min, ◌≡◌, ap, ◌∙◌, ok, none, some, [], ◌∷◌, ◌++◌,
  Bytes, length, take, drop, zeros, length-take, length-drop, length-replicate, take-overlay,
  take-all, arith,
}
use aegis_token.Core.Management.{
  init_frame, cont_frame, Message, InProgress, Assembler, accept, max_message_bytes,
}
use aegis_token.Core.Management.Reports.{padded, length-padded}

-- What the fragment that reaches from one offset to another is.
abbrev pub cut : Bytes → ℕ → ℕ → Bytes
cut payload offset stop = take (stop - offset) (drop offset payload)

pub length-cut :
    (payload : Bytes) (offset stop : ℕ)
    → stop ≤ length payload
    → length (cut payload offset stop) ≡ stop - offset
length-cut payload offset stop h =
    omega (arith, length-take (stop - offset) (drop offset payload), length-drop offset payload)

-- A prefix and the fragment behind it are the longer prefix.
pub take-cut :
    (payload : Bytes) (offset stop : ℕ)
    → offset ≤ stop
    → take offset payload ++ cut payload offset stop ≡ take stop payload
take-cut payload zero stop h = let e : stop - 0 ≡ stop = omega arith in ap (λ n. take n payload) e
take-cut [] (suc offset) (suc stop) h = take-all (suc stop - suc offset) [] (omega arith)
take-cut [] (suc offset) zero h = absurd (omega arith)
take-cut (x ∷ payload) (suc offset) zero h = absurd (omega arith)
take-cut (x ∷ payload) (suc offset) (suc stop) h =
    let e : suc stop - suc offset ≡ stop - offset = omega arith in
    ap (λ n. x ∷ (take offset payload ++ take n (drop offset payload))) e
    ∙ ap (◌∷◌ x) (take-cut payload offset stop (omega arith))

take_field : (k : ℕ) (c : Bytes) → k ≡ length c → length c ≤ 59 → take k (padded c) ≡ c
take_field k c e h = rw e (take-overlay c (zeros 59) (omega (arith, length-replicate {A = ℕ} 59 0)))

module _ (command : ℕ) (payload : Bytes) where
  abbrev pub message : Message
  message = record { command = command; payload = payload }

  -- The message in flight with its first bytes received.
  abbrev pub progress : ℕ → ℕ → InProgress
  progress offset seq = record {
    command = command;
    expected = length payload;
    received = offset;
    next_sequence = seq;
    buffer = take offset payload;
  }

  pub accept_more :
      (offset stop seq : ℕ)
      → offset < stop
      → stop ≤ offset + 59
      → stop < length payload
      → (offset + 59 ≤ stop)
      → length payload ≤ max_message_bytes
      → accept
          (some (progress offset seq))
          (cont_frame command seq (padded (cut payload offset stop)))
        ≡ (ok none, some (progress stop ((seq + 1) % 2 ^ 16)))
  unfolding accept
  accept_more offset stop seq move short more full fits = ground (
    arith,
    length-padded (cut payload offset stop),
    length-cut payload offset stop,
    take_field (min (length payload - offset) (length (padded (cut payload offset stop))))
        (cut payload offset stop)
        (omega (
          arith,
          length-padded (cut payload offset stop),
          length-cut payload offset stop (omega arith),
        ))
        (omega (arith, length-cut payload offset stop (omega arith))),
    length-take offset payload,
    take-cut payload offset stop,
  )

  pub accept_last :
      (offset seq : ℕ)
      → offset < length payload
      → length payload ≤ offset + 59
      → length payload ≤ max_message_bytes
      → accept
          (some (progress offset seq))
          (cont_frame command seq (padded (cut payload offset (length payload))))
        ≡ (ok (some message), none)
  unfolding accept
  accept_last offset seq move short fits =
      let stop = length payload in
      ground (
        arith,
        length-padded (cut payload offset stop),
        length-cut payload offset stop,
        take_field (min (length payload - offset) (length (padded (cut payload offset stop))))
            (cut payload offset stop)
            (omega (
              arith,
              length-padded (cut payload offset stop),
              length-cut payload offset stop (omega arith),
            ))
            (omega (arith, length-cut payload offset stop (omega arith))),
        length-take offset payload,
        take-cut payload offset stop (omega arith) ∙ take-all stop payload (omega arith),
      )

  pub accept_whole :
      (a : Assembler)
      → length payload ≤ 59
      → accept a (init_frame command (length payload) (padded payload)) ≡ (ok (some message), none)
  unfolding accept
  accept_whole a short = ground (
    arith,
    length-padded payload,
    take_field (min (length payload) (length (padded payload))) payload
        (omega (arith, length-padded payload)) short,
  )

  accept_first_of :
      (a : Assembler) (expected : ℕ) (c : Bytes)
      → length c ≡ 59
      → 59 < expected
      → expected ≤ 2048
      → accept a (init_frame command expected (padded c)) ≡ (
        ok none,
        some (record {
          command = command;
          expected = expected;
          received = 59;
          next_sequence = 0;
          buffer = c;
        }),
      )
  unfolding accept
  accept_first_of a expected c e more fits = ground (
    arith,
    length-padded c,
    take_field (min expected (length (padded c))) c (omega (arith, length-padded c)),
  )

  pub accept_first :
      (a : Assembler)
      → 59 < length payload
      → length payload ≤ max_message_bytes
      → accept a (init_frame command (length payload) (padded (take 59 payload)))
        ≡ (ok none, some (progress 59 0))
  accept_first a more fits =
      accept_first_of a (length payload) (take 59 payload) (omega (arith, length-take 59 payload))
        more fits
