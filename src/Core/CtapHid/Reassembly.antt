-- ===== src/Core/CtapHid/Reassembly.antt =====
-- crates/aegis-core/src/ctaphid.rs: the reassembly of every message that fits.
use aegis_token.Base.{
  ℕ, zero, suc, ◌+◌, ◌-◌, ◌*◌, ◌%◌, ◌≤◌, ◌<◌, min, ◌≡◌, refl, ap, ◌∙◌, Result, ok, Option, none,
  some, List, [], ◌∷◌, ◌++◌, append_assoc, Bytes, length, take, drop, replicate, zeros,
  length-append, length-take, length-drop, length-replicate, take-overlay, take-all, drop-all,
  take-append-drop, low_seven, arith,
}
use native.Mathlib.Decide.{dec_lt}
use aegis_token.Core.Error.{CoreError}
use aegis_token.Core.CtapHid.{
  CtapHidCommand, Packet, init_packet, cont_packet, Message, InProgress, Assembler, accept,
  max_message_bytes,
}
use aegis_token.Core.CtapHid.Packets.{padded, length-padded}

-- The answers to a sequence of packets.
pub answers : Assembler → List Packet → List (Result CoreError (Option Message))
answers a [] = []
answers a (p ∷ ps) = (accept a p).0 ∷ answers (accept a p).1 ps

-- A payload cut into fragments of 59 bytes, on fuel that its length covers.
unfoldable pub chunks : ℕ → Bytes → List Bytes
chunks zero xs = []
chunks (suc fuel) [] = []
chunks (suc fuel) (x ∷ xs) = take 59 (x ∷ xs) ∷ chunks fuel (drop 59 (x ∷ xs))

-- Continuation packets, numbered from the given sequence number, with padded fragments.
pub numbered : ℕ → ℕ → List Bytes → List Packet
numbered channel seq [] = []
numbered channel seq (c ∷ cs) =
    cont_packet channel seq (padded 59 c) ∷ numbered channel (seq + 1) cs

-- The packets of a message, each with the fragment field that its report parses to.
abbrev pub packets : ℕ → CtapHidCommand → Bytes → List Packet
packets channel command payload =
    init_packet channel command (length payload) (padded 57 (take 57 payload))
    ∷ numbered channel 0 (chunks (length payload) (drop 57 payload))

-- A field that holds `c` gives back `c`, where `c` is what is taken of it.
take_field : (n k : ℕ) (c : Bytes) → k ≡ length c → length c ≤ n → take k (padded n c) ≡ c
take_field n k c e h = rw e (take-overlay c (zeros n) (omega (arith, length-replicate {A = ℕ} n 0)))

module _ (channel : ℕ) (command : CtapHidCommand) where
  abbrev progress : ℕ → ℕ → Bytes → InProgress
  progress expected seq buffer = record {
    channel = channel;
    command = command;
    expected = expected;
    received = length buffer;
    next_sequence = seq;
    buffer = buffer;
  }

  abbrev pub message : Bytes → Message
  message payload = record { channel = channel; command = command; payload = payload }

  accept_more :
      (expected seq : ℕ) (buffer c : Bytes)
      → length c ≡ 59
      → length buffer + 59 < expected
      → expected ≤ 2048
      → seq < 127
      → accept (some (progress expected seq buffer)) (cont_packet channel seq (padded 59 c))
        ≡ (ok none, some (progress expected (seq + 1) (buffer ++ c)))
  unfolding accept
  accept_more expected seq buffer c e more fits small = ground (
    arith,
    length-padded 59 c,
    take_field 59 (min (expected - length buffer) (length (padded 59 c))) c
        (omega (arith, length-padded 59 c)),
    length-append buffer c,
    low_seven ((seq + 1) % 256),
  )

  accept_last :
      (expected seq : ℕ) (buffer c : Bytes)
      → length c ≤ 59
      → length buffer + length c ≡ expected
      → expected ≤ 2048
      → accept (some (progress expected seq buffer)) (cont_packet channel seq (padded 59 c))
        ≡ (ok (some (message (buffer ++ c))), none)
  unfolding accept
  accept_last expected seq buffer c short whole fits = ground (
    arith,
    length-padded 59 c,
    take_field 59 (min (expected - length buffer) (length (padded 59 c))) c
        (omega (arith, length-padded 59 c)),
    length-append buffer c,
  )

  answers_more :
      (expected seq : ℕ) (buffer c : Bytes) (cs : List Bytes)
      → length c ≡ 59
      → length buffer + 59 < expected
      → expected ≤ 2048
      → seq < 127
      → answers (some (progress expected seq buffer)) (numbered channel seq (c ∷ cs))
        ≡ ok none
          ∷ answers
              (some (progress expected (seq + 1) (buffer ++ c)))
              (numbered channel (seq + 1) cs)
  unfolding answers numbered
  answers_more expected seq buffer c cs e more fits small =
      rw (accept_more expected seq buffer c e more fits small)

  answers_last :
      (expected seq : ℕ) (buffer c : Bytes)
      → length c ≤ 59
      → length buffer + length c ≡ expected
      → expected ≤ 2048
      → answers (some (progress expected seq buffer)) (numbered channel seq (c ∷ []))
        ≡ ok (some (message (buffer ++ c))) ∷ []
  unfolding answers numbered
  answers_last expected seq buffer c short whole fits =
      rw (accept_last expected seq buffer c short whole fits)

-- The answers to all continuations of a message but the last are `Ok(None)`.
abbrev pub quiet : ℕ → List (Result CoreError (Option Message))
quiet n = replicate n (ok none)

chunks-nil : (fuel : ℕ) → chunks fuel [] ≡ []
unfolding chunks
chunks-nil zero = refl
chunks-nil (suc fuel) = refl

chunks-step :
    (fuel : ℕ) (xs : Bytes)
    → 0 < length xs
    → chunks (suc fuel) xs ≡ take 59 xs ∷ chunks fuel (drop 59 xs)
unfolding chunks
chunks-step fuel [] h = absurd (omega arith)
chunks-step fuel (x ∷ xs) h = refl

chunks-last :
    (fuel : ℕ) (xs : Bytes) → 0 < length xs → length xs ≤ 59 → chunks (suc fuel) xs ≡ xs ∷ []
chunks-last fuel xs h k =
    chunks-step fuel xs h ∙ rw (take-all 59 xs k) (rw (drop-all 59 xs k) (rw (chunks-nil fuel)))

quiet-suc : (n : ℕ) → 0 < n → quiet (suc n - 1) ≡ ok none ∷ quiet (n - 1)
quiet-suc zero h = absurd (omega arith)
quiet-suc (suc n) h =
    let e : suc (suc n) - 1 ≡ suc n = omega arith in
    let e' : suc n - 1 ≡ n = omega arith in rw (e, e')

quiet_pred :
    (n : ℕ) (l : List (Result CoreError (Option Message)))
    → 0 < n
    → ok none ∷ (quiet (n - 1) ++ l) ≡ quiet n ++ l
quiet_pred zero l h = absurd (omega arith)
quiet_pred (suc n) l h = let e : suc n - 1 ≡ n = omega arith in rw e

chunks_pos :
    (fuel : ℕ) (xs : Bytes) → 0 < length xs → length xs ≤ fuel → 0 < length (chunks fuel xs)
chunks_pos zero xs h k = absurd (omega arith)
chunks_pos (suc fuel) xs h k = rw (chunks-step fuel xs h) (omega arith)

module _ (channel : ℕ) (command : CtapHidCommand) where
  answers_conts :
      (fuel expected seq : ℕ) (buffer rest : Bytes)
      → length rest ≤ fuel
      → 0 < length rest
      → length buffer + length rest ≡ expected
      → expected ≤ 2048
      → seq * 59 + length rest ≤ 59 * 100
      → answers
          (some (progress channel command expected seq buffer))
          (numbered channel seq (chunks fuel rest))
        ≡ quiet (length (chunks fuel rest) - 1)
          ++ ok (some (message channel command (buffer ++ rest))) ∷ []
  answers_conts zero expected seq buffer rest hf pos whole fits small = absurd (omega arith)
  answers_conts (suc fuel) expected seq buffer rest hf pos whole fits small =
      elim (dec_lt 59 (length rest)) [
        | yes more ↦ rw (chunks-step fuel rest pos) (
            answers_more channel command expected seq buffer (take 59 rest)
              (chunks fuel (drop 59 rest)) (omega (arith, length-take 59 rest)) (omega arith) fits
              (omega arith)
            ∙ ap (◌∷◌ (ok none)) (
                answers_conts fuel expected (seq + 1) (buffer ++ take 59 rest) (drop 59 rest)
                  (omega (arith, length-drop 59 rest)) (omega (arith, length-drop 59 rest))
                  (omega (
                    arith,
                    length-drop 59 rest,
                    length-take 59 rest,
                    length-append buffer (take 59 rest),
                  ))
                  fits (omega (arith, length-drop 59 rest)))
            ∙ simp (
              append_assoc,
              take-append-drop 59 rest,
              quiet-suc (length (chunks fuel (drop 59 rest))) (
                  chunks_pos fuel (drop 59 rest) (omega (arith, length-drop 59 rest))
                    (omega (arith, length-drop 59 rest))),
            ))
        | no last ↦
            rw (chunks-last fuel rest pos (omega arith))
              (answers_last channel command expected seq buffer rest (omega arith) whole fits)
      ]

  accept_first_whole :
      (a : Assembler) (payload : Bytes)
      → length payload ≤ 57
      → accept a (init_packet channel command (length payload) (padded 57 payload))
        ≡ (ok (some (message channel command payload)), none)
  unfolding accept
  accept_first_whole a payload short = ground (
    arith,
    length-padded 57 payload,
    take_field 57 (min (length payload) (length (padded 57 payload))) payload
        (omega (arith, length-padded 57 payload)),
  )

  accept_first_more :
      (a : Assembler) (expected : ℕ) (c : Bytes)
      → length c ≡ 57
      → 57 < expected
      → expected ≤ 2048
      → accept a (init_packet channel command expected (padded 57 c))
        ≡ (ok none, some (progress channel command expected 0 c))
  unfolding accept
  accept_first_more a expected c e more fits = ground (
    arith,
    length-padded 57 c,
    take_field 57 (min expected (length (padded 57 c))) c (omega (arith, length-padded 57 c)),
  )

  -- Every message of at most 2048 bytes arrives, from whatever was in flight before: the packets
  -- that carry it, each padded to its report, are answered by `Ok(None)` up to the last, and the
  -- last by exactly the message.
  pub reassembles :
      (a : Assembler) (payload : Bytes)
      → length payload ≤ max_message_bytes
      → answers a (packets channel command payload)
        ≡ quiet (length (chunks (length payload) (drop 57 payload)))
          ++ ok (some (message channel command payload)) ∷ []
  unfolding answers numbered
  reassembles a payload fits = elim (dec_lt 57 (length payload)) [
    | yes more ↦
        rw
          (accept_first_more a (length payload) (take 57 payload)
            (omega (arith, length-take 57 payload)) more fits)
          (ap (◌∷◌ (ok none)) (
              answers_conts (length payload) (length payload) 0 (take 57 payload) (drop 57 payload)
                (omega (arith, length-drop 57 payload)) (omega (arith, length-drop 57 payload))
                (omega (arith, length-drop 57 payload, length-take 57 payload)) fits
                (omega (arith, length-drop 57 payload)))
            ∙ rw (take-append-drop 57 payload) (
                quiet_pred (length (chunks (length payload) (drop 57 payload))) _ (
                  chunks_pos (length payload) (drop 57 payload)
                    (omega (arith, length-drop 57 payload))
                    (omega (arith, length-drop 57 payload)))))
    | no whole ↦
        rw (take-all 57 payload (omega arith), drop-all 57 payload (omega arith), chunks-nil)
          (rw (accept_first_whole a payload (omega arith)))
  ]
