-- ===== src/Core/CtapHid/Assembly.antt =====
-- crates/aegis-core/src/ctaphid.rs: the assembler's invariant and its errors.
use aegis_token.Base.{
  ℕ, ◌+◌, ◌-◌, ◌%◌, ◌≤◌, ◌<◌, min, ◌≡◌, refl, bit_and, err, none, some, Bytes, length, take,
  length-append, length-take, low_seven, arith,
}
use aegis_token.Core.Error.{CoreError}
use aegis_token.Core.CtapHid.{
  Packet, init_packet, cont_packet, InProgress, Assembler, accept, max_message_bytes,
}

-- A message in flight: what was received is in the buffer, and is less than what is expected.
pub record IsAssembling (s : InProgress) : Type 0 where
  pub counted : s.received ≡ length s.buffer
  pub incomplete : s.received < s.expected
  pub bounded : s.expected ≤ max_message_bytes
  pub numbered : s.next_sequence ≤ 127

abbrev pub IsValid : Assembler → Type 0
IsValid none = Unit
IsValid (some s) = IsAssembling s

take_within : (n : ℕ) (xs : Bytes) → length (take n xs) ≤ n
take_within n xs = omega (arith, length-take n xs)

next_sequence_bound : (n : ℕ) → bit_and (n % 256) 0x7f ≤ 127
next_sequence_bound n = omega (arith, low_seven (n % 256) (omega arith))

-- Every packet, accepted or refused, leaves a valid assembler valid: what it holds is counted, is
-- less than what it expects, which is at most 2048 bytes, and the next sequence number is at most
-- 127.
pub accept-IsValid : (a : Assembler) (p : Packet) → IsValid a → IsValid (accept a p).1
unfolding accept
accept-IsValid a (init_packet ch cmd len f) h = ground (arith, length-take (min len (length f)) f)
accept-IsValid none (cont_packet ch seq f) h = tt
accept-IsValid (some s) (cont_packet ch seq f) h = ground (
  arith,
  length-take (min (s.expected - s.received) (length f)) f,
  length-append s.buffer (take (min (s.expected - s.received) (length f)) f),
  next_sequence_bound (s.next_sequence + 1),
)

-- A refused packet aborts the message in flight: every error of a valid assembler leaves it empty.
pub accept_error_aborts :
    (a : Assembler) (p : Packet) (e : CoreError)
    → IsValid a
    → (accept a p).0 ≡ err e
    → (accept a p).1 ≡ none
unfolding accept
accept_error_aborts a (init_packet ch cmd len f) e h q = ground arith
accept_error_aborts none (cont_packet ch seq f) e h q = refl
accept_error_aborts (some s) (cont_packet ch seq f) e h q =
    ground (arith, length-take (min (s.expected - s.received) (length f)) f)
