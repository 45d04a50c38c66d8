-- ===== src/Core/CtapHid/Channels.antt =====
-- Command codes and channel allocation.
use aegis_token.Base.{ℕ, ◌+◌, ◌<◌, ◌≡◌, ◌≢◌, refl, true, false, ok, err, Bytes, length, ◌⊎◌, arith}
use aegis_token.Core.CtapHid.{
  CtapHidCommand, unknown, code, from_code, broadcast_channel, allocated_channel, init_response,
  CtapHidError, init_reply,
}

-- A command survives its code, but for an `Unknown` that carries the code of a known command.
abbrev pub IsDecoded : CtapHidCommand → Type 0
IsDecoded (unknown c) = from_code c ≡ unknown c
IsDecoded _ = Unit

-- Decoding a code and encoding the command again gives back the code, whatever the code is.
pub code-from_code : (c : ℕ) → code (from_code c) ≡ c
unfolding code from_code
code-from_code c = ground arith

pub from_code-code : (c : CtapHidCommand) → IsDecoded c → from_code (code c) ≡ c
unfolding code from_code
from_code-code (unknown c) h = h
from_code-code _ h = refl

-- A broadcast INIT with an eight-byte nonce allocates the next channel, unless the counter stands
-- at an unusable channel: the reply carries that channel and the nonce, the counter goes up by
-- one, and the channel counts as allocated from then on, as do those that did before.
pub broadcast_allocates :
    (nonce : Bytes) (next capabilities channel : ℕ)
    → length nonce ≡ 8
    → 0 < next
    → next < broadcast_channel
    → let (r, next') = init_response broadcast_channel nonce next capabilities in
      (r ≡ ok (init_reply nonce next capabilities))
      × (next' ≡ next + 1)
      × (allocated_channel next next' ≡ true)
      × (allocated_channel channel next ≡ true → allocated_channel channel next' ≡ true)
unfolding init_response allocated_channel
broadcast_allocates nonce next capabilities channel h p q = ground arith

-- No other INIT moves the counter: on an allocated channel it answers on that channel, on any
-- other it is refused, and so is a nonce of another length or an exhausted counter.
pub init_otherwise :
    (nonce : Bytes) (channel next capabilities : ℕ)
    → channel ≢ broadcast_channel
    → let (r, next') = init_response channel nonce next capabilities in
      (next' ≡ next)
      × ((r ≡ ok (init_reply nonce channel capabilities))
            × (allocated_channel channel next ≡ true)
            × (length nonce ≡ 8)
          ⊎ (r ≡ err CtapHidError.invalid_channel) × (allocated_channel channel next ≡ false)
          ⊎ (r ≡ err CtapHidError.invalid_len) × (length nonce ≢ 8))
unfolding init_response
init_otherwise nonce channel next capabilities h = ground arith
