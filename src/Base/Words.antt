-- ===== src/Base/Words.antt =====
-- Bytes, their bit masks and the machine words made of them. A byte is a number below 256.
use Prim.Native.Nat.{ℕ, zero, suc, ◌+◌, ◌*◌, ◌/◌, ◌%◌, ◌^◌, ◌<◌, bit_and, bit_or}
use mathlib.Core.Path.{◌≡◌, refl}
use mathlib.Core.Bool.{Bool, true, ◌&&◌}
use mathlib.Core.List.{List, [], ◌∷◌}
use native.Mathlib.Omega.{arith}
use aegis_token.Base.Tests.{◌==◌, ==→eq}
use aegis_token.Base.Lists.{All, get_or, replicate}

abbrev pub Bytes : Type 0
Bytes = List ℕ

abbrev pub IsByte : ℕ → Type 0
IsByte b = b < 256

abbrev pub AllBytes : Bytes → Type 0
AllBytes = All IsByte

-- A slice indexed inside its bounds: the callers test the length first, so 0 is never read.
abbrev pub at : Bytes → ℕ → ℕ
at xs i = get_or xs i 0

abbrev pub zeros : ℕ → Bytes
zeros n = replicate n 0

-- `u16::to_be_bytes`, `u32::to_be_bytes` and the little-endian ones.
abbrev pub be16 : ℕ → Bytes
be16 n = n / 256 % 256 ∷ n % 256 ∷ []

abbrev pub le16 : ℕ → Bytes
le16 n = n % 256 ∷ n / 256 % 256 ∷ []

abbrev pub be32 : ℕ → Bytes
be32 n = n / 16777216 % 256 ∷ n / 65536 % 256 ∷ n / 256 % 256 ∷ n % 256 ∷ []

abbrev pub le32 : ℕ → Bytes
le32 n = n % 256 ∷ n / 256 % 256 ∷ n / 65536 % 256 ∷ n / 16777216 % 256 ∷ []

-- `u16::from_be_bytes([a, b])`, `u32::from_be_bytes([a, b, c, d])`.
abbrev pub from_be16 : ℕ → ℕ → ℕ
from_be16 a b = a * 256 + b

abbrev pub from_be32 : ℕ → ℕ → ℕ → ℕ → ℕ
from_be32 a b c d = a * 16777216 + b * 65536 + c * 256 + d

pub from_be16_to_be : (n : ℕ) → n < 65536 → from_be16 (n / 256 % 256) (n % 256) ≡ n
from_be16_to_be n h = omega arith

pub from_be32_to_be :
    (n : ℕ)
    → n < 2 ^ 32
    → from_be32 (n / 16777216 % 256) (n / 65536 % 256) (n / 256 % 256) (n % 256) ≡ n
from_be32_to_be n h = omega arith

-- Facts about every byte, by evaluation.
pub every : (ℕ → Bool) → ℕ → Bool
every p zero = true
every p (suc n) = every p n && p n

pub every_below : (p : ℕ → Bool) (n x : ℕ) → x < n → every p n ≡ true → p x ≡ true
unfolding every
every_below p (suc n) x lt h = ground (arith, every_below p n x)
every_below p zero x lt h = absurd (omega arith)

low_seven_table : every (λ x. bit_and x 0x7f == x % 128) 256 ≡ true
unfolding every
low_seven_table = refl

pub low_seven : (x : ℕ) → x < 256 → bit_and x 0x7f ≡ x % 128
low_seven x h = ==→eq _ _ (every_below _ 256 x h low_seven_table)

top_bit_table : every (λ x. bit_and x 0x80 == x / 128 * 128) 256 ≡ true
unfolding every
top_bit_table = refl

pub top_bit : (x : ℕ) → x < 256 → bit_and x 0x80 ≡ x / 128 * 128
top_bit x h = ==→eq _ _ (every_below _ 256 x h top_bit_table)

low_five_table : every (λ x. bit_and x 0x1f == x % 32) 256 ≡ true
unfolding every
low_five_table = refl

pub low_five : (x : ℕ) → x < 256 → bit_and x 0x1f ≡ x % 32
low_five x h = ==→eq _ _ (every_below _ 256 x h low_five_table)

low_one_table : every (λ x. bit_and x 0x01 == x % 2) 256 ≡ true
unfolding every
low_one_table = refl

pub low_one : (x : ℕ) → x < 256 → bit_and x 0x01 ≡ x % 2
low_one x h = ==→eq _ _ (every_below _ 256 x h low_one_table)

low_four_table : every (λ x. bit_and x 0x0f == x % 16) 256 ≡ true
unfolding every
low_four_table = refl

pub low_four : (x : ℕ) → x < 256 → bit_and x 0x0f ≡ x % 16
low_four x h = ==→eq _ _ (every_below _ 256 x h low_four_table)

set_top_table : every (λ x. bit_or 0x80 x == x + 128) 128 ≡ true
unfolding every
set_top_table = refl

pub set_top : (x : ℕ) → x < 128 → bit_or 0x80 x ≡ x + 128
set_top x h = ==→eq _ _ (every_below _ 128 x h set_top_table)
