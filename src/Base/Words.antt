-- ===== src/Base/Words.antt =====
-- Bits of a byte, by evaluation over all values, and big-endian 32-bit words.
use Prim.Native.Nat.{ℕ, zero, suc, ◌+◌, ◌*◌, ◌/◌, ◌%◌, ◌^◌, ◌≤◌, ◌<◌, bit_and, bit_or}
use mathlib.Core.Path.{◌≡◌, refl, subst}
use mathlib.Core.Bool.{Bool, true, ◌&&◌}
use mathlib.Core.List.{[], ◌∷◌}
use native.Mathlib.Omega.{arith}
use mathlib.Core.Logic.{inl, inr}
use ctap2_test_tool.Base.Tests.{◌==◌, ==_iff, Bool-cases}
use ctap2_test_tool.Base.Lists.{get_or}
use ctap2_test_tool.Base.ByteStrings.{Bytes}

-- The test holds for so many numbers, counted from the first argument on.
holds_from : ℕ → ℕ → (ℕ → Bool) → Bool
holds_from first zero test = true
holds_from first (suc count) test = test first && holds_from (first + 1) count test

holds_from-at :
    (first count y : ℕ) (test : ℕ → Bool)
    → holds_from first count test ≡ true
    → first ≤ y
    → y < first + count
    → test y ≡ true
unfolding holds_from
holds_from-at first zero y test h l u = absurd (omega (arith, l, u))
holds_from-at first (suc count) y test h l u = elim (Bool-cases (first == y)) [
  | inl e ↦ subst (λ (n : ℕ). test n ≡ true) ((==_iff first y).0 e) (ground (arith, h))
  | inr e ↦
      holds_from-at (first + 1) count y test (ground (arith, h))
        (ground (arith, e, l, ==_iff first y)) (omega (arith, u))
]

low_byte_table : holds_from 0 128 (λ b. (bit_and b 0x80 == 0) && (bit_and b 0x7f == b)) ≡ true
unfolding holds_from
low_byte_table = refl

-- A byte below 128 has its top bit clear, and keeps its value without that bit.
pub low_byte : (x : ℕ) → x < 128 → (bit_and x 0x80 ≡ 0) × (bit_and x 0x7f ≡ x)
low_byte x h = ground (arith, holds_from-at 0 128 x _ low_byte_table)

high_byte_table : holds_from 128 128 (λ b. (bit_or 0x80 b == b) && (bit_and b 0x80 == 128)) ≡ true
unfolding holds_from
high_byte_table = refl

-- A byte from 128 on keeps its value under `0x80 |`, and has its top bit set.
pub high_byte : (x : ℕ) → 128 ≤ x → x < 256 → (bit_or 0x80 x ≡ x) × (bit_and x 0x80 ≡ 128)
high_byte x l u = ground (arith, holds_from-at 128 128 x _ high_byte_table l u)

-- The four bytes of a uint32_t in network order, and back.
unfoldable pub big_endian : ℕ → Bytes
big_endian n = n / 2 ^ 24 % 256 ∷ n / 2 ^ 16 % 256 ∷ n / 2 ^ 8 % 256 ∷ n % 256 ∷ []

unfoldable pub load_big_endian : Bytes → ℕ
load_big_endian b =
    get_or b 0 0 * 2 ^ 24 + get_or b 1 0 * 2 ^ 16 + get_or b 2 0 * 2 ^ 8 + get_or b 3 0

pub load-big_endian : (n : ℕ) → n < 2 ^ 32 → load_big_endian (big_endian n) ≡ n
unfolding load_big_endian big_endian
load-big_endian n h = omega arith
