-- ===== src/Base/ByteStrings.antt =====
-- Byte strings. A `std::string`, a `std::vector<uint8_t>` and a `cbor::Value::BinaryValue` are
-- all lists of byte values here; literals of the source are written through `codes`.
use Prim.Native.Char.{code}
use Prim.Native.String.{String}
use Prim.Native.Nat.{ℕ, zero, suc, ◌+◌, ◌/◌, ◌%◌, ◌<◌}
use mathlib.Core.Path.{◌≡◌, refl}
use mathlib.Core.Logic.{◌↔◌}
use mathlib.Core.Bool.{Bool, true, false, ◌&&◌}
use mathlib.Core.Option.{Option, none, some}
use mathlib.Core.List.{List, [], ◌∷◌}
use native.Mathlib.Omega.{arith}
use ctap2_test_tool.Base.Tests.{◌==◌, ltb, if◌then◌else◌}

abbrev pub Bytes : Type 0
Bytes = List ℕ

abbrev pub codes : String → Bytes
codes String.[] = []
codes (String.◌∷◌ c s) = code c ∷ codes s

unfoldable pub bytes_eq : Bytes → Bytes → Bool
bytes_eq [] [] = true
bytes_eq [] (y ∷ ys) = false
bytes_eq (x ∷ xs) [] = false
bytes_eq (x ∷ xs) (y ∷ ys) = (x == y) && bytes_eq xs ys

pub bytes_eq_iff : (xs ys : Bytes) → (bytes_eq xs ys ≡ true) ↔ (xs ≡ ys)
unfolding bytes_eq
bytes_eq_iff [] [] = ground arith
bytes_eq_iff [] (y ∷ ys) = ground arith
bytes_eq_iff (x ∷ xs) [] = ground arith
bytes_eq_iff (x ∷ xs) (y ∷ ys) = ground (arith, bytes_eq_iff xs ys)

pub bytes_eq_refl : (xs : Bytes) → bytes_eq xs xs ≡ true
bytes_eq_refl xs = (bytes_eq_iff xs xs).1 refl

-- Every element is a byte value.
abbrev pub IsBytes : Bytes → Type 0
IsBytes [] = Unit {0}
IsBytes (x ∷ xs) = (x < 256) × IsBytes xs

-- A lower-case hexadecimal digit.
unfoldable pub hex_digit : ℕ → ℕ
hex_digit d = if ltb d 10 then 48 + d else 87 + d

-- `absl::Hex(b, absl::kZeroPad2)` of a byte.
unfoldable pub hex2 : ℕ → Bytes
unfolding hex_digit
hex2 b = hex_digit (b / 16 % 16) ∷ hex_digit (b % 16) ∷ []

hex_from : ℕ → ℕ → Bytes → Bytes
unfolding hex_digit
hex_from zero n acc = acc
hex_from (suc fuel) n acc =
    let rest = hex_from fuel (n / 16) (hex_digit (n % 16) ∷ acc) in
    if ltb n 16 then hex_digit n ∷ acc else rest

-- `absl::Hex(n, absl::kZeroPad2)`: the digits, at least two. Every round divides by 16.
unfoldable pub hex_padded : ℕ → Bytes
unfolding hex_from
hex_padded n = if ltb n 16 then 48 ∷ hex_from 1 n [] else hex_from (suc n) n []

digits_from : ℕ → ℕ → Bytes → Bytes
digits_from zero n acc = acc
digits_from (suc fuel) n acc =
    let rest = digits_from fuel (n / 10) ((48 + n % 10) ∷ acc) in
    if ltb n 10 then (48 + n) ∷ acc else rest

-- `absl::StrCat` of an unsigned number: its decimal digits. `suc n` rounds are enough, since
-- every round divides by ten.
unfoldable pub decimal : ℕ → Bytes
unfolding digits_from
decimal n = digits_from (suc n) n []

-- The first entry that a function maps to the number.
unfoldable pub find_by : {A : Type 0} → (A → ℕ) → ℕ → List A → Option A
find_by f b [] = none
find_by f b (a ∷ l) = if f a == b then some a else find_by f b l

pub find_by_sound :
    {A : Type 0} (f : A → ℕ) (b : ℕ) (l : List A) {a : A} → find_by f b l ≡ some a → f a ≡ b
unfolding find_by
find_by_sound f b [] e = ground arith
find_by_sound f b (x ∷ l) {a} e = ground (arith, find_by_sound f b l {a = a})
