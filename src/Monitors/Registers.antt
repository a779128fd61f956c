-- ===== src/Monitors/Registers.antt =====
-- Numbers read from text, and the tables of src/monitors/cortexm4_gdb_monitor.cc.
use ctap2_test_tool.Base.{
  Bool, Bytes, List, Option, [], codes, false, if◌then◌else◌, is_some, leb, ltb, none, some, true,
  ℕ, ◌%◌, ◌&&◌, ◌*◌, ◌+◌, ◌-◌, ◌/◌, ◌==◌, ◌^◌, ◌||◌, ◌∷◌,
}

-- The value of a hexadecimal digit.
unfoldable pub hex_value : ℕ → Option ℕ
hex_value c =
    if leb 48 c && leb c 57
    then some (c - 48)
    else if leb 97 c && leb c 102
    then some (c - 87)
    else if leb 65 c && leb c 70
    then some (c - 55)
    else none

-- The digits in front, with whether there was one.
unfoldable pub hex_digits : Bytes → Bool → ℕ → Option ℕ
unfolding hex_value
hex_digits [] seen n = if seen then some n else none
hex_digits (c ∷ cs) seen n = elim (hex_value c) [
  | none ↦ if seen then some n else none
  | some d ↦ hex_digits cs true (n * 16 + d)
]

-- A prefix `0x` that a digit follows.
unfoldable pub drop_prefix : Bytes → Bytes
unfolding hex_value
drop_prefix (z ∷ x ∷ c ∷ cs) =
    if (z == 48) && (((x == 120) || (x == 88)) && is_some (hex_value c))
    then c ∷ cs
    else z ∷ x ∷ c ∷ cs
drop_prefix s = s

abbrev pub is_space : ℕ → Bool
is_space c = (c == 32) || (leb 9 c && leb c 13)

unfoldable pub drop_spaces : Bytes → Bytes
drop_spaces [] = []
drop_spaces (c ∷ cs) = if is_space c then drop_spaces cs else c ∷ cs

-- A sign in front, `+` or `-`: whether it was a minus, and what follows.
unfoldable pub split_sign : Bytes → Bool × Bytes
split_sign [] = (false, [])
split_sign (c ∷ cs) =
    if c == 45 then (true, cs) else if c == 43 then (false, cs) else (false, c ∷ cs)

-- `std::stoul(text, 0, 16)`: none where it throws, for text without a number or a number that does
-- not fit the 64 bits of `unsigned long`. A minus negates modulo 2^64.
unfoldable pub stoul_hex : Bytes → Option ℕ
unfolding hex_digits drop_prefix drop_spaces split_sign
stoul_hex text =
    let (minus, rest) = split_sign (drop_spaces text) in
    elim (hex_digits (drop_prefix rest) false 0) [
      | none ↦ none
      | some n ↦ if ltb n (2 ^ 64) then some (if minus then (2 ^ 64 - n) % 2 ^ 64 else n) else none
    ]

-- `htonl` of a uint32_t on a little-endian host.
unfoldable pub htonl : ℕ → ℕ
htonl n = n % 256 * 2 ^ 24 + n / 256 % 256 * 2 ^ 16 + n / 2 ^ 16 % 256 * 2 ^ 8 + n / 2 ^ 24 % 256

-- The value of a register from the text of its memory.
unfoldable pub register_value : Bytes → Option ℕ
unfolding stoul_hex htonl
register_value response = elim (stoul_hex response) [
  | none ↦ none
  | some n ↦ some (htonl (n % 2 ^ 32))
]

-- Bit and text of the flags that are printed.
abbrev pub cfsr_flags : List (ℕ × Bytes)
cfsr_flags =
    (0, codes "Instruction Access Violation:")
    ∷ (1, codes "Data Access Violation:")
    ∷ (3, codes "Memory Management Unstacking Fault:")
    ∷ (4, codes "Memory Management Stacking Fault:")
    ∷ (5, codes "Memory Management Lazy FP Fault:")
    ∷ (7, codes "Valid Memory Fault Address:")
    ∷ (8, codes "Instruction Bus Error:")
    ∷ (9, codes "Precise Data Bus Error:")
    ∷ (10, codes "Imprecise Data Bus Error:")
    ∷ (11, codes "Bus Unstacking Fault:")
    ∷ (12, codes "Bus Stacking Fault:")
    ∷ (13, codes "Bus Lazy FP Fault:")
    ∷ (15, codes "Valid Bus Fault Address:")
    ∷ (16, codes "Undefined Instruction Usage Fault:")
    ∷ (17, codes "Invalid State Usage Fault:")
    ∷ (18, codes "Invalid PC Load Usage Fault:")
    ∷ (19, codes "No Coprocessor Usage Fault:")
    ∷ (24, codes "Unaligned Access Usage Fault:")
    ∷ (25, codes "Divide By Zero:")
    ∷ []

abbrev pub hfsr_flags : List (ℕ × Bytes)
hfsr_flags = (1, codes "Bus Fault on Vector Table Read:") ∷ (30, codes "Forced Hard Fault:") ∷ []

abbrev pub register_names : List (ℕ × Bytes)
register_names =
    (0, codes "R0")
    ∷ (1, codes "R1")
    ∷ (2, codes "R2")
    ∷ (3, codes "R3")
    ∷ (4, codes "R4")
    ∷ (5, codes "R5")
    ∷ (6, codes "R6")
    ∷ (7, codes "R7")
    ∷ (8, codes "R8")
    ∷ (9, codes "R9")
    ∷ (10, codes "R10")
    ∷ (11, codes "R11")
    ∷ (12, codes "R12")
    ∷ (13, codes "SP")
    ∷ (14, codes "LR")
    ∷ (15, codes "PC")
    ∷ (16, codes "PSR")
    ∷ []
