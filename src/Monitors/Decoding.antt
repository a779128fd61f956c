-- ===== src/Monitors/Decoding.antt =====
-- The registers as the server sends them, src/monitors/cortexm4_gdb_monitor.cc.
use ctap2_test_tool.Base.{
  Bool, Bool-cases, Bytes, Option, [], ap, arith, false, hex2, hex_digit, if◌then◌else◌, inl, inr,
  ltb, none, refl, some, true, ℕ, ◌%◌, ◌*◌, ◌++◌, ◌+◌, ◌-◌, ◌/◌, ◌<◌, ◌==◌, ◌^◌, ◌∙◌, ◌∷◌, ◌≡◌, ◌≢◌,
}
use ctap2_test_tool.Monitors.Registers.{
  drop_prefix, drop_spaces, hex_digits, hex_value, htonl, register_value, split_sign, stoul_hex,
}

hex_value-hex_digit : (d : ℕ) → d < 16 → hex_value (hex_digit d) ≡ some d
unfolding hex_value hex_digit
hex_value-hex_digit d l = ground (arith, l)

hex_value_digit : (d : ℕ) → d < 10 → hex_value (48 + d) ≡ some d
unfolding hex_value
hex_value_digit d l = ground (arith, l)

hex_digits_step :
    (d n : ℕ) (seen : Bool) (rest : Bytes)
    → d < 16
    → hex_digits (hex_digit d ∷ rest) seen n ≡ hex_digits rest true (n * 16 + d)
unfolding hex_digits hex2
hex_digits_step d n seen rest l = rw (hex_digits, hex_value-hex_digit d l) refl

hex_digits-hex2 :
    (b n : ℕ) (seen : Bool) (rest : Bytes)
    → b < 256
    → hex_digits (hex2 b ++ rest) seen n ≡ hex_digits rest true (n * 256 + b)
unfolding hex2
hex_digits-hex2 b n seen rest l =
    hex_digits_step (b / 16 % 16) n seen (hex_digit (b % 16) ∷ rest) (omega arith)
    ∙ hex_digits_step (b % 16) (n * 16 + b / 16 % 16) true rest (omega arith)
    ∙ ap (hex_digits rest true) (omega arith)

-- A digit is neither a space, nor a sign, nor the second character of a prefix.
digit_bounds : (d : ℕ) → d < 16 → (47 < hex_digit d) × (hex_digit d < 103) × (hex_digit d ≢ 88)
unfolding hex_digit
digit_bounds d l = (ground (arith, l), ground (arith, l), λ e. ground (arith, l, e))

drop_spaces_digit : (c : ℕ) (cs : Bytes) → 47 < c → drop_spaces (c ∷ cs) ≡ c ∷ cs
unfolding drop_spaces
drop_spaces_digit c cs l = ground (arith, l)

split_sign_digit : (c : ℕ) (cs : Bytes) → 47 < c → split_sign (c ∷ cs) ≡ (false, c ∷ cs)
unfolding split_sign
split_sign_digit c cs l = ground (arith, l)

drop_prefix_digit :
    (c d e : ℕ) (cs : Bytes) → d < 103 → d ≢ 88 → drop_prefix (c ∷ d ∷ e ∷ cs) ≡ c ∷ d ∷ e ∷ cs
unfolding drop_prefix
drop_prefix_digit c d e cs l n =
    let a : (d == 120) ≡ false = ground (arith, l) in
    let b : (d == 88) ≡ false = ground (arith, n) in
    elim (Bool-cases (c == 48)) [
      | inl y ↦ rw (drop_prefix, y, a, b) refl
      | inr y ↦ rw (drop_prefix, y) refl
    ]

-- The number behind the sign, and the value of the text.
abbrev conclude : Bool → Option ℕ → Option ℕ
conclude minus none = none
conclude minus (some n) =
    if ltb n (2 ^ 64) then some (if minus then (2 ^ 64 - n) % 2 ^ 64 else n) else none

abbrev convert : Bool × Bytes → Option ℕ
convert (minus, rest) = conclude minus (hex_digits (drop_prefix rest) false 0)

stoul_hex_digits :
    (c d e n : ℕ) (cs : Bytes)
    → 47 < c
    → d < 103
    → d ≢ 88
    → n < 2 ^ 64
    → hex_digits (c ∷ d ∷ e ∷ cs) false 0 ≡ some n
    → stoul_hex (c ∷ d ∷ e ∷ cs) ≡ some n
unfolding stoul_hex
stoul_hex_digits c d e n cs l k m b h =
    let small : ltb n (2 ^ 64) ≡ true = ground (arith, b) in
    let text = c ∷ d ∷ e ∷ cs in
    ap (λ (t : Bytes). convert (split_sign t)) (drop_spaces_digit c (d ∷ e ∷ cs) l)
    ∙ ap convert (split_sign_digit c (d ∷ e ∷ cs) l)
    ∙ ap (λ (t : Bytes). conclude false (hex_digits t false 0)) (drop_prefix_digit c d e cs k m)
    ∙ ap (conclude false) h
    ∙ rw small refl

-- The text that the server sends for a word in memory: its bytes, the lowest first.
abbrev pub word_text : ℕ → ℕ → ℕ → ℕ → Bytes
word_text b0 b1 b2 b3 = hex2 b0 ++ hex2 b1 ++ hex2 b2 ++ hex2 b3

word_digits :
    (b0 b1 b2 b3 : ℕ)
    → b0 < 256
    → b1 < 256
    → b2 < 256
    → b3 < 256
    → hex_digits (word_text b0 b1 b2 b3) false 0 ≡ some (((b0 * 256 + b1) * 256 + b2) * 256 + b3)
unfolding hex_digits hex2
word_digits b0 b1 b2 b3 l0 l1 l2 l3 =
    hex_digits-hex2 b0 0 false (hex2 b1 ++ hex2 b2 ++ hex2 b3) l0
    ∙ hex_digits-hex2 b1 (0 * 256 + b0) true (hex2 b2 ++ hex2 b3) l1
    ∙ hex_digits-hex2 b2 ((0 * 256 + b0) * 256 + b1) true (hex2 b3) l2
    ∙ hex_digits-hex2 b3 (((0 * 256 + b0) * 256 + b1) * 256 + b2) true [] l3
    ∙ ap some (omega arith)

htonl_lem :
    (b0 b1 b2 b3 : ℕ)
    → b0 < 256
    → b1 < 256
    → b2 < 256
    → b3 < 256
    → htonl (((b0 * 256 + b1) * 256 + b2) * 256 + b3) ≡ b0 + 256 * b1 + 65536 * b2 + 16777216 * b3
unfolding htonl
htonl_lem b0 b1 b2 b3 l0 l1 l2 l3 = omega (arith, l0, l1, l2, l3)

abbrev swapped : Option ℕ → Option ℕ
swapped none = none
swapped (some n) = some (htonl (n % 2 ^ 32))

-- The bytes of a word in memory, sent as hexadecimal text with the lowest byte first, are read as
-- the number that a little-endian processor holds there.
pub register_value-little_endian :
    (b0 b1 b2 b3 : ℕ)
    → b0 < 256
    → b1 < 256
    → b2 < 256
    → b3 < 256
    → register_value (word_text b0 b1 b2 b3) ≡ some (b0 + 256 * b1 + 65536 * b2 + 16777216 * b3)
unfolding register_value hex2
register_value-little_endian b0 b1 b2 b3 l0 l1 l2 l3 =
    let n = ((b0 * 256 + b1) * 256 + b2) * 256 + b3 in
    let high : b0 / 16 % 16 < 16 = omega arith in
    let low : b0 % 16 < 16 = omega arith in
    let small : n < 2 ^ 64 = omega (arith, l0, l1, l2, l3) in
    let word : n % 2 ^ 32 ≡ n = omega (arith, l0, l1, l2, l3) in
    let h = digit_bounds (b0 / 16 % 16) high in
    let g = digit_bounds (b0 % 16) low in
    let read : stoul_hex (word_text b0 b1 b2 b3) ≡ some n =
      stoul_hex_digits (hex_digit (b0 / 16 % 16)) (hex_digit (b0 % 16)) (hex_digit (b1 / 16 % 16)) n
        (hex_digit (b1 % 16) ∷ (hex2 b2 ++ hex2 b3)) h.0 g.1 g.2 small
        (word_digits b0 b1 b2 b3 l0 l1 l2 l3) in
    ap swapped read
    ∙ ap (λ (x : ℕ). some (htonl x)) word
    ∙ ap some (htonl_lem b0 b1 b2 b3 l0 l1 l2 l3)

-- An error reply `E` with a two-digit error number below 100 is not noticed: it is read as a
-- hexadecimal number of three digits, and the register has a value.
pub register_value-error_reply :
    (a b : ℕ)
    → a < 10
    → b < 10
    → register_value (69 ∷ (48 + a) ∷ (48 + b) ∷ []) ≡ some (htonl (14 * 256 + a * 16 + b))
unfolding register_value hex_digits
register_value-error_reply a b l k =
    let n = 14 * 256 + a * 16 + b in
    let read : stoul_hex (69 ∷ (48 + a) ∷ (48 + b) ∷ []) ≡ some n =
      stoul_hex_digits 69 (48 + a) (48 + b) n [] (omega arith) (omega arith) (λ e. omega (arith, e))
        (omega arith) (ground (arith, hex_value_digit a l, hex_value_digit b k)) in
    ap swapped read ∙ ap (λ (x : ℕ). some (htonl x)) (omega arith)
