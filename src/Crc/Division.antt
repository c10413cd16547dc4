-- ===== src/Crc/Division.antt =====
-- The checksum as the remainder of a division of polynomials over the field of two elements.
use native.Mathlib.Nat.{pow-suc}
use thermal_recovery_flow.Base.{
  ℕ, zero, suc, ◌+◌, ◌*◌, ◌/◌, ◌%◌, ◌^◌, ◌<◌, ◌≡◌, refl, ap, sym, ◌∙◌, bit_xor, arith, Bool, true,
  false, List, [], ◌∷◌, ◌++◌, foldl, if◌then◌else◌, ◌==◌, IsBytes,
}
use thermal_recovery_flow.Base.Bits.{
  halves, bit_xor-zero, zero-bit_xor, bit_xor_assoc, bit_xor_fields, bit_and-one,
}
use thermal_recovery_flow.Crc.{crc_round, crc_rounds, crc16_modbus}
use thermal_recovery_flow.Crc.Bitwise.{crc_byte, crc_round_even, crc16_modbus-crc_byte}

-- A polynomial of degree below 16 is the list of its coefficients, that of x ^ 15 first.
abbrev pub Polynomial : Type 0
Polynomial = List Bool

abbrev pub plus : Bool → Bool → Bool
plus true true = false
plus true false = true
plus false b = b

abbrev pub add : Polynomial → Polynomial → Polynomial
add [] q = q
add (a ∷ p) [] = a ∷ p
add (a ∷ p) (b ∷ q) = plus a b ∷ add p q

-- x ^ 16 + x ^ 15 + x ^ 2 + 1, without its first term.
abbrev pub generator : Polynomial
generator =
    true ∷ false ∷ false ∷ false ∷ false ∷ false ∷ false ∷ false ∷ false ∷ false ∷ false ∷ false
    ∷ false ∷ true ∷ false ∷ true ∷ []

-- The product with x, modulo the generator.
abbrev pub times_x : Polynomial → Polynomial
times_x [] = []
times_x (top ∷ p) = if top then add (p ++ false ∷ []) generator else p ++ false ∷ []

-- One step of the long division: a bit of the message is added to the first coefficient of the remainder.
abbrev pub divide : Polynomial → Bool → Polynomial
divide p b = times_x (add p (b ∷ []))

-- The bits of a message as they come over the line, the lowest of each byte first.
abbrev pub bits : ℕ → ℕ → List Bool
bits zero v = []
bits (suc n) v = (v % 2 == 1) ∷ bits n (v / 2)

abbrev pub message : List ℕ → List Bool
message [] = []
message (b ∷ bytes) = bits 8 b ++ message bytes

-- The remainder before the first bit, with all its coefficients 1.
abbrev pub all_ones : Polynomial
all_ones =
    true ∷ true ∷ true ∷ true ∷ true ∷ true ∷ true ∷ true ∷ true ∷ true ∷ true ∷ true ∷ true ∷ true
    ∷ true ∷ true ∷ []

-- The number in which the coefficient of x ^ 15 is the lowest bit.
abbrev pub value : Polynomial → ℕ
value [] = 0
value (b ∷ p) = (if b then 1 else 0) + 2 * value p

value-add : (p q : Polynomial) → value (add p q) ≡ bit_xor (value p) (value q)
value-add [] q = ground (arith, zero-bit_xor (value q))
value-add (a ∷ p) [] = ground (arith, bit_xor-zero (value (a ∷ p)))
value-add (a ∷ p) (b ∷ q) = ground (arith, value-add p q, halves (value (a ∷ p)) (value (b ∷ q)))

value-shift : (p : Polynomial) → value (p ++ false ∷ []) ≡ value p
value-shift [] = refl
value-shift (b ∷ p) = ground (arith, value-shift p)

value-times_x : (p : Polynomial) → value (times_x p) ≡ crc_round (value p)
unfolding crc_round
value-times_x [] = refl
value-times_x (top ∷ p) =
    ground
      (arith, value-shift p, value-add (p ++ false ∷ []) generator, bit_and-one (value (top ∷ p)))

value-divide :
    (p : Polynomial) (b : Bool)
    → value (divide p b) ≡ crc_round (bit_xor (value p) (if b then 1 else 0))
value-divide p b =
    value-times_x (add p (b ∷ []))
    ∙ ap crc_round (value-add p (b ∷ []) ∙ ap (λ (t : ℕ). bit_xor (value p) t) (omega arith))

lowest_bit : (v : ℕ) → (if v % 2 == 1 then 1 else 0) ≡ v % 2
lowest_bit v = ground arith

-- The lowest bit of a number goes first.
crc_round-lowest :
    (x v : ℕ) → crc_round (bit_xor x v) ≡ bit_xor (crc_round (bit_xor x (v % 2))) (v / 2)
crc_round-lowest x v =
    let split : v ≡ bit_xor (v % 2) (2 * (v / 2)) =
      omega
        (arith, bit_xor_fields 1 (v / 2) (v % 2), ap (λ (t : ℕ). bit_xor (v % 2) t) (twice v)) in
    ap (λ (t : ℕ). crc_round (bit_xor x t)) split
    ∙ ap crc_round (sym (bit_xor_assoc x (v % 2) (2 * (v / 2))))
    ∙ crc_round_even (bit_xor x (v % 2)) (v / 2)
  where
    twice : (v : ℕ) → v / 2 * 2 ^ 1 ≡ 2 * (v / 2)
    twice v = omega arith

-- The bits of a number, divided one by one, are the number added at once and as many rounds.
rounds-divide :
    (n : ℕ) (p : Polynomial) (v : ℕ)
    → v < 2 ^ n
    → crc_rounds n (bit_xor (value p) v) ≡ value (foldl divide p (bits n v))
unfolding crc_rounds
rounds-divide zero p v h =
    ap (λ (t : ℕ). bit_xor (value p) t) (omega arith) ∙ bit_xor-zero (value p)
rounds-divide (suc n) p v h =
    let b = v % 2 == 1 in
    let first : crc_round (bit_xor (value p) v) ≡ bit_xor (value (divide p b)) (v / 2) =
      crc_round-lowest (value p) v
      ∙ ap (λ (t : ℕ). bit_xor (crc_round (bit_xor (value p) t)) (v / 2)) (sym (lowest_bit v))
      ∙ ap (λ (t : ℕ). bit_xor t (v / 2)) (sym (value-divide p b)) in
    ap (λ (t : ℕ). crc_rounds n t) first
    ∙ rounds-divide n (divide p b) (v / 2) (omega (arith, pow-suc 2 n))

foldl-crc_byte :
    (bytes : List ℕ) (p : Polynomial)
    → IsBytes bytes
    → foldl crc_byte (value p) bytes ≡ value (foldl divide p (message bytes))
unfolding crc_byte
foldl-crc_byte [] p h = refl
foldl-crc_byte (b ∷ bytes) p (q, qs) =
    ap (λ (t : ℕ). foldl crc_byte t bytes) (rounds-divide 8 p b q)
    ∙ foldl-crc_byte bytes (foldl divide p (bits 8 b)) qs

-- On every message of bytes the table-driven checksum is the remainder of a long division of
-- polynomials over the field of two elements, modulo x ^ 16 + x ^ 15 + x ^ 2 + 1: from the
-- remainder with all 16 coefficients 1 on, each bit of the message, the lowest of a byte first, is
-- added to the coefficient of x ^ 15, and the sum is multiplied by x. The checksum holds the
-- coefficient of x ^ 15 in its lowest bit.
pub crc16_modbus-division :
    (bytes : List ℕ)
    → IsBytes bytes
    → crc16_modbus bytes ≡ value (foldl divide all_ones (message bytes))
crc16_modbus-division bytes h = crc16_modbus-crc_byte bytes h ∙ foldl-crc_byte bytes all_ones h
