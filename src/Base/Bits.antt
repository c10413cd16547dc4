-- ===== src/Base/Bits.antt =====
-- Laws of `bit_xor`, `bit_and` with a low mask and `bit_or` of disjoint fields at variables, all
-- from one equation for the lowest binary digit of each operation.
use Prim.Native.Nat.{
  ℕ, zero, suc, ◌+◌, ◌*◌, ◌/◌, ◌%◌, ◌^◌, ◌≤◌, ◌<◌, min, max, bit_and, bit_or, bit_xor, digits,
  bitwise, bit_and-bitwise, bit_or-bitwise, bit_xor-bitwise, differ,
}
use mathlib.Core.Path.{◌≡◌, refl, ap}
use native.Mathlib.Nat.{pow-suc, div-div-eq-div-mul, div-one}
use native.Mathlib.Omega.{arith}

-- The digit recursion does not depend on its fuel, once that covers the first argument.
module _ (z : ℕ → ℕ) (f : ℕ → ℕ → ℕ) where
  digits_agree : (n m a b : ℕ) → a ≤ n → a ≤ m → digits z f n a b ≡ digits z f m a b
  digits_agree zero zero zero b p q = refl
  digits_agree zero (suc m) zero b p q = refl
  digits_agree (suc n) zero zero b p q = refl
  digits_agree (suc n) (suc m) zero b p q = refl
  digits_agree zero m (suc a) b p q = absurd (omega arith)
  digits_agree (suc n) zero (suc a) b p q = absurd (omega arith)
  digits_agree (suc n) (suc m) (suc a) b p q =
      ap (λ (t : ℕ). t * 2 + f (suc a % 2) (b % 2))
        (digits_agree n m (suc a / 2) (b / 2) (omega arith) (omega arith))

  lowest_digit :
      (a b : ℕ)
      → bitwise z f (suc a) b ≡ bitwise z f (suc a / 2) (b / 2) * 2 + f (suc a % 2) (b % 2)
  lowest_digit a b =
      ap (λ (t : ℕ). t * 2 + f (suc a % 2) (b % 2))
        (digits_agree a (suc a / 2) (suc a / 2) (b / 2) (omega arith) (omega arith))

differ_digits : (a b : ℕ) → a < 2 → b < 2 → differ a b ≡ (a + b) % 2
differ_digits zero b p q = omega arith
differ_digits (suc zero) zero p q = refl
differ_digits (suc zero) (suc zero) p q = refl
differ_digits (suc zero) (suc (suc b)) p q = absurd (omega arith)
differ_digits (suc (suc a)) b p q = absurd (omega arith)

bit_xor_digit : (a b : ℕ) → bit_xor a b ≡ bit_xor (a / 2) (b / 2) * 2 + (a % 2 + b % 2) % 2
bit_xor_digit zero b = omega (arith, bit_xor-bitwise 0 b, bit_xor-bitwise 0 (b / 2))
bit_xor_digit (suc a) b = omega (
  arith,
  bit_xor-bitwise (suc a) b,
  lowest_digit (λ y. y) differ a b,
  bit_xor-bitwise (suc a / 2) (b / 2),
  differ_digits (suc a % 2) (b % 2),
)

bit_and_digit : (a b : ℕ) → bit_and a b ≡ bit_and (a / 2) (b / 2) * 2 + min (a % 2) (b % 2)
bit_and_digit zero b = omega (arith, bit_and-bitwise 0 b, bit_and-bitwise 0 (b / 2))
bit_and_digit (suc a) b = omega (
  arith,
  bit_and-bitwise (suc a) b,
  lowest_digit (λ y. 0) min a b,
  bit_and-bitwise (suc a / 2) (b / 2),
)

bit_or_digit : (a b : ℕ) → bit_or a b ≡ bit_or (a / 2) (b / 2) * 2 + max (a % 2) (b % 2)
bit_or_digit zero b = omega (arith, bit_or-bitwise 0 b, bit_or-bitwise 0 (b / 2))
bit_or_digit (suc a) b = omega (
  arith,
  bit_or-bitwise (suc a) b,
  lowest_digit (λ y. y) max a b,
  bit_or-bitwise (suc a / 2) (b / 2),
)

pub zero-bit_xor : (b : ℕ) → bit_xor 0 b ≡ b
zero-bit_xor b = bit_xor-bitwise 0 b

-- Each law goes from the halves to the numbers; `n` bounds them.
xor_comm_upto : (n a b : ℕ) → a ≤ n → b ≤ n → bit_xor a b ≡ bit_xor b a
xor_comm_upto zero zero zero p q = refl
xor_comm_upto zero zero (suc b) p q = absurd (omega arith)
xor_comm_upto zero (suc a) b p q = absurd (omega arith)
xor_comm_upto (suc n) a b p q = omega (
  arith,
  bit_xor_digit a b,
  bit_xor_digit b a,
  xor_comm_upto n (a / 2) (b / 2) (omega arith) (omega arith),
)

pub bit_xor_comm : (a b : ℕ) → bit_xor a b ≡ bit_xor b a
bit_xor_comm a b = xor_comm_upto (a + b) a b (omega arith) (omega arith)

pub bit_xor-zero : (a : ℕ) → bit_xor a 0 ≡ a
bit_xor-zero a = rw (bit_xor_comm a 0) (zero-bit_xor a)

pub halves :
    (a b : ℕ) → (bit_xor a b / 2 ≡ bit_xor (a / 2) (b / 2)) × (bit_xor a b % 2 ≡ (a + b) % 2)
halves a b = omega (arith, bit_xor_digit a b)

xor_assoc_upto :
    (n a b c : ℕ) → a ≤ n → b ≤ n → c ≤ n → bit_xor (bit_xor a b) c ≡ bit_xor a (bit_xor b c)
xor_assoc_upto zero zero b c p q r = simp zero-bit_xor
xor_assoc_upto zero (suc a) b c p q r = absurd (omega arith)
xor_assoc_upto (suc n) a b c p q r =
    let ih = xor_assoc_upto n (a / 2) (b / 2) (c / 2) (omega arith) (omega arith) (omega arith) in
    let left : bit_xor (bit_xor a b / 2) (c / 2) ≡ bit_xor (bit_xor (a / 2) (b / 2)) (c / 2) =
      ap (λ (t : ℕ). bit_xor t (c / 2)) (halves a b).0 in
    let right : bit_xor (a / 2) (bit_xor b c / 2) ≡ bit_xor (a / 2) (bit_xor (b / 2) (c / 2)) =
      ap (λ (t : ℕ). bit_xor (a / 2) t) (halves b c).0 in
    omega (
      arith,
      ih,
      left,
      right,
      halves a b,
      halves b c,
      bit_xor_digit (bit_xor a b) c,
      bit_xor_digit a (bit_xor b c),
    )

pub bit_xor_assoc : (a b c : ℕ) → bit_xor (bit_xor a b) c ≡ bit_xor a (bit_xor b c)
bit_xor_assoc a b c = xor_assoc_upto (a + b + c) a b c (omega arith) (omega arith) (omega arith)

xor_self_upto : (n a : ℕ) → a ≤ n → bit_xor a a ≡ 0
xor_self_upto n zero p = refl
xor_self_upto zero (suc a) p = absurd (omega arith)
xor_self_upto (suc n) (suc a) p =
    omega (arith, bit_xor_digit (suc a) (suc a), xor_self_upto n (suc a / 2) (omega arith))

pub bit_xor_self : (a : ℕ) → bit_xor a a ≡ 0
bit_xor_self a = xor_self_upto a a (omega arith)

-- Exclusive or is its own inverse.
pub bit_xor_cancel : (a b : ℕ) → bit_xor a (bit_xor a b) ≡ b
bit_xor_cancel a b = rw (← bit_xor_assoc a a b) (rw bit_xor_self (zero-bit_xor b))

-- Both numbers move down together, and a bound by a power of two is kept.
pub bit_xor_shift : (k a b : ℕ) → bit_xor a b / 2 ^ k ≡ bit_xor (a / 2 ^ k) (b / 2 ^ k)
bit_xor_shift zero a b = simp div-one
bit_xor_shift (suc k) a b =
    rw (pow-suc 2 k)
      (simp (← div-div-eq-div-mul, bit_xor_shift k a b) (halves (a / 2 ^ k) (b / 2 ^ k)).0)

pub bit_xor-lt : (k a b : ℕ) → a < 2 ^ k → b < 2 ^ k → bit_xor a b < 2 ^ k
bit_xor-lt zero zero zero p q = omega arith
bit_xor-lt zero zero (suc b) p q = absurd (omega arith)
bit_xor-lt zero (suc a) b p q = absurd (omega arith)
bit_xor-lt (suc k) a b p q = omega (
  arith,
  pow-suc 2 k,
  halves a b,
  bit_xor-lt k (a / 2) (b / 2) (omega (arith, pow-suc 2 k)) (omega (arith, pow-suc 2 k)),
)

-- A mask of ones takes the low digits.
mask_digit : (a m : ℕ) → bit_and a (2 * m + 1) ≡ bit_and (a / 2) m * 2 + a % 2
mask_digit a m = ground (arith, bit_and_digit a (2 * m + 1))

bit_and-zero_upto : (n a : ℕ) → a ≤ n → bit_and a 0 ≡ 0
bit_and-zero_upto n zero p = refl
bit_and-zero_upto zero (suc a) p = absurd (omega arith)
bit_and-zero_upto (suc n) (suc a) p =
    omega (arith, bit_and_digit (suc a) 0, bit_and-zero_upto n (suc a / 2) (omega arith))

pub bit_and-one : (a : ℕ) → bit_and a 1 ≡ a % 2
bit_and-one a = omega (arith, mask_digit a 0, bit_and-zero_upto (a / 2) (a / 2) (omega arith))

pub bit_and_byte : (a : ℕ) → bit_and a 0xff ≡ a % 256
bit_and_byte a = omega (
  arith,
  mask_digit a 127,
  mask_digit (a / 2) 63,
  mask_digit (a / 2 / 2) 31,
  mask_digit (a / 2 / 2 / 2) 15,
  mask_digit (a / 2 / 2 / 2 / 2) 7,
  mask_digit (a / 2 / 2 / 2 / 2 / 2) 3,
  mask_digit (a / 2 / 2 / 2 / 2 / 2 / 2) 1,
  bit_and-one (a / 2 / 2 / 2 / 2 / 2 / 2 / 2),
)

or_zero_upto : (n a : ℕ) → a ≤ n → bit_or a 0 ≡ a
or_zero_upto n zero p = refl
or_zero_upto zero (suc a) p = absurd (omega arith)
or_zero_upto (suc n) (suc a) p =
    omega (arith, bit_or_digit (suc a) 0, or_zero_upto n (suc a / 2) (omega arith))

shifted : (q k : ℕ) → q * 2 ^ suc k ≡ 2 * (q * 2 ^ k)
shifted q k = omega (arith, ap (λ (t : ℕ). q * t) (pow-suc 2 k))

-- `|` of fields that do not overlap is their sum.
pub bit_or_low : (k q r : ℕ) → r < 2 ^ k → bit_or r (q * 2 ^ k) ≡ q * 2 ^ k + r
bit_or_low zero q zero p = omega (arith, bit_or-bitwise 0 (q * 1))
bit_or_low zero q (suc r) p = absurd (omega arith)
bit_or_low (suc k) q r p = ground (
  arith,
  shifted q k,
  bit_or_digit r (q * 2 ^ suc k),
  bit_or_low k q (r / 2) (omega (arith, pow-suc 2 k)),
)

pub bit_or_high : (k q r : ℕ) → r < 2 ^ k → bit_or (q * 2 ^ k) r ≡ q * 2 ^ k + r
bit_or_high zero q zero p = omega (arith, or_zero_upto (q * 1) (q * 1) (omega arith))
bit_or_high zero q (suc r) p = absurd (omega arith)
bit_or_high (suc k) q r p = ground (
  arith,
  shifted q k,
  bit_or_digit (q * 2 ^ suc k) r,
  bit_or_high k q (r / 2) (omega (arith, pow-suc 2 k)),
)

-- A number is the exclusive or of its two parts.
pub bit_xor_fields : (k q r : ℕ) → r < 2 ^ k → bit_xor r (q * 2 ^ k) ≡ q * 2 ^ k + r
bit_xor_fields zero q zero p = omega (arith, zero-bit_xor (q * 1))
bit_xor_fields zero q (suc r) p = absurd (omega arith)
bit_xor_fields (suc k) q r p = ground (
  arith,
  shifted q k,
  bit_xor_digit r (q * 2 ^ suc k),
  bit_xor_fields k q (r / 2) (omega (arith, pow-suc 2 k)),
)

pub bit_xor_injective : (a b c : ℕ) → bit_xor a b ≡ bit_xor a c → b ≡ c
bit_xor_injective a b c e =
    rw (← bit_xor_cancel a b, ← bit_xor_cancel a c) (ap (λ (t : ℕ). bit_xor a t) e)

-- The same for a number that is known to be a multiple.
pub bit_or-eq-add : (k q n r : ℕ) → n ≡ q * 2 ^ k → r < 2 ^ k → bit_or n r ≡ n + r
bit_or-eq-add k q n r e p = rw e (bit_or_high k q r p)
