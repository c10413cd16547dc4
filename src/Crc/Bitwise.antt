-- ===== src/Crc/Bitwise.antt =====
-- The table method against the rounds that make the table.
use thermal_recovery_flow.Base.{
  ℕ, zero, suc, ◌+◌, ◌*◌, ◌/◌, ◌%◌, ◌^◌, ◌<◌, ◌≡◌, refl, ap, ◌∙◌, bit_xor, arith, List, [], ◌∷◌,
  foldl, get_or, IsByte, IsBytes,
}
use thermal_recovery_flow.Base.Bits.{
  halves, bit_xor-zero, bit_xor_shift, bit_xor_assoc, bit_xor_comm, bit_xor_fields, bit_and-one,
  bit_and_byte,
}
use native.Mathlib.Nat.{pow-suc}
use thermal_recovery_flow.Crc.{
  crc16_modbus_poly, crc16_init, crc_round, crc_rounds, fill_table, crc_table, crc_step,
  crc16_modbus,
}

-- What is not in the lowest bit only moves down.
pub crc_round_even : (a b : ℕ) → crc_round (bit_xor a (2 * b)) ≡ bit_xor (crc_round a) b
unfolding crc_round
crc_round_even a b = ground (
  arith,
  bit_and-one a,
  bit_and-one (bit_xor a (2 * b)),
  halves a (2 * b),
  bit_xor_assoc (a / 2) b crc16_modbus_poly,
  bit_xor_comm b crc16_modbus_poly,
  bit_xor_assoc (a / 2) crc16_modbus_poly b,
)

pub crc_rounds_high :
    (n a q : ℕ) → crc_rounds n (bit_xor a (q * 2 ^ n)) ≡ bit_xor (crc_rounds n a) q
unfolding crc_rounds
crc_rounds_high zero a q = ap (λ (t : ℕ). bit_xor a t) (omega arith)
crc_rounds_high (suc n) a q =
    let even : q * 2 ^ suc n ≡ 2 * (q * 2 ^ n) =
      omega (arith, ap (λ (t : ℕ). q * t) (pow-suc 2 n)) in
    rw even (rw (crc_round_even a (q * 2 ^ n)) (crc_rounds_high n (crc_round a) q))

get_or-fill_table :
    (left i j : ℕ) → j < left → get_or (fill_table left i) j 0 ≡ crc_rounds 8 (i + j)
unfolding fill_table
get_or-fill_table zero i j h = elim h [ ]
get_or-fill_table (suc left) i zero h = ap (λ (t : ℕ). crc_rounds 8 t) (omega arith)
get_or-fill_table (suc left) i (suc j) h =
    get_or-fill_table left (i + 1) j (omega arith) ∙ ap (λ (t : ℕ). crc_rounds 8 t) (omega arith)

get_or-crc_table : (i : ℕ) → i < 256 → get_or crc_table i 0 ≡ crc_rounds 8 i
unfolding crc_table
get_or-crc_table i h = get_or-fill_table 256 0 i h ∙ ap (λ (t : ℕ). crc_rounds 8 t) (omega arith)

-- One byte, in eight rounds.
unfoldable pub crc_byte : ℕ → ℕ → ℕ
crc_byte crc b = crc_rounds 8 (bit_xor crc b)

pub crc_step-crc_byte : (crc b : ℕ) → IsByte b → crc_step crc b ≡ crc_byte crc b
unfolding crc_step crc_byte
crc_step-crc_byte crc b h =
    let x = bit_xor crc b in
    let top : x / 256 ≡ crc / 256 =
      bit_xor_shift 8 crc b
      ∙ ap (λ (t : ℕ). bit_xor (crc / 256) t) (omega arith)
      ∙ bit_xor-zero (crc / 256) in
    ground (
      arith,
      top,
      bit_and_byte x,
      get_or-crc_table (x % 256),
      bit_xor_fields 8 (x / 256) (x % 256),
      crc_rounds_high 8 (x % 256) (x / 256),
      bit_xor_comm (crc / 256) (crc_rounds 8 (x % 256)),
    )

foldl-crc_step :
    (bytes : List ℕ) (crc : ℕ) → IsBytes bytes → foldl crc_step crc bytes ≡ foldl crc_byte crc bytes
foldl-crc_step [] crc h = refl
foldl-crc_step (b ∷ bytes) crc (p, ps) =
    rw (crc_step-crc_byte crc b p) (foldl-crc_step bytes (crc_byte crc b) ps)

-- The table-driven checksum takes the eight rounds of the table's own making for each byte.
pub crc16_modbus-crc_byte :
    (bytes : List ℕ) → IsBytes bytes → crc16_modbus bytes ≡ foldl crc_byte crc16_init bytes
unfolding crc16_modbus
crc16_modbus-crc_byte bytes h = foldl-crc_step bytes crc16_init h
