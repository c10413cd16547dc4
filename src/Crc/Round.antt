-- ===== src/Crc/Round.antt =====
-- One bit of the division: its range, that it can be undone, and that it is linear.
use thermal_recovery_flow.Base.{
  ℕ, zero, suc, ◌+◌, ◌*◌, ◌/◌, ◌<◌, ◌≡◌, ap, sym, ◌∙◌, bit_xor, arith, ltb, if◌then◌else◌,
}
use thermal_recovery_flow.Base.Bits.{
  bit_xor_shift, bit_xor-lt, bit_xor_comm, bit_xor_cancel, bit_and-one,
}
use thermal_recovery_flow.Crc.{crc16_modbus_poly, crc_round, crc_rounds}

pub crc_round-lt : (x : ℕ) → x < 65536 → crc_round x < 65536
unfolding crc_round
crc_round-lt x h = ground (arith, bit_xor-lt 16 (x / 2) crc16_modbus_poly (omega arith))

pub crc_rounds-lt : (n x : ℕ) → x < 65536 → crc_rounds n x < 65536
unfolding crc_rounds
crc_rounds-lt zero x h = h
crc_rounds-lt (suc n) x h = crc_rounds-lt n (crc_round x) (crc_round-lt x h)

-- The polynomial sets the top bit, so the result shows which of the two branches made it.
undo_round : ℕ → ℕ
undo_round y = if ltb y 0x8000 then 2 * y else 2 * bit_xor crc16_modbus_poly y + 1

undo_round-crc_round : (x : ℕ) → x < 65536 → undo_round (crc_round x) ≡ x
unfolding undo_round crc_round
undo_round-crc_round x h = ground (
  arith,
  bit_and-one x,
  bit_xor_shift 15 (x / 2) crc16_modbus_poly,
  bit_xor_comm (x / 2) crc16_modbus_poly,
  bit_xor_cancel crc16_modbus_poly (x / 2),
)

pub crc_round_injective : (x y : ℕ) → x < 65536 → y < 65536 → crc_round x ≡ crc_round y → x ≡ y
crc_round_injective x y p q e =
    sym (undo_round-crc_round x p) ∙ ap undo_round e ∙ undo_round-crc_round y q

pub crc_rounds_injective :
    (n x y : ℕ) → x < 65536 → y < 65536 → crc_rounds n x ≡ crc_rounds n y → x ≡ y
unfolding crc_rounds
crc_rounds_injective zero x y p q e = e
crc_rounds_injective (suc n) x y p q e =
    crc_round_injective x y p q
      (crc_rounds_injective n (crc_round x) (crc_round y) (crc_round-lt x p) (crc_round-lt y q) e)
