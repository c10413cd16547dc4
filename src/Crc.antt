-- ===== src/Crc.antt =====
-- internal/crc/crc16.go: the table, the checksum of a message, the check of a received frame and
-- the checksum that is appended to a frame to be sent.
pub mod Round
pub mod Bitwise
pub mod Frame
pub mod Detect
pub mod Division
pub mod Tests
use thermal_recovery_flow.Base.{
  ℕ, zero, suc, ◌+◌, ◌-◌, Bool, true, false, not, List, [], ◌∷◌, ◌++◌, foldl, bit_and, bit_or,
  bit_xor, u8, u16, ◌>>>◌, ◌<<<◌, ltb, ◌==◌, if◌then◌else◌, length, get_or, take,
}

abbrev pub crc16_modbus_poly : ℕ
crc16_modbus_poly = 0xA001

abbrev pub crc16_init : ℕ
crc16_init = 0xFFFF

-- One turn of the inner loop of `init`.
pub crc_round : ℕ → ℕ
crc_round crc =
    if not (bit_and crc 0x0001 == 0) then bit_xor (crc >>> 1) crc16_modbus_poly else crc >>> 1

-- The inner loop, with the turns that are left.
pub crc_rounds : ℕ → ℕ → ℕ
crc_rounds zero crc = crc
crc_rounds (suc left) crc = crc_rounds left (crc_round crc)

-- The outer loop of `init` from index `i` on, with the entries that are left.
fill_table : ℕ → ℕ → List ℕ
fill_table zero i = []
fill_table (suc left) i = crc_rounds 8 i ∷ fill_table left (i + 1)

crc_table : List ℕ
unfolding fill_table crc_rounds crc_round
crc_table = fill_table 256 0

-- The body of the loop of `CRC16Modbus`.
pub crc_step : ℕ → ℕ → ℕ
unfolding crc_table
crc_step crc b = bit_xor (crc >>> 8) (get_or crc_table (bit_and (bit_xor crc b) 0x00FF) 0)

unfoldable pub crc16_modbus : List ℕ → ℕ
unfolding crc_step
crc16_modbus = foldl crc_step crc16_init

unfoldable pub validate_crc16 : List ℕ → Bool
unfolding crc16_modbus
validate_crc16 bytes =
    if ltb (length bytes) 4
    then false
    else let payload_len = length bytes - 2 in
      let calculated = crc16_modbus (take payload_len bytes) in
      let received =
        bit_or (get_or bytes payload_len 0) (u16 (get_or bytes (payload_len + 1) 0 <<< 8)) in
      calculated == received

unfoldable pub append_crc16 : List ℕ → List ℕ
unfolding crc16_modbus
append_crc16 bytes =
    let crc = crc16_modbus bytes in bytes ++ (u8 (bit_and crc 0xFF) ∷ u8 (crc >>> 8) ∷ [])
