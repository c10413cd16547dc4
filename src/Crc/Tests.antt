-- ===== src/Crc/Tests.antt =====
-- Runs of the checksum, and its theorems at concrete frames.
use thermal_recovery_flow.Base.{ℕ, ◌≡◌, refl, true, false, arith, List, [], ◌∷◌, ◌++◌, foldl}
use thermal_recovery_flow.Crc.{crc16_modbus, validate_crc16, append_crc16}
use thermal_recovery_flow.Crc.Division.{all_ones, divide, message, value, crc16_modbus-division}
use thermal_recovery_flow.Crc.Detect.{validate_crc16_burst}

-- A request for two holding registers, as the repository's tests have it.
abbrev request : List ℕ
request = 0x01 ∷ 0x03 ∷ 0x00 ∷ 0x00 ∷ 0x00 ∷ 0x0A ∷ []

append_request : append_crc16 request ≡ request ++ (0xC5 ∷ 0xCD ∷ [])
unfolding append_crc16
append_request = refl

crc16_modbus-division_example :
    crc16_modbus request ≡ value (foldl divide all_ones (message request))
crc16_modbus-division_example = crc16_modbus-division request (omega arith)

request_valid : validate_crc16 (request ++ 0xC5 ∷ 0xCD ∷ []) ≡ true
unfolding validate_crc16
request_valid = refl

validate_crc16_burst_example :
    validate_crc16 ((0x01 ∷ 0x03 ∷ 0x80 ∷ 0x01 ∷ 0x00 ∷ 0x0A ∷ []) ++ 0xC5 ∷ 0xCD ∷ []) ≡ false
validate_crc16_burst_example =
    validate_crc16_burst (0x01 ∷ 0x03 ∷ []) (0x00 ∷ 0x0A ∷ []) 0 0 0x80 0x01 0xC5 0xCD (omega arith)
      (omega arith) (omega arith) (λ e. omega arith) request_valid
