-- ===== src/Protocol/Extract/Fields.antt =====
-- The registers of a sensor, from their wire form to the values of `RawSensorData`.
use thermal_recovery_flow.Base.{
  ℕ, ◌+◌, ◌*◌, ◌/◌, ◌%◌, ◌^◌, ◌<◌, ◌≡◌, refl, ◌∙◌, true, some, List, [], ◌∷◌, ◌++◌, arith, ◌==◌,
  if◌then◌else◌, length, ◌<<<◌, IsBytes, ok,
}
use thermal_recovery_flow.Base.Bits.{bit_or-eq-add}
use thermal_recovery_flow.Base.Float.{Float}
use thermal_recovery_flow.Protocol.{
  ModbusRtuFrame, sensor_vortex_flowmeter, sensor_capacitance_prod_meter,
}
use thermal_recovery_flow.Protocol.Extract.{
  bytes_to_uint32, bytes_to_uint48, convert_to_pressure, convert_to_temperature, sensor_type_of,
  extract_sensor_data,
}

-- The digits of a number in base 256, highest first.
abbrev pub be32 : ℕ → List ℕ
be32 n = n / 2 ^ 24 ∷ n / 2 ^ 16 % 256 ∷ n / 2 ^ 8 % 256 ∷ n % 256 ∷ []

abbrev pub be48 : ℕ → List ℕ
be48 n =
    n / 2 ^ 40
    ∷ n / 2 ^ 32 % 256
    ∷ n / 2 ^ 24 % 256
    ∷ n / 2 ^ 16 % 256
    ∷ n / 2 ^ 8 % 256
    ∷ n % 256
    ∷ []

pub bytes_to_uint32-be32 : (n : ℕ) → bytes_to_uint32 (be32 n) ≡ n
unfolding bytes_to_uint32
bytes_to_uint32-be32 n = omega arith

pub uint48_sum :
    (a b c d e f : ℕ)
    → IsBytes (a ∷ b ∷ c ∷ d ∷ e ∷ f ∷ [])
    → bytes_to_uint48 (a ∷ b ∷ c ∷ d ∷ e ∷ f ∷ [])
      ≡ a * 2 ^ 40 + b * 2 ^ 32 + c * 2 ^ 24 + d * 2 ^ 16 + e * 2 ^ 8 + f
unfolding bytes_to_uint48
uint48_sum a b c d e f h =
    rw
      (
        bit_or-eq-add 40 a (a <<< 40) (b <<< 32) refl (omega arith),
        bit_or-eq-add 32 (a * 256 + b) (a <<< 40 + b <<< 32) (c <<< 24) (omega arith) (omega arith),
        bit_or-eq-add 24 (a * 65536 + b * 256 + c) (a <<< 40 + b <<< 32 + c <<< 24) (d <<< 16)
            (omega arith) (omega arith),
        bit_or-eq-add 16 (a * 2 ^ 24 + b * 65536 + c * 256 + d)
            (a <<< 40 + b <<< 32 + c <<< 24 + d <<< 16) (e <<< 8) (omega arith) (omega arith),
        bit_or-eq-add 8 (a * 2 ^ 32 + b * 2 ^ 24 + c * 65536 + d * 256 + e)
            (a <<< 40 + b <<< 32 + c <<< 24 + d <<< 16 + e <<< 8) f (omega arith) (omega arith),
      )
      refl

pub bytes_to_uint48-be48 : (n : ℕ) → n < 2 ^ 48 → bytes_to_uint48 (be48 n) ≡ n
bytes_to_uint48-be48 n h =
    uint48_sum (n / 2 ^ 40) (n / 2 ^ 32 % 256) (n / 2 ^ 24 % 256) (n / 2 ^ 16 % 256)
      (n / 2 ^ 8 % 256) (n % 256) (omega arith)
    ∙ omega arith

-- The registers as the sensor lays them out, with anything behind the sensor type.
abbrev pub sensor_registers : (pressure temp time code : ℕ) → List ℕ → List ℕ
sensor_registers pressure temp time code rest =
    be32 pressure ++ be32 temp ++ be48 time ++ code ∷ rest

sensor_type_of-code :
    (code : ℕ)
    → sensor_type_of code
      ≡ (if code == 2 then sensor_capacitance_prod_meter else sensor_vortex_flowmeter)
unfolding sensor_type_of
sensor_type_of-code code = ground arith

module _ {F : Type 0} ⦃o : Float F⦄ where
  -- From a valid frame with the registers of a sensor and at least one byte more
  -- `ExtractSensorData` reads back the raw pressure and temperature, which are then scaled, the
  -- 48-bit time, and the sensor type, where every code but 2 means a vortex flowmeter.
  pub extract_sensor_data-sensor_registers :
      (now pressure temp time code : ℕ) (rest : List ℕ) (frame : ModbusRtuFrame)
      → frame.is_valid ≡ true
      → frame.payload ≡ sensor_registers pressure temp time code rest
      → 0 < length rest
      → time < 2 ^ 48
      → extract_sensor_data {F = F} now (some frame)
        ≡ ok (record {
          timestamp = now;
          sensor_type =
              if code == 2 then sensor_capacitance_prod_meter else sensor_vortex_flowmeter;
          slave_address = frame.slave_address;
          differential_pressure = convert_to_pressure pressure;
          dry_bulb_temp = convert_to_temperature temp;
          high_speed_time = time;
          raw_bytes = frame.payload;
        })
  unfolding extract_sensor_data
  extract_sensor_data-sensor_registers now pressure temp time code rest frame valid regs more fits =
      ground (
        arith,
        bytes_to_uint32-be32 pressure,
        bytes_to_uint32-be32 temp,
        bytes_to_uint48-be48 time fits,
        sensor_type_of-code code,
      )
