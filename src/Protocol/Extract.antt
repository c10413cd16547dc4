-- ===== src/Protocol/Extract.antt =====
-- internal/protocol/decoder.go: `ExtractSensorData` and the conversions that it uses.
pub mod Fields
use thermal_recovery_flow.Base.{
  ℕ, ◌+◌, ◌-◌, ◌*◌, ◌^◌, Bool, true, false, not, ◌&&◌, Option, none, some, List, [], ◌∷◌, bit_or,
  ltb, leb, ◌==◌, if◌then◌else◌, length, get_or, take, drop, ◌<<<◌, ◌>>>◌, u8, Result, ok, err,
}
use thermal_recovery_flow.Base.Float.{Float, ◌+ᶠ◌, ◌*ᶠ◌, not_finite}
use thermal_recovery_flow.Protocol.{
  SensorType, sensor_vortex_flowmeter, sensor_capacitance_prod_meter, RawSensorData, ModbusRtuFrame,
  DecodeError, decode_error, invalid_frame, insufficient_data,
}

-- `binary.BigEndian.Uint16(b)` and `Uint32(b)`, of the standard library.
abbrev pub big_endian_uint16 : List ℕ → ℕ
big_endian_uint16 b = get_or b 0 0 * 256 + get_or b 1 0

abbrev pub big_endian_uint32 : List ℕ → ℕ
big_endian_uint32 b =
    get_or b 0 0 * 2 ^ 24 + get_or b 1 0 * 2 ^ 16 + get_or b 2 0 * 2 ^ 8 + get_or b 3 0

pub bytes_to_uint16 : List ℕ → ℕ
bytes_to_uint16 b = if ltb (length b) 2 then 0 else big_endian_uint16 b

pub bytes_to_uint32 : List ℕ → ℕ
bytes_to_uint32 b = if ltb (length b) 4 then 0 else big_endian_uint32 b

-- A byte shifted by at most 40 places fits a uint64.
pub bytes_to_uint48 : List ℕ → ℕ
bytes_to_uint48 b =
    if ltb (length b) 6
    then 0
    else bit_or
        (bit_or
          (bit_or
            (bit_or (bit_or (get_or b 0 0 <<< 40) (get_or b 1 0 <<< 32)) (get_or b 2 0 <<< 24))
            (get_or b 3 0 <<< 16))
          (get_or b 4 0 <<< 8))
        (get_or b 5 0)

-- `Float32ToBytes` and `BytesToFloat32`, over the bit patterns of the package math.
module _ {S : Type 0} (float32bits : S → ℕ) (float32frombits : ℕ → S) where
  pub float32_to_bytes : S → List ℕ
  float32_to_bytes f =
      let bits = float32bits f in
      u8 (bits >>> 24) ∷ u8 (bits >>> 16) ∷ u8 (bits >>> 8) ∷ u8 bits ∷ []

  pub bytes_to_float32 : List ℕ → S
  bytes_to_float32 b =
      if ltb (length b) 4 then float32frombits 0 else float32frombits (big_endian_uint32 b)

sensor_type_of : ℕ → SensorType
sensor_type_of code =
    if code == 0x01
    then sensor_vortex_flowmeter
    else if code == 0x02
    then sensor_capacitance_prod_meter
    else sensor_vortex_flowmeter

module _ {F : Type 0} ⦃o : Float F⦄ where
  open o use {lit, neg}

  unfoldable pub convert_to_pressure : ℕ → F
  convert_to_pressure raw =
      let p = lit raw 0 *ᶠ lit 1 3 +ᶠ lit 0 1 in if not_finite p then lit 0 1 else p

  unfoldable pub convert_to_temperature : ℕ → F
  convert_to_temperature raw =
      let t = lit raw 0 *ᶠ lit 1 2 +ᶠ neg (lit 27315 2) in if not_finite t then lit 0 1 else t

  -- What `ExtractSensorData` fills in for a frame that it accepts; `now` is `time.Now()`.
  extracted : ℕ → ModbusRtuFrame → RawSensorData F
  unfolding bytes_to_uint32 bytes_to_uint48 sensor_type_of
  extracted now frame =
      let b = frame.payload in
      record {
        timestamp = now;
        sensor_type = if leb 16 (length b) then sensor_type_of (get_or b 14 0) else 0;
        slave_address = frame.slave_address;
        differential_pressure =
            if leb 4 (length b) then convert_to_pressure (bytes_to_uint32 (take 4 b)) else lit 0 0;
        dry_bulb_temp =
            if leb 8 (length b)
            then convert_to_temperature (bytes_to_uint32 (take 4 (drop 4 b)))
            else lit 0 0;
        high_speed_time = if leb 14 (length b) then bytes_to_uint48 (take 6 (drop 8 b)) else 0;
        raw_bytes = b;
      }

  -- `ExtractSensorData`; `none` is the nil frame.
  unfoldable pub extract_sensor_data :
      ℕ → Option ModbusRtuFrame → Result DecodeError (RawSensorData F)
  unfolding extracted
  extract_sensor_data now none = err (decode_error invalid_frame "nil frame")
  extract_sensor_data now (some frame) =
      if not frame.is_valid
      then err (decode_error invalid_frame "cannot extract from invalid frame")
      else if ltb (length frame.payload) 16
      then err (decode_error insufficient_data "need at least 16 bytes of register data")
      else ok (extracted now frame)
