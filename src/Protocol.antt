-- ===== src/Protocol.antt =====
-- internal/protocol/types.go and errors.go: what the decoder reads and what it produces.
pub mod Decoder
pub mod Extract
pub mod Stream
pub mod Tests
use Prim.Native.String.{String}
use thermal_recovery_flow.Base.{ℕ, Bool, List}

-- A uint8, so that its zero value and values that no constant names are there.
abbrev pub SensorType : Type 0
SensorType = ℕ

abbrev pub sensor_vortex_flowmeter : SensorType
sensor_vortex_flowmeter = 1

abbrev pub sensor_capacitance_prod_meter : SensorType
sensor_capacitance_prod_meter = 2

-- `F` is the type of `float64`; a time is its number of nanoseconds.
pub record RawSensorData (F : Type 0) : Type 0 where
  pub timestamp : ℕ
  pub sensor_type : SensorType
  pub slave_address : ℕ
  pub differential_pressure : F
  pub dry_bulb_temp : F
  pub high_speed_time : ℕ
  pub raw_bytes : List ℕ

pub record ModbusRtuFrame : Type 0 where
  pub slave_address : ℕ
  pub function_code : ℕ
  pub payload : List ℕ
  pub crc : ℕ
  pub is_valid : Bool
  pub raw_length : ℕ

abbrev pub min_frame_length : ℕ
min_frame_length = 5

abbrev pub max_allowed_frame_length : ℕ
max_allowed_frame_length = 512

pub data DecodeErrorType : Type 0 where
  frame_too_short crc_invalid invalid_frame insufficient_data : DecodeErrorType
  invalid_function_code invalid_slave_address frame_too_long invalid_data : DecodeErrorType

pub record DecodeError : Type 0 where
  pub kind : DecodeErrorType
  pub detail : String

abbrev pub decode_error : DecodeErrorType → String → DecodeError
decode_error kind detail = record { kind = kind; detail = detail }
