-- ===== src/Frame.antt =====
-- internal/frame/output.go: the configuration of the output and what a frame becomes in each format.
-- Of the standard library the formatting of times and numbers, the encoding of JSON and the bits of a
-- float64 are arguments.
pub mod Binary
pub mod Clients
pub mod Output
pub mod Tests
use Prim.Native.String.{String}
use text.Mathlib.Text.{◌==◌ as str_eq}
use thermal_recovery_flow.Base.{
  ℕ, ◌*◌, ◌^◌, ◌||◌, Bool, true, false, List, [], ◌∷◌, ◌++◌, if◌then◌else◌, ◌==◌, Result, ok, err,
  u8, ◌>>>◌,
}
use thermal_recovery_flow.Base.Int.{ℤ, pos, leb_ℤ}
use thermal_recovery_flow.Base.Float.{Float, ◌-ᶠ◌}
use thermal_recovery_flow.Protocol.{
  SensorType, sensor_vortex_flowmeter, sensor_capacitance_prod_meter,
}
use thermal_recovery_flow.Driftflux.{HydrodynamicsFrame}

pub data OutputFormat : Type 0 where
  format_json format_csv format_binary : OutputFormat

pub record OutputConfig : Type 0 where
  pub enabled : Bool
  pub format : OutputFormat
  pub output_file : String
  pub tcp_server : Bool
  pub tcp_listen_addr : String
  pub flush_interval : ℤ
  pub max_clients : ℤ
  pub idle_timeout : ℤ

abbrev pub default_max_output_clients : ℤ
default_max_output_clients = pos 64

-- 300 seconds in nanoseconds.
abbrev pub default_client_idle_timeout : ℤ
default_client_idle_timeout = pos (300 * 10 ^ 9)

pub parse_output_format : String → OutputFormat
parse_output_format format =
    if str_eq format "csv" || str_eq format "CSV"
    then format_csv
    else if str_eq format "binary" || str_eq format "BINARY"
    then format_binary
    else format_json

-- The limits that `NewFrameOutput` puts in place of those that are not positive.
pub with_defaults : OutputConfig → OutputConfig
with_defaults cfg = record cfg {
  max_clients =
      if leb_ℤ cfg.max_clients (pos 0) then default_max_output_clients else cfg.max_clients;
  idle_timeout =
      if leb_ℤ cfg.idle_timeout (pos 0) then default_client_idle_timeout else cfg.idle_timeout;
}

-- What `serializeJSON` hands to `json.Marshal`, under the names of the object's keys.
pub record JsonFrame (F : Type 0) : Type 0 where
  pub timestamp : String
  pub high_speed_time : ℕ
  pub pressure_pa : F
  pub temperature_k : F
  pub temperature_c : F
  pub steam_quality : F
  pub void_fraction : F
  pub slip_velocity_m_s : F
  pub liquid_velocity_m_s : F
  pub vapor_velocity_m_s : F
  pub mixture_velocity_m_s : F
  pub liquid_density_kg_m3 : F
  pub vapor_density_kg_m3 : F
  pub mixture_density_kg_m3 : F
  pub liquid_enthalpy_j_kg : F
  pub vapor_enthalpy_j_kg : F
  pub mass_flow_rate_kg_s : F
  pub reynolds_number : F
  pub iterations : ℕ
  pub converged : Bool
  pub slave_address : ℕ
  pub sensor_type : String

-- `Timestamp.Format(time.RFC3339Nano)`, `strconv.FormatFloat(x, 'f', n, 64)`, `FormatUint` and `Itoa`,
-- `FormatBool`, `json.Marshal`, and `math.Float64bits`.
pub record Formats (E F : Type 0) : Type 0 where
  pub rfc3339 : ℕ → String
  pub decimals : F → ℕ → String
  pub decimal : ℕ → String
  pub boolean : Bool → String
  pub marshal : JsonFrame F → Result E (List ℕ)
  pub bits : F → ℕ

-- The header of a CSV file.
abbrev pub csv_header : List String
csv_header =
    "timestamp" ∷ "high_speed_time" ∷ "pressure_pa" ∷ "temperature_k" ∷ "steam_quality"
    ∷ "void_fraction" ∷ "slip_velocity" ∷ "liquid_velocity" ∷ "vapor_velocity" ∷ "mixture_velocity"
    ∷ "liquid_density" ∷ "vapor_density" ∷ "mixture_density" ∷ "liquid_enthalpy" ∷ "vapor_enthalpy"
    ∷ "mass_flow_rate" ∷ "reynolds_number" ∷ "iterations" ∷ "converged" ∷ "slave_address"
    ∷ "sensor_type" ∷ []

-- `binary.LittleEndian.PutUint64`, of the standard library, and the loop over the timestamp.
abbrev pub put_uint64 : ℕ → List ℕ
put_uint64 v =
    u8 v
    ∷ u8 (v >>> 8)
    ∷ u8 (v >>> 16)
    ∷ u8 (v >>> 24)
    ∷ u8 (v >>> 32)
    ∷ u8 (v >>> 40)
    ∷ u8 (v >>> 48)
    ∷ u8 (v >>> 56)
    ∷ []

-- The six bytes of the sensor's time, highest first.
abbrev pub put_uint48 : ℕ → List ℕ
put_uint48 v =
    u8 (v >>> 40) ∷ u8 (v >>> 32) ∷ u8 (v >>> 24) ∷ u8 (v >>> 16) ∷ u8 (v >>> 8) ∷ u8 v ∷ []

pub sensor_type_name : SensorType → String
sensor_type_name t =
    if t == sensor_vortex_flowmeter
    then "vortex_flowmeter"
    else if t == sensor_capacitance_prod_meter
    then "capacitance_prod_meter"
    else "unknown"

module _ {E F : Type 0} (std : Formats E F) where
  -- The loop over the float64 values.
  abbrev pub put_values : List F → List ℕ
  put_values [] = []
  put_values (v ∷ values) = put_uint64 (std.bits v) ++ put_values values

  abbrev pub float_values : HydrodynamicsFrame F → List F
  float_values h =
      h.pressure ∷ h.temperature ∷ h.steam_quality ∷ h.void_fraction ∷ h.slip_velocity
      ∷ h.liquid_velocity ∷ h.vapor_velocity ∷ h.mixture_velocity ∷ h.liquid_density
      ∷ h.vapor_density ∷ h.mixture_density ∷ h.liquid_enthalpy ∷ h.vapor_enthalpy
      ∷ h.mass_flow_rate ∷ h.reynolds_number ∷ []

  pub serialize_binary : HydrodynamicsFrame F → List ℕ
  serialize_binary h =
      u8 h.slave_address ∷ u8 h.sensor_type ∷ put_values (float_values h)
      ++ put_uint64 h.timestamp
      ++ put_uint48 h.high_speed_time
      ++ u8 h.iterations ∷ (if h.converged then 1 else 0) ∷ []

  -- The record that `serializeCSV` hands to the CSV writer.
  pub csv_record : HydrodynamicsFrame F → List String
  csv_record h =
      std.rfc3339 h.timestamp
      ∷ std.decimal h.high_speed_time
      ∷ std.decimals h.pressure 6
      ∷ std.decimals h.temperature 4
      ∷ std.decimals h.steam_quality 8
      ∷ std.decimals h.void_fraction 8
      ∷ std.decimals h.slip_velocity 6
      ∷ std.decimals h.liquid_velocity 6
      ∷ std.decimals h.vapor_velocity 6
      ∷ std.decimals h.mixture_velocity 6
      ∷ std.decimals h.liquid_density 4
      ∷ std.decimals h.vapor_density 4
      ∷ std.decimals h.mixture_density 4
      ∷ std.decimals h.liquid_enthalpy 2
      ∷ std.decimals h.vapor_enthalpy 2
      ∷ std.decimals h.mass_flow_rate 6
      ∷ std.decimals h.reynolds_number 2
      ∷ std.decimal h.iterations
      ∷ std.boolean h.converged
      ∷ std.decimal h.slave_address
      ∷ std.decimal h.sensor_type
      ∷ []

  module _ ⦃o : Float F⦄ where
    open o use {lit}

    json_frame : HydrodynamicsFrame F → JsonFrame F
    unfolding sensor_type_name
    json_frame h = record {
      timestamp = std.rfc3339 h.timestamp;
      high_speed_time = h.high_speed_time;
      pressure_pa = h.pressure;
      temperature_k = h.temperature;
      temperature_c = h.temperature -ᶠ lit 27315 2;
      steam_quality = h.steam_quality;
      void_fraction = h.void_fraction;
      slip_velocity_m_s = h.slip_velocity;
      liquid_velocity_m_s = h.liquid_velocity;
      vapor_velocity_m_s = h.vapor_velocity;
      mixture_velocity_m_s = h.mixture_velocity;
      liquid_density_kg_m3 = h.liquid_density;
      vapor_density_kg_m3 = h.vapor_density;
      mixture_density_kg_m3 = h.mixture_density;
      liquid_enthalpy_j_kg = h.liquid_enthalpy;
      vapor_enthalpy_j_kg = h.vapor_enthalpy;
      mass_flow_rate_kg_s = h.mass_flow_rate;
      reynolds_number = h.reynolds_number;
      iterations = h.iterations;
      converged = h.converged;
      slave_address = h.slave_address;
      sensor_type = sensor_type_name h.sensor_type;
    }

    pub serialize_json : HydrodynamicsFrame F → Result E (List ℕ)
    unfolding json_frame
    serialize_json h = elim (std.marshal (json_frame h)) [
      | err e ↦ err e
      | ok bytes ↦ ok (bytes ++ b'\n' ∷ [])
    ]
