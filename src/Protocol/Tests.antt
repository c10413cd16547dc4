-- ===== src/Protocol/Tests.antt =====
-- The theorems at concrete frames.
use thermal_recovery_flow.Base.{
  ℕ, ◌≡◌, refl, true, ◌==◌, none, some, List, [], ◌∷◌, arith, inc64, u64, count_if, if◌then◌else◌,
  ok,
}
use thermal_recovery_flow.Base.Float.{Fraction, fraction_float}
use thermal_recovery_flow.Crc.{crc16_modbus, append_crc16}
use thermal_recovery_flow.Protocol.{
  ModbusRtuFrame, sensor_vortex_flowmeter, sensor_capacitance_prod_meter,
}
use thermal_recovery_flow.Protocol.Decoder.{new_bit_decoder, decode_modbus_rtu}
use thermal_recovery_flow.Protocol.Decoder.Outcome.{
  refusal, IsFrameOf, decode_modbus_rtu-refusal, decode_modbus_rtu-IsFrameOf,
}
use thermal_recovery_flow.Protocol.Decoder.Response.{response, decode_modbus_rtu-response}
use thermal_recovery_flow.Protocol.Extract.{
  convert_to_pressure, convert_to_temperature, extract_sensor_data,
}
use thermal_recovery_flow.Protocol.Extract.Fields.{
  sensor_registers, extract_sensor_data-sensor_registers,
}
use thermal_recovery_flow.Protocol.Stream.{Arrival, Streaming, stream_decode, get_stats}
use thermal_recovery_flow.Protocol.Stream.Counts.{frame_sized, refused, noisy, stream_decode-Counts}

-- A response with two registers, a noisy copy of it, and a piece of one.
abbrev received : List ℕ
received = 0x01 ∷ 0x03 ∷ 0x04 ∷ 0x00 ∷ 0x0A ∷ 0x00 ∷ 0x14 ∷ 0xDB ∷ 0xFE ∷ []

abbrev noise : List ℕ
noise = 0x01 ∷ 0x03 ∷ 0x04 ∷ 0x40 ∷ 0x0A ∷ 0x00 ∷ 0x14 ∷ 0xDB ∷ 0xFE ∷ []

abbrev piece : List ℕ
piece = 0x01 ∷ 0x03 ∷ []

decode_modbus_rtu-refusal_example : (decode_modbus_rtu new_bit_decoder noise).error ≡ refusal noise
decode_modbus_rtu-refusal_example = decode_modbus_rtu-refusal new_bit_decoder noise (omega arith)

decode_modbus_rtu-IsFrameOf_example :
    IsFrameOf received (decode_modbus_rtu new_bit_decoder received).frame
decode_modbus_rtu-IsFrameOf_example =
    decode_modbus_rtu-IsFrameOf new_bit_decoder received (omega arith)

abbrev two_registers : List ℕ
two_registers = 0x00 ∷ 0x0A ∷ 0x00 ∷ 0x14 ∷ []

decode_modbus_rtu-response_example :
    decode_modbus_rtu new_bit_decoder (append_crc16 (response 1 3 two_registers)) ≡ record {
      decoder = record new_bit_decoder { total_frames = inc64 0 };
      frame = some (record {
        slave_address = 1;
        function_code = 3;
        payload = two_registers;
        crc = crc16_modbus (response 1 3 two_registers);
        is_valid = true;
        raw_length = 9;
      });
      error = none;
    }
decode_modbus_rtu-response_example =
    decode_modbus_rtu-response new_bit_decoder 1 3 two_registers (omega arith) (omega arith)
      (omega arith) (omega arith) (omega arith)

abbrev sensor_frame : ModbusRtuFrame
sensor_frame = record {
  slave_address = 1;
  function_code = 3;
  payload = sensor_registers 5000 2500 1000000 2 (0 ∷ []);
  crc = 0;
  is_valid = true;
  raw_length = 21;
}

extract_sensor_data-sensor_registers_example :
    extract_sensor_data {F = Fraction} 7 (some sensor_frame)
    ≡ ok (record {
      timestamp = 7;
      sensor_type = if 2 == 2 then sensor_capacitance_prod_meter else sensor_vortex_flowmeter;
      slave_address = 1;
      differential_pressure = convert_to_pressure 5000;
      dry_bulb_temp = convert_to_temperature 2500;
      high_speed_time = 1000000;
      raw_bytes = sensor_frame.payload;
    })
extract_sensor_data-sensor_registers_example =
    extract_sensor_data-sensor_registers 7 5000 2500 1000000 2 (0 ∷ []) sensor_frame refl refl
      (omega arith) (omega arith)

abbrev arrival : List ℕ → Arrival
arrival bytes = record { bytes = bytes; now = 7; errors_ready = true; output_ready = true }

abbrev arrivals : List Arrival
arrivals = arrival received ∷ arrival noise ∷ arrival piece ∷ []

stream_decode-Counts_example :
    let start : Streaming Fraction = record {
      decoder = new_bit_decoder;
      output = [];
      errors = [];
    } in
    let (s, completed) = stream_decode start arrivals in
    (completed ≡ true)
    × (get_stats s.decoder ≡ (
      u64 (count_if frame_sized arrivals),
      u64 (count_if refused arrivals),
      u64 (count_if noisy arrivals),
    ))
stream_decode-Counts_example = stream_decode-Counts Fraction arrivals (omega arith)
