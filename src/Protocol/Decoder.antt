-- ===== src/Protocol/Decoder.antt =====
-- internal/protocol/decoder.go: `BitDecoder` and `DecodeModbusRTU`. The counters are uint64.
pub mod Outcome
pub mod Response
use thermal_recovery_flow.Base.{
  ℕ, ◌+◌, ◌-◌, ◌*◌, Bool, true, false, not, ◌&&◌, Option, none, some, List, [], ◌∷◌, inc64, ltb,
  leb, ◌==◌, if◌then◌else◌, length, get_or, drop, slice?,
}
use thermal_recovery_flow.Crc.{validate_crc16}
use thermal_recovery_flow.Protocol.{
  ModbusRtuFrame, min_frame_length, max_allowed_frame_length, DecodeError, decode_error,
  frame_too_short, crc_invalid, invalid_frame, frame_too_long, invalid_data,
}

pub record BitDecoder : Type 0 where
  pub noise_filtered : ℕ
  pub total_frames : ℕ
  pub invalid_frames : ℕ
  pub truncated_frames : ℕ
  pub oversized_frames : ℕ

abbrev pub new_bit_decoder : BitDecoder
new_bit_decoder = record {
  noise_filtered = 0;
  total_frames = 0;
  invalid_frames = 0;
  truncated_frames = 0;
  oversized_frames = 0;
}

-- The decoder after a call, with the two results: a frame may come together with an error.
pub record Decoded : Type 0 where
  pub decoder : BitDecoder
  pub frame : Option ModbusRtuFrame
  pub error : Option DecodeError

abbrev invalid : BitDecoder → BitDecoder
invalid d = record d { invalid_frames = inc64 d.invalid_frames }

abbrev refuse : BitDecoder → DecodeError → Decoded
refuse d e = record { decoder = d; frame = none; error = some e }

-- The deferred function, after a panic.
abbrev recovered : BitDecoder → Decoded
recovered d = refuse (invalid d) (decode_error invalid_frame "panic during decode")

-- How the block that reads the register bytes ends.
pub data Registers : Type 0 where
  panicked : BitDecoder → Registers
  returned : Decoded → Registers
  carried_on : BitDecoder → ModbusRtuFrame → Registers

abbrev bad_count : BitDecoder → ModbusRtuFrame → DecodeError → Registers
bad_count d frame e = returned (record {
  decoder = invalid d;
  frame = some (record frame { is_valid = false });
  error = some e;
})

copied : BitDecoder → ModbusRtuFrame → Option (List ℕ) → Registers
copied d frame none = panicked d
copied d frame (some payload) = carried_on d (record frame { payload = payload })

-- The block under `if len(data) > 2`.
read_registers : BitDecoder → List ℕ → ModbusRtuFrame → Registers
unfolding copied
read_registers d bytes frame =
    let byte_count = get_or bytes 2 0 in
    if ltb 2 (length bytes)
    then if ltb byte_count 0
      then bad_count d frame (decode_error invalid_data "negative byte count")
      else if ltb 255 byte_count
      then bad_count d frame (decode_error invalid_data "byte count exceeds limit")
      else if ltb 0 byte_count && leb (byte_count + 5) (length bytes)
      then copied d frame (slice? bytes 3 (3 + byte_count))
      else if ltb 0 byte_count
      then carried_on (record d { truncated_frames = inc64 d.truncated_frames }) frame
      else carried_on d frame
    else carried_on d frame

-- `binary.LittleEndian.Uint16(b)`, of the standard library.
abbrev pub little_endian_uint16 : List ℕ → ℕ
little_endian_uint16 b = get_or b 0 0 + 256 * get_or b 1 0

-- The part of `DecodeModbusRTU` from `crc.ValidateCRC16` on.
check_crc : List ℕ → BitDecoder → ModbusRtuFrame → Decoded
check_crc bytes d frame =
    let valid = validate_crc16 bytes in
    let crc_offset = length bytes - 2 in
    let crc =
      if leb 2 (length bytes)
      then if leb (crc_offset + 2) (length bytes)
        then little_endian_uint16 (drop crc_offset bytes)
        else frame.crc
      else frame.crc in
    let frame' = record frame { is_valid = valid; crc = crc } in
    if not valid
    then record {
      decoder = record d {
        invalid_frames = inc64 d.invalid_frames;
        noise_filtered = inc64 d.noise_filtered;
      };
      frame = some frame';
      error = some (decode_error crc_invalid "electromagnetic noise detected, CRC mismatch");
    }
    else record { decoder = d; frame = some frame'; error = none }

finish : List ℕ → Registers → Decoded
unfolding check_crc
finish bytes (panicked d) = recovered d
finish bytes (returned r) = r
finish bytes (carried_on d frame) = check_crc bytes d frame

-- `DecodeModbusRTU`.
unfoldable pub decode_modbus_rtu : BitDecoder → List ℕ → Decoded
unfolding read_registers finish
decode_modbus_rtu d bytes =
    if length bytes == 0
    then refuse (invalid d) (decode_error frame_too_short "empty frame")
    else if ltb max_allowed_frame_length (length bytes)
    then refuse
        (record d {
          oversized_frames = inc64 d.oversized_frames;
          invalid_frames = inc64 d.invalid_frames;
        })
        (decode_error frame_too_long "frame exceeds max allowed length")
    else if ltb (length bytes) min_frame_length
    then refuse
        (record d {
          truncated_frames = inc64 d.truncated_frames;
          invalid_frames = inc64 d.invalid_frames;
        })
        (decode_error frame_too_short "insufficient bytes")
    else let frame : ModbusRtuFrame = record {
      slave_address = get_or bytes 0 0;
      function_code = get_or bytes 1 0;
      payload = [];
      crc = 0;
      is_valid = false;
      raw_length = length bytes;
    } in
      finish bytes (read_registers (record d { total_frames = inc64 d.total_frames }) bytes frame)
