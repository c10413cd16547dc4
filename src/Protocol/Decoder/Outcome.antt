-- ===== src/Protocol/Decoder/Outcome.antt =====
-- What `DecodeModbusRTU` answers and how it counts, for every input.
use thermal_recovery_flow.Base.{
  ℕ, ◌≤◌, ◌≡◌, Bool, true, false, not, ◌&&◌, Option, none, some, List, [], ◌∷◌, arith, inc64, ltb,
  leb, ◌==◌, if◌then◌else◌, length, get_or, IsBytes,
}
use thermal_recovery_flow.Crc.{validate_crc16}
use thermal_recovery_flow.Protocol.{
  ModbusRtuFrame, DecodeError, decode_error, frame_too_short, crc_invalid, frame_too_long,
}
use thermal_recovery_flow.Protocol.Decoder.{BitDecoder, decode_modbus_rtu}

-- The error that a received frame deserves, read off its length and its checksum alone.
abbrev pub refusal : List ℕ → Option DecodeError
refusal bytes =
    if length bytes == 0
    then some (decode_error frame_too_short "empty frame")
    else if leb (length bytes) 4
    then some (decode_error frame_too_short "insufficient bytes")
    else if ltb 512 (length bytes)
    then some (decode_error frame_too_long "frame exceeds max allowed length")
    else if validate_crc16 bytes
    then none
    else some (decode_error crc_invalid "electromagnetic noise detected, CRC mismatch")

third_byte : (bytes : List ℕ) → IsBytes bytes → get_or bytes 2 0 ≤ 255
third_byte [] h = omega arith
third_byte (a ∷ []) h = omega arith
third_byte (a ∷ b ∷ []) h = omega arith
third_byte (a ∷ b ∷ c ∷ bytes) h = omega arith

-- On every sequence of bytes `DecodeModbusRTU` returns the error that its length and its checksum
-- call for, and none if they call for none; so it never panics, and the answers for a negative byte
-- count and for one above 255 are never given.
pub decode_modbus_rtu-refusal :
    (d : BitDecoder) (bytes : List ℕ)
    → IsBytes bytes
    → (decode_modbus_rtu d bytes).error ≡ refusal bytes
unfolding decode_modbus_rtu
decode_modbus_rtu-refusal d bytes h = ground (arith, third_byte bytes h)

-- `len(data)` lies in the range that counts as a frame.
abbrev pub in_range : List ℕ → Bool
in_range bytes = leb 5 (length bytes) && leb (length bytes) 512

abbrev pub bump_if : Bool → ℕ → ℕ
bump_if b n = if b then inc64 n else n

abbrev pub is_refused : Option DecodeError → Bool
is_refused none = false
is_refused (some e) = true

-- One call counts a frame that is long enough and not too long, a refusal, a checksum that does not
-- match, and a frame that is too long, each exactly where it occurs.
pub decode_modbus_rtu-counts :
    (d : BitDecoder) (bytes : List ℕ)
    → IsBytes bytes
    → let d' = (decode_modbus_rtu d bytes).decoder in
      (d'.total_frames ≡ bump_if (in_range bytes) d.total_frames)
      × (d'.invalid_frames ≡ bump_if (is_refused (refusal bytes)) d.invalid_frames)
      × (d'.noise_filtered
          ≡ bump_if (in_range bytes && not (validate_crc16 bytes)) d.noise_filtered)
      × (d'.oversized_frames ≡ bump_if (ltb 512 (length bytes)) d.oversized_frames)
unfolding decode_modbus_rtu
decode_modbus_rtu-counts d bytes h = (
  ground (arith, third_byte bytes h),
  ground (arith, third_byte bytes h),
  ground (arith, third_byte bytes h),
  ground (arith, third_byte bytes h),
)

-- What a returned frame says of the input; no frame is returned for one that is out of range.
abbrev pub IsFrameOf : List ℕ → Option ModbusRtuFrame → Type 0
IsFrameOf bytes none = in_range bytes ≡ false
IsFrameOf bytes (some frame) =
    (in_range bytes ≡ true)
    × (frame.is_valid ≡ validate_crc16 bytes)
    × (frame.raw_length ≡ length bytes)
    × (frame.slave_address ≡ get_or bytes 0 0)
    × (frame.function_code ≡ get_or bytes 1 0)

-- `DecodeModbusRTU` returns a frame exactly for the inputs of 5 to 512 bytes, with or without an
-- error. It is marked valid exactly if the checksum matches, and has the length, the address and the
-- function code of the input.
pub decode_modbus_rtu-IsFrameOf :
    (d : BitDecoder) (bytes : List ℕ)
    → IsBytes bytes
    → IsFrameOf bytes (decode_modbus_rtu d bytes).frame
unfolding decode_modbus_rtu
decode_modbus_rtu-IsFrameOf d bytes h = ground (arith, third_byte bytes h)
