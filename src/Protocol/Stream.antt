-- ===== src/Protocol/Stream.antt =====
-- internal/protocol/decoder.go: `StreamDecode` and the two readers of the counters. What the
-- goroutine meets on its channels is a list of arrivals: the bytes, the time at which they are
-- extracted, and whether each of the two output channels can take a value at that moment.
pub mod Counts
use thermal_recovery_flow.Base.{
  ℕ, Bool, true, false, not, Option, none, some, List, [], ◌∷◌, ◌++◌, if◌then◌else◌, Result, ok,
  err,
}
use thermal_recovery_flow.Base.Float.{Float}
use thermal_recovery_flow.Protocol.{RawSensorData, ModbusRtuFrame, DecodeError}
use thermal_recovery_flow.Protocol.Decoder.{BitDecoder, Decoded, decode_modbus_rtu}
use thermal_recovery_flow.Protocol.Extract.{extract_sensor_data}

pub record Arrival : Type 0 where
  pub bytes : List ℕ
  pub now : ℕ
  pub errors_ready : Bool
  pub output_ready : Bool

-- The decoder, and what has been sent on the two channels.
pub record Streaming (F : Type 0) : Type 0 where
  pub decoder : BitDecoder
  pub output : List (RawSensorData F)
  pub errors : List DecodeError

module _ {F : Type 0} ⦃o : Float F⦄ where
  send_error : Streaming F → Arrival → DecodeError → Streaming F
  send_error s a e = if a.errors_ready then record s { errors = s.errors ++ e ∷ [] } else s

  send_data : Streaming F → Arrival → RawSensorData F → Streaming F
  send_data s a r = if a.output_ready then record s { output = s.output ++ r ∷ [] } else s

  forward : Streaming F → Arrival → ModbusRtuFrame → Streaming F
  unfolding send_error send_data
  forward s a frame =
      if not frame.is_valid then s else elim (extract_sensor_data {F = F} a.now (some frame)) [
        | err e ↦ send_error s a e
        | ok r ↦ send_data s a r
      ]

  -- What follows the call of `DecodeModbusRTU`. `none` is the panic on a nil frame.
  dispatch :
      Streaming F → Arrival → Option DecodeError → Option ModbusRtuFrame → Option (Streaming F)
  unfolding send_error forward
  dispatch s a (some e) frame = some (send_error s a e)
  dispatch s a none none = none
  dispatch s a none (some frame) = some (forward s a frame)

  -- One round of the loop.
  stream_step : Streaming F → Arrival → Option (Streaming F)
  unfolding dispatch
  stream_step s a =
      let r = decode_modbus_rtu s.decoder a.bytes in
      dispatch (record s { decoder = r.decoder }) a r.error r.frame

  -- `StreamDecode` until its input is closed; `false` when a panic ended it.
  pub stream_decode : Streaming F → List Arrival → Streaming F × Bool
  unfolding stream_step
  stream_decode s [] = (s, true)
  stream_decode s (a ∷ rest) = elim (stream_step s a) [
    | none ↦ (s, false)
    | some s' ↦ stream_decode s' rest
  ]

-- `GetStats`.
pub get_stats : BitDecoder → ℕ × ℕ × ℕ
get_stats d = (d.total_frames, d.invalid_frames, d.noise_filtered)

-- `GetExtendedStats`.
pub get_extended_stats : BitDecoder → ℕ × ℕ × ℕ × ℕ × ℕ
get_extended_stats d =
    (d.total_frames, d.invalid_frames, d.noise_filtered, d.truncated_frames, d.oversized_frames)
