-- ===== src/Protocol/Stream/Counts.antt =====
-- The counters after a whole stream.
use thermal_recovery_flow.Base.{
  ℕ, suc, ◌+◌, ◌^◌, ◌<◌, ◌≡◌, refl, ap, ◌∙◌, Bool, true, false, not, ◌&&◌, Option, none, some, List,
  [], ◌∷◌, arith, u64, if◌then◌else◌, All, count_if, IsBytes,
}
use thermal_recovery_flow.Base.Float.{Float}
use thermal_recovery_flow.Protocol.{DecodeError, ModbusRtuFrame}
use thermal_recovery_flow.Crc.{validate_crc16}
use thermal_recovery_flow.Protocol.Decoder.{BitDecoder, new_bit_decoder, decode_modbus_rtu}
use thermal_recovery_flow.Protocol.Decoder.Outcome.{
  refusal, in_range, is_refused, bump_if, decode_modbus_rtu-refusal, decode_modbus_rtu-counts,
  decode_modbus_rtu-IsFrameOf,
}
use thermal_recovery_flow.Protocol.Stream.{
  Arrival, Streaming, send_error, forward, dispatch, stream_step, stream_decode, get_stats,
}

abbrev pub HasBytes : Arrival → Type 0
HasBytes a = IsBytes a.bytes

abbrev pub frame_sized : Arrival → Bool
frame_sized a = in_range a.bytes

abbrev pub refused : Arrival → Bool
refused a = is_refused (refusal a.bytes)

abbrev pub noisy : Arrival → Bool
noisy a = in_range a.bytes && not (validate_crc16 a.bytes)

-- A counter after `n` more events.
bump-u64 : (b : Bool) (c n : ℕ) → u64 (bump_if b c + n) ≡ u64 (c + (if b then suc n else n))
bump-u64 true c n = omega arith
bump-u64 false c n = refl

-- A call that returns no error returns a frame.
pub frame-ne-none :
    (d : BitDecoder) (bytes : List ℕ)
    → IsBytes bytes
    → (decode_modbus_rtu d bytes).error ≡ none
    → (decode_modbus_rtu d bytes).frame ≡ none
    → ⊥
frame-ne-none d bytes h e f =
    let short : in_range bytes ≡ false = rw f at (decode_modbus_rtu-IsFrameOf d bytes h) in
    ground (arith, short, decode_modbus_rtu-refusal d bytes h)

-- The counters of `d'` are those of `d` after the arrivals, as uint64s.
abbrev Counted : BitDecoder → List Arrival → BitDecoder → Type 0
Counted d arrivals d' =
    (d'.total_frames ≡ u64 (d.total_frames + count_if frame_sized arrivals))
    × (d'.invalid_frames ≡ u64 (d.invalid_frames + count_if refused arrivals))
    × (d'.noise_filtered ≡ u64 (d.noise_filtered + count_if noisy arrivals))

abbrev Fits : BitDecoder → Type 0
Fits d = (d.total_frames < 2 ^ 64) × (d.invalid_frames < 2 ^ 64) × (d.noise_filtered < 2 ^ 64)

-- One call, in front of what the rest of the stream adds.
Counted-cons :
    (d d' : BitDecoder) (a : Arrival) (rest : List Arrival)
    → HasBytes a
    → Counted (decode_modbus_rtu d a.bytes).decoder rest d'
    → Counted d (a ∷ rest) d'
Counted-cons d d' a rest h c =
    let counts = decode_modbus_rtu-counts d a.bytes h in
    let step = λ (b : Bool) (x y n z : ℕ) (e : x ≡ bump_if b y) (f : z ≡ u64 (x + n)).
      f ∙ ap (λ (t : ℕ). u64 (t + n)) e ∙ bump-u64 b y n in
    (step _ _ _ _ _ counts.0 c.0, step _ _ _ _ _ counts.1 c.1, step _ _ _ _ _ counts.2 c.2)

Fits-decode :
    (d : BitDecoder) (bytes : List ℕ)
    → IsBytes bytes
    → Fits d
    → Fits (decode_modbus_rtu d bytes).decoder
Fits-decode d bytes h fits = ground (arith, decode_modbus_rtu-counts d bytes h)

module _ {F : Type 0} ⦃o : Float F⦄ where
  after : Streaming F → Arrival → Option DecodeError → Option ModbusRtuFrame → Streaming F
  after s a (some e) frame = send_error s a e
  after s a none none = s
  after s a none (some frame) = forward s a frame

  after-decoder :
      (s : Streaming F) (a : Arrival) (e : Option DecodeError) (f : Option ModbusRtuFrame)
      → (after s a e f).decoder ≡ s.decoder
  unfolding after forward
  after-decoder s a (some e) f = ground arith
  after-decoder s a none none = refl
  after-decoder s a none (some frame) = ground arith

  dispatch-after :
      (s : Streaming F) (a : Arrival) (e : Option DecodeError) (f : Option ModbusRtuFrame)
      → (e ≡ none → f ≡ none → ⊥)
      → dispatch s a e f ≡ some (after s a e f)
  unfolding dispatch after
  dispatch-after s a (some e) f h = refl
  dispatch-after s a none none h = absurd (h refl refl)
  dispatch-after s a none (some frame) h = refl

  -- A round only sends: the decoder is as `DecodeModbusRTU` left it, and the loop goes on.
  stream_step-decoder :
      (s : Streaming F) (a : Arrival)
      → HasBytes a
      → (t : Streaming F) × (stream_step s a ≡ some t)
        × (t.decoder ≡ (decode_modbus_rtu s.decoder a.bytes).decoder)
  unfolding stream_step
  stream_step-decoder s a h =
      let r = decode_modbus_rtu s.decoder a.bytes in
      let s' = record s { decoder = r.decoder } in
      (
        after s' a r.error r.frame,
        dispatch-after s' a r.error r.frame (frame-ne-none s.decoder a.bytes h),
        after-decoder s' a r.error r.frame,
      )

  stream_decode-Counted :
      (arrivals : List Arrival) (s : Streaming F)
      → Fits s.decoder
      → All HasBytes arrivals
      → ((stream_decode s arrivals).1 ≡ true)
        × Counted s.decoder arrivals (stream_decode s arrivals).0.decoder
  unfolding stream_decode
  stream_decode-Counted [] s fits h = (refl, omega arith)
  stream_decode-Counted (a ∷ rest) s fits (h, hs) =
      let (t, e, same) = stream_step-decoder s a h in
      let next = stream_decode-Counted rest t (rw same (Fits-decode s.decoder a.bytes h fits)) hs in
      rw (e, stream_decode)
        (
          next.0,
          Counted-cons s.decoder (stream_decode t rest).0.decoder a rest h (rw same at next.1),
        )

module _ (F : Type 0) ⦃o : Float F⦄ where
  -- `StreamDecode` works through every stream of byte sequences without a panic. From a new
  -- decoder the counters then are, as uint64s, the numbers of inputs of 5 to 512 bytes, of inputs
  -- that were refused, and of those of 5 to 512 bytes whose checksum does not match.
  pub stream_decode-Counts :
      (arrivals : List Arrival)
      → All HasBytes arrivals
      → let start : Streaming F = record { decoder = new_bit_decoder; output = []; errors = [] } in
        let (s, completed) = stream_decode start arrivals in
        (completed ≡ true)
        × (get_stats s.decoder ≡ (
          u64 (count_if frame_sized arrivals),
          u64 (count_if refused arrivals),
          u64 (count_if noisy arrivals),
        ))
  unfolding get_stats
  stream_decode-Counts arrivals h =
      let start : Streaming F = record { decoder = new_bit_decoder; output = []; errors = [] } in
      let (finished, counted) = stream_decode-Counted arrivals start (omega arith) h in
      (finished, ground arith)
