-- ===== src/Pipeline/Wire.antt =====
-- From the bytes on the wire to the solver's frame.
use thermal_recovery_flow.Base.{
  ℕ, ◌^◌, ◌≤◌, ◌<◌, ◌≡◌, refl, ap, true, false, some, none, List, [], ◌∷◌, ◌++◌, arith,
  if◌then◌else◌, ◌==◌, length, lt→ltb, inc64, IsByte, IsBytes, Result, ok, err,
}
use thermal_recovery_flow.Base.Float.{Float}
use thermal_recovery_flow.Crc.{append_crc16}
use thermal_recovery_flow.Crc.Frame.{length-append_crc16}
use thermal_recovery_flow.Protocol.{
  RawSensorData, ModbusRtuFrame, sensor_vortex_flowmeter, sensor_capacitance_prod_meter,
}
use thermal_recovery_flow.Protocol.Decoder.{decode_modbus_rtu}
use thermal_recovery_flow.Protocol.Decoder.Response.{response, decode_modbus_rtu-response}
use thermal_recovery_flow.Protocol.Extract.{
  convert_to_pressure, convert_to_temperature, extract_sensor_data,
}
use thermal_recovery_flow.Protocol.Extract.Fields.{
  sensor_registers, extract_sensor_data-sensor_registers,
}
use thermal_recovery_flow.Driftflux.{HydrodynamicsFrame, SolveError}
use thermal_recovery_flow.Driftflux.Solver.{solve}
use thermal_recovery_flow.Pipeline.{
  Pipeline, solve_failed, input, decoder_takes, decoder_ends, solver_takes, solver_ends,
  forward_sample, forward_frame, send_error, extracted, decoded, decode_item, solved, solve_item,
  take_raw, take_sample, end_decoding, end_solving, act, act_all,
}

-- What a sensor measures, in its own units.
pub record Measurement : Type 0 where
  pub addr : ℕ
  pub func : ℕ
  pub pressure : ℕ
  pub temp : ℕ
  pub time : ℕ
  pub code : ℕ
  pub rest : List ℕ

abbrev pub registers : Measurement → List ℕ
registers s = sensor_registers s.pressure s.temp s.time s.code s.rest

-- The response that carries it.
abbrev pub on_wire : Measurement → List ℕ
on_wire s = append_crc16 (response s.addr s.func (registers s))

pub record IsSent (s : Measurement) : Type 0 where
  pub addr : IsByte s.addr
  pub func : IsByte s.func
  pub bytes : IsBytes (registers s)
  pub more : 0 < length s.rest
  pub fits : length (registers s) ≤ 255
  pub time : s.time < 2 ^ 48

module _ {F : Type 0} ⦃o : Float F⦄ where
  abbrev pub sample_of : ℕ → Measurement → RawSensorData F
  sample_of now s = record {
    timestamp = now;
    sensor_type = if s.code == 2 then sensor_capacitance_prod_meter else sensor_vortex_flowmeter;
    slave_address = s.addr;
    differential_pressure = convert_to_pressure s.pressure;
    dry_bulb_temp = convert_to_temperature s.temp;
    high_speed_time = s.time;
    raw_bytes = registers s;
  }

  counted : Pipeline F → Pipeline F
  counted p = record p {
    decoder = record (p.decoder) { total_frames = inc64 p.decoder.total_frames };
  }

  decoded-sample :
      (p : Pipeline F) (now : ℕ) (frame : ModbusRtuFrame) (sample : RawSensorData F)
      → frame.is_valid ≡ true
      → extract_sensor_data now (some frame) ≡ ok sample
      → decoded p now false none (some frame) ≡ forward_sample p false sample
  unfolding decoded extracted
  decoded-sample p now frame sample valid e = ground (arith, e)

  decode_item-decoded :
      (p : Pipeline F) (now : ℕ) (bytes : List ℕ)
      → 0 < length bytes
      → let r = decode_modbus_rtu p.decoder bytes in
        decode_item p now false bytes
        ≡ decoded (record p { decoder = r.decoder }) now false r.error r.frame
  unfolding decode_item
  decode_item-decoded p now bytes h = ground arith

  decode_item-on_wire :
      (p : Pipeline F) (now : ℕ) (s : Measurement)
      → IsSent s
      → decode_item p now false (on_wire s) ≡ forward_sample (counted p) false (sample_of now s)
  unfolding counted
  decode_item-on_wire p now s v =
      rw
        (
          decode_item-decoded p now (on_wire s)
              (omega (arith, length-append_crc16 (response s.addr s.func (registers s)))),
          decode_modbus_rtu-response p.decoder s.addr s.func (registers s) v.addr v.func v.bytes
              (omega arith) v.fits,
        )
        (decoded-sample _ now _ (sample_of now s) refl (
          extract_sensor_data-sensor_registers now s.pressure s.temp s.time s.code s.rest _ refl
            refl v.more v.time))

  -- The pipeline is open and holds nothing, and its channels have room.
  pub record IsIdle (p : Pipeline F) : Type 0 where
    pub raw : p.raw_data_chan ≡ []
    pub decoding : p.decoding ≡ []
    pub samples : p.decoded_chan ≡ []
    pub solving : p.solving ≡ []
    pub input_open : p.raw_closed ≡ false
    pub raw_room : 0 < p.config.raw_buffer_size
    pub sample_room : 0 < p.decoded_size
    pub frame_room : length p.hydro_frame_chan < p.frame_size
    pub error_room : length p.error_chan < p.error_size

  emptied : Pipeline F → Pipeline F
  emptied p = record p {
    raw_data_chan = [];
    decoding = [];
    decoded_chan = [];
    solving = [];
    raw_closed = false;
  }

  IsIdle-emptied : (p : Pipeline F) → IsIdle p → p ≡ emptied p
  unfolding emptied
  IsIdle-emptied p v = λ i. record p {
    raw_data_chan = v.raw i;
    decoding = v.decoding i;
    decoded_chan = v.samples i;
    solving = v.solving i;
    raw_closed = v.input_open i;
  }

  -- The bytes go in, and are at once taken and decoded.
  decodes : (p : Pipeline F) (now : ℕ) (bytes : List ℕ) → Pipeline F
  unfolding act_all
  decodes p now bytes = act_all p (input bytes ∷ decoder_takes ∷ decoder_ends 0 now false ∷ [])

  decodes-emptied :
      (p : Pipeline F) (now : ℕ) (bytes : List ℕ)
      → 0 < p.config.raw_buffer_size
      → decodes (emptied p) now bytes ≡ decode_item (emptied p) now false bytes
  unfolding decodes emptied act end_decoding take_raw
  decodes-emptied p now bytes room = rw (lt→ltb 0 p.config.raw_buffer_size room) refl

  -- The sample goes to a solver, and is at once taken and solved.
  solves-sample :
      (p : Pipeline F) (sample : RawSensorData F)
      → 0 < p.decoded_size
      → act_all
          (forward_sample (counted (emptied p)) false sample)
          (solver_takes ∷ solver_ends 0 false ∷ [])
        ≡ solve_item (counted (emptied p)) false sample
  unfolding act_all act forward_sample counted emptied end_solving take_sample
  solves-sample p sample room = rw (lt→ltb 0 p.decoded_size room) refl

  -- The answer of the solver is in the channel that it belongs to.
  abbrev pub Arrives : Pipeline F → Pipeline F → Result SolveError (HydrodynamicsFrame F) → Type 0
  Arrives p q (ok frame) =
      (q.hydro_frame_chan ≡ p.hydro_frame_chan ++ frame ∷ []) × (q.error_chan ≡ p.error_chan)
  Arrives p q (err e) =
      (q.hydro_frame_chan ≡ p.hydro_frame_chan)
      × (q.error_chan ≡ p.error_chan ++ solve_failed e ∷ [])

  solved-Arrives :
      (p : Pipeline F) (r : Result SolveError (HydrodynamicsFrame F))
      → length p.hydro_frame_chan < p.frame_size
      → length p.error_chan < p.error_size
      → Arrives p (solved (counted (emptied p)) false r) r
  unfolding solved counted emptied forward_frame send_error
  solved-Arrives p (ok frame) room₁ room₂ = ground arith
  solved-Arrives p (err e) room₁ room₂ = ground arith

  solve_item-solved :
      (p : Pipeline F) (sample : RawSensorData F)
      → solve_item (counted (emptied p)) false sample
        ≡ solved (counted (emptied p)) false (solve p.solver_config sample)
  unfolding solve_item counted emptied
  solve_item-solved p sample = refl

  sent-Arrives :
      (p : Pipeline F) (now : ℕ) (s : Measurement)
      → IsSent s
      → IsIdle p
      → Arrives p
          (act_all (decodes (emptied p) now (on_wire s)) (solver_takes ∷ solver_ends 0 false ∷ []))
          (solve p.solver_config (sample_of now s))
  sent-Arrives p now s v w =
      rw
        (
          decodes-emptied p now (on_wire s) w.raw_room,
          decode_item-on_wire (emptied p) now s v,
          solves-sample p (sample_of now s) w.sample_room,
          solve_item-solved p (sample_of now s),
        )
        (solved-Arrives p (solve p.solver_config (sample_of now s)) w.frame_room w.error_room)

  the_same :
      (p : Pipeline F) {q q' : Pipeline F} (r : Result SolveError (HydrodynamicsFrame F))
      → q ≡ q'
      → Arrives p q' r
      → Arrives p q r
  the_same p r e v = rw e v

  -- The response that carries a measurement with at least one byte behind it, given to an idle pipeline,
  -- reaches the solver as the sample with its scaled pressure and temperature, its time, address and sensor
  -- type; and the answer of `Solve` is sent, a frame to the frames and an error to the errors.
  pub act_all-Arrives :
      (p : Pipeline F) (now : ℕ) (s : Measurement)
      → IsSent s
      → IsIdle p
      → Arrives p
          (act_all p (
            input (on_wire s)
            ∷ decoder_takes
            ∷ decoder_ends 0 now false
            ∷ solver_takes
            ∷ solver_ends 0 false
            ∷ []))
          (solve p.solver_config (sample_of now s))
  unfolding act_all decodes
  act_all-Arrives p now s v w =
      let after = λ (q : Pipeline F).
        act_all (decodes q now (on_wire s)) (solver_takes ∷ solver_ends 0 false ∷ []) in
      the_same p (solve p.solver_config (sample_of now s)) (ap after (IsIdle-emptied p w))
        (sent-Arrives p now s v w)
