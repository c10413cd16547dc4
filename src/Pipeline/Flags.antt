-- ===== src/Pipeline/Flags.antt =====
-- internal/pipeline/pipeline.go: the workers leave the flags of the pipeline to `Start` and `Stop`.
use thermal_recovery_flow.Base.{
  ℕ, ◌≡◌, refl, ap, ◌∙◌, Bool, true, false, Option, none, some, List, [], ◌∷◌, arith, Result, ok,
  err, get_elem?, if◌then◌else◌,
}
use thermal_recovery_flow.Base.Float.{Float}
use thermal_recovery_flow.Protocol.{RawSensorData, ModbusRtuFrame, DecodeError}
use thermal_recovery_flow.Protocol.Extract.{extract_sensor_data}
use thermal_recovery_flow.Protocol.Decoder.{decode_modbus_rtu}
use thermal_recovery_flow.Driftflux.{DriftFluxConfig, HydrodynamicsFrame, SolveError}
use thermal_recovery_flow.Pipeline.{
  Pipeline, Action, input, decoder_takes, solver_takes, error_handled, decoder_ends, solver_ends,
  others_take_sample, others_take_frame, others_take_error, PipelineError, send_error,
  forward_sample, forward_frame, extracted, decoded, decode_item, solved, solve_item, take_raw,
  send_input, take_sample, end_decoding, end_solving, drop_error, drop_sample, drop_frame, act,
  act_all, PipelineConfig, new_pipeline, start, stop,
}

module _ {F : Type 0} ⦃o : Float F⦄ where
  -- `running`, `stopped` and whether the context is cancelled.
  abbrev pub flags : Pipeline F → Bool × Bool × Bool
  flags p = (p.running, p.stopped, p.raw_closed)

  -- What the workers never change: these, the sizes of the channels, and the panics at `Input()` while it is open.
  abbrev pub settings : Pipeline F → Bool × Bool × Bool × ℕ × ℕ × ℕ × ℕ
  settings p = (
    p.running,
    p.stopped,
    p.raw_closed,
    p.config.raw_buffer_size,
    p.decoded_size,
    p.frame_size,
    if p.raw_closed then 0 else p.input_panics,
  )

  send_error-settings :
      (p : Pipeline F) (e : PipelineError) → settings (send_error p e) ≡ settings p
  unfolding send_error
  send_error-settings p e = ground arith

  forward_sample-settings :
      (p : Pipeline F) (cancels : Bool) (s : RawSensorData F)
      → settings (forward_sample p cancels s) ≡ settings p
  unfolding forward_sample
  forward_sample-settings p cancels s = ground arith

  forward_frame-settings :
      (p : Pipeline F) (cancels : Bool) (h : HydrodynamicsFrame F)
      → settings (forward_frame p cancels h) ≡ settings p
  unfolding forward_frame
  forward_frame-settings p cancels h = ground arith

  extracted-settings :
      (p : Pipeline F) (cancels : Bool) (r : Result DecodeError (RawSensorData F))
      → settings (extracted p cancels r) ≡ settings p
  unfolding extracted
  extracted-settings p cancels (err e) = send_error-settings p _
  extracted-settings p cancels (ok s) = forward_sample-settings p cancels s

  decoded-settings :
      (p : Pipeline F) (now : ℕ) (cancels : Bool) (e : Option DecodeError)
      (frame : Option ModbusRtuFrame)
      → settings (decoded p now cancels e frame) ≡ settings p
  unfolding decoded
  decoded-settings p now cancels (some e) frame = send_error-settings p _
  decoded-settings p now cancels none none = refl
  decoded-settings p now cancels none (some frame) =
      ground (arith, extracted-settings p cancels (extract_sensor_data {F = F} now (some frame)))

  decode_item-settings :
      (p : Pipeline F) (now : ℕ) (cancels : Bool) (bytes : List ℕ)
      → settings (decode_item p now cancels bytes) ≡ settings p
  unfolding decode_item
  decode_item-settings p now cancels bytes =
      let r = decode_modbus_rtu p.decoder bytes in
      ground
        (arith, decoded-settings (record p { decoder = r.decoder }) now cancels r.error r.frame)

  solved-settings :
      (p : Pipeline F) (cancels : Bool) (r : Result SolveError (HydrodynamicsFrame F))
      → settings (solved p cancels r) ≡ settings p
  unfolding solved
  solved-settings p cancels (err e) = send_error-settings p _
  solved-settings p cancels (ok h) = forward_frame-settings p cancels h

  ends-settings :
      (p : Pipeline F) (i now : ℕ) (cancels : Bool) (bytes : Option (List ℕ))
      → settings (end_decoding p i now cancels bytes) ≡ settings p
  unfolding end_decoding
  ends-settings p i now cancels none = refl
  ends-settings p i now cancels (some bytes) = decode_item-settings _ now cancels bytes

  end_solving-settings :
      (p : Pipeline F) (i : ℕ) (cancels : Bool) (s : Option (RawSensorData F))
      → settings (end_solving p i cancels s) ≡ settings p
  unfolding end_solving solve_item
  end_solving-settings p i cancels none = refl
  end_solving-settings p i cancels (some s) = solved-settings _ cancels _

  pub act-settings : (p : Pipeline F) (a : Action) → settings (act p a) ≡ settings p
  unfolding act send_input take_raw take_sample drop_error drop_sample drop_frame
  act-settings p (input bytes) = ground arith
  act-settings p decoder_takes = ground arith
  act-settings p solver_takes = ground arith
  act-settings p error_handled = ground arith
  act-settings p (decoder_ends i now cancels) =
      ends-settings p i now cancels (get_elem? p.decoding i)
  act-settings p (solver_ends i cancels) = end_solving-settings p i cancels (get_elem? p.solving i)
  act-settings p others_take_sample = ground arith
  act-settings p others_take_frame = ground arith
  act-settings p others_take_error = ground arith

  pub act_all-settings :
      (p : Pipeline F) (actions : List Action) → settings (act_all p actions) ≡ settings p
  unfolding act_all
  act_all-settings p [] = refl
  act_all-settings p (a ∷ rest) = act_all-settings (act p a) rest ∙ act-settings p a

  pub act_all-flags : (p : Pipeline F) (actions : List Action) → flags (act_all p actions) ≡ flags p
  act_all-flags p actions = ap (λ t. (t.0, t.1, t.2)) (act_all-settings p actions)

  pub new_pipeline-flags :
      (cfg : PipelineConfig) (solver : DriftFluxConfig F) (samples frames errors : ℕ)
      → flags (new_pipeline cfg solver samples frames errors) ≡ (false, false, false)
  unfolding new_pipeline
  new_pipeline-flags cfg solver samples frames errors = refl

  pub start-flags :
      (p : Pipeline F) → flags p ≡ (false, false, false) → flags (start p) ≡ (true, false, false)
  unfolding start
  start-flags p e = ground arith

  pub stop-flags :
      (p : Pipeline F) → flags p ≡ (true, false, false) → flags (stop p) ≡ (false, true, true)
  unfolding stop
  stop-flags p e = ground arith

  -- The sizes of the channels for bytes, samples and frames.
  abbrev pub sizes : Pipeline F → ℕ × ℕ × ℕ
  sizes p = (p.config.raw_buffer_size, p.decoded_size, p.frame_size)

  pub act_all-sizes : (p : Pipeline F) (actions : List Action) → sizes (act_all p actions) ≡ sizes p
  act_all-sizes p actions = ap (λ t. (t.3, t.4, t.5)) (act_all-settings p actions)

  pub start-sizes : (p : Pipeline F) → sizes (start p) ≡ sizes p
  unfolding start
  start-sizes p = ground arith

  pub new_pipeline-sizes :
      (cfg : PipelineConfig) (solver : DriftFluxConfig F) (samples frames errors : ℕ)
      → sizes (new_pipeline cfg solver samples frames errors)
        ≡ (cfg.raw_buffer_size, samples, frames)
  unfolding new_pipeline
  new_pipeline-sizes cfg solver samples frames errors = refl

  -- `Input()` is open, and no send to it has panicked.
  abbrev pub IsOpen : Pipeline F → Type 0
  IsOpen p = (p.raw_closed ≡ false) × (p.input_panics ≡ 0)

  pub new_pipeline-IsOpen :
      (cfg : PipelineConfig) (solver : DriftFluxConfig F) (samples frames errors : ℕ)
      → IsOpen (new_pipeline cfg solver samples frames errors)
  unfolding new_pipeline
  new_pipeline-IsOpen cfg solver samples frames errors = (refl, refl)

  pub start-IsOpen : (p : Pipeline F) → IsOpen p → IsOpen (start p)
  unfolding start
  start-IsOpen p v = ground arith

  pub settings-IsOpen : (p q : Pipeline F) → settings q ≡ settings p → IsOpen p → IsOpen q
  settings-IsOpen p q e v = ground arith
