-- ===== src/Pipeline.antt =====
-- internal/pipeline/pipeline.go: the workers between the raw bytes and the hydrodynamic frames. A worker
-- takes an item from a channel in one step and is done with it in a later one, so that the workers
-- interleave freely; `decoding` and `solving` hold what they have taken. Logging changes nothing here.
pub mod Account
pub mod Wire
pub mod Flags
pub mod Tests
use thermal_recovery_flow.Base.{
  ℕ, zero, suc, ◌+◌, Bool, true, false, ◌&&◌, not, Option, none, some, List, [], ◌∷◌, ◌++◌,
  if◌then◌else◌, ltb, ◌==◌, length, get_elem?, inc64, Result, ok, err,
}
use thermal_recovery_flow.Base.Float.{Float}
use thermal_recovery_flow.Protocol.{RawSensorData, ModbusRtuFrame, DecodeError}
use thermal_recovery_flow.Protocol.Decoder.{BitDecoder, new_bit_decoder, decode_modbus_rtu}
use thermal_recovery_flow.Protocol.Extract.{extract_sensor_data}
use thermal_recovery_flow.Driftflux.{DriftFluxConfig, HydrodynamicsFrame, SolveError}
use thermal_recovery_flow.Driftflux.Solver.{solve}

pub record PipelineConfig : Type 0 where
  pub raw_buffer_size : ℕ
  pub decoded_buffer_size : ℕ
  pub frame_buffer_size : ℕ
  pub error_buffer_size : ℕ
  pub decoder_workers : ℕ
  pub solver_workers : ℕ

abbrev pub default_pipeline_config : PipelineConfig
default_pipeline_config = record {
  raw_buffer_size = 100000;
  decoded_buffer_size = 100000;
  frame_buffer_size = 100000;
  error_buffer_size = 10000;
  decoder_workers = 4;
  solver_workers = 4;
}

-- What goes over the channel of errors.
pub data PipelineError : Type 0 where
  decode_failed : DecodeError → PipelineError
  solve_failed : SolveError → PipelineError

-- The last five fields are not in the source: the items that are skipped, those that are given up when the
-- context is done, those that other goroutines have taken from the channels, the panics of the workers, and
-- those of the goroutines that send to `Input()`.
pub record Pipeline (F : Type 0) : Type 0 where
  pub config : PipelineConfig
  pub solver_config : DriftFluxConfig F
  -- How many items the three channels hold that `NewPipeline` is given.
  pub decoded_size : ℕ
  pub frame_size : ℕ
  pub error_size : ℕ
  pub running : Bool
  pub stopped : Bool
  -- Whether `Stop` has cancelled the context and closed `rawDataChan`.
  pub raw_closed : Bool
  pub raw_data_chan : List (List ℕ)
  pub decoded_chan : List (RawSensorData F)
  pub hydro_frame_chan : List (HydrodynamicsFrame F)
  pub error_chan : List PipelineError
  pub decoding : List (List ℕ)
  pub solving : List (RawSensorData F)
  pub decoder : BitDecoder
  pub decoded_dropped : ℕ
  pub frame_dropped : ℕ
  pub err_dropped : ℕ
  pub skipped : ℕ
  pub given_up : ℕ
  pub taken : ℕ
  pub panics : ℕ
  pub input_panics : ℕ

-- What the goroutines do next. A worker is done with the item at a place of `decoding` or `solving`;
-- `cancels` is the case of its last `select` for a context that is done.
pub data Action : Type 0 where
  input : (bytes : List ℕ) → Action
  decoder_takes solver_takes error_handled : Action
  decoder_ends : (place now : ℕ) (cancels : Bool) → Action
  solver_ends : (place : ℕ) (cancels : Bool) → Action
  others_take_sample others_take_frame others_take_error : Action

abbrev pub remove_at {ℓ} : {A : Type ℓ} → ℕ → List A → List A
remove_at i [] = []
remove_at zero (x ∷ xs) = xs
remove_at (suc i) (x ∷ xs) = x ∷ remove_at i xs

module _ {F : Type 0} ⦃o : Float F⦄ where
  -- `NewPipeline`, with the sizes of the channels that it is given, which are empty.
  pub new_pipeline : PipelineConfig → DriftFluxConfig F → ℕ → ℕ → ℕ → Pipeline F
  new_pipeline config solver_config decoded_size frame_size error_size = record {
    decoded_size = decoded_size;
    frame_size = frame_size;
    error_size = error_size;
    config = config;
    solver_config = solver_config;
    running = false;
    stopped = false;
    raw_closed = false;
    raw_data_chan = [];
    decoded_chan = [];
    hydro_frame_chan = [];
    error_chan = [];
    decoding = [];
    solving = [];
    decoder = new_bit_decoder;
    decoded_dropped = 0;
    frame_dropped = 0;
    err_dropped = 0;
    skipped = 0;
    given_up = 0;
    taken = 0;
    panics = 0;
    input_panics = 0;
  }

  pub send_error : Pipeline F → PipelineError → Pipeline F
  send_error p e =
      if ltb (length p.error_chan) p.error_size
      then record p { error_chan = p.error_chan ++ e ∷ [] }
      else record p { err_dropped = inc64 p.err_dropped }

  -- The `select` of `decoderWorker` on its result.
  pub forward_sample : Pipeline F → Bool → RawSensorData F → Pipeline F
  forward_sample p cancels sample =
      if cancels && p.raw_closed
      then record p { given_up = p.given_up + 1 }
      else if ltb (length p.decoded_chan) p.decoded_size
      then record p { decoded_chan = p.decoded_chan ++ sample ∷ [] }
      else record p { decoded_dropped = inc64 p.decoded_dropped }

  -- The `select` of `solverWorker` on its result.
  pub forward_frame : Pipeline F → Bool → HydrodynamicsFrame F → Pipeline F
  forward_frame p cancels frame =
      if cancels && p.raw_closed
      then record p { given_up = p.given_up + 1 }
      else if ltb (length p.hydro_frame_chan) p.frame_size
      then record p { hydro_frame_chan = p.hydro_frame_chan ++ frame ∷ [] }
      else record p { frame_dropped = inc64 p.frame_dropped }

  extracted : Pipeline F → Bool → Result DecodeError (RawSensorData F) → Pipeline F
  unfolding send_error forward_sample
  extracted p cancels (err e) = send_error p (decode_failed e)
  extracted p cancels (ok sample) = forward_sample p cancels sample

  -- What follows the call of `DecodeModbusRTU`; a nil frame without an error is a panic.
  decoded : Pipeline F → ℕ → Bool → Option DecodeError → Option ModbusRtuFrame → Pipeline F
  unfolding extracted
  decoded p now cancels (some e) frame = send_error p (decode_failed e)
  decoded p now cancels none none = record p { panics = p.panics + 1 }
  decoded p now cancels none (some frame) =
      if not frame.is_valid
      then record p { skipped = p.skipped + 1 }
      else extracted p cancels (extract_sensor_data {F = F} now (some frame))

  -- `decoderWorker` with the bytes it has taken.
  pub decode_item : Pipeline F → ℕ → Bool → List ℕ → Pipeline F
  unfolding decoded
  decode_item p now cancels bytes =
      if length bytes == 0
      then record p { skipped = p.skipped + 1 }
      else (let r = decode_modbus_rtu p.decoder bytes in
          decoded (record p { decoder = r.decoder }) now cancels r.error r.frame)

  solved : Pipeline F → Bool → Result SolveError (HydrodynamicsFrame F) → Pipeline F
  unfolding forward_frame
  solved p cancels (err e) = send_error p (solve_failed e)
  solved p cancels (ok frame) = forward_frame p cancels frame

  -- `solverWorker` with the sample it has taken.
  pub solve_item : Pipeline F → Bool → RawSensorData F → Pipeline F
  unfolding solved
  solve_item p cancels sample = solved p cancels (solve p.solver_config sample)

  -- A worker takes the first item of its channel.
  take_raw : Pipeline F → List (List ℕ) → Pipeline F
  take_raw p [] = p
  take_raw p (bytes ∷ rest) = record p { raw_data_chan = rest; decoding = p.decoding ++ bytes ∷ [] }

  take_sample : Pipeline F → List (RawSensorData F) → Pipeline F
  take_sample p [] = p
  take_sample p (sample ∷ rest) = record p {
    decoded_chan = rest;
    solving = p.solving ++ sample ∷ [];
  }

  pub end_decoding : Pipeline F → ℕ → ℕ → Bool → Option (List ℕ) → Pipeline F
  unfolding decode_item
  end_decoding p i now cancels none = p
  end_decoding p i now cancels (some bytes) =
      decode_item (record p { decoding = remove_at i p.decoding }) now cancels bytes

  pub end_solving : Pipeline F → ℕ → Bool → Option (RawSensorData F) → Pipeline F
  unfolding solve_item
  end_solving p i cancels none = p
  end_solving p i cancels (some sample) =
      solve_item (record p { solving = remove_at i p.solving }) cancels sample

  -- `errorHandler` and the goroutines outside take the first error, sample or frame.
  drop_error : Pipeline F → List PipelineError → Pipeline F
  drop_error p [] = p
  drop_error p (e ∷ rest) = record p { error_chan = rest; taken = p.taken + 1 }

  drop_sample : Pipeline F → List (RawSensorData F) → Pipeline F
  drop_sample p [] = p
  drop_sample p (sample ∷ rest) = record p { decoded_chan = rest; taken = p.taken + 1 }

  drop_frame : Pipeline F → List (HydrodynamicsFrame F) → Pipeline F
  drop_frame p [] = p
  drop_frame p (frame ∷ rest) = record p { hydro_frame_chan = rest; taken = p.taken + 1 }

  -- Whether the channel `Input()` takes bytes.
  abbrev pub takes_input : Pipeline F → Bool
  takes_input p = not p.raw_closed && ltb (length p.raw_data_chan) p.config.raw_buffer_size

  -- A send to `Input()` that does not wait: it panics once `Stop` has closed the channel, and a full channel does
  -- not take the bytes.
  send_input : Pipeline F → List ℕ → Pipeline F
  send_input p bytes =
      if p.raw_closed
      then record p { input_panics = p.input_panics + 1 }
      else if ltb (length p.raw_data_chan) p.config.raw_buffer_size
      then record p { raw_data_chan = p.raw_data_chan ++ bytes ∷ [] }
      else p

  pub act : Pipeline F → Action → Pipeline F
  unfolding send_input take_raw take_sample end_decoding end_solving drop_error drop_sample
      drop_frame
  act p (input bytes) = send_input p bytes
  act p decoder_takes = take_raw p p.raw_data_chan
  act p solver_takes = take_sample p p.decoded_chan
  act p error_handled = drop_error p p.error_chan
  act p (decoder_ends i now cancels) = end_decoding p i now cancels (get_elem? p.decoding i)
  act p (solver_ends i cancels) = end_solving p i cancels (get_elem? p.solving i)
  act p others_take_sample = drop_sample p p.decoded_chan
  act p others_take_frame = drop_frame p p.hydro_frame_chan
  act p others_take_error = drop_error p p.error_chan

  pub act_all : Pipeline F → List Action → Pipeline F
  unfolding act
  act_all p [] = p
  act_all p (a ∷ rest) = act_all (act p a) rest

  -- `Start` and `Stop`, without the goroutines.
  pub start : Pipeline F → Pipeline F
  start p = if p.running then p else record p { running = true; stopped = false }

  pub stop : Pipeline F → Pipeline F
  stop p =
      if not p.running
      then p
      else if p.stopped
      then record p { running = false }
      else record p { running = false; stopped = true; raw_closed = true }

  -- `GetStats` and `GetDropStats`.
  unfoldable pub get_stats : Pipeline F → ℕ × ℕ × ℕ
  get_stats p = (length p.raw_data_chan, length p.decoded_chan, length p.hydro_frame_chan)

  unfoldable pub get_drop_stats : Pipeline F → ℕ × ℕ × ℕ
  get_drop_stats p = (p.decoded_dropped, p.frame_dropped, p.err_dropped)
