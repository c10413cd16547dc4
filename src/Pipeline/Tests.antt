-- ===== src/Pipeline/Tests.antt =====
-- The theorems at a concrete pipeline and measurement.
use thermal_recovery_flow.Base.{◌+◌, refl, true, false, List, [], ◌∷◌, All, arith}
use thermal_recovery_flow.Base.Int.{pos}
use thermal_recovery_flow.Base.Float.{Fraction, frac, fraction_float}
use thermal_recovery_flow.Driftflux.{DriftFluxConfig}
use thermal_recovery_flow.Driftflux.Solver.{solve}
use thermal_recovery_flow.Pipeline.{
  Pipeline, Action, input, decoder_takes, decoder_ends, solver_takes, solver_ends, error_handled,
  others_take_frame, default_pipeline_config, act_all,
}
use thermal_recovery_flow.Protocol.Decoder.{new_bit_decoder}
use thermal_recovery_flow.Pipeline.Account.{IsPipeline}
use thermal_recovery_flow.Pipeline.Account.Actions.{HasBytes, arrivals, act_all-IsPipeline}
use thermal_recovery_flow.Pipeline.Wire.{
  Measurement, IsSent, IsIdle, Arrives, on_wire, sample_of, act_all-Arrives,
}

abbrev a_solver : DriftFluxConfig Fraction
a_solver = record {
  max_iterations = pos 2;
  tolerance = frac 1 0 1000;
  flow_area = frac 1 0 100;
  gravity = frac 981 0 100;
  c0 = frac 12 0 10;
  vdj = frac 1 0 10;
}

abbrev idle : Pipeline Fraction
idle = record {
  config = default_pipeline_config;
  solver_config = a_solver;
  decoded_size = 10000;
  frame_size = 10000;
  error_size = 10000;
  running = true;
  stopped = false;
  raw_closed = false;
  raw_data_chan = [];
  decoded_chan = [];
  hydro_frame_chan = [];
  error_chan = [];
  decoding = [];
  solving = [];
  decoder = new_bit_decoder;
  decoded_dropped = 0;
  frame_dropped = 0;
  err_dropped = 0;
  skipped = 0;
  given_up = 0;
  taken = 0;
  panics = 0;
  input_panics = 0;
}

idle-IsPipeline : IsPipeline idle 0
idle-IsPipeline = record {
  total = refl;
  raw_fits = omega arith;
  decoded_fits = omega arith;
  frames_fit = omega arith;
  errors_fit = omega arith;
  raw_bytes = tt;
  decoding_bytes = tt;
  calm = refl;
}

idle-IsIdle : IsIdle idle
idle-IsIdle = record {
  raw = refl;
  decoding = refl;
  samples = refl;
  solving = refl;
  input_open = refl;
  raw_room = omega arith;
  sample_room = omega arith;
  frame_room = omega arith;
  error_room = omega arith;
}

abbrev some_actions : List Action
some_actions =
    input (1 ∷ 2 ∷ [])
    ∷ input []
    ∷ decoder_takes
    ∷ input (9 ∷ [])
    ∷ decoder_takes
    ∷ decoder_ends 1 7 false
    ∷ decoder_ends 0 8 true
    ∷ error_handled
    ∷ others_take_frame
    ∷ []

some_actions-HasBytes : All HasBytes some_actions
some_actions-HasBytes = (
  (omega arith, (omega arith, tt)),
  (tt, (tt, ((omega arith, tt), (tt, (tt, (tt, (tt, (tt, tt)))))))),
)

act_all-IsPipeline_example : IsPipeline (act_all idle some_actions) (0 + arrivals idle some_actions)
act_all-IsPipeline_example =
    act_all-IsPipeline some_actions idle 0 idle-IsPipeline some_actions-HasBytes (omega arith)

abbrev measured : Measurement
measured = record {
  addr = 17;
  func = 3;
  pressure = 150000;
  temp = 25000;
  time = 70000;
  code = 2;
  rest = 0 ∷ [];
}

measured-IsSent : IsSent measured
measured-IsSent = record {
  addr = omega arith;
  func = omega arith;
  bytes = omega arith;
  more = omega arith;
  fits = omega arith;
  time = omega arith;
}

act_all-Arrives_example :
    Arrives idle
      (act_all idle (
        input (on_wire measured)
        ∷ decoder_takes
        ∷ decoder_ends 0 9 false
        ∷ solver_takes
        ∷ solver_ends 0 false
        ∷ []))
      (solve a_solver (sample_of 9 measured))
act_all-Arrives_example = act_all-Arrives idle 9 measured measured-IsSent idle-IsIdle
