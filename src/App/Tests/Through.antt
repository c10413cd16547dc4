-- ===== src/App/Tests/Through.antt =====
-- The theorems on the samples at concrete measurements.
use thermal_recovery_flow.Base.{ℕ, ◌+◌, List, ◌≡◌, refl, true, false, some, [], ◌∷◌, arith}
use thermal_recovery_flow.Base.Int.{pos}
use thermal_recovery_flow.Base.Float.{Fraction, frac, fraction_float, Fraction-IsFloat}
use thermal_recovery_flow.Driftflux.{HydrodynamicsFrame}
use thermal_recovery_flow.Choke.Override.{OverridePacket}
use thermal_recovery_flow.Choke.Interceptor.{ChokeInterceptor, ChokeFrame, process_frame}
use thermal_recovery_flow.Choke.Interceptor.Loop.{process_loop}
use thermal_recovery_flow.Config.{Config}
use thermal_recovery_flow.Pipeline.{
  Pipeline, default_pipeline_config, input, decoder_takes, solver_takes,
}
use thermal_recovery_flow.Pipeline.Wire.{sample_of, Measurement, IsSent, IsIdle}
use thermal_recovery_flow.Protocol.Decoder.{new_bit_decoder}
use thermal_recovery_flow.Protocol.Extract.{convert_to_temperature, convert_to_pressure}
use thermal_recovery_flow.App.Barrier.{through, through-IsClosing}
use thermal_recovery_flow.App.{GatewayApp, init}
use thermal_recovery_flow.Driftflux.Loop.{DriftFluxSolver}
use thermal_recovery_flow.Driftflux.Loop.Lifetime.{
  new_drift_flux_solver, new_drift_flux_solver-IsCounted,
}
use thermal_recovery_flow.App.Samples.{
  Step, works, reads, IsShared, steps, arriving, steps-IsShared,
}
use thermal_recovery_flow.App.Watch.{IsClosing}
use thermal_recovery_flow.App.Tests.{whole, a_config, moment, surge}

-- A valve that is to close at 1 MPa.
abbrev pub low_config : Config Fraction
low_config = record a_config {
  choke = record a_config.choke { safety_pressure_limit = whole 1000000 };
}

abbrev idle : Pipeline Fraction
idle = record {
  config = default_pipeline_config;
  solver_config = record {
    max_iterations = pos 2;
    tolerance = frac 1 0 1000;
    flow_area = frac 1 0 100;
    gravity = frac 981 0 100;
    c0 = frac 12 0 10;
    vdj = frac 1 0 10;
  };
  decoded_size = 10000;
  frame_size = 10000;
  error_size = 10000;
  running = true;
  stopped = false;
  raw_closed = false;
  raw_data_chan = [];
  decoded_chan = [];
  hydro_frame_chan = [];
  error_chan = [];
  decoding = [];
  solving = [];
  decoder = new_bit_decoder;
  decoded_dropped = 0;
  frame_dropped = 0;
  err_dropped = 0;
  skipped = 0;
  given_up = 0;
  taken = 0;
  panics = 0;
  input_panics = 0;
}

idle-IsIdle : IsIdle idle
idle-IsIdle = record {
  raw = refl;
  decoding = refl;
  samples = refl;
  solving = refl;
  input_open = refl;
  raw_room = omega arith;
  sample_room = omega arith;
  frame_room = omega arith;
  error_room = omega arith;
}

-- 2 MPa at 300 degrees.
abbrev hot : Measurement
hot = record {
  addr = 1;
  func = 3;
  pressure = 2000000000;
  temp = 30000;
  time = 70000;
  code = 2;
  rest = 0 ∷ [];
}

hot-IsSent : IsSent hot
hot-IsSent = record {
  addr = omega arith;
  func = omega arith;
  bytes = omega arith;
  more = omega arith;
  fits = omega arith;
  time = omega arith;
}

through-IsClosing_example :
    (h : HydrodynamicsFrame Fraction) × ((through idle 5000 hot).hydro_frame_chan ≡ h ∷ [])
    × (app : GatewayApp ℕ Fraction) × (ci : ChokeInterceptor ℕ Fraction) × (out : ChokeInterceptor ℕ
          Fraction
        × ChokeFrame Fraction)
    × (p : OverridePacket Fraction) × (init low_config 7 ≡ some app)
    × (process_loop (app.choke_interceptor.1) ((moment, some surge) ∷ []) ≡ some ci)
    × (process_frame ci moment h ≡ some out)
    × IsClosing low_config ci p out
unfolding convert_to_temperature convert_to_pressure
through-IsClosing_example =
    through-IsClosing Fraction-IsFloat low_config 7 10 idle 5000 hot ((moment, some surge) ∷ [])
      moment hot-IsSent idle-IsIdle refl refl refl refl refl

-- A pipeline with one sample that waits.
abbrev waiting : Pipeline Fraction
waiting = record idle { decoded_chan = sample_of 5000 hot ∷ [] }

abbrev fresh : DriftFluxSolver Fraction
fresh = new_drift_flux_solver idle.solver_config

waiting-IsShared : IsShared waiting fresh 1
unfolding new_drift_flux_solver
waiting-IsShared = record {
  pipeline = record {
    total = refl;
    raw_fits = omega arith;
    decoded_fits = omega arith;
    frames_fit = omega arith;
    errors_fit = omega arith;
    raw_bytes = tt;
    decoding_bytes = tt;
    calm = refl;
  };
  solver = new_drift_flux_solver-IsCounted idle.solver_config;
}

abbrev todo : List Step
todo = works (input (1 ∷ 2 ∷ [])) ∷ reads ∷ works decoder_takes ∷ reads ∷ works solver_takes ∷ []

steps-IsShared_example :
    let (p', s') = steps (waiting, fresh) todo in
    IsShared p' s' (1 + arriving (waiting, fresh) todo)
unfolding new_drift_flux_solver
steps-IsShared_example =
    steps-IsShared todo waiting fresh 1 waiting-IsShared
      ((omega arith, (omega arith, tt)), (tt, (tt, (tt, (tt, tt))))) (omega arith) (omega arith)
