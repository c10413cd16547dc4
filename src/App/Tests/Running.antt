-- ===== src/App/Tests/Running.antt =====
-- The theorems on a whole run at a concrete configuration.
use Prim.Native.String.{String}
use thermal_recovery_flow.Base.{ℕ, ◌+◌, ◌≡◌, refl, false, none, some, [], ◌∷◌, ok, arith}
use thermal_recovery_flow.Base.Float.{Fraction, fraction_float}
use thermal_recovery_flow.Frame.Output.{FrameOutput, Opening}
use thermal_recovery_flow.Frame.Output as Output
use thermal_recovery_flow.Frame.Output.Flags.{IsOpenable, start-none as output_start-none}
use thermal_recovery_flow.Frame.Clients as Clients
use thermal_recovery_flow.Driftflux.Loop.Lifetime as Solver
use thermal_recovery_flow.Gateway.Tcp as Tcp
use thermal_recovery_flow.Pipeline as Pipe
use thermal_recovery_flow.Logger.{level_info}
use thermal_recovery_flow.Config.{found, not_found, default_config}
use thermal_recovery_flow.App.{GatewayApp, app_of}
use thermal_recovery_flow.App.Run.{
  Answers, Life, sighup, sigterm, exits, returns, wait_for_shutdown, run, start, live,
}
use thermal_recovery_flow.App.Run.Limits.{IsWithin, live-IsWithin}
use thermal_recovery_flow.App.Stats.{print_stats}
use thermal_recovery_flow.App.Samples.{works, reads, arriving}
use thermal_recovery_flow.Gateway.Serial.{SerialGateway}
use thermal_recovery_flow.App.Run.Shutdown.{IsHalted, run-IsHalted}
use thermal_recovery_flow.App.Run.Failure.{IsLeft, run-IsLeft, start-none}
use thermal_recovery_flow.App.Main.{Files, configure, configure_again}
use thermal_recovery_flow.App.Tests.{a_config, plain, deliveries}

abbrev opens : Opening ℕ
opens = record { mkdir_all = none; open_file = none; write_header = none; flush_header = none }

opens-IsOpenable : IsOpenable opens
opens-IsOpenable = record {
  mkdir_all = refl;
  open_file = refl;
  write_header = refl;
  flush_header = refl;
}

-- The serial port is not there.
abbrev well : Answers ℕ
well = record { opening = opens; output_listen = none; tcp_listen = none; serial_open = some 2 }

abbrev port_taken : Answers ℕ
port_taken = record {
  opening = opens;
  output_listen = none;
  tcp_listen = some 98;
  serial_open = none;
}

abbrev a_life : Life ℕ Fraction
a_life = record {
  tcp = Tcp.accept_checks "10.0.0.1" 5 ∷ Tcp.accept_adds ∷ [];
  work =
      works (Pipe.input (1 ∷ 2 ∷ []))
      ∷ works Pipe.decoder_takes
      ∷ reads
      ∷ works (Pipe.decoder_ends 0 7 false)
      ∷ [];
  clients = Clients.accept_checks "10.0.0.2" 6 ∷ Clients.accept_adds ∷ [];
  frames = deliveries;
}

abbrev here : String → String
here name = "."

run-IsHalted_example :
    (app : GatewayApp ℕ Fraction) × (run plain here a_config 7 well a_life (sighup ∷ sigterm ∷ [])
      ≡ some (returns app))
    × IsHalted app
unfolding wait_for_shutdown
run-IsHalted_example =
    run-IsHalted plain here a_config 7 10 well a_life (sighup ∷ sigterm ∷ []) 1 refl
      (start-none here (app_of a_config 7 10) well opens-IsOpenable refl) refl

run-IsLeft_example :
    (app : GatewayApp ℕ Fraction) × (run plain here a_config 7 port_taken a_life []
      ≡ some (exits 1 (some app)))
    × IsLeft app
    × (app.frame_out ≡ (Output.start here (app_of {E = ℕ} a_config 7 10).frame_out opens none).0)
run-IsLeft_example =
    run-IsLeft plain here a_config 7 10 port_taken a_life [] 98 refl refl refl
      (output_start-none here (app_of {E = ℕ} a_config 7 10).frame_out opens none opens-IsOpenable)

abbrev some_files : Files ℕ Fraction
some_files = record {
  marshal = λ cfg. ok (123 ∷ 125 ∷ []);
  unmarshal = λ bytes cfg. ok cfg;
  write_file = λ bytes file. (found bytes, none);
}

configure_again_example :
    (configure some_files "config.json" not_found
      ≡ (found (123 ∷ 125 ∷ []), ok (default_config, level_info)))
    × (configure some_files "config.json" (found (123 ∷ 125 ∷ []))
        ≡ configure some_files "config.json" not_found)
configure_again_example =
    configure_again some_files "config.json" (123 ∷ 125 ∷ []) refl refl refl refl

abbrev reading : SerialGateway
reading = record {
  frame_buffer = [];
  raw_data_chan = [];
  total_errors = 0;
  frames_sent = 0;
  bytes_sent = 0;
}

live-IsWithin_example :
    let up = (start here (app_of {E = ℕ} a_config 7 10) well).0 in
    (app : GatewayApp ℕ Fraction) × (live plain up a_life ≡ some app)
    × (app.pipeline.panics ≡ 0)
    × (app.pipeline.input_panics ≡ 0)
    × IsWithin a_config 10
        (arriving (up.pipeline, up.solver) a_life.work + Solver.sent app.solver)
        (print_stats app reading 3)
live-IsWithin_example =
    live-IsWithin plain here a_config 7 10 well a_life reading 3
      ((omega arith, (omega arith, tt)), (tt, (tt, (tt, tt)))) (omega arith)
