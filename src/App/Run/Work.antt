-- ===== src/App/Run/Work.antt =====
-- cmd/gateway/main.go: the pipeline and the solver, which share their channels, before their first step.
use Prim.Native.String.{String}
use thermal_recovery_flow.Base.{ℕ, ◌+◌, ◌≡◌, refl, Option, none, some, [], arith}
use thermal_recovery_flow.Base.Float.{Float}
use thermal_recovery_flow.Driftflux.{DriftFluxConfig}
use thermal_recovery_flow.Driftflux.Loop.{DriftFluxSolver}
use thermal_recovery_flow.Driftflux.Loop.Lifetime as Solver
use thermal_recovery_flow.Driftflux.Loop.Lifetime.{
  new_drift_flux_solver, new_drift_flux_solver-IsCounted,
}
use thermal_recovery_flow.Frame.Output as Output
use thermal_recovery_flow.Frame.Output.{FrameOutput}
use thermal_recovery_flow.Gateway.Tcp.{TcpGateway}
use thermal_recovery_flow.Pipeline.{Pipeline, PipelineConfig, new_pipeline}
use thermal_recovery_flow.Pipeline as Pipe
use thermal_recovery_flow.Pipeline.Account.Actions.{new_pipeline-IsPipeline, start-IsPipeline}
use thermal_recovery_flow.Config.{Config}
use thermal_recovery_flow.App.{GatewayApp, app_of}
use thermal_recovery_flow.App.Samples.{IsShared}
use thermal_recovery_flow.App.Run.{
  Answers, start_tcp, start_workers, after_tcp, start_gateways, after_output, start,
}

module _ {F : Type 0} ⦃o : Float F⦄ where
  pub new_pipeline-IsShared :
      (cfg : PipelineConfig) (solver solver' : DriftFluxConfig F) (samples frames errors : ℕ)
      → IsShared (new_pipeline cfg solver samples frames errors) (new_drift_flux_solver solver') 0
  unfolding new_drift_flux_solver
  new_pipeline-IsShared cfg solver solver' samples frames errors = record {
    pipeline = new_pipeline-IsPipeline cfg solver samples frames errors;
    solver = new_drift_flux_solver-IsCounted solver';
  }

  pub start-IsShared :
      (p : Pipeline F) (s : DriftFluxSolver F) (n : ℕ)
      → IsShared p s n
      → IsShared (Pipe.start p) (Solver.start s []) n
  start-IsShared p s n v =
      let (same, as_many) = Solver.start-kept s in
      record {
        pipeline = rw as_many (start-IsPipeline p (n + Solver.sent s) v.pipeline);
        solver = Solver.start-IsCounted s v.solver;
      }

  -- The solver's loop has not done anything yet.
  abbrev pub IsFresh : DriftFluxSolver F → Type 0
  IsFresh s = (Solver.sent s ≡ 0) × (s.stats.total_frames + s.stats.failed_frames ≡ 0)

  solver_start-IsFresh : (s : DriftFluxSolver F) → IsFresh s → IsFresh (Solver.start s [])
  solver_start-IsFresh s v = ground (arith, Solver.start-kept s)

module _ {E F : Type 0} ⦃o : Float F⦄ where
  after_tcp-solver :
      (app : GatewayApp E F) (r : Option TcpGateway × Option E) (opened : Option E)
      → (after_tcp app r opened).0.solver ≡ app.solver
  unfolding after_tcp
  after_tcp-solver app (tcp, some x) opened = refl
  after_tcp-solver app (tcp, none) opened = refl

  after_output-IsFresh :
      (app : GatewayApp E F) (r : FrameOutput × Option E) (w : Answers E)
      → IsFresh app.solver
      → IsFresh (after_output app r w).0.solver
  unfolding after_output start_gateways start_workers
  after_output-IsFresh app (out, some x) w v = v
  after_output-IsFresh app (out, none) w v =
      rw
        (after_tcp-solver _ (start_tcp app.cfg.tcp.enabled app.tcp_gateway w.tcp_listen)
          w.serial_open)
        (solver_start-IsFresh app.solver v)

  pub start-IsFresh :
      (file_dir : String → String) (cfg : Config F) (seq size : ℕ) (w : Answers E)
      → IsFresh (start file_dir (app_of cfg seq size) w).0.solver
  unfolding start app_of new_drift_flux_solver
  start-IsFresh file_dir cfg seq size w =
      let app = app_of {E = E} cfg seq size in
      after_output-IsFresh app (Output.start file_dir app.frame_out w.opening w.output_listen) w
        (refl, refl)
