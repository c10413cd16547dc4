-- ===== src/App/Run/Failure.antt =====
-- cmd/gateway/main.go: when `start` returns no error, and what follows when the TCP gateway can not listen.
use Prim.Native.String.{String}
use thermal_recovery_flow.Base.{ℕ, ◌≡◌, refl, Bool, true, false, Option, none, some, List}
use thermal_recovery_flow.Base.Int.{pos}
use thermal_recovery_flow.Base.Float.{Float}
use thermal_recovery_flow.Driftflux.Loop.Lifetime as Solver
use thermal_recovery_flow.Choke.Interceptor.Loop as Choke
use thermal_recovery_flow.Frame.{Formats}
use thermal_recovery_flow.Frame.Output as Output
use thermal_recovery_flow.Frame.Output.{FrameOutput}
use thermal_recovery_flow.Frame.Output.Flags.{IsOpenable, start-none as output_start-none}
use thermal_recovery_flow.Gateway.Tcp.{TcpGateway}
use thermal_recovery_flow.Gateway.Tcp.Flags as Tcp
use thermal_recovery_flow.Pipeline.Flags as Pipe
use thermal_recovery_flow.Config.{Config}
use thermal_recovery_flow.App.{GatewayApp, app_of}
use thermal_recovery_flow.App.Watch.{init-app_of}
use thermal_recovery_flow.App.Run.{
  Answers, Life, Signal, exits, start_tcp, start_workers, after_tcp, start_gateways, after_output,
  start, started, run,
}
use thermal_recovery_flow.App.Run.Up.{tcp_gateway_of-some}

start_tcp-error :
    {E : Type 0} (tcp : Option TcpGateway) (listen : Option E) (g : TcpGateway) (x : E)
    → tcp ≡ some g
    → listen ≡ some x
    → start_tcp true tcp listen ≡ (some g, some x)
unfolding start_tcp
start_tcp-error tcp listen g x there fails =
    rw (there, fails, start_tcp) (rw (Tcp.start-error g x) refl)

module _ {E F : Type 0} ⦃o : Float F⦄ where
  -- The workers run, and `stop` has not been called.
  pub record IsLeft (app : GatewayApp E F) : Type 0 where
    pub shutdown : app.shutdown ≡ false
    pub pipeline : Pipe.flags app.pipeline ≡ (true, false, false)
    pub solver : Solver.flags app.solver ≡ (true, false)
    pub choke : (app.choke_interceptor.0) ≡ true

  abbrev IsFailure : E → GatewayApp E F × Option E → FrameOutput → Type 0
  IsFailure x r out = (r.1 ≡ some x) × IsLeft (r.0) × ((r.0).frame_out ≡ out)

  after_output-IsFailure :
      (app : GatewayApp E F) (r : FrameOutput × Option E) (w : Answers E) (g : TcpGateway) (x : E)
      → app.shutdown ≡ false
      → Pipe.flags app.pipeline ≡ (false, false, false)
      → Solver.flags app.solver ≡ (false, false)
      → (app.choke_interceptor.0) ≡ false
      → app.cfg.tcp.enabled ≡ true
      → app.tcp_gateway ≡ some g
      → w.tcp_listen ≡ some x
      → r.1 ≡ none
      → IsFailure x (after_output app r w) (r.0)
  unfolding after_output start_gateways start_workers after_tcp
  after_output-IsFailure app (out, some y) w g x s p q c on there fails e = cc
  after_output-IsFailure app (out, none) w g x s p q c on there fails e =
      rw (on, start_tcp-error app.tcp_gateway w.tcp_listen g x there fails)
        (
          refl,
          record {
            shutdown = s;
            pipeline = Pipe.start-flags app.pipeline p;
            solver = Solver.start-flags app.solver q;
            choke = rw c (Choke.start_lem (app.choke_interceptor.1));
          },
          refl,
        )

  started-exits :
      (std : Formats E F) (r : GatewayApp E F × Option E) (x : E) (l : Life E F)
      (signals : List Signal)
      → r.1 ≡ some x
      → started std r l signals ≡ some (exits 1 (some (r.0)))
  unfolding started
  started-exits std (app, none) x l signals e = cc
  started-exits std (app, some y) x l signals e = refl

  -- Where the TCP gateway is enabled and can not listen, and the output has started, `main` exits with code 1
  -- while the output is as its `Start` has left it and the pipeline, the solver and the interceptor run: `stop` is
  -- not called.
  pub run-IsLeft :
      (std : Formats E F) (file_dir : String → String) (cfg : Config F) (seq size : ℕ)
      (w : Answers E) (l : Life E F) (signals : List Signal) (x : E)
      → cfg.solver.channel_size ≡ pos size
      → cfg.tcp.enabled ≡ true
      → w.tcp_listen ≡ some x
      → let out : FrameOutput × Option E =
          Output.start file_dir (app_of {E = E} cfg seq size).frame_out w.opening w.output_listen in
        out.1 ≡ none
        → (app : GatewayApp E F) × (run std file_dir cfg seq w l signals
            ≡ some (exits 1 (some app)))
          × IsLeft app
          × (app.frame_out ≡ out.0)
  unfolding run start app_of
  run-IsLeft std file_dir cfg seq size w l signals x room on fails e =
      let app : GatewayApp E F = app_of cfg seq size in
      let out = Output.start file_dir app.frame_out w.opening w.output_listen in
      let (g, there) = tcp_gateway_of-some cfg on in
      let (error, left, output) =
        after_output-IsFailure app out w g x refl (Pipe.new_pipeline-flags _ _ _ _ _)
          (Solver.new_drift_flux_solver-flags _) refl on there fails e in
      (
        (after_output app out w).0,
        rw (init-app_of {E = E} cfg seq size room, run)
            (started-exits std (after_output app out w) x l signals error),
        left,
        output,
      )

start_tcp-none :
    {E : Type 0} (enabled : Bool) (tcp : Option TcpGateway) (listen : Option E)
    → listen ≡ none
    → (start_tcp enabled tcp listen).1 ≡ none
unfolding start_tcp
start_tcp-none enabled none listen e = refl
start_tcp-none true (some g) listen e = rw e (Tcp.start-none g)
start_tcp-none false (some g) listen e = refl

module _ {E F : Type 0} ⦃o : Float F⦄ where
  after_tcp-none :
      (app : GatewayApp E F) (r : Option TcpGateway × Option E) (opened : Option E)
      → r.1 ≡ none
      → (after_tcp app r opened).1 ≡ none
  unfolding after_tcp
  after_tcp-none app (tcp, none) opened e = refl
  after_tcp-none app (tcp, some x) opened e = cc

  after_output-none :
      (app : GatewayApp E F) (r : FrameOutput × Option E) (w : Answers E)
      → r.1 ≡ none
      → w.tcp_listen ≡ none
      → (after_output app r w).1 ≡ none
  unfolding after_output start_gateways
  after_output-none app (out, some x) w e listens = cc
  after_output-none app (out, none) w e listens =
      after_tcp-none (start_workers (record app { frame_out = out }))
        (start_tcp app.cfg.tcp.enabled app.tcp_gateway w.tcp_listen) w.serial_open
        (start_tcp-none app.cfg.tcp.enabled app.tcp_gateway w.tcp_listen listens)

  -- `start` returns an error only if the output file can not be opened or the TCP gateway can not listen.
  pub start-none :
      (file_dir : String → String) (app : GatewayApp E F) (w : Answers E)
      → IsOpenable w.opening
      → w.tcp_listen ≡ none
      → (start file_dir app w).1 ≡ none
  unfolding start
  start-none file_dir app w v listens =
      after_output-none app (Output.start file_dir app.frame_out w.opening w.output_listen) w
        (output_start-none file_dir app.frame_out w.opening w.output_listen v) listens
