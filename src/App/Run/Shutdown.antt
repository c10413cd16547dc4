-- ===== src/App/Run/Shutdown.antt =====
-- cmd/gateway/main.go: from `start` over a signal to `stop`.
use Prim.Native.String.{String}
use thermal_recovery_flow.Base.{
  ℕ, ◌≡◌, refl, ap, ◌∙◌, Bool, true, false, Option, none, some, List, arith,
}
use thermal_recovery_flow.Base.Int.{pos}
use thermal_recovery_flow.Base.Float.{Float}
use thermal_recovery_flow.Driftflux.Loop.Lifetime as Solver
use thermal_recovery_flow.Choke.Interceptor.Loop as Choke
use thermal_recovery_flow.Frame.{Formats}
use thermal_recovery_flow.Frame.Output as Output
use thermal_recovery_flow.Frame.Output.{FrameOutput}
use thermal_recovery_flow.Frame.Output.Flags.{
  IsShut, registry-IsSound, process_loop-IsSound, stop-IsShut,
}
use thermal_recovery_flow.Gateway.Serial.Port.{SerialPort}
use thermal_recovery_flow.Gateway.Serial.Port.Flags.{stop-IsPort}
use thermal_recovery_flow.Gateway.Tcp.{
  TcpGateway, new_tcp_gateway, set_max_connections, set_idle_timeout,
}
use thermal_recovery_flow.Choke.Interceptor.{ChokeInterceptor}
use thermal_recovery_flow.Frame.Clients as Clients
use thermal_recovery_flow.Gateway.Tcp as Gateway
use thermal_recovery_flow.Gateway.Tcp.Flags as Tcp
use mathlib.Core.Option.{map as map_option}
use thermal_recovery_flow.Pipeline.Flags as Pipe
use thermal_recovery_flow.Config.{Config}
use thermal_recovery_flow.App.Samples as Samples
use thermal_recovery_flow.App.{GatewayApp, app_of}
use thermal_recovery_flow.App.Run.{
  Answers, Life, Signal, returns, wait_for_shutdown, start, stop_tcp, stop_serial, stop, live,
  shut_down, started, run,
}
use thermal_recovery_flow.App.Run.Up.{IfThere, IsTcpUp, IsSerialUp, IsUp, start-IsUp}
use thermal_recovery_flow.App.Watch.{shown, hand_out-split, init-app_of}

stop_tcp-halts :
    (enabled : Bool) (tcp : Option TcpGateway)
    → IfThere (IsTcpUp enabled) tcp
    → IfThere (λ g. Tcp.flags g ≡ (false, false)) (stop_tcp enabled tcp)
unfolding stop_tcp
stop_tcp-halts enabled none v = tt
stop_tcp-halts enabled (some g) (e, v) = rw e (Tcp.stop-flags g v)

stop_serial-halts :
    (enabled : Bool) (serial : Option SerialPort)
    → IfThere (IsSerialUp enabled) serial
    → IfThere (λ s. (s.running ≡ false) × (s.port ≡ false)) (stop_serial enabled serial)
unfolding stop_serial
stop_serial-halts enabled none v = tt
stop_serial-halts enabled (some s) (e, v) = rw e (stop-IsPort s v)

module _ {E F : Type 0} ⦃o : Float F⦄ where
  -- The components after `stop`: no listener, no port and no file is open, the context of the pipeline and of the
  -- solver is cancelled, and nothing runs.
  pub record IsHalted (app : GatewayApp E F) : Type 0 where
    pub shutdown : app.shutdown ≡ true
    pub tcp : IfThere (λ g. Tcp.flags g ≡ (false, false)) app.tcp_gateway
    pub serial : IfThere (λ s. (s.running ≡ false) × (s.port ≡ false)) app.serial_gw
    pub pipeline : Pipe.flags app.pipeline ≡ (false, true, true)
    pub choke : Choke.IsEnded app.choke_interceptor
    pub solver : Solver.flags app.solver ≡ (false, true)
    pub output : IsShut app.frame_out

  pub stop-IsHalted : (app : GatewayApp E F) → IsUp app → IsHalted (stop app)
  unfolding stop
  stop-IsHalted app v = rw v.made.shutdown (record {
    shutdown = refl;
    tcp = stop_tcp-halts app.cfg.tcp.enabled app.tcp_gateway v.made.tcp;
    serial = stop_serial-halts app.cfg.serial.enabled app.serial_gw v.made.serial;
    pipeline = Pipe.stop-flags app.pipeline v.pipeline;
    choke = rw v.choke (Choke.stop-IsEnded (app.choke_interceptor.1));
    solver = Solver.stop-flags app.solver v.solver;
    output = stop-IsShut app.frame_out v.made.output;
  })

  module _ (std : Formats E F) where
    act_all-IsTcpUp :
        (enabled : Bool) (tcp : Option TcpGateway) (actions : List Gateway.Action)
        → IfThere (IsTcpUp enabled) tcp
        → IfThere (IsTcpUp enabled) (map_option (λ g. Gateway.act_all g actions) tcp)
    act_all-IsTcpUp enabled none actions v = tt
    act_all-IsTcpUp enabled (some g) actions (e, v) =
        (e, ground (arith, Tcp.act_all-flags g actions))

    -- The components after a life, with the interceptor's part of it.
    abbrev pub lived : GatewayApp E F → Life E F → ChokeInterceptor E F → GatewayApp E F
    lived app l ci =
        let (pipeline, solver) = Samples.steps (app.pipeline, app.solver) l.work in
        let out = Output.process_loop std app.frame_out (shown std l.frames) in
        record app {
          tcp_gateway = map_option (λ g. Gateway.act_all g l.tcp) app.tcp_gateway;
          pipeline = pipeline;
          solver = solver;
          choke_interceptor = (app.choke_interceptor.0, ci);
          frame_out = record out { registry = Clients.act_all out.registry l.clients };
        }

    -- Whatever the components meet, they stay up, and nothing panics.
    live-IsUp :
        (app : GatewayApp E F) (l : Life E F)
        → IsUp app
        → (app' : GatewayApp E F) × (live std app l ≡ some app') × IsUp app'
    unfolding live
    live-IsUp app l v =
        let (same, same') = Samples.steps-settings l.work app.pipeline app.solver in
        let (ci, e, f, n) = hand_out-split std l.frames app.frame_out (app.choke_interceptor.1) in
        (
          lived app l ci,
          rw (e, live) refl,
          record {
            made = record {
              shutdown = v.made.shutdown;
              tcp = act_all-IsTcpUp app.cfg.tcp.enabled app.tcp_gateway l.tcp v.made.tcp;
              serial = v.made.serial;
              output =
                  registry-IsSound _ _
                    (process_loop-IsSound std (shown std l.frames) app.frame_out v.made.output);
            };
            pipeline = ap (λ t. (t.0, t.1, t.2)) same ∙ v.pipeline;
            solver = same' ∙ v.solver;
            choke = v.choke;
          },
        )

    started-IsHalted :
        (r : GatewayApp E F × Option E) (l : Life E F) (signals : List Signal) (n : ℕ)
        → r.1 ≡ none
        → IsUp (r.0)
        → wait_for_shutdown signals ≡ some n
        → (app : GatewayApp E F) × (started std r l signals ≡ some (returns app)) × IsHalted app
    unfolding started shut_down
    started-IsHalted (app, some x) l signals n e v told = cc
    started-IsHalted (app, none) l signals n e v told =
        let (app', lives, up) = live-IsUp app l v in
        (stop app', rw (lives, started) (rw (told, shut_down) refl), stop-IsHalted app' up)

    -- With channels of a size that is not negative and a `start` that returns no error, whatever the components meet
    -- afterwards, `main` returns after the first SIGINT or SIGTERM, without a panic, and leaves nothing that runs:
    -- no listener, port or output file is open, and the contexts of the pipeline and the solver are cancelled.
    pub run-IsHalted :
        (file_dir : String → String) (cfg : Config F) (seq size : ℕ) (w : Answers E) (l : Life E F)
        (signals : List Signal) (n : ℕ)
        → cfg.solver.channel_size ≡ pos size
        → (start file_dir (app_of cfg seq size) w).1 ≡ none
        → wait_for_shutdown signals ≡ some n
        → (app : GatewayApp E F) × (run std file_dir cfg seq w l signals ≡ some (returns app))
          × IsHalted app
    unfolding run
    run-IsHalted file_dir cfg seq size w l signals n room e told =
        let (app, ended, halted) =
          started-IsHalted (start file_dir (app_of cfg seq size) w) l signals n e
            (start-IsUp file_dir cfg seq size w e) told in
        (app, rw (init-app_of {E = E} cfg seq size room, run) ended, halted)
