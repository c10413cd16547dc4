-- ===== src/App/Run.antt =====
-- cmd/gateway/main.go: `start`, `stop`, the waiting for a signal and `main`. What the file system and the network
-- answer is an argument, and so are the steps of the components between the start and the signal.
pub mod Up
pub mod Connections
pub mod Work
pub mod Limits
pub mod Shutdown
pub mod Failure
use Prim.Native.String.{String}
use text.Mathlib.Text.{◌==◌ as str_eq}
use thermal_recovery_flow.Base.{
  ℕ, suc, Bool, true, false, not, ◌&&◌, Option, none, some, List, [], ◌∷◌, if◌then◌else◌, Result,
  ok, err,
}
use mathlib.Core.Option.{map as map_option}
use thermal_recovery_flow.Base.Float.{Float}
use thermal_recovery_flow.Driftflux.Loop.Lifetime as Solver
use thermal_recovery_flow.Choke.Interceptor.Loop as Choke
use thermal_recovery_flow.Frame.{Formats}
use thermal_recovery_flow.Frame.Clients as Clients
use thermal_recovery_flow.Frame.Output.{FrameOutput, Opening}
use thermal_recovery_flow.Frame.Output as Output
use thermal_recovery_flow.Gateway.Serial.Port.{SerialPort}
use thermal_recovery_flow.Gateway.Serial.Port as Port
use thermal_recovery_flow.Gateway.Tcp.{TcpGateway}
use thermal_recovery_flow.Gateway.Tcp as Tcp
use thermal_recovery_flow.Pipeline as Pipe
use thermal_recovery_flow.Config.{Config}
use thermal_recovery_flow.App.Samples as Samples
use thermal_recovery_flow.App.{GatewayApp, Delivery, init, hand_out}

-- What opening the output file, the two calls of `net.Listen` and `serial.Open` answer.
pub record Answers (E : Type 0) : Type 0 where
  pub opening : Opening E
  pub output_listen : Option E
  pub tcp_listen : Option E
  pub serial_open : Option E

-- The signals that `waitForShutdown` asks for.
pub data Signal : Type 0 where
  sighup sigint sigterm : Signal

-- `waitForShutdown` returns at the first SIGINT or SIGTERM, after so many printings of the statistics; `none`
-- says that it still waits.
unfoldable pub wait_for_shutdown : List Signal → Option ℕ
wait_for_shutdown [] = none
wait_for_shutdown (sighup ∷ rest) = elim (wait_for_shutdown rest) [
  | none ↦ none
  | some n ↦ some (suc n)
]
wait_for_shutdown (sigint ∷ rest) = some 0
wait_for_shutdown (sigterm ∷ rest) = some 0

pub start_tcp {ℓ} :
    {E : Type ℓ} → Bool → Option TcpGateway → Option E → Option TcpGateway × Option E
start_tcp enabled none listen = (none, none)
start_tcp enabled (some g) listen =
    if enabled then (let (g', e) = Tcp.start g listen in (some g', e)) else (some g, none)

-- An error is only logged.
start_serial {ℓ} : {E : Type ℓ} → Bool → Option SerialPort → Option E → Option SerialPort
start_serial enabled none opened = none
start_serial enabled (some s) opened = some (if enabled then (Port.start s opened).0 else s)

stop_tcp : Bool → Option TcpGateway → Option TcpGateway
stop_tcp enabled none = none
stop_tcp enabled (some g) = some (if enabled then Tcp.stop g else g)

stop_serial : Bool → Option SerialPort → Option SerialPort
stop_serial enabled none = none
stop_serial enabled (some s) = some (if enabled then Port.stop s else s)

-- What the components meet while they run. The pipeline's workers and the solver's loop share their channels, so
-- their steps come in one order; each other component has its own.
pub record Life (E F : Type 0) : Type 0 where
  pub tcp : List Tcp.Action
  pub work : List Samples.Step
  pub clients : List Clients.Action
  pub frames : List (Delivery E F)

-- How `main` ends: it exits with a code and with the components as they are then, if there are any; it waits for
-- a signal; or it returns.
pub data Ending (E F : Type 0) : Type 0 where
  exits : (code : ℕ) → Option (GatewayApp E F) → Ending E F
  waits returns : GatewayApp E F → Ending E F

module _ {E F : Type 0} ⦃o : Float F⦄ where
  -- The part of `start` after the frame output, up to the gateways.
  start_workers : GatewayApp E F → GatewayApp E F
  start_workers app = record app {
    pipeline = Pipe.start app.pipeline;
    solver = Solver.start app.solver [];
    choke_interceptor = Choke.start app.choke_interceptor;
  }

  after_tcp : GatewayApp E F → Option TcpGateway × Option E → Option E → GatewayApp E F × Option E
  unfolding start_serial
  after_tcp app (tcp, some x) opened = (record app { tcp_gateway = tcp }, some x)
  after_tcp app (tcp, none) opened = (
    record app {
      tcp_gateway = tcp;
      serial_gw = start_serial app.cfg.serial.enabled app.serial_gw opened;
    },
    none,
  )

  start_gateways : GatewayApp E F → Answers E → GatewayApp E F × Option E
  unfolding start_tcp after_tcp
  start_gateways app w =
      after_tcp app (start_tcp app.cfg.tcp.enabled app.tcp_gateway w.tcp_listen) w.serial_open

  after_output : GatewayApp E F → FrameOutput × Option E → Answers E → GatewayApp E F × Option E
  unfolding start_workers start_gateways
  after_output app (out, some x) w = (record app { frame_out = out }, some x)
  after_output app (out, none) w = start_gateways (start_workers (record app { frame_out = out })) w

  -- `start`, with what `filepath.Dir` makes of a name.
  pub start : (String → String) → GatewayApp E F → Answers E → GatewayApp E F × Option E
  unfolding after_output
  start file_dir app w =
      after_output app (Output.start file_dir app.frame_out w.opening w.output_listen) w

  -- `stop`; no component's `Stop` panics.
  pub stop : GatewayApp E F → GatewayApp E F
  unfolding stop_tcp stop_serial
  stop app = if app.shutdown then app else record app {
    shutdown = true;
    tcp_gateway = stop_tcp app.cfg.tcp.enabled app.tcp_gateway;
    serial_gw = stop_serial app.cfg.serial.enabled app.serial_gw;
    pipeline = Pipe.stop app.pipeline;
    choke_interceptor = Choke.stop app.choke_interceptor;
    solver = Solver.stop app.solver;
    frame_out = Output.stop app.frame_out;
  }

  module _ (std : Formats E F) where
    -- The components run from `start` on; `none` is a panic of the interceptor.
    pub live : GatewayApp E F → Life E F → Option (GatewayApp E F)
    live app l =
        let (pipeline, solver) = Samples.steps (app.pipeline, app.solver) l.work in
        elim (hand_out std (app.frame_out, app.choke_interceptor.1) l.frames) [
          | none ↦ none
          | some (out, ci) ↦ some (record app {
            tcp_gateway = map_option (λ g. Tcp.act_all g l.tcp) app.tcp_gateway;
            pipeline = pipeline;
            solver = solver;
            choke_interceptor = (app.choke_interceptor.0, ci);
            frame_out = record out { registry = Clients.act_all out.registry l.clients };
          })
        ]

    -- `waitForShutdown` and the deferred `stop`.
    shut_down : GatewayApp E F → List Signal → Ending E F
    unfolding stop wait_for_shutdown
    shut_down app signals = elim (wait_for_shutdown signals) [
      | none ↦ waits app
      | some n ↦ returns (stop app)
    ]

    -- What follows `start`: an error ends the process without `stop`.
    started : GatewayApp E F × Option E → Life E F → List Signal → Option (Ending E F)
    unfolding live shut_down
    started (app, some e) l signals = some (exits 1 (some app))
    started (app, none) l signals = elim (live app l) [
      | none ↦ none
      | some app' ↦ some (shut_down app' signals)
    ]

    -- `main` from `init` on, whose panic is recovered.
    pub run :
        (String → String) → Config F → ℕ → Answers E → Life E F → List Signal → Option (Ending E F)
    unfolding started
    run file_dir cfg seq w l signals = elim (init {E = E} cfg seq) [
      | none ↦ some (exits 1 none)
      | some app ↦ started (start file_dir app w) l signals
    ]
