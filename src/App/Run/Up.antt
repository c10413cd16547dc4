-- ===== src/App/Run/Up.antt =====
-- cmd/gateway/main.go: the components after `init` and after `start`.
use Prim.Native.String.{String}
use thermal_recovery_flow.Base.{
  ℕ, ◌≡◌, refl, Bool, true, false, Option, none, some, arith, if◌then◌else◌, Bool-cases, inl, inr,
}
use thermal_recovery_flow.Base.Int.{pos, ltb_ℤ}
use thermal_recovery_flow.Base.Float.{Float}
use thermal_recovery_flow.Driftflux.Loop.Lifetime as Solver
use thermal_recovery_flow.Choke.Interceptor.Loop as Choke
use thermal_recovery_flow.Frame.Output as Output
use thermal_recovery_flow.Frame.Output.{FrameOutput}
use thermal_recovery_flow.Frame.Output.Flags.{IsSound, new_frame_output-IsSound, start-IsSound}
use thermal_recovery_flow.Gateway.Serial.Port.{SerialPort}
use thermal_recovery_flow.Gateway.Serial.Port.Flags.{
  IsPort, new_serial_gateway-IsPort, start-IsPort,
}
use thermal_recovery_flow.Gateway.Tcp.{TcpGateway, new_tcp_gateway, set_max_connections}
use thermal_recovery_flow.Gateway.Tcp.Flags as Tcp
use thermal_recovery_flow.Pipeline.Flags as Pipe
use thermal_recovery_flow.Config.{Config}
use thermal_recovery_flow.App.{GatewayApp, app_of, tcp_gateway_of, serial_gw_of, milliseconds}
use thermal_recovery_flow.App.Run.{
  Answers, start_tcp, start_serial, start_workers, after_tcp, start_gateways, after_output, start,
}

-- A property of a component that may be missing.
abbrev pub IfThere {ℓ} : {A : Type ℓ} → (A → Type 0) → Option A → Type 0
IfThere P none = Unit {0}
IfThere P (some x) = P x

abbrev pub IsTcpUp : Bool → TcpGateway → Type 0
IsTcpUp enabled g = (enabled ≡ true) × (g.listening ≡ g.running)

abbrev pub IsSerialUp : Bool → SerialPort → Type 0
IsSerialUp enabled s = (enabled ≡ true) × IsPort s

start_tcp-IsTcpUp :
    {E : Type 0} (enabled : Bool) (tcp : Option TcpGateway) (listen : Option E)
    → IfThere (IsTcpUp enabled) tcp
    → (start_tcp enabled tcp listen).1 ≡ none
    → IfThere (IsTcpUp enabled) (start_tcp enabled tcp listen).0
unfolding start_tcp
start_tcp-IsTcpUp enabled none listen v e = tt
start_tcp-IsTcpUp enabled (some g) listen (on, v) e =
    rw on (refl, ground (arith, Tcp.start-flags g listen))

start_serial-IsSerialUp :
    {E : Type 0} (enabled : Bool) (serial : Option SerialPort) (opened : Option E)
    → IfThere (IsSerialUp enabled) serial
    → IfThere (IsSerialUp enabled) (start_serial enabled serial opened)
unfolding start_serial
start_serial-IsSerialUp enabled none opened v = tt
start_serial-IsSerialUp enabled (some s) opened (on, v) = rw on (refl, start-IsPort s opened v)

module _ {F : Type 0} where
  tcp_gateway_of-IsTcpUp : (cfg : Config F) → IfThere (IsTcpUp cfg.tcp.enabled) (tcp_gateway_of cfg)
  unfolding tcp_gateway_of
  tcp_gateway_of-IsTcpUp cfg =
      let g = new_tcp_gateway in
      let g' =
        if ltb_ℤ (pos 0) cfg.tcp.max_connections
        then set_max_connections g cfg.tcp.max_connections
        else g in
      elim (Bool-cases cfg.tcp.enabled) [
        | inl e ↦ rw e (
          refl,
          ground (
            arith,
            Tcp.new_tcp_gateway-flags,
            Tcp.set_max_connections-flags g cfg.tcp.max_connections,
            Tcp.set_idle_timeout-flags g' (milliseconds cfg.tcp.idle_timeout_ms),
          ),
        )
        | inr e ↦ rw e tt
      ]

  serial_gw_of-IsSerialUp :
      (cfg : Config F) → IfThere (IsSerialUp cfg.serial.enabled) (serial_gw_of cfg)
  unfolding serial_gw_of
  serial_gw_of-IsSerialUp cfg = elim (Bool-cases cfg.serial.enabled) [
    | inl e ↦ rw e (refl, new_serial_gateway-IsPort _)
    | inr e ↦ rw e tt
  ]

module _ {E F : Type 0} ⦃o : Float F⦄ where
  -- The gateways, which exist only where they are enabled, and the output.
  pub record IsMade (app : GatewayApp E F) : Type 0 where
    pub shutdown : app.shutdown ≡ false
    pub tcp : IfThere (IsTcpUp app.cfg.tcp.enabled) app.tcp_gateway
    pub serial : IfThere (IsSerialUp app.cfg.serial.enabled) app.serial_gw
    pub output : IsSound app.frame_out

  -- The components after `start`.
  pub record IsUp (app : GatewayApp E F) : Type 0 where
    pub made : IsMade app
    pub pipeline : Pipe.flags app.pipeline ≡ (true, false, false)
    pub solver : Solver.flags app.solver ≡ (true, false)
    pub choke : (app.choke_interceptor.0) ≡ true

  app_of-IsMade : (cfg : Config F) (seq size : ℕ) → IsMade (app_of {E = E} cfg seq size)
  unfolding app_of
  app_of-IsMade cfg seq size = record {
    shutdown = refl;
    tcp = tcp_gateway_of-IsTcpUp cfg;
    serial = serial_gw_of-IsSerialUp cfg;
    output = new_frame_output-IsSound _;
  }

  after_tcp-IsUp :
      (app : GatewayApp E F) (r : Option TcpGateway × Option E) (opened : Option E)
      → IsUp app
      → (r.1 ≡ none → IfThere (IsTcpUp app.cfg.tcp.enabled) (r.0))
      → (after_tcp app r opened).1 ≡ none
      → IsUp (after_tcp app r opened).0
  unfolding after_tcp
  after_tcp-IsUp app (tcp, some x) opened v up e = cc
  after_tcp-IsUp app (tcp, none) opened v up e = record {
    made = record {
      shutdown = v.made.shutdown;
      tcp = up refl;
      serial = start_serial-IsSerialUp app.cfg.serial.enabled app.serial_gw opened v.made.serial;
      output = v.made.output;
    };
    pipeline = v.pipeline;
    solver = v.solver;
    choke = v.choke;
  }

  start_workers-IsUp :
      (app : GatewayApp E F)
      → IsMade app
      → Pipe.flags app.pipeline ≡ (false, false, false)
      → Solver.flags app.solver ≡ (false, false)
      → (app.choke_interceptor.0) ≡ false
      → IsUp (start_workers app)
  unfolding start_workers
  start_workers-IsUp app v p q c = record {
    made = record { shutdown = v.shutdown; tcp = v.tcp; serial = v.serial; output = v.output };
    pipeline = Pipe.start-flags app.pipeline p;
    solver = Solver.start-flags app.solver q;
    choke = rw c (Choke.start_lem (app.choke_interceptor.1));
  }

  after_output-IsUp :
      (app : GatewayApp E F) (r : FrameOutput × Option E) (w : Answers E)
      → IsMade app
      → Pipe.flags app.pipeline ≡ (false, false, false)
      → Solver.flags app.solver ≡ (false, false)
      → (app.choke_interceptor.0) ≡ false
      → (r.1 ≡ none → IsSound (r.0))
      → (after_output app r w).1 ≡ none
      → IsUp (after_output app r w).0
  unfolding after_output start_gateways
  after_output-IsUp app (out, some x) w v p q c sound e = cc
  after_output-IsUp app (out, none) w v p q c sound e =
      let app' = record app { frame_out = out } in
      let made : IsMade app' = record {
        shutdown = v.shutdown;
        tcp = v.tcp;
        serial = v.serial;
        output = sound refl;
      } in
      let up = start_workers-IsUp app' made p q c in
      after_tcp-IsUp (start_workers app')
        (start_tcp app.cfg.tcp.enabled app.tcp_gateway w.tcp_listen) w.serial_open up
        (start_tcp-IsTcpUp app.cfg.tcp.enabled app.tcp_gateway w.tcp_listen v.tcp) e

  -- A `start` of what `init` makes that returns no error.
  pub start-IsUp :
      (file_dir : String → String) (cfg : Config F) (seq size : ℕ) (w : Answers E)
      → (start file_dir (app_of cfg seq size) w).1 ≡ none
      → IsUp (start file_dir (app_of cfg seq size) w).0
  unfolding start app_of
  start-IsUp file_dir cfg seq size w e =
      let app : GatewayApp E F = app_of cfg seq size in
      after_output-IsUp app (Output.start file_dir app.frame_out w.opening w.output_listen) w
        (app_of-IsMade cfg seq size) (Pipe.new_pipeline-flags _ _ _ _ _)
        (Solver.new_drift_flux_solver-flags _) refl
        (start-IsSound file_dir app.frame_out w.opening w.output_listen
          (new_frame_output-IsSound _))
        e

some_if :
    (b : Bool) (g : TcpGateway)
    → b ≡ true
    → (h : TcpGateway) × ((if b then some g else none) ≡ some h)
some_if b g e = (g, rw e refl)

module _ {F : Type 0} where
  -- An enabled TCP gateway exists.
  pub tcp_gateway_of-some :
      (cfg : Config F) → cfg.tcp.enabled ≡ true → (g : TcpGateway) × (tcp_gateway_of cfg ≡ some g)
  unfolding tcp_gateway_of
  tcp_gateway_of-some cfg e = some_if cfg.tcp.enabled _ e
