-- ===== src/App.antt =====
-- cmd/gateway/main.go: what `init` makes of the configuration, and who takes the frames of the solver. Logging
-- is left out.
pub mod Run
pub mod Main
pub mod Samples
pub mod Stats
pub mod Watch
pub mod Barrier
pub mod Tests
use Prim.Native.String.{String}
use text.Mathlib.Text.{◌==◌ as str_eq}
use thermal_recovery_flow.Base.{
  ℕ, suc, ◌+◌, ◌-◌, ◌*◌, ◌%◌, ◌^◌, Bool, true, false, not, ◌&&◌, ◌||◌, Option, none, some, List, [],
  ◌∷◌, ◌==◌, if◌then◌else◌,
}
use thermal_recovery_flow.Base.Int.{ℤ, pos, negsuc, ltb_ℤ}
use thermal_recovery_flow.Base.Float.{Float}
use thermal_recovery_flow.Driftflux.{DriftFluxConfig, HydrodynamicsFrame}
use thermal_recovery_flow.Driftflux.Loop.{DriftFluxSolver}
use thermal_recovery_flow.Driftflux.Loop.Lifetime.{new_drift_flux_solver}
use thermal_recovery_flow.Choke.Controller.{SafetyControllerConfig}
use thermal_recovery_flow.Choke.Interceptor.{ChokeInterceptorConfig, ChokeInterceptor, Moment}
use thermal_recovery_flow.Choke.Interceptor as Interceptor
use thermal_recovery_flow.Choke.Interceptor.Setup.{
  override_retry_count, default_choke_interceptor_config, new_choke_interceptor,
}
use thermal_recovery_flow.Choke.Interceptor.Loop as Choke
use thermal_recovery_flow.Frame.{OutputConfig, Formats, parse_output_format}
use thermal_recovery_flow.Frame.Output.{FrameOutput, new_frame_output}
use thermal_recovery_flow.Frame.Output as Output
use thermal_recovery_flow.Gateway.Serial.Port.{
  StopBits, one_stop_bit, two_stop_bits, Parity, no_parity, even_parity, odd_parity, SerialConfig,
  SerialPort, new_serial_gateway,
}
use thermal_recovery_flow.Gateway.Serial.Port as Port
use thermal_recovery_flow.Gateway.Tcp.{
  TcpGateway, new_tcp_gateway, set_max_connections, set_idle_timeout,
}
use thermal_recovery_flow.Gateway.Tcp as Tcp
use thermal_recovery_flow.Pipeline.{Pipeline, default_pipeline_config, new_pipeline}
use thermal_recovery_flow.Pipeline as Pipe
use thermal_recovery_flow.Config.{Config}

-- `uint8(n)` and `uint16(n)` of an int.
abbrev pub cut : ℕ → ℤ → ℕ
cut size (pos n) = n % size
cut size (negsuc n) = size - 1 - n % size

-- `time.Duration(n) * time.Millisecond`, of a product within 64 bits.
abbrev pub milliseconds : ℤ → ℤ
milliseconds (pos n) = pos (n * 10 ^ 6)
milliseconds (negsuc n) = negsuc (suc n * 10 ^ 6 - 1)

abbrev is_two : ℤ → Bool
is_two (pos n) = n == 2
is_two (negsuc n) = false

-- The flag `running` of the interceptor stands beside it.
pub record GatewayApp (E F : Type 0) : Type 0 where
  pub cfg : Config F
  pub tcp_gateway : Option TcpGateway
  pub serial_gw : Option SerialPort
  pub pipeline : Pipeline F
  pub solver : DriftFluxSolver F
  pub frame_out : FrameOutput
  pub choke_interceptor : Bool × ChokeInterceptor E F
  pub shutdown : Bool

-- A frame of `frameChan` goes to the first of its two readers that asks for it.
pub data Delivery (E F : Type 0) : Type 0 where
  to_frame_out : Output.Moment E → HydrodynamicsFrame F → Delivery E F
  to_choke_interceptor : Moment E → HydrodynamicsFrame F → Delivery E F

module _ {F : Type 0} where
  solver_config : Config F → DriftFluxConfig F
  solver_config cfg = record {
    max_iterations = cfg.solver.max_iterations;
    tolerance = cfg.solver.tolerance;
    flow_area = cfg.solver.flow_area;
    gravity = cfg.solver.gravity;
    c0 = cfg.solver.c0;
    vdj = cfg.solver.vdj;
  }

  output_cfg : Config F → OutputConfig
  output_cfg cfg = record {
    enabled = cfg.output.enabled;
    format = parse_output_format cfg.output.format;
    output_file = cfg.output.output_file;
    tcp_server = cfg.output.tcp_server;
    tcp_listen_addr = cfg.output.tcp_listen_addr;
    flush_interval = milliseconds cfg.output.flush_interval;
    max_clients = pos 0;
    idle_timeout = pos 0;
  }

  pub tcp_gateway_of : Config F → Option TcpGateway
  tcp_gateway_of cfg =
      let g = new_tcp_gateway in
      let g' =
        if ltb_ℤ (pos 0) cfg.tcp.max_connections
        then set_max_connections g cfg.tcp.max_connections
        else g in
      let g'' =
        if ltb_ℤ (pos 0) cfg.tcp.idle_timeout_ms
        then set_idle_timeout g' (milliseconds cfg.tcp.idle_timeout_ms)
        else g' in
      if cfg.tcp.enabled then some g'' else none

  serial_cfg : Config F → SerialConfig
  serial_cfg cfg = record {
    port_name = cfg.serial.port_name;
    baud_rate = cfg.serial.baud_rate;
    data_bits = cfg.serial.data_bits;
    stop_bits = if is_two cfg.serial.stop_bits then two_stop_bits else one_stop_bit;
    parity =
        if str_eq cfg.serial.parity "E" || str_eq cfg.serial.parity "e"
        then even_parity
        else if str_eq cfg.serial.parity "O" || str_eq cfg.serial.parity "o"
        then odd_parity
        else no_parity;
    rs485_mode = cfg.serial.rs485_mode;
  }

  serial_gw_of : Config F → Option SerialPort
  unfolding serial_cfg
  serial_gw_of cfg = if cfg.serial.enabled then some (new_serial_gateway (serial_cfg cfg)) else none

module _ {F : Type 0} ⦃o : Float F⦄ where
  pub choke_config : Config F → ChokeInterceptorConfig F
  choke_config cfg =
      let default = default_choke_interceptor_config in
      let controller : SafetyControllerConfig F = record (default.controller_config) {
        safety_pressure_limit = cfg.choke.safety_pressure_limit;
        override_address = cut 256 cfg.choke.override_slave_addr;
        override_register = cut 65536 cfg.choke.override_register;
      } in
      record default {
        controller_config = controller;
        downstream_pressure = cfg.choke.downstream_pressure;
        enabled = cfg.choke.enabled;
      }

module _ {E F : Type 0} ⦃o : Float F⦄ where
  -- What `init` makes, with channels of this size.
  pub app_of : Config F → ℕ → ℕ → GatewayApp E F
  unfolding solver_config output_cfg tcp_gateway_of serial_gw_of choke_config
  app_of cfg seq size = record {
    cfg = cfg;
    tcp_gateway = tcp_gateway_of cfg;
    serial_gw = serial_gw_of cfg;
    pipeline = new_pipeline default_pipeline_config (solver_config cfg) size size 10000;
    solver = new_drift_flux_solver (solver_config cfg);
    frame_out = new_frame_output (output_cfg cfg);
    choke_interceptor = (false, new_choke_interceptor (choke_config cfg) override_retry_count seq);
    shutdown = false;
  }

  -- `init`, with the sequence number so far; a negative size of a channel is a panic.
  pub init : Config F → ℕ → Option (GatewayApp E F)
  unfolding app_of
  init cfg seq = elim (cfg.solver.channel_size) [
    | negsuc n ↦ none
    | pos size ↦ some (app_of cfg seq size)
  ]

  module _ (std : Formats E F) where
    -- The two loops that read `frameChan`; `none` is a panic of the interceptor.
    pub hand_out :
        FrameOutput × ChokeInterceptor E F
        → List (Delivery E F)
        → Option (FrameOutput × ChokeInterceptor E F)
    hand_out s [] = some s
    hand_out (out, ci) (to_frame_out m h ∷ rest) =
        hand_out (Output.process_frame std out (m, some h), ci) rest
    hand_out (out, ci) (to_choke_interceptor m h ∷ rest) = elim (Interceptor.process_frame ci m h) [
      | none ↦ none
      | some answer ↦ hand_out (out, answer.0) rest
    ]
