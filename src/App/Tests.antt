-- ===== src/App/Tests.antt =====
-- The theorems at a concrete configuration and frame.
pub mod Through
pub mod Running
use thermal_recovery_flow.Base.{
  ℕ, ◌+◌, ◌≡◌, refl, true, false, none, some, List, [], ◌∷◌, length, ok, arith,
}
use thermal_recovery_flow.Base.Int.{pos}
use thermal_recovery_flow.Base.Float.{Fraction, frac, fraction_float, Fraction-IsFloat}
use thermal_recovery_flow.Driftflux.{HydrodynamicsFrame}
use thermal_recovery_flow.Choke.Override.{OverridePacket}
use thermal_recovery_flow.Choke.Interceptor.{ChokeInterceptor, ChokeFrame, Moment, process_frame}
use thermal_recovery_flow.Choke.Interceptor.Loop.{process_loop}
use thermal_recovery_flow.Frame.{Formats}
use thermal_recovery_flow.Frame.Output.{FrameOutput}
use thermal_recovery_flow.Frame.Output as Output
use thermal_recovery_flow.Config.{Config}
use thermal_recovery_flow.Pipeline.{Pipeline, default_pipeline_config}
use thermal_recovery_flow.Pipeline.Wire.{Measurement, IsSent, IsIdle}
use thermal_recovery_flow.Protocol.Decoder.{new_bit_decoder}
use thermal_recovery_flow.Protocol.Extract.{convert_to_temperature, convert_to_pressure}
use thermal_recovery_flow.App.Barrier.{through, through-IsClosing}
use thermal_recovery_flow.App.{
  GatewayApp, Delivery, to_frame_out, to_choke_interceptor, app_of, init, hand_out,
}
use thermal_recovery_flow.App.Watch.{IsClosing, init-IsClosing}

abbrev pub whole : ℕ → Fraction
whole n = frac n 0 1

abbrev pub a_config : Config Fraction
a_config = record {
  tcp = record {
    enabled = true;
    listen_addr = ":502";
    buffer_size = pos 10;
    max_connections = pos 8;
    idle_timeout_ms = pos 50;
  };
  serial = record {
    enabled = false;
    port_name = "COM1";
    baud_rate = pos 9600;
    data_bits = pos 8;
    stop_bits = pos 2;
    parity = "E";
    rs485_mode = false;
  };
  decoder = record { channel_size = pos 10 };
  solver = record {
    max_iterations = pos 100;
    tolerance = frac 1 0 100;
    flow_area = frac 1 0 100;
    gravity = frac 981 0 100;
    c0 = frac 12 0 10;
    vdj = frac 35 0 100;
    channel_size = pos 10;
  };
  output = record {
    enabled = true;
    format = "binary";
    output_file = "frames.bin";
    tcp_server = true;
    tcp_listen_addr = ":8080";
    flush_interval = pos 100;
  };
  choke = record {
    enabled = true;
    safety_pressure_limit = whole 35000000;
    downstream_pressure = whole 101325;
    override_slave_addr = pos 257;
    override_register = pos 65792;
    override_target_addr = "127.0.0.1:502";
  };
  log_level = "INFO";
  log_file = "";
}

abbrev pub surge : HydrodynamicsFrame Fraction
surge = record {
  timestamp = 4000;
  high_speed_time = 9;
  pressure = whole 36000000;
  temperature = whole 600;
  steam_quality = frac 1 0 2;
  void_fraction = frac 1 0 2;
  slip_velocity = whole 1;
  liquid_velocity = whole 1;
  vapor_velocity = whole 2;
  mixture_velocity = whole 1;
  liquid_density = whole 600;
  vapor_density = whole 12;
  mixture_density = whole 50;
  liquid_enthalpy = whole 1000;
  vapor_enthalpy = whole 2000;
  mass_flow_rate = whole 3;
  reynolds_number = whole 100;
  iterations = 20;
  converged = true;
  slave_address = 1;
  sensor_type = 1;
}

abbrev pub moment : Moment ℕ
moment = record {
  now = 5000;
  elapsed = pos 3;
  send_time = pos 9;
  network = λ i. record {
    dial = none;
    set_write_deadline = none;
    write = none;
    set_read_deadline = none;
    read = none;
    read_timed_out = false;
    remote_addr = "plc";
  };
  output_taken = true;
}

init-IsClosing_example :
    (app : GatewayApp ℕ Fraction) × (ci : ChokeInterceptor ℕ Fraction) × (out : ChokeInterceptor ℕ
        Fraction
      × ChokeFrame Fraction)
    × (p : OverridePacket Fraction) × (init a_config 7 ≡ some app)
    × (process_loop (app.choke_interceptor.1) ((moment, some surge) ∷ (moment, none) ∷ [])
        ≡ some ci)
    × (process_frame ci moment surge ≡ some out)
    × IsClosing a_config ci p out
init-IsClosing_example =
    init-IsClosing a_config 7 10 ((moment, some surge) ∷ (moment, none) ∷ []) moment surge refl refl
      refl

abbrev pub plain : Formats ℕ Fraction
plain = record {
  rfc3339 = λ t. "";
  decimals = λ x n. "";
  decimal = λ n. "";
  boolean = λ b. "";
  marshal = λ f. ok (f.slave_address ∷ []);
  bits = λ x. 0;
}

abbrev pub written_moment : Output.Moment ℕ
written_moment = record {
  now = 9;
  csv_write = none;
  file_write = λ bytes. record { count = length bytes; error = none };
  client_fails = λ i. false;
}

abbrev pub deliveries : List (Delivery ℕ Fraction)
deliveries =
    to_frame_out written_moment surge
    ∷ to_choke_interceptor moment surge
    ∷ to_frame_out written_moment surge
    ∷ []
