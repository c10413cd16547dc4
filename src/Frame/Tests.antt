-- ===== src/Frame/Tests.antt =====
-- The theorems at a concrete frame and output.
use thermal_recovery_flow.Base.{
  ℕ, ◌+◌, ◌^◌, ◌<◌, ◌≡◌, refl, true, false, Option, none, some, List, [], ◌∷◌, arith, length, ok,
  u64,
}
use thermal_recovery_flow.Base.Int.{pos}
use thermal_recovery_flow.Base.Float.{Fraction, frac, nan, fraction_float}
use thermal_recovery_flow.Driftflux.{HydrodynamicsFrame}
use thermal_recovery_flow.Frame.{format_binary, Formats, serialize_binary}
use thermal_recovery_flow.Frame.Binary.{read_binary, read_binary-serialize_binary}
use thermal_recovery_flow.Frame.Clients.{
  untouched, TcpClient, Registry, Action, accept_checks, accept_adds, marks, deletes, closes,
  writes, act_all,
}
use thermal_recovery_flow.Frame.Clients.Interleaved.{IsRegistry, act_all-IsRegistry}
use thermal_recovery_flow.Frame.Output.{FrameOutput, Moment, process_loop}
use thermal_recovery_flow.Frame.Output.Delivery.{IsReliable, IsDelivered}
use thermal_recovery_flow.Frame.Output.Delivery.Loop.{
  all_bytes, all_rows, pieces, process_loop-IsDelivered,
}

abbrev plain : Formats ℕ Fraction
plain = record {
  rfc3339 = λ t. "";
  decimals = λ x n. "";
  decimal = λ n. "";
  boolean = λ b. "";
  marshal = λ f. ok (f.slave_address ∷ []);
  bits = λ x. elim x [ nan ↦ 0 | frac p n d ↦ u64 p ];
}

plain-bits_fit : (x : Fraction) → plain.bits x < 2 ^ 64
plain-bits_fit nan = omega arith
plain-bits_fit (frac p n d) = omega arith

abbrev third : Fraction
third = frac 1 0 3

abbrev a_frame : HydrodynamicsFrame Fraction
a_frame = record {
  timestamp = 1700000000;
  high_speed_time = 2 ^ 48 + 5;
  pressure = third;
  temperature = third;
  steam_quality = third;
  void_fraction = third;
  slip_velocity = third;
  liquid_velocity = third;
  vapor_velocity = third;
  mixture_velocity = third;
  liquid_density = third;
  vapor_density = third;
  mixture_density = third;
  liquid_enthalpy = third;
  vapor_enthalpy = third;
  mass_flow_rate = third;
  reynolds_number = third;
  iterations = 300;
  converged = true;
  slave_address = 17;
  sensor_type = 2;
}

read_binary-serialize_binary_example : read_binary (serialize_binary plain a_frame) ≡ record {
  slave_address = 17;
  sensor_type = 2;
  pressure = plain.bits a_frame.pressure;
  temperature = plain.bits a_frame.temperature;
  steam_quality = plain.bits a_frame.steam_quality;
  void_fraction = plain.bits a_frame.void_fraction;
  slip_velocity = plain.bits a_frame.slip_velocity;
  liquid_velocity = plain.bits a_frame.liquid_velocity;
  vapor_velocity = plain.bits a_frame.vapor_velocity;
  mixture_velocity = plain.bits a_frame.mixture_velocity;
  liquid_density = plain.bits a_frame.liquid_density;
  vapor_density = plain.bits a_frame.vapor_density;
  mixture_density = plain.bits a_frame.mixture_density;
  liquid_enthalpy = plain.bits a_frame.liquid_enthalpy;
  vapor_enthalpy = plain.bits a_frame.vapor_enthalpy;
  mass_flow_rate = plain.bits a_frame.mass_flow_rate;
  reynolds_number = plain.bits a_frame.reynolds_number;
  timestamp = 1700000000;
  high_speed_time = 5;
  iterations = 44;
  converged = true;
}
read_binary-serialize_binary_example =
    read_binary-serialize_binary plain a_frame (omega arith) (omega arith) (omega arith)
      plain-bits_fit

abbrev a_client : TcpClient
a_client = record {
  remote_addr = "10.0.0.7:4001";
  last_active = 0;
  registered = true;
  closed = false;
  stage = untouched;
  close_calls = 0;
  received = [];
}

abbrev lonely : Registry
lonely = record {
  max_clients = pos 2;
  tcp_clients = a_client ∷ [];
  accepting = none;
  rejected = 0;
  broadcast_dropped = 0;
  client_accept_errors = 0;
}

lonely-IsRegistry : IsRegistry lonely
lonely-IsRegistry = record {
  tracked = (record { registered = refl; closed = refl; close_calls = refl }, tt);
  fits = omega arith;
}

abbrev mixed_actions : List Action
mixed_actions =
    accept_checks "10.0.0.8:4001" 3
    ∷ marks 0
    ∷ accept_adds
    ∷ marks 0
    ∷ deletes 0
    ∷ writes 1 (1 ∷ []) true 4
    ∷ accept_checks "10.0.0.9:4001" 5
    ∷ closes 0
    ∷ accept_adds
    ∷ accept_checks "10.0.0.9:4002" 6
    ∷ []

act_all-IsRegistry_example : IsRegistry (act_all lonely mixed_actions)
act_all-IsRegistry_example = act_all-IsRegistry mixed_actions lonely lonely-IsRegistry

abbrev a_moment : Moment ℕ
a_moment = record {
  now = 9;
  csv_write = none;
  file_write = λ bytes. record { count = length bytes; error = none };
  client_fails = λ i. false;
}

abbrev an_output : FrameOutput
an_output = record {
  config = record {
    enabled = true;
    format = format_binary;
    output_file = "frames.bin";
    tcp_server = true;
    tcp_listen_addr = ":9300";
    flush_interval = pos 0;
    max_clients = pos 2;
    idle_timeout = pos 300;
  };
  running = true;
  stopped = false;
  file_writer = true;
  csv_writer = false;
  file_closed = false;
  tcp_listener = true;
  file_data = [];
  csv_rows = [];
  registry = lonely;
  frames_written = 0;
  bytes_written = 0;
}

abbrev some_inputs : List (Moment ℕ × Option (HydrodynamicsFrame Fraction))
some_inputs = (a_moment, some a_frame) ∷ (a_moment, none) ∷ (a_moment, some a_frame) ∷ []

process_loop-IsDelivered_example :
    IsDelivered format_binary an_output
      (process_loop plain an_output some_inputs)
      (pieces plain format_binary some_inputs)
      (all_bytes plain format_binary some_inputs)
      (all_rows plain format_binary some_inputs)
unfolding serialize_binary
process_loop-IsDelivered_example =
    let r : IsReliable a_moment = record {
      csv = refl;
      file = λ bytes. refl;
      clients = λ i. refl;
    } in
    process_loop-IsDelivered plain format_binary some_inputs an_output (r, (r, (r, tt)))
      (record { is_format = refl; file = refl; file_open = refl; csv = refl }) (omega arith)
      (omega arith)
