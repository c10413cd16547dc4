-- ===== src/Choke/Tests/Sending.antt =====
-- The theorems at concrete networks and frames.
use Prim.Native.String.{String}
use thermal_recovery_flow.Base.{
  ℕ, ◌+◌, ◌≤◌, ◌≡◌, ◌↔◌, ◌⊎◌, refl, Bool, true, false, ◌&&◌, if◌then◌else◌, leb, Option, none, some,
  List, [], ◌∷◌, ◌++◌, replicate, arith, inc64,
}
use thermal_recovery_flow.Base.Int.{pos}
use thermal_recovery_flow.Base.Float.{Fraction, frac, fraction_float}
use thermal_recovery_flow.Driftflux.{HydrodynamicsFrame}
use thermal_recovery_flow.Choke.Controller.{default_safety_controller_config}
use thermal_recovery_flow.Choke.Override.{OverridePacket, build_lockdown_override}
use thermal_recovery_flow.Choke.Sender.{
  Attempt, OverrideSender, max_override_queue_size, send_packet, send, start, stop,
}
use thermal_recovery_flow.Choke.Sender.Retry.{IsReportOf, send_packet-IsReportOf}
use thermal_recovery_flow.Choke.Sender.Wire.{reaches, reached, send_packet-wire}
use thermal_recovery_flow.Choke.Sender.Queue.{IsOpen, send-IsOpen, send_restarted}
use thermal_recovery_flow.Choke.Interceptor.{
  ChokeInterceptor, ChokeFrame, Moment, assessed, process_frame,
}
use thermal_recovery_flow.Choke.Interceptor.Overrides.{IsHandled, process_frame-IsHandled}
use thermal_recovery_flow.Choke.Interceptor.Lockdown.{IsLockdown, process_frame-IsLockdown}
use thermal_recovery_flow.Choke.Sender.Loop.{IsDrained, send_loop, send_loop-IsDrained}
use thermal_recovery_flow.Choke.Interceptor.Loop.{process_loop}
use thermal_recovery_flow.Choke.Interceptor.Loop.Counts.{process_loop-counts}
use thermal_recovery_flow.Choke.Tests.{whole, calm, controller}

abbrev network : ℕ → Attempt String
network i = record {
  dial = if leb i 0 then some "refused" else none;
  set_write_deadline = none;
  write = none;
  set_read_deadline = none;
  read = some "timeout";
  read_timed_out = true;
  remote_addr = "plc";
}

abbrev sender : OverrideSender String Fraction
sender = record {
  retry_count = pos 3;
  running = true;
  closed = false;
  override_chan = [];
  result_chan = [];
  sent_count = 0;
  fail_count = 0;
  wire = [];
}

abbrev packet : OverridePacket Fraction
packet = (build_lockdown_override 41 5000 (pos 3) 1 256 calm).1

send_packet-IsReportOf_example :
    let (s', r) = send_packet sender network (pos 9) packet in
    IsReportOf network 3 r
    × (s'.sent_count ≡ (if r.success then inc64 0 else 0))
    × (s'.fail_count ≡ (if r.success then 0 else inc64 0))
    × (s'.override_chan ≡ [])
send_packet-IsReportOf_example = send_packet-IsReportOf network 3 sender packet (pos 9) refl

send_packet-wire_example :
    let (s', r) = send_packet sender network (pos 9) packet in
    (s'.wire ≡ [] ++ replicate (reached network 0 (r.retries + 1)) packet.raw_bytes)
    × (r.success ≡ true → reaches (network r.retries) ≡ true)
send_packet-wire_example = send_packet-wire network 3 sender packet (pos 9) refl

sender-IsOpen : IsOpen sender
sender-IsOpen = record {
  open_channel = λ _. refl;
  queue_fits = omega arith;
  results_fit = omega arith;
}

send-IsOpen_example :
    (s' : OverrideSender String Fraction) × (accepted : Bool) × (send sender packet
      ≡ some (s', accepted))
    × IsOpen s'
    × ((accepted ≡ false) ↔ ((true ≡ false) ⊎ (0 ≡ max_override_queue_size)))
    × (s' ≡ (if accepted then record sender { override_chan = packet ∷ [] } else sender))
send-IsOpen_example = send-IsOpen sender packet sender-IsOpen

send_restarted_example : send (start (stop sender)) packet ≡ none
send_restarted_example = send_restarted sender packet refl

abbrev waiting : OverrideSender String Fraction
waiting = record sender { override_chan = packet ∷ packet ∷ [] }

send_loop-IsDrained_example :
    IsDrained waiting
      (send_loop waiting ((network, pos 2) ∷ (network, pos 3) ∷ []))
      (packet ∷ packet ∷ [])
send_loop-IsDrained_example =
    send_loop-IsDrained ((network, pos 2) ∷ (network, pos 3) ∷ []) waiting refl (omega arith)
      (omega arith) refl

abbrev interceptor : ChokeInterceptor String Fraction
interceptor = record {
  config = record {
    controller_config = default_safety_controller_config;
    downstream_pressure = whole 101325;
    initial_opening = whole 1;
    enabled = true;
  };
  controller = controller;
  sender = sender;
  output_chan = [];
  current_opening = whole 1;
  override_count = 0;
  lockdown_count = 0;
  total_frames = 0;
  override_seq_num = 41;
}

abbrev moment : Moment String
moment = record {
  now = 5000;
  elapsed = pos 3;
  send_time = pos 9;
  network = network;
  output_taken = true;
}

abbrev surge : HydrodynamicsFrame Fraction
surge = record {
  timestamp = 4000;
  high_speed_time = 9;
  pressure = whole 36000000;
  temperature = whole 600;
  steam_quality = frac 1 0 2;
  void_fraction = frac 1 0 2;
  slip_velocity = whole 1;
  liquid_velocity = whole 1;
  vapor_velocity = whole 2;
  mixture_velocity = whole 1;
  liquid_density = whole 600;
  vapor_density = whole 12;
  mixture_density = whole 50;
  liquid_enthalpy = whole 1000;
  vapor_enthalpy = whole 2000;
  mass_flow_rate = whole 3;
  reynolds_number = whole 100;
  iterations = 20;
  converged = true;
  slave_address = 1;
  sensor_type = 1;
}

process_frame-IsHandled_example :
    let a = (assessed interceptor moment surge).1 in
    (out : ChokeInterceptor String Fraction × ChokeFrame Fraction) × (process_frame interceptor
        moment surge
      ≡ some out)
    × IsHandled interceptor (a.requires_override && true) a out
process_frame-IsHandled_example = process_frame-IsHandled interceptor moment surge

process_frame-IsLockdown_example :
    (out : ChokeInterceptor String Fraction × ChokeFrame Fraction) × (p : OverridePacket Fraction)
    × (process_frame interceptor moment surge ≡ some out)
    × IsLockdown interceptor (assessed interceptor moment surge).1 p out
    × (out.0.current_opening ≡ controller.config.lockdown_opening)
process_frame-IsLockdown_example =
    process_frame-IsLockdown interceptor moment surge refl refl (omega arith) (omega arith)

abbrev arriving : List (Moment String × Option (HydrodynamicsFrame Fraction))
arriving = (moment, some surge) ∷ (moment, none) ∷ (moment, some surge) ∷ []

process_loop-counts_example :
    (ci : ChokeInterceptor String Fraction) × (process_loop interceptor arriving ≡ some ci)
    × (ci.total_frames ≡ 0 + 2)
    × (ci.override_count + ci.lockdown_count ≤ ci.total_frames)
process_loop-counts_example = process_loop-counts arriving interceptor (omega arith) (omega arith)
