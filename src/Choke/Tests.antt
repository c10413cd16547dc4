-- ===== src/Choke/Tests.antt =====
-- The theorems at concrete readings and packets.
pub mod Sending
use Prim.Native.String.{String}
use thermal_recovery_flow.Base.{
  ℕ, ◌+◌, ◌%◌, ◌^◌, ◌*◌, ◌≤◌, ◌≡◌, ◌↔◌, ◌⊎◌, ◌≢◌, refl, Bool, true, false, ◌||◌, ◌&&◌,
  if◌then◌else◌, leb, none, some, List, [], ◌∷◌, ◌++◌, map, arith, length, get_or, last_n, inc64,
}
use thermal_recovery_flow.Base.Int.{pos}
use thermal_recovery_flow.Base.Float.{Fraction, frac, fraction_float, Fraction-IsFloat, ◌≤ᶠ◌}
use thermal_recovery_flow.Driftflux.{HydrodynamicsFrame}
use thermal_recovery_flow.Choke.{SafetyAssessment, threat_normal, threat_imminent, threat_critical}
use thermal_recovery_flow.Choke.Valve.{
  zero_f, default_choke_valve_config, solve_choke_flow, compute_required_opening,
}
use thermal_recovery_flow.Choke.Valve.Bounds.{
  InLimits, IsConsistent, compute_required_opening-InLimits, solve_choke_flow-IsConsistent,
}
use thermal_recovery_flow.Choke.Controller.{
  SafetyController, Reading, default_safety_controller_config, max_samples, sample_of, assess,
}
use thermal_recovery_flow.Choke.Controller.Threat.{
  IsCoherent, assess-IsCoherent, assess_few, assess-limit,
}
use thermal_recovery_flow.Choke.Controller.Window.{
  length-push_sample, assess_all, assess_all-last_n, assess_all-counts,
}
use thermal_recovery_flow.Choke.Override.{
  OverridePacket, build_emergency_override, build_lockdown_override, build_multi_register_override,
  override_priority_emergency, override_priority_high,
}
use thermal_recovery_flow.Choke.Override.Packets.{
  IsWriteOf, build_emergency_override-IsWriteOf, build_lockdown_override-IsWriteOf,
}
use thermal_recovery_flow.Choke.Override.Multiple.{
  IsMultiWriteOf, build_multi_register_override-IsMultiWriteOf,
}
use thermal_recovery_flow.Choke.Sender.{
  Attempt, OverrideSender, max_override_queue_size, send_packet, send, start, stop,
}
use thermal_recovery_flow.Choke.Sender.Retry.{IsReportOf, send_packet-IsReportOf}
use thermal_recovery_flow.Choke.Sender.Queue.{IsOpen, send-IsOpen, send_restarted}
use thermal_recovery_flow.Choke.Interceptor.{
  ChokeInterceptor, ChokeFrame, Moment, assessed, process_frame,
}
use thermal_recovery_flow.Choke.Interceptor.Overrides.{IsHandled, process_frame-IsHandled}
use thermal_recovery_flow.Choke.Interceptor.Lockdown.{
  IsLockdown, process_frame-IsLockdown, process_frame-counts,
}

abbrev pub whole : ℕ → Fraction
whole n = frac n 0 1

compute_required_opening-InLimits_example : InLimits (
    compute_required_opening default_choke_valve_config
      (whole 5000000)
      (whole 523)
      (whole 21)
      (whole 101325)
      (whole 12))
compute_required_opening-InLimits_example =
    compute_required_opening-InLimits Fraction-IsFloat default_choke_valve_config (whole 5000000)
      (whole 523) (whole 21) (whole 101325) (whole 12)

solve_choke_flow-IsConsistent_example :
    IsConsistent (whole 5000000 ≤ᶠ zero_f || whole 523 ≤ᶠ zero_f || whole 21 ≤ᶠ zero_f) (
      solve_choke_flow default_choke_valve_config
        (whole 5000000)
        (whole 523)
        (whole 21)
        (whole 101325)
        (whole 2))
solve_choke_flow-IsConsistent_example =
    solve_choke_flow-IsConsistent Fraction-IsFloat default_choke_valve_config (whole 5000000)
      (whole 523) (whole 21) (whole 101325) (whole 2)

-- The assessment of a calm moment, as a new controller has it.
abbrev pub calm : SafetyAssessment Fraction
calm = record {
  threat_level = threat_normal;
  current_pressure = whole 0;
  pressure_derivative = whole 0;
  second_derivative = whole 0;
  predicted_pressure = whole 0;
  time_to_breach = pos 0;
  required_opening = whole 0;
  safety_margin = whole 0;
  is_nonlinear_surge = false;
  requires_override = false;
  lockdown_required = false;
  choke_result =
      solve_choke_flow default_choke_valve_config (whole 0) (whole 0) (whole 0) (whole 0) (whole 0);
}

abbrev pub controller : SafetyController Fraction
controller = record {
  config = default_safety_controller_config;
  samples = [];
  last_assessment = calm;
  override_count = 0;
  total_assess = 0;
}

-- A reading above the safety limit of 35 MPa.
abbrev high : Reading Fraction
high = record {
  now = 5000;
  pressure = whole 36000000;
  temperature = whole 600;
  vapor_flux = whole 12;
  downstream_p = whole 101325;
  current_opening = whole 1;
}

assess-IsCoherent_example : IsCoherent controller.config high (assess controller high).1
assess-IsCoherent_example = assess-IsCoherent Fraction-IsFloat controller high

assess_all-last_n_example :
    (assess_all controller (high ∷ high ∷ [])).samples
    ≡ last_n max_samples ([] ++ map sample_of (high ∷ high ∷ []))
assess_all-last_n_example = assess_all-last_n (high ∷ high ∷ []) controller [] refl

abbrev two_values : List ℕ
two_values = 500 ∷ 600 ∷ []

build_multi_register_override-IsMultiWriteOf_example :
    (packet : OverridePacket Fraction) × (build_multi_register_override 41 5000
        (pos 3)
        1
        256
        two_values
        calm
      ≡ ((41 + 1) % 2 ^ 32, some packet))
    × IsMultiWriteOf 1 256 two_values packet.raw_bytes
    × ((get_or packet.raw_bytes 6 0 ≡ 2 * length two_values) ↔ (length two_values ≤ 127))
build_multi_register_override-IsMultiWriteOf_example =
    build_multi_register_override-IsMultiWriteOf 41 5000 (pos 3) 1 256 calm 500 (600 ∷ [])
      (omega arith) (omega arith) (omega arith) (omega arith)

-- A network whose first attempt to dial fails.
