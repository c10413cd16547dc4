-- ===== src/Choke/Interceptor.antt =====
-- internal/choke/interceptor.go: what one frame of the solver sets off. The package variable
-- `overrideSeqNum` is a field here; logging is left out.
pub mod Handled
pub mod Overrides
pub mod Lockdown
pub mod Loop
pub mod Setup
use thermal_recovery_flow.Base.{
  ℕ, Bool, true, false, ◌&&◌, Option, none, some, List, [], ◌∷◌, ◌++◌, if◌then◌else◌, leb, inc64,
}
use thermal_recovery_flow.Base.Int.{ℤ}
use thermal_recovery_flow.Base.Float.{Float, ◌*ᶠ◌, ◌<ᶠ◌}
use thermal_recovery_flow.Driftflux.{HydrodynamicsFrame}
use thermal_recovery_flow.Choke.{ThreatLevel, severity, SafetyAssessment, ChokeValveResult}
use thermal_recovery_flow.Choke.Valve.{zero_f, one_f, solve_choke_flow}
use thermal_recovery_flow.Choke.Controller.{SafetyControllerConfig, SafetyController, assess}
use thermal_recovery_flow.Choke.Override.{
  OverridePacket, build_emergency_override, build_lockdown_override,
}
use thermal_recovery_flow.Choke.Sender.{Attempt, OverrideSender, emergency_send, send}

-- The sender's part of the configuration is in the sender.
pub record ChokeInterceptorConfig (F : Type 0) : Type 0 where
  pub controller_config : SafetyControllerConfig F
  pub downstream_pressure : F
  pub initial_opening : F
  pub enabled : Bool

pub record ChokeFrame (F : Type 0) : Type 0 where
  pub timestamp : ℕ
  pub safety_assessment : SafetyAssessment F
  pub choke_result : ChokeValveResult F
  pub current_opening : F
  pub override_sent : Bool
  pub override_packet : Option (OverridePacket F)
  pub threat_level : ThreatLevel
  pub pressure_derivative : F
  pub predicted_pressure : F
  pub time_to_breach : ℤ

pub record ChokeInterceptor (E F : Type 0) : Type 0 where
  pub config : ChokeInterceptorConfig F
  pub controller : SafetyController F
  pub sender : OverrideSender E F
  pub output_chan : List (ChokeFrame F)
  pub current_opening : F
  pub override_count : ℕ
  pub lockdown_count : ℕ
  pub total_frames : ℕ
  pub override_seq_num : ℕ

-- What the world answers while one frame is handled: the clock, the network, and whether the last
-- `select` hands the frame on.
pub record Moment (E : Type 0) : Type 0 where
  pub now : ℕ
  pub elapsed : ℤ
  pub send_time : ℤ
  pub network : ℕ → Attempt E
  pub output_taken : Bool

abbrev vapor_flux : {F : Type 0} → ⦃o : Float F⦄ → HydrodynamicsFrame F → F
vapor_flux h = h.vapor_velocity *ᶠ h.vapor_density *ᶠ h.void_fraction

module _ {E F : Type 0} ⦃o : Float F⦄ where
  -- The packet for an assessment that requires an override, and its counter.
  pub build_override :
      ChokeInterceptor E F → Moment E → SafetyAssessment F → ChokeInterceptor E F × OverridePacket F
  build_override ci m a =
      let config = ci.config.controller_config in
      if a.lockdown_required
      then (let (seq, packet) =
            build_lockdown_override ci.override_seq_num m.now m.elapsed config.override_address
              config.override_register a in
          (record ci { override_seq_num = seq; lockdown_count = inc64 ci.lockdown_count }, packet))
      else (let (seq, packet) =
            build_emergency_override ci.override_seq_num m.now m.elapsed config.override_address
              config.override_register a.required_opening a in
          (record ci { override_seq_num = seq; override_count = inc64 ci.override_count }, packet))

  -- The sending of the packet, and what becomes of `OverrideSent`; `none` is a panic of `Send`.
  send_override :
      ChokeInterceptor E F
      → Moment E
      → ThreatLevel
      → OverridePacket F
      → Option (ChokeInterceptor E F × Bool)
  send_override ci m level packet =
      if leb 2 (severity level)
      then (let (sender', result) = emergency_send ci.sender m.network m.send_time packet in
          some (record ci { sender = sender' }, result.success))
      else elim (send ci.sender packet) [
        | none ↦ none
        | some out ↦ some (record ci { sender = out.0 }, true)
      ]

  -- The body of the `if` on `RequiresOverride`.
  override_valve :
      ChokeInterceptor E F
      → Moment E
      → SafetyAssessment F
      → ChokeFrame F
      → Option (ChokeInterceptor E F × ChokeFrame F)
  unfolding build_override send_override
  override_valve ci m a frame =
      let (ci', packet) = build_override ci m a in
      elim (send_override ci' m a.threat_level packet) [
        | none ↦ none
        | some out ↦ some (
          record (out.0) { current_opening = a.required_opening },
          record frame { override_sent = out.1; override_packet = some packet },
        )
      ]

  -- The choke frame before an override.
  pub choke_frame : ChokeInterceptor E F → HydrodynamicsFrame F → SafetyAssessment F → ChokeFrame F
  choke_frame ci h a = record {
    timestamp = h.timestamp;
    safety_assessment = a;
    choke_result =
        solve_choke_flow ci.config.controller_config.valve_config h.pressure h.temperature
          a.choke_result.upstream_rho ci.config.downstream_pressure ci.current_opening;
    current_opening = ci.current_opening;
    override_sent = false;
    override_packet = none;
    threat_level = a.threat_level;
    pressure_derivative = a.pressure_derivative;
    predicted_pressure = a.predicted_pressure;
    time_to_breach = a.time_to_breach;
  }

  pub emit : Bool → ChokeInterceptor E F × ChokeFrame F → ChokeInterceptor E F × ChokeFrame F
  emit taken (ci, frame) =
      ((if taken then record ci { output_chan = ci.output_chan ++ frame ∷ [] } else ci), frame)

  -- The call of `Assess`, with the frame counted.
  pub assessed :
      ChokeInterceptor E F
      → Moment E
      → HydrodynamicsFrame F
      → ChokeInterceptor E F × SafetyAssessment F
  assessed ci m h =
      let (controller', a) = assess ci.controller (record {
        now = m.now;
        pressure = h.pressure;
        temperature = h.temperature;
        vapor_flux = vapor_flux h;
        downstream_p = ci.config.downstream_pressure;
        current_opening = ci.current_opening;
      }) in
      (record ci { controller = controller'; total_frames = inc64 ci.total_frames }, a)

  answer :
      ChokeInterceptor E F
      → Moment E
      → SafetyAssessment F
      → ChokeFrame F
      → Option (ChokeInterceptor E F × ChokeFrame F)
  unfolding override_valve
  answer ci m a frame =
      if a.requires_override && ci.config.enabled
      then override_valve ci m a frame
      else some (ci, frame)

  -- `processFrame`: the interceptor afterwards and the frame that is handed on; `none` is a panic.
  pub process_frame :
      ChokeInterceptor E F
      → Moment E
      → HydrodynamicsFrame F
      → Option (ChokeInterceptor E F × ChokeFrame F)
  unfolding answer choke_frame emit assessed
  process_frame ci m h =
      let (ci', a) = assessed ci m h in
      elim (answer ci' m a (choke_frame ci h a)) [
        | none ↦ none
        | some out ↦ some (emit m.output_taken out)
      ]

  -- `SetCurrentOpening` and `SetDownstreamPressure`.
  pub set_current_opening : ChokeInterceptor E F → F → ChokeInterceptor E F
  set_current_opening ci opening =
      let raised = if opening <ᶠ zero_f then zero_f else opening in
      record ci { current_opening = if one_f <ᶠ raised then one_f else raised }

  pub set_downstream_pressure : ChokeInterceptor E F → F → ChokeInterceptor E F
  set_downstream_pressure ci p =
      let config' : ChokeInterceptorConfig F = record (ci.config) { downstream_pressure = p } in
      record ci { config = config' }

  -- `GetStats`.
  unfoldable pub get_stats : ChokeInterceptor E F → ℕ × ℕ × ℕ
  get_stats ci = (ci.total_frames, ci.override_count, ci.lockdown_count)
