-- ===== src/Choke/Interceptor/Setup.antt =====
-- internal/choke: what `NewOverrideSender`, `NewSafetyController` and `NewChokeInterceptor` make.
use thermal_recovery_flow.Base.{ℕ, ◌≡◌, refl, true, false, []}
use thermal_recovery_flow.Base.Int.{ℤ, pos}
use thermal_recovery_flow.Base.Float.{Float}
use thermal_recovery_flow.Choke.{SafetyAssessment, ChokeValveResult, threat_normal, flow_subsonic}
use thermal_recovery_flow.Choke.Controller.{
  SafetyControllerConfig, SafetyController, default_safety_controller_config,
}
use thermal_recovery_flow.Choke.Sender.{OverrideSender}
use thermal_recovery_flow.Choke.Interceptor.{ChokeInterceptorConfig, ChokeInterceptor}

abbrev pub override_retry_count : ℤ
override_retry_count = pos 3

module _ {E F : Type 0} where
  -- `NewOverrideSender`.
  pub new_override_sender : ℤ → OverrideSender E F
  new_override_sender retry_count = record {
    retry_count = retry_count;
    running = false;
    closed = false;
    override_chan = [];
    result_chan = [];
    sent_count = 0;
    fail_count = 0;
    wire = [];
  }

module _ {F : Type 0} ⦃o : Float F⦄ where
  open o use {lit}

  -- `DefaultChokeInterceptorConfig`, less the part of the sender.
  pub default_choke_interceptor_config : ChokeInterceptorConfig F
  default_choke_interceptor_config = record {
    controller_config = default_safety_controller_config;
    downstream_pressure = lit 1013250 1;
    initial_opening = lit 10 1;
    enabled = true;
  }

  abbrev no_flow : ChokeValveResult F
  no_flow = record {
    mass_flow = lit 0 0;
    velocity = lit 0 0;
    flow_state = flow_subsonic;
    pressure_ratio = lit 0 0;
    critical_ratio = lit 0 0;
    valve_opening = lit 0 0;
    effective_area = lit 0 0;
    upstream_p = lit 0 0;
    downstream_p = lit 0 0;
    upstream_t = lit 0 0;
    upstream_rho = lit 0 0;
    is_choked = false;
    sonic_velocity = lit 0 0;
    mach_number = lit 0 0;
  }

  -- The zero value of the assessment.
  abbrev no_assessment : SafetyAssessment F
  no_assessment = record {
    threat_level = threat_normal;
    current_pressure = lit 0 0;
    pressure_derivative = lit 0 0;
    second_derivative = lit 0 0;
    predicted_pressure = lit 0 0;
    time_to_breach = pos 0;
    required_opening = lit 0 0;
    safety_margin = lit 0 0;
    is_nonlinear_surge = false;
    requires_override = false;
    lockdown_required = false;
    choke_result = no_flow;
  }

  -- `NewSafetyController`.
  pub new_safety_controller : SafetyControllerConfig F → SafetyController F
  new_safety_controller config = record {
    config = config;
    samples = [];
    last_assessment = no_assessment;
    override_count = 0;
    total_assess = 0;
  }

  -- `NewChokeInterceptor`, with the sequence number so far.
  pub new_choke_interceptor : {E : Type 0} → ChokeInterceptorConfig F → ℤ → ℕ → ChokeInterceptor E F
  unfolding new_safety_controller new_override_sender
  new_choke_interceptor config retry_count seq = record {
    config = config;
    controller = new_safety_controller config.controller_config;
    sender = new_override_sender retry_count;
    output_chan = [];
    current_opening = config.initial_opening;
    override_count = 0;
    lockdown_count = 0;
    total_frames = 0;
    override_seq_num = seq;
  }

module _ (E : Type 0) {F : Type 0} ⦃o : Float F⦄ where
  pub new_choke_interceptor-config :
      (config : ChokeInterceptorConfig F) (retry_count : ℤ) (seq : ℕ)
      → let ci = new_choke_interceptor {E = E} config retry_count seq in
        (ci.config ≡ config) × (ci.controller.config ≡ config.controller_config)
  unfolding new_choke_interceptor new_safety_controller
  new_choke_interceptor-config config retry_count seq = (refl, refl)
