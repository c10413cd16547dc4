-- ===== src/Choke/Controller.antt =====
-- internal/choke/controller.go: the safety controller. `now` is the `time.Now()` of a call; the mutex
-- makes each call one step.
pub mod Derivatives
pub mod Threat
pub mod Window
use thermal_recovery_flow.Base.{
  ℕ, zero, suc, ◌+◌, ◌-◌, ◌*◌, ◌^◌, Bool, true, false, ◌&&◌, ◌||◌, List, [], ◌∷◌, ◌++◌,
  if◌then◌else◌, ltb, length, drop, inc64,
}
use thermal_recovery_flow.Base.Int.{ℤ, pos, ◌≤ℤ◌, leb_ℤ}
use thermal_recovery_flow.Base.Float.{Float, ◌+ᶠ◌, ◌-ᶠ◌, ◌*ᶠ◌, ◌/ᶠ◌, ◌<ᶠ◌, ◌≤ᶠ◌}
use thermal_recovery_flow.Choke.{
  ChokeValveConfig, ThreatLevel, threat_normal, threat_elevated, threat_critical, threat_imminent,
  SafetyAssessment,
}
use thermal_recovery_flow.Choke.Valve.{
  zero_f, one_f, r_gas, default_choke_valve_config, solve_choke_flow, compute_required_opening,
}
use Derivatives.{PressureSample, compute_derivatives}

pub record SafetyControllerConfig (F : Type 0) : Type 0 where
  pub safety_pressure_limit : F
  pub warning_pressure_ratio : F
  pub prediction_horizon : ℤ
  pub max_derivative : F
  pub surge_threshold : F
  pub lockdown_opening : F
  pub min_samples_for_deriv : ℕ
  pub valve_config : ChokeValveConfig F
  pub override_address : ℕ
  pub override_register : ℕ

pub record SafetyController (F : Type 0) : Type 0 where
  pub config : SafetyControllerConfig F
  pub samples : List (PressureSample F)
  pub last_assessment : SafetyAssessment F
  pub override_count : ℕ
  pub total_assess : ℕ

-- The five arguments of `Assess`, and the time of the call.
pub record Reading (F : Type 0) : Type 0 where
  pub now : ℕ
  pub pressure : F
  pub temperature : F
  pub vapor_flux : F
  pub downstream_p : F
  pub current_opening : F

abbrev pub max_samples : ℕ
max_samples = 64

-- `math.MaxInt64` nanoseconds.
abbrev pub never : ℤ
never = pos (2 ^ 63 - 1)

module _ {F : Type 0} ⦃o : Float F⦄ where
  open o use {lit, to_duration, seconds}

  abbrev pub default_safety_controller_config : SafetyControllerConfig F
  default_safety_controller_config = record {
    safety_pressure_limit = lit 35000000 0;
    warning_pressure_ratio = lit 85 2;
    prediction_horizon = pos 100_000_000;
    max_derivative = lit 100000000 0;
    surge_threshold = lit 50000000 0;
    lockdown_opening = lit 0 1;
    min_samples_for_deriv = 3;
    valve_config = default_choke_valve_config;
    override_address = 0x01;
    override_register = 0x0100;
  }

  -- The new sample at the end, and the last `maxSamples` of them kept.
  pub push_sample : List (PressureSample F) → PressureSample F → List (PressureSample F)
  push_sample samples sample =
      let all = samples ++ sample ∷ [] in
      if ltb max_samples (length all) then drop (length all - max_samples) all else all

  pub detect_nonlinear_surge : SafetyControllerConfig F → F → F → Bool
  detect_nonlinear_surge config dp d2p =
      if dp ≤ᶠ zero_f
      then false
      else if config.surge_threshold <ᶠ dp
      then true
      else if zero_f <ᶠ d2p && (config.surge_threshold *ᶠ lit 3 1) <ᶠ dp
      then lit 10 0 <ᶠ (d2p /ᶠ dp)
      else false

  pub predict_pressure : F → F → F → ℤ → F
  predict_pressure current dp d2p horizon =
      let t = seconds horizon in
      let predicted = current +ᶠ dp *ᶠ t +ᶠ lit 5 1 *ᶠ d2p *ᶠ t *ᶠ t in
      if predicted <ᶠ zero_f then zero_f else predicted

  -- `time.Duration(x * float64(time.Second))`.
  in_seconds : F → ℤ
  in_seconds x = to_duration (x *ᶠ lit 1000000000 0)

  time_to_breach : SafetyControllerConfig F → F → F → F → ℤ
  unfolding in_seconds
  time_to_breach config pressure predicted dp =
      let limit = config.safety_pressure_limit in
      let raw = (limit -ᶠ pressure) /ᶠ dp in
      if limit ≤ᶠ predicted
      then if zero_f <ᶠ dp
        then in_seconds (if raw <ᶠ zero_f then zero_f else raw)
        else in_seconds (seconds config.prediction_horizon)
      else if zero_f <ᶠ dp
      then in_seconds raw
      else never

  upstream_density : F → F → F
  upstream_density pressure temperature =
      if zero_f <ᶠ temperature
      then (let rho = pressure /ᶠ (r_gas *ᶠ temperature) in if rho <ᶠ zero_f then zero_f else rho)
      else lit 0 1

  -- The assessment as it stands before the `switch`.
  measured : SafetyControllerConfig F → Reading F → F → F → SafetyAssessment F
  unfolding time_to_breach upstream_density
  measured config r dp d2p =
      let limit = config.safety_pressure_limit in
      let predicted = predict_pressure r.pressure dp d2p config.prediction_horizon in
      record {
        threat_level = threat_normal;
        current_pressure = r.pressure;
        pressure_derivative = dp;
        second_derivative = d2p;
        predicted_pressure = predicted;
        time_to_breach = time_to_breach config r.pressure predicted dp;
        required_opening = r.current_opening;
        safety_margin = (limit -ᶠ r.pressure) /ᶠ limit;
        is_nonlinear_surge = detect_nonlinear_surge config dp d2p;
        requires_override = false;
        lockdown_required = false;
        choke_result =
            solve_choke_flow config.valve_config r.pressure r.temperature
              (upstream_density r.pressure r.temperature) r.downstream_p r.current_opening;
      }

  -- The opening that passes the given share of the vapour flux.
  opening_for_share : SafetyControllerConfig F → Reading F → F → F
  unfolding upstream_density
  opening_for_share config r share =
      compute_required_opening config.valve_config r.pressure r.temperature
        (upstream_density r.pressure r.temperature) r.downstream_p (r.vapor_flux *ᶠ share)

  -- The `switch`.
  pub classify : SafetyControllerConfig F → Reading F → SafetyAssessment F → SafetyAssessment F
  unfolding opening_for_share
  classify config r a =
      let limit = config.safety_pressure_limit in
      if limit ≤ᶠ r.pressure || (a.is_nonlinear_surge && limit ≤ᶠ a.predicted_pressure)
      then record a {
        threat_level = threat_imminent;
        lockdown_required = true;
        requires_override = true;
        required_opening = config.lockdown_opening;
      }
      else if a.is_nonlinear_surge && leb_ℤ a.time_to_breach config.prediction_horizon
      then record a {
        threat_level = threat_critical;
        requires_override = true;
        required_opening = opening_for_share config r (lit 3 1);
      }
      else if (limit *ᶠ config.warning_pressure_ratio) ≤ᶠ r.pressure
          || config.max_derivative <ᶠ a.pressure_derivative
      then record a {
        threat_level = threat_elevated;
        requires_override = false;
        required_opening = opening_for_share config r (lit 6 1);
      }
      else record a {
        threat_level = threat_normal;
        requires_override = false;
        required_opening = r.current_opening;
      }

  abbrev pub sample_of : Reading F → PressureSample F
  sample_of r = record {
    timestamp = r.now;
    pressure = r.pressure;
    temperature = r.temperature;
    vapor_flux = r.vapor_flux;
  }

  -- What `Assess` returns.
  assessment : SafetyController F → Reading F → SafetyAssessment F
  unfolding classify measured push_sample
  assessment c r =
      let samples = push_sample c.samples (sample_of r) in
      let (dp, d2p) = compute_derivatives c.config.min_samples_for_deriv samples in
      classify c.config r (measured c.config r dp d2p)

  -- `Assess`: the controller afterwards and the assessment.
  pub assess : SafetyController F → Reading F → SafetyController F × SafetyAssessment F
  unfolding assessment
  assess c r =
      let a = assessment c r in
      (
        record c {
          samples = push_sample c.samples (sample_of r);
          last_assessment = a;
          override_count = if a.requires_override then inc64 c.override_count else c.override_count;
          total_assess = inc64 c.total_assess;
        },
        a,
      )

  -- `GetStats`.
  pub get_stats : SafetyController F → ℕ × ℕ × ThreatLevel
  get_stats c = (c.total_assess, c.override_count, c.last_assessment.threat_level)

  -- `Reset` leaves the last assessment.
  pub reset : SafetyController F → SafetyController F
  reset c = record c { samples = []; override_count = 0; total_assess = 0 }
