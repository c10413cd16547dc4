-- ===== src/Choke.antt =====
-- internal/choke: the types that its files share, from valve.go and controller.go.
pub mod Valve
pub mod Controller
pub mod Override
pub mod Sender
pub mod Interceptor
pub mod Tests
use thermal_recovery_flow.Base.{ℕ, Bool}
use thermal_recovery_flow.Base.Int.{ℤ}

pub data FlowState : Type 0 where
  flow_subsonic flow_choked flow_unknown : FlowState

pub record ChokeValveConfig (F : Type 0) : Type 0 where
  pub cd : F
  pub max_area : F
  pub gamma : F
  pub safety_pressure : F

pub record ChokeValveResult (F : Type 0) : Type 0 where
  pub mass_flow : F
  pub velocity : F
  pub flow_state : FlowState
  pub pressure_ratio : F
  pub critical_ratio : F
  pub valve_opening : F
  pub effective_area : F
  pub upstream_p : F
  pub downstream_p : F
  pub upstream_t : F
  pub upstream_rho : F
  pub is_choked : Bool
  pub sonic_velocity : F
  pub mach_number : F

pub data ThreatLevel : Type 0 where
  threat_normal threat_elevated threat_critical threat_imminent : ThreatLevel

-- The `iota` of a level, by which levels are compared.
abbrev pub severity : ThreatLevel → ℕ
severity threat_normal = 0
severity threat_elevated = 1
severity threat_critical = 2
severity threat_imminent = 3

-- A `time.Duration` is its number of nanoseconds.
pub record SafetyAssessment (F : Type 0) : Type 0 where
  pub threat_level : ThreatLevel
  pub current_pressure : F
  pub pressure_derivative : F
  pub second_derivative : F
  pub predicted_pressure : F
  pub time_to_breach : ℤ
  pub required_opening : F
  pub safety_margin : F
  pub is_nonlinear_surge : Bool
  pub requires_override : Bool
  pub lockdown_required : Bool
  pub choke_result : ChokeValveResult F
