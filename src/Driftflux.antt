-- ===== src/Driftflux.antt =====
-- internal/driftflux: the types of the solver.
pub mod Solver
pub mod Loop
pub mod Tests
use Prim.Native.String.{String}
use thermal_recovery_flow.Base.{
  ℕ, zero, suc, ◌+◌, ◌||◌, ◌&&◌, not, Bool, true, false, if◌then◌else◌, Result, ok, err,
}
use thermal_recovery_flow.Base.Int.{ℤ, pos, pos_part}
use thermal_recovery_flow.Base.Float.{Float, ◌+ᶠ◌, ◌-ᶠ◌, ◌*ᶠ◌, ◌/ᶠ◌, ◌<ᶠ◌, ◌≤ᶠ◌, not_finite}
use thermal_recovery_flow.Protocol.{RawSensorData, SensorType}
use thermal_recovery_flow.Thermo.{
  ThermoError, saturated_liquid_density, saturated_vapor_density, saturated_liquid_enthalpy,
  saturated_vapor_enthalpy, viscosity,
}

pub data SolverErrorType : Type 0 where
  err_invalid_temp err_invalid_pressure err_invalid_mass_flux err_convergence : SolverErrorType
  err_property_calc err_quality_out_of_range err_void_fraction_out_of_range : SolverErrorType

-- The two kinds of error that `Solve` returns.
pub data SolveError : Type 0 where
  solver_error : SolverErrorType → String → SolveError
  thermo_error : ThermoError → SolveError

pub record DriftFluxConfig (F : Type 0) : Type 0 where
  pub max_iterations : ℤ
  pub tolerance : F
  pub flow_area : F
  pub gravity : F
  pub c0 : F
  pub vdj : F

pub record HydrodynamicsFrame (F : Type 0) : Type 0 where
  pub timestamp : ℕ
  pub high_speed_time : ℕ
  pub pressure : F
  pub temperature : F
  pub steam_quality : F
  pub void_fraction : F
  pub slip_velocity : F
  pub liquid_velocity : F
  pub vapor_velocity : F
  pub mixture_velocity : F
  pub liquid_density : F
  pub vapor_density : F
  pub mixture_density : F
  pub liquid_enthalpy : F
  pub vapor_enthalpy : F
  pub mass_flow_rate : F
  pub reynolds_number : F
  pub iterations : ℕ
  pub converged : Bool
  pub slave_address : ℕ
  pub sensor_type : SensorType

pub record DriftFluxEquation (F : Type 0) : Type 0 where
  pub pressure : F
  pub temperature : F
  pub mass_flux : F
  pub rho_l : F
  pub rho_v : F
  pub hfg : F

-- The four results of `solveDriftFlux`.
pub record Solution (F : Type 0) : Type 0 where
  pub x : F
  pub alpha : F
  pub iterations : ℕ
  pub converged : Bool

-- How the body of the loop ends: by a return with `x` and `alpha`, or at its end, with the test there.
pub data Body (F : Type 0) : Type 0 where
  returned : F → F → Body F
  reached : F → F → Bool → Body F
