-- ===== src/Driftflux/Solver.antt =====
-- internal/driftflux/solver.go: `Solve` and what it calls.
pub mod Bounds
pub mod Answers
use Prim.Native.String.{String}
use thermal_recovery_flow.Base.{
  ℕ, zero, suc, ◌+◌, ◌||◌, ◌&&◌, not, Bool, true, false, if◌then◌else◌, Result, ok, err,
}
use thermal_recovery_flow.Base.Int.{ℤ, pos, pos_part}
use thermal_recovery_flow.Base.Float.{Float, ◌+ᶠ◌, ◌-ᶠ◌, ◌*ᶠ◌, ◌/ᶠ◌, ◌<ᶠ◌, ◌≤ᶠ◌, not_finite}
use thermal_recovery_flow.Protocol.{RawSensorData, SensorType}
use thermal_recovery_flow.Thermo.{
  ThermoError, saturated_liquid_density, saturated_vapor_density, saturated_liquid_enthalpy,
  saturated_vapor_enthalpy, viscosity,
}
use thermal_recovery_flow.Driftflux.{
  SolveError, DriftFluxConfig, HydrodynamicsFrame, DriftFluxEquation, Solution, Body,
  err_invalid_temp, err_convergence, solver_error, thermo_error, returned, reached,
}

module _ {F : Type 0} ⦃o : Float F⦄ where
  open o use {lit, neg, abs, sqrt}

  abbrev zero_f : F
  zero_f = lit 0 0

  abbrev one_f : F
  one_f = lit 1 0

  abbrev half : F
  half = lit 5 1

  abbrev pub default_config : DriftFluxConfig F
  default_config = record {
    max_iterations = pos 500;
    tolerance = lit 1 6;
    flow_area = lit 7854 6;
    gravity = lit 981 2;
    c0 = lit 12 1;
    vdj = lit 35 2;
  }

  -- A new value: a half for NaN and infinities, and clamped to [0, 1].
  clamp_unit : F → F
  clamp_unit v =
      let finite = if not_finite v then half else v in
      let raised = if finite <ᶠ zero_f then zero_f else finite in
      if one_f <ᶠ raised then one_f else raised

  -- A relaxed value, pulled inside when it left [0, 1].
  pull_inside : F → F
  pull_inside v =
      let raised = if v <ᶠ zero_f then lit 1 3 else v in
      if one_f <ᶠ raised then lit 999 3 else raised

  relaxed : F → F → F
  unfolding pull_inside
  relaxed old new = let relax = lit 3 1 in pull_inside ((one_f -ᶠ relax) *ᶠ old +ᶠ relax *ᶠ new)

  loop_body : DriftFluxConfig F → DriftFluxEquation F → F → F → Body F
  unfolding clamp_unit relaxed
  loop_body config eq x alpha =
      let rho_l = eq.rho_l in
      let rho_v = eq.rho_v in
      let g = eq.mass_flux in
      let denom = config.c0 *ᶠ (x +ᶠ rho_v /ᶠ rho_l *ᶠ (one_f -ᶠ x)) +ᶠ rho_v *ᶠ config.vdj /ᶠ g in
      let alpha_new = clamp_unit (x /ᶠ denom) in
      let denom_x = alpha_new *ᶠ rho_v +ᶠ (one_f -ᶠ alpha_new) *ᶠ rho_l in
      let x_new = clamp_unit (alpha_new *ᶠ rho_v /ᶠ denom_x) in
      let dx = abs (x_new -ᶠ x) in
      let dalpha = abs (alpha_new -ᶠ alpha) in
      if abs denom <ᶠ lit 1 30
      then returned half half
      else if abs denom_x <ᶠ lit 1 30
      then returned half alpha_new
      else reached (relaxed x x_new) (relaxed alpha alpha_new)
          (dx <ᶠ config.tolerance && dalpha <ᶠ config.tolerance)

  -- The loop from the round `i` on, with the rounds that are left.
  solve_rounds : DriftFluxConfig F → DriftFluxEquation F → ℕ → ℕ → F → F → Solution F
  unfolding loop_body
  solve_rounds config eq zero i x alpha = record {
    x = half;
    alpha = half;
    iterations = i;
    converged = true;
  }
  solve_rounds config eq (suc left) i x alpha = elim (loop_body config eq x alpha) [
    | returned x' alpha' ↦ record { x = x'; alpha = alpha'; iterations = i; converged = true }
    | reached x' alpha' close ↦
        let rest = solve_rounds config eq left (i + 1) x' alpha' in
        if close then record { x = x'; alpha = alpha'; iterations = i; converged = true } else rest
  ]

  pub solve_drift_flux : DriftFluxConfig F → DriftFluxEquation F → Solution F
  unfolding solve_rounds
  solve_drift_flux config eq =
      if eq.rho_v ≤ᶠ zero_f || eq.rho_l ≤ᶠ zero_f || eq.mass_flux ≤ᶠ zero_f
      then record { x = half; alpha = half; iterations = 0; converged = true }
      else solve_rounds config eq (pos_part config.max_iterations) 0 (lit 1 1) (lit 1 1)

  calculate_slip_velocity : DriftFluxConfig F → F → F → F → F → F
  calculate_slip_velocity config x alpha rho_l rho_v =
      let s = (x /ᶠ alpha) *ᶠ ((one_f -ᶠ alpha) /ᶠ (one_f -ᶠ x)) *ᶠ (rho_l /ᶠ rho_v) in
      if alpha ≤ᶠ zero_f || one_f ≤ᶠ alpha
      then zero_f
      else if x ≤ᶠ zero_f || one_f ≤ᶠ x
      then zero_f
      else sqrt s *ᶠ config.vdj

  abbrev mixture_density : F → F → F → F
  mixture_density x rho_l rho_v = one_f /ᶠ (x /ᶠ rho_v +ᶠ (one_f -ᶠ x) /ᶠ rho_l)

  -- The velocities of the liquid, the vapour and the mixture.
  calculate_velocities : F → F → F → F → F → F × F × F
  calculate_velocities x alpha g rho_l rho_v =
      let vm = g /ᶠ mixture_density x rho_l rho_v in
      if zero_f <ᶠ alpha && alpha <ᶠ one_f
      then ((one_f -ᶠ x) *ᶠ g /ᶠ ((one_f -ᶠ alpha) *ᶠ rho_l), x *ᶠ g /ᶠ (alpha *ᶠ rho_v), vm)
      else (vm, vm, vm)

  estimate_mass_flux : F → F → F
  estimate_mass_flux delta_p rho_l =
      lit 61 2 *ᶠ sqrt (lit 2 0 *ᶠ rho_l *ᶠ (if delta_p <ᶠ zero_f then neg delta_p else delta_p))

  calculate_mixture_viscosity : F → F → F → F → F
  calculate_mixture_viscosity t rho_l rho_v alpha =
      alpha *ᶠ viscosity t rho_v +ᶠ (one_f -ᶠ alpha) *ᶠ viscosity t rho_l

  -- The frame for a solution.
  frame_of :
      DriftFluxConfig F
      → RawSensorData F
      → DriftFluxEquation F
      → F
      → F
      → Solution F
      → HydrodynamicsFrame F
  unfolding calculate_slip_velocity calculate_velocities calculate_mixture_viscosity
  frame_of config sample eq h_l h_v s =
      let rho_l = eq.rho_l in
      let rho_v = eq.rho_v in
      let g = eq.mass_flux in
      let (v_l, v_v, vm) = calculate_velocities s.x s.alpha g rho_l rho_v in
      record {
        timestamp = sample.timestamp;
        high_speed_time = sample.high_speed_time;
        pressure = eq.pressure;
        temperature = eq.temperature;
        steam_quality = s.x;
        void_fraction = s.alpha;
        slip_velocity = calculate_slip_velocity config s.x s.alpha rho_l rho_v;
        liquid_velocity = v_l;
        vapor_velocity = v_v;
        mixture_velocity = vm;
        liquid_density = rho_l;
        vapor_density = rho_v;
        mixture_density = mixture_density s.x rho_l rho_v;
        liquid_enthalpy = h_l;
        vapor_enthalpy = h_v;
        mass_flow_rate = g *ᶠ config.flow_area;
        reynolds_number =
            g *ᶠ lit 1 1 /ᶠ calculate_mixture_viscosity eq.temperature rho_l rho_v s.alpha;
        iterations = s.iterations;
        converged = s.converged;
        slave_address = sample.slave_address;
        sensor_type = sample.sensor_type;
      }

  abbrev lift : Result ThermoError F → Result SolveError F
  lift (ok v) = ok v
  lift (err e) = err (thermo_error e)

  -- The properties of steam that `Solve` looks up, in its order: the densities and the enthalpies of
  -- liquid and vapour.
  look_up : F → Result ThermoError (F × F × F × F)
  look_up t = elim (saturated_liquid_density t) [
    | err e ↦ err e
    | ok rho_l ↦ elim (saturated_vapor_density t) [
      | err e ↦ err e
      | ok rho_v ↦ elim (saturated_liquid_enthalpy t) [
        | err e ↦ err e
        | ok h_l ↦ elim (saturated_vapor_enthalpy t) [
          | err e ↦ err e
          | ok h_v ↦ ok (rho_l, rho_v, h_l, h_v)
        ]
      ]
    ]
  ]

  equation_of : RawSensorData F → F → F × F × F × F → DriftFluxEquation F
  unfolding estimate_mass_flux
  equation_of sample t (rho_l, rho_v, h_l, h_v) = record {
    pressure = sample.differential_pressure +ᶠ lit 101325 0;
    temperature = t;
    mass_flux = estimate_mass_flux sample.differential_pressure rho_l;
    rho_l = rho_l;
    rho_v = rho_v;
    hfg = h_v -ᶠ h_l;
  }

  -- `Solve` from the equation on.
  solved :
      DriftFluxConfig F
      → RawSensorData F
      → F
      → F × F × F × F
      → Result SolveError (HydrodynamicsFrame F)
  unfolding solve_drift_flux frame_of equation_of
  solved config sample t (rho_l, rho_v, h_l, h_v) =
      let eq = equation_of sample t (rho_l, rho_v, h_l, h_v) in
      let s = solve_drift_flux config eq in
      if not s.converged
      then err (solver_error err_convergence "failed to converge drift-flux equations")
      else ok (frame_of config sample eq h_l h_v s)

  pub solve : DriftFluxConfig F → RawSensorData F → Result SolveError (HydrodynamicsFrame F)
  unfolding look_up solved
  solve config sample =
      let t_celsius = sample.dry_bulb_temp in
      let t = t_celsius +ᶠ lit 27315 2 in
      if t_celsius <ᶠ zero_f || lit 800 0 <ᶠ t_celsius
      then err (solver_error err_invalid_temp "temperature out of operating range")
      else elim (look_up t) [
        | err e ↦ err (thermo_error e)
        | ok found ↦ solved config sample t found
      ]
