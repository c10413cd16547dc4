-- ===== src/Choke/Valve.antt =====
-- internal/choke/valve.go, over any type of `float64`. `a > b` is `b <ᶠ a`, and `a >= b` is `b ≤ᶠ a`.
pub mod Bounds
use thermal_recovery_flow.Base.{ℕ, Bool, true, false, ◌||◌, if◌then◌else◌}
use thermal_recovery_flow.Base.Float.{Float, ◌+ᶠ◌, ◌-ᶠ◌, ◌*ᶠ◌, ◌/ᶠ◌, ◌<ᶠ◌, ◌≤ᶠ◌, not_finite}
use thermal_recovery_flow.Choke.{
  FlowState, flow_subsonic, flow_choked, flow_unknown, ChokeValveConfig, ChokeValveResult,
}

module _ {F : Type 0} ⦃o : Float F⦄ where
  open o use {lit, sqrt, pow}

  abbrev pub zero_f : F
  zero_f = lit 0 0

  abbrev pub one_f : F
  one_f = lit 1 0

  abbrev pub r_gas : F
  r_gas = lit 4615 1

  abbrev pub min_opening : F
  min_opening = lit 1 3

  abbrev pub max_opening : F
  max_opening = lit 1 0

  abbrev pub default_choke_valve_config : ChokeValveConfig F
  default_choke_valve_config = record {
    cd = lit 61 2;
    max_area = lit 7854 6;
    gamma = lit 13 1;
    safety_pressure = lit 35000000 0;
  }

  pub critical_pressure_ratio : F → F
  critical_pressure_ratio gamma = pow (lit 2 0 /ᶠ (gamma +ᶠ one_f)) (gamma /ᶠ (gamma -ᶠ one_f))

  pub sonic_velocity : F → F → F
  sonic_velocity t gamma = sqrt (gamma *ᶠ r_gas *ᶠ t)

  -- The two tests that hold an opening between `MinOpening` and `MaxOpening`, one after the other.
  raise_opening : F → F
  raise_opening opening = if opening <ᶠ min_opening then min_opening else opening

  clamp_opening : F → F
  unfolding raise_opening
  clamp_opening opening =
      let raised = raise_opening opening in if max_opening <ᶠ raised then max_opening else raised

  choked_mass_flux : F → F → F → F
  choked_mass_flux gamma p t =
      let exponent = (gamma +ᶠ one_f) /ᶠ (lit 2 0 *ᶠ (gamma -ᶠ one_f)) in
      p *ᶠ sqrt (gamma /ᶠ (r_gas *ᶠ t)) *ᶠ pow (lit 2 0 /ᶠ (gamma +ᶠ one_f)) exponent

  subsonic_velocity : F → F → F → F
  subsonic_velocity gamma t pr =
      let exponent = (gamma -ᶠ one_f) /ᶠ gamma in
      sqrt (lit 2 0 *ᶠ gamma /ᶠ (gamma -ᶠ one_f) *ᶠ r_gas *ᶠ t *ᶠ (one_f -ᶠ pow pr exponent))

  exit_density : F → F → F → F
  exit_density gamma rho pr =
      let rho_exit = rho *ᶠ pow pr (one_f /ᶠ gamma) in
      if rho_exit <ᶠ zero_f then zero_f else rho_exit

  -- The closing tests of `SolveChokeFlow`.
  drop_not_finite : F → F
  drop_not_finite x = if not_finite x then zero_f else x

  clamp_ratio : F → F
  clamp_ratio pr0 =
      let pr1 = if one_f <ᶠ pr0 then one_f else pr0 in if pr1 <ᶠ zero_f then zero_f else pr1

  -- The result as it stands before the first return.
  unknown_result : F → F → F → F → ChokeValveResult F
  unknown_result p t rho down = record {
    mass_flow = zero_f;
    velocity = zero_f;
    flow_state = flow_unknown;
    pressure_ratio = zero_f;
    critical_ratio = zero_f;
    valve_opening = zero_f;
    effective_area = zero_f;
    upstream_p = p;
    downstream_p = down;
    upstream_t = t;
    upstream_rho = rho;
    is_choked = false;
    sonic_velocity = zero_f;
    mach_number = zero_f;
  }

  -- The two branches that follow the pressure ratio, with the closing tests.
  flow_through : F → ChokeValveResult F → F → F → F → ChokeValveResult F
  unfolding choked_mass_flux subsonic_velocity exit_density drop_not_finite
  flow_through gamma r a pr area =
      if pr ≤ᶠ r.critical_ratio
      then record r {
        flow_state = flow_choked;
        is_choked = true;
        mass_flow = drop_not_finite (choked_mass_flux gamma r.upstream_p r.upstream_t *ᶠ area);
        velocity = drop_not_finite a;
        mach_number = one_f;
      }
      else let raw = subsonic_velocity gamma r.upstream_t pr in
        let velocity = if not_finite raw then zero_f else raw in
        record r {
          flow_state = flow_subsonic;
          is_choked = false;
          velocity = drop_not_finite velocity;
          mach_number = velocity /ᶠ a;
          mass_flow = drop_not_finite (exit_density gamma r.upstream_rho pr *ᶠ velocity *ᶠ area);
        }

  area_of : ChokeValveConfig F → F → F
  unfolding clamp_opening
  area_of config valve_opening = config.max_area *ᶠ clamp_opening valve_opening *ᶠ config.cd

  -- The result with what is filled in above the test for choked flow.
  known_result : ChokeValveConfig F → F → F → F → F → F → ChokeValveResult F
  unfolding unknown_result clamp_opening clamp_ratio critical_pressure_ratio area_of
  known_result config p t rho down valve_opening = record (unknown_result p t rho down) {
    valve_opening = clamp_opening valve_opening;
    effective_area = area_of config valve_opening;
    critical_ratio = critical_pressure_ratio config.gamma;
    sonic_velocity = sonic_velocity t config.gamma;
    pressure_ratio = clamp_ratio (down /ᶠ p);
  }

  -- `SolveChokeFlow(config, upstreamP, upstreamT, upstreamRho, downstreamP, valveOpening)`.
  pub solve_choke_flow : ChokeValveConfig F → F → F → F → F → F → ChokeValveResult F
  unfolding unknown_result known_result area_of clamp_ratio flow_through
  solve_choke_flow config p t rho down valve_opening =
      if p ≤ᶠ zero_f || t ≤ᶠ zero_f || rho ≤ᶠ zero_f
      then unknown_result p t rho down
      else flow_through config.gamma (known_result config p t rho down valve_opening)
          (sonic_velocity t config.gamma) (clamp_ratio (down /ᶠ p)) (area_of config valve_opening)

  -- The last part of `ComputeRequiredOpening`, from the mass flux on.
  opening_for : ChokeValveConfig F → F → F → F
  unfolding clamp_opening
  opening_for config target mass_flux =
      if mass_flux ≤ᶠ zero_f || not_finite mass_flux
      then max_opening
      else clamp_opening (target /ᶠ (mass_flux *ᶠ config.cd) /ᶠ config.max_area)

  -- `ComputeRequiredOpening(config, upstreamP, upstreamT, upstreamRho, downstreamP, targetMassFlow)`.
  pub compute_required_opening : ChokeValveConfig F → F → F → F → F → F → F
  unfolding opening_for choked_mass_flux subsonic_velocity exit_density critical_pressure_ratio
  compute_required_opening config p t rho down target =
      if target ≤ᶠ zero_f || p ≤ᶠ zero_f || t ≤ᶠ zero_f || rho ≤ᶠ zero_f
      then max_opening
      else let gamma = config.gamma in
        let ratio = down /ᶠ p in
        let pr = if one_f <ᶠ ratio then one_f else ratio in
        if pr ≤ᶠ critical_pressure_ratio gamma
        then opening_for config target (choked_mass_flux gamma p t)
        else let velocity = subsonic_velocity gamma t pr in
          if not_finite velocity
          then max_opening
          else opening_for config target (exit_density gamma rho pr *ᶠ velocity)
