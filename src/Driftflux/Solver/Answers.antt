-- ===== src/Driftflux/Solver/Answers.antt =====
-- When `Solve` answers, and with what.
use thermal_recovery_flow.Base.{
  ◌≤◌, ◌≡◌, refl, Bool, true, false, not, ◌||◌, if◌then◌else◌, Result, ok, err, Bool-cases, inl,
  inr, arith,
}
use thermal_recovery_flow.Base.Int.{pos_part}
use thermal_recovery_flow.Base.Float.{Float, IsFloat, ◌<ᶠ◌, ◌+ᶠ◌}
use thermal_recovery_flow.Protocol.{RawSensorData}
use thermal_recovery_flow.Thermo.{out_of_range, err_temp_out_of_range}
use thermal_recovery_flow.Thermo.Saturation.{
  saturated_liquid_density_inside, saturated_vapor_density_inside, saturated_liquid_enthalpy_inside,
  saturated_vapor_enthalpy_inside, saturated_liquid_density_outside,
}
use thermal_recovery_flow.Driftflux.{
  DriftFluxConfig, DriftFluxEquation, Solution, err_convergence, HydrodynamicsFrame, SolveError,
  solver_error, thermo_error, err_invalid_temp,
}
use thermal_recovery_flow.Driftflux.Solver.{
  zero_f, look_up, solved, equation_of, frame_of, solve, solve_drift_flux,
}
use thermal_recovery_flow.Driftflux.Solver.Bounds.{InUnit, IsSolution, solve_drift_flux-IsSolution}

module _ {F : Type 0} ⦃o : Float F⦄ where
  open o use {lit}

  abbrev pub not_operating : RawSensorData F → Bool
  not_operating sample = sample.dry_bulb_temp <ᶠ zero_f || lit 800 0 <ᶠ sample.dry_bulb_temp

  abbrev pub kelvin : RawSensorData F → F
  kelvin sample = sample.dry_bulb_temp +ᶠ lit 27315 2

  abbrev pub absolute_pressure : RawSensorData F → F
  absolute_pressure sample = sample.differential_pressure +ᶠ lit 101325 0

  -- What each answer says of the sample.
  pub IsAnswer :
      DriftFluxConfig F → RawSensorData F → Result SolveError (HydrodynamicsFrame F) → Type 0
  IsAnswer config sample (ok f) =
      (not_operating sample ≡ false)
      × (out_of_range (kelvin sample) ≡ false)
      × (f.converged ≡ true)
      × (f.iterations ≤ pos_part config.max_iterations)
      × InUnit f.steam_quality
      × InUnit f.void_fraction
      × (f.temperature ≡ kelvin sample)
      × (f.slave_address ≡ sample.slave_address)
      × (f.pressure ≡ absolute_pressure sample)
  IsAnswer config sample (err (solver_error kind detail)) =
      (kind ≡ err_invalid_temp) × (not_operating sample ≡ true)
  IsAnswer config sample (err (thermo_error e)) =
      (e.type ≡ err_temp_out_of_range)
      × (not_operating sample ≡ false)
      × (out_of_range (kelvin sample) ≡ true)

  look_up_outside :
      (t : F)
      → out_of_range t ≡ true
      → look_up t
        ≡ err (record { type = err_temp_out_of_range; detail = "temperature out of range" })
  unfolding look_up
  look_up_outside t h = rw (saturated_liquid_density_outside t h, look_up) refl

  look_up_inside :
      (t : F) → out_of_range t ≡ false → (found : F × F × F × F) × (look_up t ≡ ok found)
  unfolding look_up
  look_up_inside t h =
      let (rho_l, p) = saturated_liquid_density_inside t h in
      let (rho_v, q) = saturated_vapor_density_inside t h in
      let (h_l, r) = saturated_liquid_enthalpy_inside t h in
      let (h_v, s) = saturated_vapor_enthalpy_inside t h in
      ((rho_l, rho_v, h_l, h_v), rw (p, q, r, s, look_up) refl)

  module _ (laws : IsFloat o) where
    frame_of-IsAnswer :
        (config : DriftFluxConfig F) (sample : RawSensorData F) (eq : DriftFluxEquation F)
        (h_l h_v : F) (s : Solution F)
        → eq.temperature ≡ kelvin sample
        → eq.pressure ≡ absolute_pressure sample
        → not_operating sample ≡ false
        → out_of_range (kelvin sample) ≡ false
        → IsSolution (pos_part config.max_iterations) s
        → IsAnswer config sample (
            if not s.converged
            then err (solver_error err_convergence "failed to converge drift-flux equations")
            else ok (frame_of config sample eq h_l h_v s))
    unfolding IsAnswer frame_of
    frame_of-IsAnswer config sample eq h_l h_v s t pressure p q v =
        rw (v.converged) (p, q, refl, v.ended, v.quality, v.void, t, refl, pressure)

    solved-IsAnswer :
        (config : DriftFluxConfig F) (sample : RawSensorData F) (found : F × F × F × F)
        → not_operating sample ≡ false
        → out_of_range (kelvin sample) ≡ false
        → IsAnswer config sample (solved config sample (kelvin sample) found)
    unfolding solved equation_of
    solved-IsAnswer config sample found p q =
        let eq = equation_of sample (kelvin sample) found in
        frame_of-IsAnswer config sample eq (found.2) (found.3) (solve_drift_flux config eq) refl
          refl p q (solve_drift_flux-IsSolution laws config eq)

    -- Under the laws of `IsFloat`, `Solve` answers with a frame exactly for temperatures from 0 to
    -- 800 degrees that lie in the range of the saturation properties. Its frames have converged
    -- within the configured rounds, with the absolute pressure and temperature of the sample, a
    -- quality and a void fraction that are neither below 0 nor above 1; its errors say which range
    -- was left, and none says that the equations did not converge.
    pub solve-IsAnswer :
        (config : DriftFluxConfig F) (sample : RawSensorData F)
        → IsAnswer config sample (solve config sample)
    unfolding solve IsAnswer
    solve-IsAnswer config sample = elim (Bool-cases (not_operating sample)) [
      | inl outside ↦ rw outside (refl, outside)
      | inr operating ↦ elim (Bool-cases (out_of_range (kelvin sample))) [
        | inl above ↦ rw (operating, look_up_outside (kelvin sample) above) (refl, operating, above)
        | inr inside ↦
            let (found, p) = look_up_inside (kelvin sample) inside in
            rw (operating, p) (solved-IsAnswer config sample found operating inside)
      ]
    ]

    frame_among_answers :
        (config : DriftFluxConfig F) (sample : RawSensorData F)
        (r : Result SolveError (HydrodynamicsFrame F))
        → IsAnswer config sample r
        → not_operating sample ≡ false
        → out_of_range (kelvin sample) ≡ false
        → (f : HydrodynamicsFrame F) × (r ≡ ok f) × (f.pressure ≡ absolute_pressure sample)
    unfolding IsAnswer
    frame_among_answers config sample (ok f) (_, _, _, _, _, _, _, _, e) p q = (f, refl, e)
    frame_among_answers config sample (err (solver_error kind detail)) v p q = ground arith
    frame_among_answers config sample (err (thermo_error e)) v p q = ground arith

    -- In range `Solve` answers with a frame, of the absolute pressure of the sample.
    pub solve_inside :
        (config : DriftFluxConfig F) (sample : RawSensorData F)
        → not_operating sample ≡ false
        → out_of_range (kelvin sample) ≡ false
        → (f : HydrodynamicsFrame F) × (solve config sample ≡ ok f)
          × (f.pressure ≡ absolute_pressure sample)
    solve_inside config sample p q =
        frame_among_answers config sample (solve config sample) (solve-IsAnswer config sample) p q
