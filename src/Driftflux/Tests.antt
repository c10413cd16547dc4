-- ===== src/Driftflux/Tests.antt =====
-- The theorems at concrete samples.
use thermal_recovery_flow.Base.{
  ℕ, ◌+◌, ◌≤◌, ◌≡◌, refl, false, arith, Option, none, some, List, [], ◌∷◌,
}
use thermal_recovery_flow.Base.Float.{Fraction, frac, fraction_float, Fraction-IsFloat}
use thermal_recovery_flow.Protocol.{RawSensorData, sensor_vortex_flowmeter}
use thermal_recovery_flow.Driftflux.{DriftFluxEquation}
use thermal_recovery_flow.Driftflux.Solver.{default_config, solve, solve_drift_flux}
use thermal_recovery_flow.Driftflux.Solver.Bounds.{IsSolution, solve_drift_flux-IsSolution}
use thermal_recovery_flow.Driftflux.Solver.Answers.{IsAnswer, solve-IsAnswer}
use thermal_recovery_flow.Driftflux.Loop.Lifetime.{
  new_drift_flux_solver, start, stop, new_drift_flux_solver-IsCounted, stop-start-IsCounted,
}
use thermal_recovery_flow.Driftflux.Loop.{
  DriftFluxSolver, Choice, sends, drops, cancelled, IsCounted, samples_read,
}

abbrev sample : RawSensorData Fraction
sample = record {
  timestamp = 7;
  sensor_type = sensor_vortex_flowmeter;
  slave_address = 1;
  differential_pressure = frac 5000 0 1;
  dry_bulb_temp = frac 250 0 1;
  high_speed_time = 9;
  raw_bytes = [];
}

abbrev equation : DriftFluxEquation Fraction
equation = record {
  pressure = frac 106325 0 1;
  temperature = frac 52315 0 100;
  mass_flux = frac 1700 0 1;
  rho_l = frac 799 0 1;
  rho_v = frac 20 0 1;
  hfg = frac 1715000 0 1;
}

solve_drift_flux-IsSolution_example : IsSolution 500 (solve_drift_flux default_config equation)
solve_drift_flux-IsSolution_example =
    solve_drift_flux-IsSolution Fraction-IsFloat default_config equation

solve-IsAnswer_example : IsAnswer default_config sample (solve default_config sample)
solve-IsAnswer_example = solve-IsAnswer Fraction-IsFloat default_config sample

abbrev arriving : List (Choice × Option (RawSensorData Fraction))
arriving =
    (sends, some sample) ∷ (drops, none) ∷ (drops, some sample) ∷ (cancelled, some sample) ∷ []

stop-start-IsCounted_example :
    let fresh : DriftFluxSolver Fraction = new_drift_flux_solver default_config in
    let s' = stop (start fresh arriving) in
    (s'.running ≡ false)
    × (n : ℕ) × (n ≤ 1)
    × IsCounted s' n
    × (s'.stats.total_frames + s'.stats.failed_frames
        ≡ fresh.stats.total_frames + fresh.stats.failed_frames + samples_read arriving)
unfolding new_drift_flux_solver
stop-start-IsCounted_example =
    let fresh : DriftFluxSolver Fraction = new_drift_flux_solver default_config in
    stop-start-IsCounted arriving fresh (new_drift_flux_solver-IsCounted default_config) refl
      (omega arith)
