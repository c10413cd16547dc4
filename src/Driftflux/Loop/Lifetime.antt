-- ===== src/Driftflux/Loop/Lifetime.antt =====
-- internal/driftflux/solver.go: `NewDriftFluxSolver`, `Start` and `Stop`.
use thermal_recovery_flow.Base.{
  ◌+◌, ◌^◌, ◌<◌, ◌≤◌, ◌≡◌, refl, ℕ, Bool, true, false, Option, none, some, ◌∷◌, Result, ok, err,
  List, [], length, length-append, arith, if◌then◌else◌, Bool-cases, inl, inr, ap, ◌∙◌,
}
use thermal_recovery_flow.Base.Float.{Float}
use thermal_recovery_flow.Protocol.{RawSensorData}
use thermal_recovery_flow.Driftflux.{DriftFluxConfig, HydrodynamicsFrame, SolveError}
use thermal_recovery_flow.Driftflux.Loop.{
  DriftFluxSolver, Choice, sends, drops, cancelled, send_frame, send_error, after_solve,
  process_sample, IsCounted, samples_read, process_loop, process_loop-IsCounted,
}

-- What a `select` puts into a channel.
abbrev pub is_sent : Choice → ℕ
is_sent sends = 1
is_sent drops = 0
is_sent cancelled = 0

pub is_sent-le : (choice : Choice) → is_sent choice ≤ 1
is_sent-le sends = omega arith
is_sent-le drops = omega arith
is_sent-le cancelled = omega arith

module _ {F : Type 0} ⦃o : Float F⦄ where
  open o use {lit, inf, neg}

  -- `NewDriftFluxSolver`.
  unfoldable pub new_drift_flux_solver : DriftFluxConfig F → DriftFluxSolver F
  new_drift_flux_solver config = record {
    config = config;
    stats = record {
      total_frames = 0;
      failed_frames = 0;
      avg_iterations = lit 0 0;
      total_iterations = 0;
      min_quality = inf;
      max_quality = neg inf;
    };
    output_chan = [];
    error_chan = [];
    output_dropped = 0;
    error_dropped = 0;
    running = false;
    cancelled = false;
  }

  -- `Start`, whose goroutine runs `processLoop` on the given samples, those that it receives.
  pub start : DriftFluxSolver F → List (Choice × Option (RawSensorData F)) → DriftFluxSolver F
  start s inputs = if s.running then s else process_loop (record s { running = true }) inputs

  -- `Stop`, once the goroutine has ended.
  pub stop : DriftFluxSolver F → DriftFluxSolver F
  stop s = if s.running then record s { running = false; cancelled = true } else s

  pub new_drift_flux_solver-IsCounted :
      (config : DriftFluxConfig F) → IsCounted (new_drift_flux_solver config) 0
  unfolding new_drift_flux_solver
  new_drift_flux_solver-IsCounted config = record {
    frames = omega arith;
    errors = omega arith;
    all = refl;
  }

  -- `Stop` changes no counter and no channel.
  stop-IsCounted :
      (s : DriftFluxSolver F) (n : ℕ)
      → IsCounted s n
      → ((stop s).running ≡ false) × IsCounted (stop s) n × ((stop s).stats ≡ s.stats)
  unfolding stop
  stop-IsCounted s n v = elim (Bool-cases s.running) [
    | inl e ↦ rw e (refl, record { frames = v.frames; errors = v.errors; all = v.all }, refl)
    | inr e ↦ rw e (refl, record { frames = v.frames; errors = v.errors; all = v.all }, refl)
  ]

  -- A solver that does not run and has accounted for everything so far, `new_drift_flux_solver` say,
  -- is started on some samples and stopped: then it does not run, every sample that it read has
  -- become a frame or a failure, and every frame and every error is sent or counted as dropped, but
  -- for at most one; as long as no counter wraps.
  pub stop-start-IsCounted :
      (inputs : List (Choice × Option (RawSensorData F))) (s : DriftFluxSolver F)
      → IsCounted s 0
      → s.running ≡ false
      → s.stats.total_frames + s.stats.failed_frames + length inputs < 2 ^ 64
      → let s' = stop (start s inputs) in
        (s'.running ≡ false)
        × (n : ℕ) × (n ≤ 1)
        × IsCounted s' n
        × (s'.stats.total_frames + s'.stats.failed_frames
            ≡ s.stats.total_frames + s.stats.failed_frames + samples_read inputs)
  unfolding start
  stop-start-IsCounted inputs s v idle room =
      let started = record s { running = true } in
      let v' : IsCounted started 0 = record { frames = v.frames; errors = v.errors; all = v.all } in
      let (n, small, counted, all) = process_loop-IsCounted inputs started v' room in
      let (ended, counted', same) = stop-IsCounted (process_loop started inputs) n counted in
      rw idle (
        ended,
        n,
        small,
        counted',
        ap (λ stats. stats.total_frames + stats.failed_frames) same ∙ all,
      )

  -- `running` and whether the context is cancelled.
  abbrev pub flags : DriftFluxSolver F → Bool × Bool
  flags s = (s.running, s.cancelled)

  pub after_solve-flags :
      (s : DriftFluxSolver F) (choice : Choice) (r : Result SolveError (HydrodynamicsFrame F))
      → flags (after_solve s choice r) ≡ flags s
  unfolding after_solve send_frame send_error
  after_solve-flags s sends (ok h) = refl
  after_solve-flags s drops (ok h) = refl
  after_solve-flags s cancelled (ok h) = refl
  after_solve-flags s sends (err e) = refl
  after_solve-flags s drops (err e) = refl
  after_solve-flags s cancelled (err e) = refl

  process_sample-flags :
      (s : DriftFluxSolver F) (i : Choice × Option (RawSensorData F))
      → flags (process_sample s i) ≡ flags s
  unfolding process_sample
  process_sample-flags s (choice, none) = refl
  process_sample-flags s (choice, some sample) = after_solve-flags s choice _

  pub process_loop-flags :
      (inputs : List (Choice × Option (RawSensorData F))) (s : DriftFluxSolver F)
      → flags (process_loop s inputs) ≡ flags s
  unfolding process_loop
  process_loop-flags [] s = refl
  process_loop-flags (i ∷ rest) s =
      ground (arith, process_sample-flags s i, process_loop-flags rest (process_sample s i))

  pub new_drift_flux_solver-flags :
      (config : DriftFluxConfig F) → flags (new_drift_flux_solver config) ≡ (false, false)
  unfolding new_drift_flux_solver
  new_drift_flux_solver-flags config = refl

  pub start-flags :
      (s : DriftFluxSolver F) → flags s ≡ (false, false) → flags (start s []) ≡ (true, false)
  unfolding start process_loop
  start-flags s e = ground arith

  -- The frames and errors that the loop has put into the channels.
  abbrev pub sent : DriftFluxSolver F → ℕ
  sent s = length s.output_chan + length s.error_chan

  -- `Start` changes no counter and no channel.
  pub start-kept :
      (s : DriftFluxSolver F) → ((start s []).stats ≡ s.stats) × (sent (start s []) ≡ sent s)
  unfolding start process_loop
  start-kept s = ground arith

  pub start-IsCounted : (s : DriftFluxSolver F) → IsCounted s 0 → IsCounted (start s []) 0
  unfolding start process_loop
  start-IsCounted s v = elim (Bool-cases s.running) [
    | inl e ↦ rw e (record { frames = v.frames; errors = v.errors; all = v.all })
    | inr e ↦ rw e (record { frames = v.frames; errors = v.errors; all = v.all })
  ]

  pub stop-flags :
      (s : DriftFluxSolver F) → flags s ≡ (true, false) → flags (stop s) ≡ (false, true)
  unfolding stop
  stop-flags s e = ground arith

  pub after_solve-sent :
      (s : DriftFluxSolver F) (choice : Choice) (r : Result SolveError (HydrodynamicsFrame F))
      → sent (after_solve s choice r) ≡ sent s + is_sent choice
  unfolding after_solve send_frame send_error
  after_solve-sent s sends (ok h) = omega (arith, length-append s.output_chan (h ∷ []))
  after_solve-sent s sends (err e) = omega (arith, length-append s.error_chan (e ∷ []))
  after_solve-sent s drops (ok h) = omega arith
  after_solve-sent s drops (err e) = omega arith
  after_solve-sent s cancelled (ok h) = omega arith
  after_solve-sent s cancelled (err e) = omega arith
