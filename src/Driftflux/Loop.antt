-- ===== src/Driftflux/Loop.antt =====
-- internal/driftflux/solver.go: `processLoop`, the statistics and the two channels.
pub mod Lifetime
use thermal_recovery_flow.Base.{
  ℕ, ◌+◌, ◌^◌, ◌≤◌, ◌<◌, ◌≡◌, Bool, true, false, Option, none, some, List, [], ◌∷◌, ◌++◌, arith,
  if◌then◌else◌, length, length-append, Result, ok, err, u64, inc64,
}
use thermal_recovery_flow.Base.Float.{Float, ◌<ᶠ◌, ◌/ᶠ◌}
use thermal_recovery_flow.Protocol.{RawSensorData}
use thermal_recovery_flow.Driftflux.{DriftFluxConfig, HydrodynamicsFrame, SolveError}
use thermal_recovery_flow.Driftflux.Solver.{solve}

pub record SolverStats (F : Type 0) : Type 0 where
  pub total_frames : ℕ
  pub failed_frames : ℕ
  pub avg_iterations : F
  pub total_iterations : ℕ
  pub min_quality : F
  pub max_quality : F

pub record DriftFluxSolver (F : Type 0) : Type 0 where
  pub config : DriftFluxConfig F
  pub stats : SolverStats F
  pub output_chan : List (HydrodynamicsFrame F)
  pub error_chan : List SolveError
  pub output_dropped : ℕ
  pub error_dropped : ℕ
  pub running : Bool
  pub cancelled : Bool

-- Which case the `select` after a sample takes: it sends, it drops, or the context is done.
pub data Choice : Type 0 where
  sends drops cancelled : Choice

-- What a cancelled `select` leaves.
abbrev pub missing : Choice → ℕ
missing sends = 0
missing drops = 0
missing cancelled = 1

module _ {F : Type 0} ⦃o : Float F⦄ where
  open o use {lit}

  -- The statistics after a frame.
  count_frame : SolverStats F → HydrodynamicsFrame F → SolverStats F
  count_frame stats frame =
      let frames = inc64 stats.total_frames in
      let iterations = u64 (stats.total_iterations + frame.iterations) in
      record stats {
        total_frames = frames;
        min_quality =
            if frame.steam_quality <ᶠ stats.min_quality
            then frame.steam_quality
            else stats.min_quality;
        max_quality =
            if stats.max_quality <ᶠ frame.steam_quality
            then frame.steam_quality
            else stats.max_quality;
        total_iterations = iterations;
        avg_iterations = lit iterations 0 /ᶠ lit frames 0;
      }

  fail_frame : SolverStats F → SolverStats F
  fail_frame stats = record stats { failed_frames = inc64 stats.failed_frames }

  pub send_frame : DriftFluxSolver F → Choice → HydrodynamicsFrame F → DriftFluxSolver F
  send_frame s sends frame = record s { output_chan = s.output_chan ++ frame ∷ [] }
  send_frame s drops frame = record s { output_dropped = inc64 s.output_dropped }
  send_frame s cancelled frame = s

  pub send_error : DriftFluxSolver F → Choice → SolveError → DriftFluxSolver F
  send_error s sends e = record s { error_chan = s.error_chan ++ e ∷ [] }
  send_error s drops e = record s { error_dropped = inc64 s.error_dropped }
  send_error s cancelled e = s

  -- What follows the answer of `Solve`.
  pub after_solve :
      DriftFluxSolver F → Choice → Result SolveError (HydrodynamicsFrame F) → DriftFluxSolver F
  unfolding count_frame fail_frame send_frame send_error
  after_solve s choice (ok frame) =
      send_frame (record s { stats = count_frame s.stats frame }) choice frame
  after_solve s choice (err e) = send_error (record s { stats = fail_frame s.stats }) choice e

  -- One sample that is received, `none` for nil.
  pub process_sample : DriftFluxSolver F → Choice × Option (RawSensorData F) → DriftFluxSolver F
  unfolding after_solve
  process_sample s (choice, none) = s
  process_sample s (choice, some sample) = after_solve s choice (solve s.config sample)

  abbrev stops : Choice × Option (RawSensorData F) → Bool
  stops (cancelled, some sample) = true
  stops (cancelled, none) = false
  stops (sends, sample) = false
  stops (drops, sample) = false

  -- The loop on the samples that arrive until it is cancelled or the channel is closed.
  pub process_loop :
      DriftFluxSolver F → List (Choice × Option (RawSensorData F)) → DriftFluxSolver F
  unfolding process_sample
  process_loop s [] = s
  process_loop s (i ∷ rest) =
      let s' = process_sample s i in
      let later = process_loop s' rest in if stops i then s' else later

  -- The samples that arrive while the loop runs.
  abbrev pub samples_read : List (Choice × Option (RawSensorData F)) → ℕ
  samples_read [] = 0
  samples_read ((choice, none) ∷ rest) = samples_read rest
  samples_read ((cancelled, some sample) ∷ rest) = 1
  samples_read ((sends, some sample) ∷ rest) = 1 + samples_read rest
  samples_read ((drops, some sample) ∷ rest) = 1 + samples_read rest

  -- Every frame is sent or dropped and so is every error, but for what a cancelled `select` leaves.
  pub record IsCounted (s : DriftFluxSolver F) (left_over : ℕ) : Type 0 where
    pub frames : length s.output_chan + s.output_dropped ≤ s.stats.total_frames
    pub errors : length s.error_chan + s.error_dropped ≤ s.stats.failed_frames
    pub all :
        length s.output_chan + s.output_dropped + length s.error_chan + s.error_dropped + left_over
        ≡ s.stats.total_frames + s.stats.failed_frames

  pub after_solve-IsCounted :
      (s : DriftFluxSolver F) (choice : Choice) (r : Result SolveError (HydrodynamicsFrame F))
      → IsCounted s 0
      → s.stats.total_frames + s.stats.failed_frames + 1 < 2 ^ 64
      → let s' = after_solve s choice r in
        (s'.stats.total_frames + s'.stats.failed_frames
          ≡ s.stats.total_frames + s.stats.failed_frames + 1)
        × IsCounted s' (missing choice)
  unfolding after_solve send_frame send_error count_frame fail_frame
  after_solve-IsCounted s sends (ok frame) v room =
      ground (arith, length-append s.output_chan (frame ∷ []))
  after_solve-IsCounted s sends (err e) v room = ground (arith, length-append s.error_chan (e ∷ []))
  after_solve-IsCounted s drops (ok frame) v room = ground arith
  after_solve-IsCounted s drops (err e) v room = ground arith
  after_solve-IsCounted s cancelled (ok frame) v room = ground arith
  after_solve-IsCounted s cancelled (err e) v room = ground arith

  -- From a solver that has accounted for everything so far, every sample that is read becomes a
  -- frame or a failure, and every frame and every error is sent or counted as dropped, but for at
  -- most one, when the loop is cancelled; as long as no counter wraps.
  pub process_loop-IsCounted :
      (inputs : List (Choice × Option (RawSensorData F))) (s : DriftFluxSolver F)
      → IsCounted s 0
      → s.stats.total_frames + s.stats.failed_frames + length inputs < 2 ^ 64
      → let s' = process_loop s inputs in
        (n : ℕ) × (n ≤ 1)
        × IsCounted s' n
        × (s'.stats.total_frames + s'.stats.failed_frames
            ≡ s.stats.total_frames + s.stats.failed_frames + samples_read inputs)
  unfolding process_loop process_sample
  process_loop-IsCounted [] s v room = (0, omega arith, v, omega arith)
  process_loop-IsCounted ((sends, none) ∷ rest) s v room =
      process_loop-IsCounted rest s v (omega arith)
  process_loop-IsCounted ((drops, none) ∷ rest) s v room =
      process_loop-IsCounted rest s v (omega arith)
  process_loop-IsCounted ((cancelled, none) ∷ rest) s v room =
      process_loop-IsCounted rest s v (omega arith)
  process_loop-IsCounted ((cancelled, some sample) ∷ rest) s v room =
      let (sum, v') = after_solve-IsCounted s cancelled (solve s.config sample) v (omega arith) in
      (1, omega arith, v', omega (arith, sum))
  process_loop-IsCounted ((sends, some sample) ∷ rest) s v room =
      let (sum, v') = after_solve-IsCounted s sends (solve s.config sample) v (omega arith) in
      let (n, small, counted, all) =
        process_loop-IsCounted rest (after_solve s sends (solve s.config sample)) v'
          (omega (arith, sum)) in
      (n, small, counted, omega (arith, all, sum))
  process_loop-IsCounted ((drops, some sample) ∷ rest) s v room =
      let (sum, v') = after_solve-IsCounted s drops (solve s.config sample) v (omega arith) in
      let (n, small, counted, all) =
        process_loop-IsCounted rest (after_solve s drops (solve s.config sample)) v'
          (omega (arith, sum)) in
      (n, small, counted, omega (arith, all, sum))
