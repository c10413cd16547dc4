-- ===== src/App/Samples.antt =====
-- cmd/gateway/main.go: the pipeline's solver workers and the solver's own loop take samples from one channel, and
-- put their frames and errors into the same two channels.
use thermal_recovery_flow.Base.{
  ℕ, ◌+◌, ◌^◌, ◌<◌, ◌≤◌, ◌≡◌, refl, ap, ◌∙◌, List, [], ◌∷◌, ◌++◌, arith, if◌then◌else◌, ltb, length,
  length-append, All, Result, ok, err, Bool-cases, inl, inr,
}
use thermal_recovery_flow.Base.Float.{Float}
use thermal_recovery_flow.Protocol.{RawSensorData}
use thermal_recovery_flow.Driftflux.{HydrodynamicsFrame, SolveError}
use thermal_recovery_flow.Driftflux.Solver.{solve}
use thermal_recovery_flow.Driftflux.Loop.{
  DriftFluxSolver, Choice, sends, drops, cancelled, IsCounted, after_solve, after_solve-IsCounted,
  missing,
}
use thermal_recovery_flow.Driftflux.Loop.Lifetime.{
  sent, is_sent, is_sent-le, after_solve-sent, flags as solver_flags, after_solve-flags,
}
use thermal_recovery_flow.Pipeline.{Pipeline, Action, solve_failed, act}
use thermal_recovery_flow.Pipeline.Flags.{settings, act-settings}
use thermal_recovery_flow.Pipeline.Account.{IsPipeline, zero_right, assoc}
use thermal_recovery_flow.Pipeline.Account.Actions.{HasBytes, arrives, arrives-le, act-IsPipeline}

-- What happens next: a step of the pipeline's goroutines, or a round of the solver's loop, before `Stop`.
pub data Step : Type 0 where
  works : Action → Step
  reads : Step

abbrev pub StepBytes : Step → Type 0
StepBytes (works a) = HasBytes a
StepBytes reads = Unit

module _ {F : Type 0} ⦃o : Float F⦄ where
  -- The case of the `select` of the solver's loop.
  choose : Pipeline F → Result SolveError (HydrodynamicsFrame F) → Choice
  choose p (ok frame) = if ltb (length p.hydro_frame_chan) p.frame_size then sends else drops
  choose p (err e) = if ltb (length p.error_chan) p.error_size then sends else drops

  -- What it puts into the channels of the pipeline.
  put : Pipeline F → Choice → Result SolveError (HydrodynamicsFrame F) → Pipeline F
  put p sends (ok frame) = record p { hydro_frame_chan = p.hydro_frame_chan ++ frame ∷ [] }
  put p sends (err e) = record p { error_chan = p.error_chan ++ solve_failed e ∷ [] }
  put p drops r = p
  put p cancelled r = p

  take_sample :
      Pipeline F → DriftFluxSolver F → List (RawSensorData F) → Pipeline F × DriftFluxSolver F
  unfolding choose put
  take_sample p s [] = (p, s)
  take_sample p s (x ∷ rest) =
      let r = solve s.config x in
      let p' : Pipeline F = record p { decoded_chan = rest; taken = p.taken + 1 } in
      (put p' (choose p' r) r, after_solve s (choose p' r) r)

  pub step : Pipeline F × DriftFluxSolver F → Step → Pipeline F × DriftFluxSolver F
  unfolding take_sample
  step (p, s) (works a) = (act p a, s)
  step (p, s) reads = take_sample p s p.decoded_chan

  pub steps : Pipeline F × DriftFluxSolver F → List Step → Pipeline F × DriftFluxSolver F
  unfolding step
  steps c [] = c
  steps c (a ∷ rest) = steps (step c a) rest

  put-settings :
      (p : Pipeline F) (c : Choice) (r : Result SolveError (HydrodynamicsFrame F))
      → settings (put p c r) ≡ settings p
  unfolding put
  put-settings p sends (ok frame) = refl
  put-settings p sends (err e) = refl
  put-settings p drops r = refl
  put-settings p cancelled r = refl

  take_sample-settings :
      (p : Pipeline F) (s : DriftFluxSolver F) (queue : List (RawSensorData F))
      → let (p', s') = take_sample p s queue in
        (settings p' ≡ settings p) × (solver_flags s' ≡ solver_flags s)
  unfolding take_sample
  take_sample-settings p s [] = (refl, refl)
  take_sample-settings p s (x ∷ rest) =
      let r = solve s.config x in
      let p' : Pipeline F = record p { decoded_chan = rest; taken = p.taken + 1 } in
      (put-settings p' (choose p' r) r, after_solve-flags s (choose p' r) r)

  -- Neither the workers nor the loop change a flag or the size of a channel.
  pub steps-settings :
      (todo : List Step) (p : Pipeline F) (s : DriftFluxSolver F)
      → let (p', s') = steps (p, s) todo in
        (settings p' ≡ settings p) × (solver_flags s' ≡ solver_flags s)
  unfolding steps step
  steps-settings [] p s = (refl, refl)
  steps-settings (works a ∷ rest) p s =
      let (e, f) = steps-settings rest (act p a) s in (e ∙ act-settings p a, f)
  steps-settings (reads ∷ rest) p s =
      let (p', s') = take_sample p s p.decoded_chan in
      let (e, f) = steps-settings rest p' s' in
      let (e', f') = take_sample-settings p s p.decoded_chan in (e ∙ e', f ∙ f')

  pub record IsShared (p : Pipeline F) (s : DriftFluxSolver F) (n : ℕ) : Type 0 where
    pub pipeline : IsPipeline p (n + sent s)
    pub solver : IsCounted s 0

  took-IsPipeline :
      (p : Pipeline F) (n : ℕ) (x : RawSensorData F) (rest : List (RawSensorData F))
      → IsPipeline p n
      → p.decoded_chan ≡ x ∷ rest
      → IsPipeline (record p { decoded_chan = rest; taken = p.taken + 1 }) n
  took-IsPipeline p n x rest v e = ground (arith, v.total, ap length e)

  put-IsPipeline :
      (p : Pipeline F) (n : ℕ) (r : Result SolveError (HydrodynamicsFrame F))
      → IsPipeline p n
      → IsPipeline (put p (choose p r) r) (n + is_sent (choose p r))
  unfolding choose put
  put-IsPipeline p n (ok h) v = elim (Bool-cases (ltb (length p.hydro_frame_chan) p.frame_size)) [
    | inl e ↦ rw e (ground (arith, e, v.total, length-append p.hydro_frame_chan (h ∷ [])))
    | inr e ↦ rw (e, put) (ground (arith, v.total))
  ]
  put-IsPipeline p n (err x) v = elim (Bool-cases (ltb (length p.error_chan) p.error_size)) [
    | inl e ↦ rw e (ground (arith, e, v.total, length-append p.error_chan (solve_failed x ∷ [])))
    | inr e ↦ rw (e, put) (ground (arith, v.total))
  ]

  not_cancelled :
      (p : Pipeline F) (r : Result SolveError (HydrodynamicsFrame F)) → missing (choose p r) ≡ 0
  unfolding choose
  not_cancelled p (ok h) = ground arith
  not_cancelled p (err x) = ground arith

  take_sample-IsShared :
      (p : Pipeline F) (s : DriftFluxSolver F) (n : ℕ) (queue : List (RawSensorData F))
      → p.decoded_chan ≡ queue
      → IsShared p s n
      → s.stats.total_frames + s.stats.failed_frames + 1 < 2 ^ 64
      → let (p', s') = take_sample p s queue in
        IsShared p' s' n
        × (s'.stats.total_frames + s'.stats.failed_frames
            ≤ s.stats.total_frames + s.stats.failed_frames + 1)
        × (sent s' ≤ sent s + 1)
  unfolding take_sample
  take_sample-IsShared p s n [] e v room = (v, omega arith, omega arith)
  take_sample-IsShared p s n (x ∷ rest) e v room =
      let r = solve s.config x in
      let p' : Pipeline F = record p { decoded_chan = rest; taken = p.taken + 1 } in
      let (sum, counted) = after_solve-IsCounted s (choose p' r) r v.solver room in
      let more = after_solve-sent s (choose p' r) r in
      let put' =
        put-IsPipeline p' (n + sent s) r (took-IsPipeline p (n + sent s) x rest v.pipeline e) in
      let total : n + sent s + is_sent (choose p' r) ≡ n + sent (after_solve s (choose p' r) r) =
        omega (arith, more) in
      (
        record { pipeline = rw total at put'; solver = rw (not_cancelled p' r) at counted },
        omega (arith, sum),
        omega (arith, more, is_sent-le (choose p' r)),
      )

  -- The sequences of bytes that the pipeline takes in.
  abbrev pub arriving : Pipeline F × DriftFluxSolver F → List Step → ℕ
  arriving c [] = 0
  arriving c (works a ∷ rest) = arrives (c.0) a + arriving (step c (works a)) rest
  arriving c (reads ∷ rest) = arriving (step c reads) rest

  -- While the pipeline's workers and the solver's own loop share the channels, in whatever order, no channel holds
  -- more than its buffer, no worker panics, what the pipeline accounts for is what `Input()` has taken and what the
  -- solver's loop has put into the channels, and each sample that this loop has taken is a frame or an error that
  -- it has put there or counted as dropped; as long as no counter wraps.
  pub steps-IsShared :
      (todo : List Step) (p : Pipeline F) (s : DriftFluxSolver F) (n : ℕ)
      → IsShared p s n
      → All StepBytes todo
      → n + sent s + length todo < 2 ^ 64
      → s.stats.total_frames + s.stats.failed_frames + length todo < 2 ^ 64
      → let (p', s') = steps (p, s) todo in IsShared p' s' (n + arriving (p, s) todo)
  unfolding steps step
  steps-IsShared [] p s n v hs room₁ room₂ = rw (zero_right n) v
  steps-IsShared (works a ∷ rest) p s n v (h, hs) room₁ room₂ =
      let few = arrives-le p a in
      let worked = act-IsPipeline p (n + sent s) a v.pipeline (omega arith) h in
      let total : n + sent s + arrives p a ≡ n + arrives p a + sent s = omega arith in
      let v' : IsShared (act p a) s (n + arrives p a) = record {
        pipeline = rw total at worked;
        solver = v.solver;
      } in
      let all =
        steps-IsShared rest (act p a) s (n + arrives p a) v' hs (omega (arith, few))
          (omega arith) in
      rw⁻¹ (assoc n (arrives p a) (arriving (act p a, s) rest)) all
  steps-IsShared (reads ∷ rest) p s n v (h, hs) room₁ room₂ =
      let (v', counts, puts) = take_sample-IsShared p s n p.decoded_chan refl v (omega arith) in
      let (p', s') = take_sample p s p.decoded_chan in
      steps-IsShared rest p' s' n v' hs (omega (arith, puts)) (omega (arith, counts))
