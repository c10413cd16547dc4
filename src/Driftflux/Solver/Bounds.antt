-- ===== src/Driftflux/Solver/Bounds.antt =====
-- What the solution of the equations is worth: its ranges, and that the loop ends.
use thermal_recovery_flow.Base.{
  ℕ, zero, suc, ◌+◌, ◌≤◌, ◌≡◌, refl, Bool, true, false, arith, if◌then◌else◌, ◌||◌,
}
use thermal_recovery_flow.Base.Int.{pos_part}
use thermal_recovery_flow.Base.Float.{Float, IsFloat, ◌<ᶠ◌, ◌≤ᶠ◌}
use thermal_recovery_flow.Driftflux.{
  DriftFluxConfig, DriftFluxEquation, Solution, Body, returned, reached,
}
use thermal_recovery_flow.Driftflux.Solver.{
  zero_f, one_f, half, clamp_unit, pull_inside, relaxed, loop_body, solve_rounds, solve_drift_flux,
}

module _ {F : Type 0} ⦃o : Float F⦄ where
  open o use {lit}

  -- Neither below 0 nor above 1.
  abbrev pub InUnit : F → Type 0
  InUnit v = (v <ᶠ zero_f ≡ false) × (one_f <ᶠ v ≡ false)

  -- A solution after at most `n` rounds.
  pub record IsSolution (n : ℕ) (s : Solution F) : Type 0 where
    pub quality : InUnit s.x
    pub void : InUnit s.alpha
    pub ended : s.iterations ≤ n
    pub converged : s.converged ≡ true

  abbrev BodyInUnit : Body F → Type 0
  BodyInUnit (returned x alpha) = InUnit x × InUnit alpha
  BodyInUnit (reached x alpha close) = InUnit x × InUnit alpha

  module _ (laws : IsFloat o) where
    open laws use {lt_irrefl, lt-lit}

    half-InUnit : InUnit half
    half-InUnit = (lt-lit 0 0 5 1 (omega arith), lt-lit 5 1 1 0 (omega arith))

    clamp_unit-InUnit : (v : F) → InUnit (clamp_unit v)
    unfolding clamp_unit
    clamp_unit-InUnit v =
        ground (arith, lt_irrefl zero_f, lt_irrefl one_f, lt-lit 0 0 1 0 (omega arith), half-InUnit)

    pull_inside-InUnit : (v : F) → InUnit (pull_inside v)
    unfolding pull_inside
    pull_inside-InUnit v = ground (
      arith,
      lt-lit 0 0 1 3 (omega arith),
      lt-lit 1 3 1 0 (omega arith),
      lt-lit 0 0 999 3 (omega arith),
      lt-lit 999 3 1 0 (omega arith),
    )

    relaxed-InUnit : (old new : F) → InUnit (relaxed old new)
    unfolding relaxed
    relaxed-InUnit old new = pull_inside-InUnit _

    BodyInUnit-if :
        (b c close : Bool) (a x y : F)
        → InUnit a
        → InUnit x
        → InUnit y
        → BodyInUnit
            (if b then returned half half else if c then returned half a else reached x y close)
    BodyInUnit-if true c close a x y ha hx hy = (half-InUnit, half-InUnit)
    BodyInUnit-if false true close a x y ha hx hy = (half-InUnit, ha)
    BodyInUnit-if false false close a x y ha hx hy = (hx, hy)

    loop_body-InUnit :
        (config : DriftFluxConfig F) (eq : DriftFluxEquation F) (x alpha : F)
        → BodyInUnit (loop_body config eq x alpha)
    unfolding loop_body
    loop_body-InUnit config eq x alpha =
        BodyInUnit-if _ _ _ _ _ _ (clamp_unit-InUnit _) (relaxed-InUnit _ _) (relaxed-InUnit _ _)

    solve_rounds-IsSolution :
        (config : DriftFluxConfig F) (eq : DriftFluxEquation F) (left i n : ℕ) (x alpha : F)
        → i + left ≤ n
        → IsSolution n (solve_rounds config eq left i x alpha)
    unfolding solve_rounds
    solve_rounds-IsSolution config eq zero i n x alpha h = record {
      quality = half-InUnit;
      void = half-InUnit;
      ended = omega arith;
      converged = refl;
    }
    solve_rounds-IsSolution config eq (suc left) i n x alpha h =
        after (loop_body config eq x alpha) (loop_body-InUnit config eq x alpha)
          λ x' alpha'. solve_rounds-IsSolution config eq left (i + 1) n x' alpha' (omega arith)
      where
        after :
            (b : Body F)
            → BodyInUnit b
            → ((x' alpha' : F) → IsSolution n (solve_rounds config eq left (i + 1) x' alpha'))
            → IsSolution n (elim b [
              | returned x' alpha' ↦ record {
                x = x';
                alpha = alpha';
                iterations = i;
                converged = true;
              }
              | reached x' alpha' close ↦
                  let rest = solve_rounds config eq left (i + 1) x' alpha' in
                  if close
                  then record { x = x'; alpha = alpha'; iterations = i; converged = true }
                  else rest
            ])
        after (returned x' alpha') (hx, ha) rest = record {
          quality = hx;
          void = ha;
          ended = omega arith;
          converged = refl;
        }
        after (reached x' alpha' true) (hx, ha) rest = record {
          quality = hx;
          void = ha;
          ended = omega arith;
          converged = refl;
        }
        after (reached x' alpha' false) _ rest = rest x' alpha'

    -- Under the laws of `IsFloat`, whatever the equation, the solver ends within the configured
    -- number of rounds, and reports convergence with a quality and a void fraction that are
    -- neither below 0 nor above 1.
    pub solve_drift_flux-IsSolution :
        (config : DriftFluxConfig F) (eq : DriftFluxEquation F)
        → IsSolution (pos_part config.max_iterations) (solve_drift_flux config eq)
    unfolding solve_drift_flux
    solve_drift_flux-IsSolution config eq =
        elim (eq.rho_v ≤ᶠ zero_f || eq.rho_l ≤ᶠ zero_f || eq.mass_flux ≤ᶠ zero_f)
          as (λ b. IsSolution (pos_part config.max_iterations) (
            if b
            then record { x = half; alpha = half; iterations = 0; converged = true }
            else solve_rounds config eq (pos_part config.max_iterations) 0 (lit 1 1) (lit 1 1))) [
              | true ↦ record {
                quality = half-InUnit;
                void = half-InUnit;
                ended = omega arith;
                converged = refl;
              }
              | false ↦
                  solve_rounds-IsSolution config eq (pos_part config.max_iterations) 0 _ _ _
                    (omega arith)
            ]
