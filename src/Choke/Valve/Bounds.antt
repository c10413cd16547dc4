-- ===== src/Choke/Valve/Bounds.antt =====
-- The valve opening stays within its limits, and no infinite or undefined flow leaves the model.
use thermal_recovery_flow.Base.{
  ◌≡◌, refl, Bool, true, false, ◌||◌, arith, if◌then◌else◌, Bool-cases, inl, inr, ◌↔◌, ◌⊎◌, inl,
  inr,
}
use thermal_recovery_flow.Base.Float.{Float, IsFloat, ◌≤ᶠ◌, ◌<ᶠ◌, ◌/ᶠ◌, not_finite}
use thermal_recovery_flow.Choke.{flow_choked, flow_unknown, ChokeValveConfig, ChokeValveResult}
use thermal_recovery_flow.Choke.Valve.{
  zero_f, min_opening, max_opening, clamp_opening, clamp_ratio, area_of, known_result,
  sonic_velocity, drop_not_finite, flow_through, opening_for, solve_choke_flow,
  compute_required_opening,
}

module _ {F : Type 0} ⦃o : Float F⦄ where
  -- Neither below `MinOpening` nor above `MaxOpening`. (NaN is neither.)
  abbrev pub InLimits : F → Type 0
  InLimits x = (x <ᶠ min_opening ≡ false) × (max_opening <ᶠ x ≡ false)

  InLimits-if : (b : Bool) (x y : F) → InLimits x → InLimits y → InLimits (if b then x else y)
  InLimits-if true x y hx hy = hx
  InLimits-if false x y hx hy = hy

  -- A flow that was computed is consistent: it is choked exactly in the choked state, its opening
  -- is within the limits, and neither mass flow nor velocity is infinite or NaN. It is unknown
  -- exactly when a measured pressure, temperature or density is zero or below.
  pub record IsConsistent (bad : Bool) (r : ChokeValveResult F) : Type 0 where
    pub choked : (r.is_choked ≡ true) ↔ (r.flow_state ≡ flow_choked)
    pub unknown : (r.flow_state ≡ flow_unknown) ↔ (bad ≡ true)
    pub limited : (bad ≡ true) ⊎ InLimits r.valve_opening
    pub finite_flow : not_finite r.mass_flow ≡ false
    pub finite_velocity : not_finite r.velocity ≡ false

  module _ (laws : IsFloat o) where
    open laws use {lt_irrefl, lt-lit, finite-lit}

    max_opening-InLimits : InLimits max_opening
    max_opening-InLimits = (lt-lit 1 3 1 0 (omega arith), lt_irrefl max_opening)

    clamp_opening-InLimits : (x : F) → InLimits (clamp_opening x)
    unfolding clamp_opening
    clamp_opening-InLimits x = ground (arith, max_opening-InLimits, lt_irrefl min_opening)

    opening_for-InLimits :
        (config : ChokeValveConfig F) (target flux : F) → InLimits (opening_for config target flux)
    unfolding opening_for
    opening_for-InLimits config target flux =
        InLimits-if _ _ _ max_opening-InLimits (clamp_opening-InLimits _)

    -- Under the laws of `IsFloat`, whatever the measured state is, the opening that
    -- `ComputeRequiredOpening` asks for is within the limits of the valve.
    pub compute_required_opening-InLimits :
        (config : ChokeValveConfig F) (p t rho down target : F)
        → InLimits (compute_required_opening config p t rho down target)
    unfolding compute_required_opening
    compute_required_opening-InLimits config p t rho down target =
        InLimits-if _ _ _ max_opening-InLimits (
          InLimits-if _ _ _ (opening_for-InLimits config target _)
            (InLimits-if _ _ _ max_opening-InLimits (opening_for-InLimits config target _)))

    drop_not_finite-finite : (x : F) → not_finite (drop_not_finite x) ≡ false
    unfolding drop_not_finite
    drop_not_finite-finite x = ground (arith, finite-lit 0 0 (omega arith))

    flow_through-IsConsistent :
        (gamma a pr area : F) (r : ChokeValveResult F)
        → InLimits r.valve_opening
        → IsConsistent false (flow_through gamma r a pr area)
    unfolding flow_through
    flow_through-IsConsistent gamma a pr area r limited =
        elim (Bool-cases (pr ≤ᶠ r.critical_ratio)) [
          | inl low ↦ rw low (record {
            choked = (λ _. refl, λ _. refl);
            unknown = (λ e. cc, λ e. cc);
            limited = inr limited;
            finite_flow = drop_not_finite-finite _;
            finite_velocity = drop_not_finite-finite _;
          })
          | inr high ↦ rw high (record {
            choked = (λ e. cc, λ e. cc);
            unknown = (λ e. cc, λ e. cc);
            limited = inr limited;
            finite_flow = drop_not_finite-finite _;
            finite_velocity = drop_not_finite-finite _;
          })
        ]

    -- Under the laws of `IsFloat`, `SolveChokeFlow` gives a consistent result for every
    -- measurement and every asked opening: it is choked exactly in the choked state and unknown
    -- exactly when a measured pressure, temperature or density is zero or below, a known opening
    -- is within the limits, and neither mass flow nor velocity is infinite or NaN.
    pub solve_choke_flow-IsConsistent :
        (config : ChokeValveConfig F) (p t rho down opening : F)
        → IsConsistent
            (p ≤ᶠ zero_f || t ≤ᶠ zero_f || rho ≤ᶠ zero_f)
            (solve_choke_flow config p t rho down opening)
    unfolding solve_choke_flow
    solve_choke_flow-IsConsistent config p t rho down opening =
        elim (Bool-cases (p ≤ᶠ zero_f || t ≤ᶠ zero_f || rho ≤ᶠ zero_f)) [
          | inl bad ↦ rw bad (record {
            choked = (λ e. cc, λ e. cc);
            unknown = (λ _. refl, λ _. refl);
            limited = inl refl;
            finite_flow = ground (arith, finite-lit 0 0 (omega arith));
            finite_velocity = ground (arith, finite-lit 0 0 (omega arith));
          })
          | inr good ↦ rw good (
              flow_through-IsConsistent config.gamma (sonic_velocity t config.gamma)
                (clamp_ratio (down /ᶠ p)) (area_of config opening)
                (known_result config p t rho down opening) (clamp_opening-InLimits opening))
        ]
