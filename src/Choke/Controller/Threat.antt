-- ===== src/Choke/Controller/Threat.antt =====
-- The four threat levels: what each of them means for the valve, and when the highest is reached.
use thermal_recovery_flow.Base.{◌<◌, ◌≡◌, ◌↔◌, ◌≢◌, refl, true, false, arith, leb, length}
use thermal_recovery_flow.Base.Float.{Float, IsFloat, ◌≤ᶠ◌}
use thermal_recovery_flow.Choke.{
  ThreatLevel, threat_normal, threat_elevated, threat_critical, threat_imminent, severity,
  SafetyAssessment,
}
use thermal_recovery_flow.Choke.Valve.Bounds.{InLimits, compute_required_opening-InLimits}
use thermal_recovery_flow.Choke.Controller.{
  SafetyController, SafetyControllerConfig, Reading, classify, assess, opening_for_share,
  detect_nonlinear_surge, push_sample, sample_of, measured,
}
use thermal_recovery_flow.Choke.Controller.Derivatives.{
  compute_derivatives, compute_derivatives_few,
}

module _ {F : Type 0} ⦃o : Float F⦄ where
  open o use {lit}

  -- What an assessment of a level says: whether it locks the valve down and overrides it, and to which
  -- opening.
  abbrev pub MeansLevel :
      SafetyControllerConfig F → Reading F → SafetyAssessment F → ThreatLevel → Type 0
  MeansLevel config r a threat_normal =
      (a.lockdown_required ≡ false)
      × (a.requires_override ≡ false)
      × (a.required_opening ≡ r.current_opening)
  MeansLevel config r a threat_elevated =
      (a.lockdown_required ≡ false) × (a.requires_override ≡ false) × InLimits a.required_opening
  MeansLevel config r a threat_critical =
      (a.lockdown_required ≡ false) × (a.requires_override ≡ true) × InLimits a.required_opening
  MeansLevel config r a threat_imminent =
      (a.lockdown_required ≡ true)
      × (a.requires_override ≡ true)
      × (a.required_opening ≡ config.lockdown_opening)

  abbrev pub IsCoherent : SafetyControllerConfig F → Reading F → SafetyAssessment F → Type 0
  IsCoherent config r a = MeansLevel config r a a.threat_level

  classify_steady :
      (config : SafetyControllerConfig F) (r : Reading F) (a : SafetyAssessment F)
      → a.is_nonlinear_surge ≡ false
      → let level = (classify config r a).threat_level in
        ((level ≡ threat_imminent) ↔ (config.safety_pressure_limit ≤ᶠ r.pressure ≡ true))
        × (level ≢ threat_critical)
  unfolding classify
  classify_steady config r a steady = (ground arith, ground arith)

  classify_override :
      (config : SafetyControllerConfig F) (r : Reading F) (a : SafetyAssessment F)
      → let a' = classify config r a in a'.requires_override ≡ leb 2 (severity a'.threat_level)
  unfolding classify
  classify_override config r a = ground arith

  pub assess-config : (c : SafetyController F) (r : Reading F) → (assess c r).0.config ≡ c.config
  unfolding assess
  assess-config c r = refl

  -- An override is required exactly from the level critical on.
  pub assess_override :
      (c : SafetyController F) (r : Reading F)
      → let a = (assess c r).1 in a.requires_override ≡ leb 2 (severity a.threat_level)
  unfolding assess
  assess_override c r =
      let ds =
        compute_derivatives c.config.min_samples_for_deriv (push_sample c.samples (sample_of r)) in
      classify_override c.config r (measured c.config r ds.0 ds.1)

  module _ (laws : IsFloat o) where
    -- Without a derivative there is no surge.
    few-surge :
        (config : SafetyControllerConfig F)
        → detect_nonlinear_surge config (lit 0 0) (lit 0 0) ≡ false
    unfolding detect_nonlinear_surge
    few-surge config = ground (arith, laws.le-lit 0 0 0 0 (omega arith))

    opening_for_share-InLimits :
        (config : SafetyControllerConfig F) (r : Reading F) (share : F)
        → InLimits (opening_for_share config r share)
    unfolding opening_for_share
    opening_for_share-InLimits config r share =
        compute_required_opening-InLimits laws config.valve_config _ _ _ _ _

    classify-IsCoherent :
        (config : SafetyControllerConfig F) (r : Reading F) (a : SafetyAssessment F)
        → a.lockdown_required ≡ false
        → IsCoherent config r (classify config r a)
    unfolding classify
    classify-IsCoherent config r a unlocked = ground (
      arith,
      opening_for_share-InLimits config r (lit 3 1),
      opening_for_share-InLimits config r (lit 6 1),
    )

    -- Under the laws of `IsFloat`, every assessment is coherent, whatever the history: a lockdown
    -- is required exactly at the level imminent, an override exactly from the level critical on;
    -- at imminent the valve closes to the lockdown opening, at normal it stays, and in between the
    -- required opening is within the limits.
    pub assess-IsCoherent :
        (c : SafetyController F) (r : Reading F) → IsCoherent c.config r (assess c r).1
    unfolding assess measured
    assess-IsCoherent c r =
        let ds =
          compute_derivatives c.config.min_samples_for_deriv
            (push_sample c.samples (sample_of r)) in
        classify-IsCoherent c.config r (measured c.config r ds.0 ds.1) refl

    -- Under the laws of `IsFloat`, before there are enough samples for a derivative the level is
    -- imminent exactly if the pressure is at or above the limit, and never critical.
    pub assess_few :
        (c : SafetyController F) (r : Reading F)
        → length (push_sample c.samples (sample_of r)) < c.config.min_samples_for_deriv
        → let level = (assess c r).1.threat_level in
          ((level ≡ threat_imminent) ↔ (c.config.safety_pressure_limit ≤ᶠ r.pressure ≡ true))
          × (level ≢ threat_critical)
    unfolding assess measured
    assess_few c r few =
        rw
          (compute_derivatives_few c.config.min_samples_for_deriv
            (push_sample c.samples (sample_of r)) few)
          (classify_steady c.config r (measured c.config r (lit 0 0) (lit 0 0))
            (few-surge c.config))

  -- At or above the safety limit the level is imminent, whatever the samples before: the valve is to
  -- be locked down.
  pub assess-limit :
      (c : SafetyController F) (r : Reading F)
      → c.config.safety_pressure_limit ≤ᶠ r.pressure ≡ true
      → let a = (assess c r).1 in
        (a.threat_level ≡ threat_imminent)
        × (a.lockdown_required ≡ true)
        × (a.required_opening ≡ c.config.lockdown_opening)
  unfolding assess
  assess-limit c r h = ground arith
