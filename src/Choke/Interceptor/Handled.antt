-- ===== src/Choke/Interceptor/Handled.antt =====
-- internal/choke/interceptor.go: the two ways that a frame goes, with an override and without.
use thermal_recovery_flow.Base.{
  ◌≡◌, refl, true, ◌&&◌, some, arith, if◌then◌else◌, leb, Bool-cases, inl, inr,
}
use thermal_recovery_flow.Base.Float.{Float}
use thermal_recovery_flow.Driftflux.{HydrodynamicsFrame}
use thermal_recovery_flow.Choke.{ThreatLevel, severity, SafetyAssessment}
use thermal_recovery_flow.Choke.Controller.Threat.{assess_override}
use thermal_recovery_flow.Choke.Override.{OverridePacket}
use thermal_recovery_flow.Choke.Sender.{emergency_send}
use thermal_recovery_flow.Choke.Interceptor.{
  ChokeInterceptor, Moment, ChokeFrame, build_override, send_override, override_valve, choke_frame,
  emit, assessed, answer, process_frame,
}

module _ {E F : Type 0} ⦃o : Float F⦄ where
  -- An override as it goes through `EmergencySend`.
  unfoldable pub emergency :
      ChokeInterceptor E F
      → Moment E
      → SafetyAssessment F
      → ChokeFrame F
      → ChokeInterceptor E F × ChokeFrame F
  unfolding build_override
  emergency ci m a frame =
      let (ci', packet) = build_override ci m a in
      let (sender', result) = emergency_send ci'.sender m.network m.send_time packet in
      (
        record ci' { sender = sender'; current_opening = a.required_opening },
        record frame { override_sent = result.success; override_packet = some packet },
      )

  send_override-emergency :
      (ci : ChokeInterceptor E F) (m : Moment E) (level : ThreatLevel) (p : OverridePacket F)
      → leb 2 (severity level) ≡ true
      → let (sender', result) = emergency_send ci.sender m.network m.send_time p in
        send_override ci m level p ≡ some (record ci { sender = sender' }, result.success)
  unfolding send_override
  send_override-emergency ci m level p h = rw h refl

  override_valve-emergency :
      (ci : ChokeInterceptor E F) (m : Moment E) (a : SafetyAssessment F) (frame : ChokeFrame F)
      → leb 2 (severity a.threat_level) ≡ true
      → override_valve ci m a frame ≡ some (emergency ci m a frame)
  unfolding override_valve emergency
  override_valve-emergency ci m a frame h =
      let made = build_override ci m a in
      rw (send_override-emergency made.0 m a.threat_level made.1 h, override_valve) refl

  unfoldable pub handled :
      ChokeInterceptor E F
      → Moment E
      → SafetyAssessment F
      → ChokeFrame F
      → ChokeInterceptor E F × ChokeFrame F
  handled ci m a frame =
      if a.requires_override && ci.config.enabled then emergency ci m a frame else (ci, frame)

  answer-handled :
      (ci : ChokeInterceptor E F) (m : Moment E) (a : SafetyAssessment F) (frame : ChokeFrame F)
      → a.requires_override ≡ leb 2 (severity a.threat_level)
      → answer ci m a frame ≡ some (handled ci m a frame)
  unfolding answer handled
  answer-handled ci m a frame h = elim (Bool-cases (a.requires_override && ci.config.enabled)) [
    | inl over ↦
        let grave : leb 2 (severity a.threat_level) ≡ true = ground arith in
        rw over (override_valve-emergency ci m a frame grave)
    | inr none_over ↦ rw none_over refl
  ]

  pub assessed-severity :
      (ci : ChokeInterceptor E F) (m : Moment E) (h : HydrodynamicsFrame F)
      → let a = (assessed ci m h).1 in a.requires_override ≡ leb 2 (severity a.threat_level)
  unfolding assessed
  assessed-severity ci m h = assess_override ci.controller _

  pub process_frame-handled :
      (ci : ChokeInterceptor E F) (m : Moment E) (h : HydrodynamicsFrame F)
      → let (ci', a) = assessed ci m h in
        process_frame ci m h ≡ some (emit m.output_taken (handled ci' m a (choke_frame ci h a)))
  unfolding process_frame
  process_frame-handled ci m h =
      let (ci', a) = assessed ci m h in
      rw (answer-handled ci' m a (choke_frame ci h a) (assessed-severity ci m h), process_frame)
        refl
