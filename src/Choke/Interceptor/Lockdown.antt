-- ===== src/Choke/Interceptor/Lockdown.antt =====
-- The lockdown of the valve, and the counters of the interceptor.
use mathlib.Core.Path.{subst⁻¹}
use thermal_recovery_flow.Base.{
  ℕ, ◌++◌, replicate, ◌+◌, ◌^◌, ◌≤◌, ◌<◌, ◌≡◌, ◌∙◌, ap, refl, Bool, true, false, ◌&&◌, some, arith,
  if◌then◌else◌, inc64, IsByte,
}
use thermal_recovery_flow.Base.Float.{Float, ◌≤ᶠ◌}
use thermal_recovery_flow.Driftflux.{HydrodynamicsFrame}
use thermal_recovery_flow.Choke.{SafetyAssessment, threat_imminent}
use thermal_recovery_flow.Choke.Controller.Threat.{assess-limit}
use thermal_recovery_flow.Choke.Override.{
  OverridePacket, build_emergency_override, build_lockdown_override,
}
use thermal_recovery_flow.Choke.Sender.{emergency_send}
use thermal_recovery_flow.Choke.Sender.Wire.{emergency_send-wire}
use thermal_recovery_flow.Choke.Override.Packets.{IsWriteOf, build_lockdown_override-IsWriteOf}
use thermal_recovery_flow.Choke.Interceptor.{
  ChokeInterceptor, Moment, ChokeFrame, build_override, choke_frame, emit, assessed, process_frame,
}
use thermal_recovery_flow.Choke.Interceptor.Handled.{
  emergency, handled, process_frame-handled, assessed-severity,
}

module _ {E F : Type 0} ⦃o : Float F⦄ where
  -- The frame carries a packet whose bytes write 0 to the register of the override, at its address.
  pub record IsLockdown (ci : ChokeInterceptor E F) (a : SafetyAssessment F) (p : OverridePacket F)
      (out : ChokeInterceptor E F × ChokeFrame F) : Type 0 where
    pub packet : out.1.override_packet ≡ some p
    pub written :
        IsWriteOf ci.config.controller_config.override_address
          ci.config.controller_config.override_register 0 p.raw_bytes
    pub wire : (k : ℕ) × (out.0.sender.wire ≡ ci.sender.wire ++ replicate k p.raw_bytes)
    pub counted : out.0.lockdown_count ≡ inc64 ci.lockdown_count
    pub opening : out.0.current_opening ≡ a.required_opening

  emit-IsLockdown :
      (ci : ChokeInterceptor E F) (taken : Bool) (a : SafetyAssessment F) (p : OverridePacket F)
      (out : ChokeInterceptor E F × ChokeFrame F)
      → IsLockdown ci a p out
      → IsLockdown ci a p (emit taken out)
  unfolding emit
  emit-IsLockdown ci false a p out v = v
  emit-IsLockdown ci true a p out v = record {
    packet = v.packet;
    written = v.written;
    wire = v.wire;
    counted = v.counted;
    opening = v.opening;
  }

  build_override-lockdown :
      (ci : ChokeInterceptor E F) (m : Moment E) (a : SafetyAssessment F)
      → a.lockdown_required ≡ true
      → let config = ci.config.controller_config in
        let (seq, packet) =
          build_lockdown_override ci.override_seq_num m.now m.elapsed config.override_address
            config.override_register a in
        build_override ci m a
        ≡ (record ci { override_seq_num = seq; lockdown_count = inc64 ci.lockdown_count }, packet)
  unfolding build_override
  build_override-lockdown ci m a locked =
      let config = ci.config.controller_config in
      let (seq, packet) =
        build_lockdown_override ci.override_seq_num m.now m.elapsed config.override_address
          config.override_register a in
      let (seq', packet') =
        build_emergency_override ci.override_seq_num m.now m.elapsed config.override_address
          config.override_register a.required_opening a in
      ap {B = ChokeInterceptor E F × OverridePacket F}
        (λ (b : Bool).
          if b
          then (
            record ci { override_seq_num = seq; lockdown_count = inc64 ci.lockdown_count },
            packet,
          )
          else (
            record ci { override_seq_num = seq'; override_count = inc64 ci.override_count },
            packet',
          ))
        locked

  emergency-IsLockdown :
      (ci : ChokeInterceptor E F) (m : Moment E) (a : SafetyAssessment F) (frame : ChokeFrame F)
      → a.lockdown_required ≡ true
      → IsByte ci.config.controller_config.override_address
      → ci.config.controller_config.override_register < 65536
      → (p : OverridePacket F) × IsLockdown ci a p (emergency ci m a frame)
  unfolding emergency build_override
  emergency-IsLockdown ci m a frame locked address register =
      let config = ci.config.controller_config in
      let good =
        build_lockdown_override-IsWriteOf ci.override_seq_num m.now m.elapsed
          config.override_address config.override_register a address register in
      let made =
        build_lockdown_override ci.override_seq_num m.now m.elapsed config.override_address
          config.override_register a in
      (
        made.1,
        record {
          packet = rw locked refl;
          written = good.0;
          wire =
              subst⁻¹
                (λ b.
                  (k : ℕ) × ((emergency_send (b.0.sender) m.network m.send_time (b.1)).0.wire
                    ≡ ci.sender.wire ++ replicate k made.1.raw_bytes))
                (build_override-lockdown ci m a locked)
                (emergency_send-wire m.network ci.sender made.1 m.send_time);
          counted = rw locked refl;
          opening = refl;
        },
      )

  assessed-limit :
      (ci : ChokeInterceptor E F) (m : Moment E) (h : HydrodynamicsFrame F)
      → ci.controller.config.safety_pressure_limit ≤ᶠ h.pressure ≡ true
      → let a = (assessed ci m h).1 in
        (a.threat_level ≡ threat_imminent)
        × (a.lockdown_required ≡ true)
        × (a.required_opening ≡ ci.controller.config.lockdown_opening)
  unfolding assessed
  assessed-limit ci m h high = assess-limit ci.controller _ high

  -- An enabled interceptor, with an override address of one byte and a register of 16 bits,
  -- answers a pressure at or above the safety limit with a packet whose eight bytes ask the slave with
  -- this address to write 0 to the override register under a checksum that holds; it gives the
  -- connection nothing but copies of these bytes, counts a lockdown, and takes the lockdown opening as
  -- the current one.
  pub process_frame-IsLockdown :
      (ci : ChokeInterceptor E F) (m : Moment E) (h : HydrodynamicsFrame F)
      → ci.config.enabled ≡ true
      → ci.controller.config.safety_pressure_limit ≤ᶠ h.pressure ≡ true
      → IsByte ci.config.controller_config.override_address
      → ci.config.controller_config.override_register < 65536
      → (out : ChokeInterceptor E F × ChokeFrame F) × (p : OverridePacket F) × (process_frame ci m h
          ≡ some out)
        × IsLockdown ci (assessed ci m h).1 p out
        × (out.0.current_opening ≡ ci.controller.config.lockdown_opening)
  unfolding assessed handled
  process_frame-IsLockdown ci m h on high address register =
      let (ci', a) = assessed ci m h in
      let frame = choke_frame ci h a in
      let (imminent, locked, closed) = assessed-limit ci m h high in
      let over : a.requires_override && ci.config.enabled ≡ true =
        ground (arith, assessed-severity ci m h) in
      let (p, v) = emergency-IsLockdown ci' m a frame locked address register in
      let v' = emit-IsLockdown ci' m.output_taken a p _ v in
      let same : handled ci' m a frame ≡ emergency ci' m a frame = rw over refl in
      (
        _,
        p,
        process_frame-handled ci m h ∙ ap (λ out. some (emit m.output_taken out)) same,
        record {
          packet = v'.packet;
          written = v'.written;
          wire = v'.wire;
          counted = v'.counted;
          opening = v'.opening;
        },
        v'.opening ∙ closed,
      )

  emergency-counts :
      (ci : ChokeInterceptor E F) (m : Moment E) (a : SafetyAssessment F) (frame : ChokeFrame F)
      → let ci' = (emergency ci m a frame).0 in
        (ci'.total_frames ≡ ci.total_frames)
        × (ci'.lockdown_count
            ≡ (if a.lockdown_required then inc64 ci.lockdown_count else ci.lockdown_count))
        × (ci'.override_count
            ≡ (if a.lockdown_required then ci.override_count else inc64 ci.override_count))
  unfolding emergency build_override
  emergency-counts ci m a frame = ground arith

  emit-counts :
      (taken : Bool) (out : ChokeInterceptor E F × ChokeFrame F)
      → let ci' = (emit taken out).0 in
        (ci'.total_frames ≡ out.0.total_frames)
        × (ci'.lockdown_count ≡ out.0.lockdown_count)
        × (ci'.override_count ≡ out.0.override_count)
  unfolding emit
  emit-counts true out = (refl, refl, refl)
  emit-counts false out = (refl, refl, refl)

  -- With no more overrides and lockdowns together than frames so far, every frame is counted once,
  -- and there are again no more of them than frames, as long as the frames do not wrap.
  pub process_frame-counts :
      (ci : ChokeInterceptor E F) (m : Moment E) (h : HydrodynamicsFrame F)
      → ci.override_count + ci.lockdown_count ≤ ci.total_frames
      → ci.total_frames + 1 < 2 ^ 64
      → (out : ChokeInterceptor E F × ChokeFrame F) × (process_frame ci m h ≡ some out)
        × (out.0.total_frames ≡ ci.total_frames + 1)
        × (out.0.override_count + out.0.lockdown_count ≤ out.0.total_frames)
  unfolding assessed handled
  process_frame-counts ci m h bound room =
      let (ci', a) = assessed ci m h in
      let frame = choke_frame ci h a in
      let out = handled ci' m a frame in
      (
        _,
        process_frame-handled ci m h,
        ground (arith, emit-counts m.output_taken out, emergency-counts ci' m a frame),
        ground (arith, emit-counts m.output_taken out, emergency-counts ci' m a frame),
      )
