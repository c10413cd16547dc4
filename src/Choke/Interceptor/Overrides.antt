-- ===== src/Choke/Interceptor/Overrides.antt =====
-- When a frame overrides the valve, what is sent then, and that nothing panics.
use thermal_recovery_flow.Base.{
  ℕ, List, ◌++◌, replicate, ◌+◌, ◌≡◌, ◌↔◌, ◌∙◌, ap, refl, Bool, true, false, ◌&&◌, not, none, some,
  arith, if◌then◌else◌, u32, inc64, Bool-cases, inl, inr,
}
use thermal_recovery_flow.Base.Float.{Float}
use thermal_recovery_flow.Driftflux.{HydrodynamicsFrame}
use thermal_recovery_flow.Choke.{SafetyAssessment}
use thermal_recovery_flow.Choke.Override.{
  OverridePacket, build_emergency_override, build_lockdown_override,
}
use thermal_recovery_flow.Choke.Sender.{OverrideSender, emergency_send}
use thermal_recovery_flow.Choke.Sender.Queue.{emergency_send-counts}
use thermal_recovery_flow.Choke.Sender.Wire.{emergency_send-wire}
use thermal_recovery_flow.Choke.Interceptor.Handled.{emergency, handled, process_frame-handled}
use thermal_recovery_flow.Choke.Interceptor.{
  ChokeInterceptor, Moment, ChokeFrame, build_override, choke_frame, emit, assessed, process_frame,
}

counted_once :
    {E F : Type 0} (success : Bool) (s : OverrideSender E F) (w : List (List ℕ))
    → record s {
      sent_count = if success then inc64 s.sent_count else s.sent_count;
      fail_count = if success then s.fail_count else inc64 s.fail_count;
      wire = w;
    }
      ≡ (if success
          then record s { sent_count = inc64 s.sent_count; wire = w }
          else record s { fail_count = inc64 s.fail_count; wire = w })
counted_once true s w = refl
counted_once false s w = refl

module _ {E F : Type 0} ⦃o : Float F⦄ where
  -- What a frame with the assessment `a` does, if it overrides and if it does not.
  pub record IsHandled (ci : ChokeInterceptor E F) (over : Bool) (a : SafetyAssessment F)
      (out : ChokeInterceptor E F × ChokeFrame F) : Type 0 where
    pub assessment : out.1.safety_assessment ≡ a
    pub opening : out.0.current_opening ≡ (if over then a.required_opening else ci.current_opening)
    pub packet : (out.1.override_packet ≡ none) ↔ (over ≡ false)
    pub sender : out.0.sender ≡ (
        if over
        then (if out.1.override_sent
            then record ci.sender {
              sent_count = inc64 ci.sender.sent_count;
              wire = out.0.sender.wire;
            }
            else record ci.sender {
              fail_count = inc64 ci.sender.fail_count;
              wire = out.0.sender.wire;
            })
        else ci.sender)
    pub wire :
        over ≡ true
        → (p : OverridePacket F) × (k : ℕ) × (out.1.override_packet ≡ some p)
          × (out.0.sender.wire ≡ ci.sender.wire ++ replicate k p.raw_bytes)
    pub unsent : over ≡ false → out.1.override_sent ≡ false
    pub overrides :
        out.0.override_count
        ≡ (if over && not a.lockdown_required then inc64 ci.override_count else ci.override_count)
    pub lockdowns :
        out.0.lockdown_count
        ≡ (if over && a.lockdown_required then inc64 ci.lockdown_count else ci.lockdown_count)
    pub numbered :
        out.0.override_seq_num
        ≡ (if over then u32 (ci.override_seq_num + 1) else ci.override_seq_num)
    pub config : out.0.config ≡ ci.config

  -- What becomes of the interceptor when the packet is built.
  build_override-counts :
      (ci : ChokeInterceptor E F) (m : Moment E) (a : SafetyAssessment F)
      → let ci' = (build_override ci m a).0 in
        (ci'.sender ≡ ci.sender)
        × (ci'.config ≡ ci.config)
        × (ci'.override_seq_num ≡ u32 (ci.override_seq_num + 1))
        × (ci'.override_count
            ≡ (if not a.lockdown_required then inc64 ci.override_count else ci.override_count))
        × (ci'.lockdown_count
            ≡ (if a.lockdown_required then inc64 ci.lockdown_count else ci.lockdown_count))
  unfolding build_override build_lockdown_override build_emergency_override
  build_override-counts ci m a = ground arith

  emergency-IsHandled :
      (ci : ChokeInterceptor E F) (m : Moment E) (a : SafetyAssessment F) (frame : ChokeFrame F)
      → frame.safety_assessment ≡ a
      → IsHandled ci true a (emergency ci m a frame)
  unfolding emergency
  emergency-IsHandled ci m a frame r =
      let made = build_override ci m a in
      let (same, config, seq, overrides, lockdowns) = build_override-counts ci m a in
      let counts = emergency_send-counts made.0.sender m.network m.send_time made.1 in
      let (sent, result) = emergency_send made.0.sender m.network m.send_time made.1 in
      let success = result.success in
      record {
        assessment = r;
        opening = refl;
        packet = (λ h. ground arith, λ h. ground arith);
        sender =
            counts
            ∙ ap {A = OverrideSender E F}
                (λ s. record s {
                  sent_count = if success then inc64 s.sent_count else s.sent_count;
                  fail_count = if success then s.fail_count else inc64 s.fail_count;
                  wire = sent.wire;
                })
                same
            ∙ counted_once success ci.sender sent.wire;
        wire = λ _.
            let (k, copies) = emergency_send-wire m.network made.0.sender made.1 m.send_time in
            (made.1, k, refl, copies ∙ ap (λ s. s.wire ++ replicate k made.1.raw_bytes) same);
        unsent = λ e. cc;
        overrides = overrides;
        lockdowns = lockdowns;
        numbered = seq;
        config = config;
      }

  handled-IsHandled :
      (ci : ChokeInterceptor E F) (m : Moment E) (a : SafetyAssessment F) (frame : ChokeFrame F)
      → frame.override_packet ≡ none
      → frame.override_sent ≡ false
      → frame.safety_assessment ≡ a
      → IsHandled ci (a.requires_override && ci.config.enabled) a (handled ci m a frame)
  unfolding handled
  handled-IsHandled ci m a frame p q r =
      elim (Bool-cases (a.requires_override && ci.config.enabled)) [
        | inl over ↦ rw over (emergency-IsHandled ci m a frame r)
        | inr none_over ↦ rw none_over (record {
          assessment = r;
          opening = refl;
          packet = (λ _. refl, λ _. p);
          sender = refl;
          wire = λ h. cc;
          unsent = λ _. q;
          overrides = refl;
          lockdowns = refl;
          numbered = refl;
          config = refl;
        })
      ]

  emit-IsHandled :
      (ci : ChokeInterceptor E F) (over taken : Bool) (a : SafetyAssessment F)
      (out : ChokeInterceptor E F × ChokeFrame F)
      → IsHandled ci over a out
      → IsHandled ci over a (emit taken out)
  unfolding emit
  emit-IsHandled ci over false a out v = v
  emit-IsHandled ci over true a out v = record {
    assessment = v.assessment;
    opening = v.opening;
    packet = v.packet;
    sender = v.sender;
    wire = v.wire;
    unsent = v.unsent;
    overrides = v.overrides;
    lockdowns = v.lockdowns;
    numbered = v.numbered;
    config = v.config;
  }

  -- Every frame is handled without a panic, whatever the state of the sender. An override moves the current opening
  -- to the required one whether or not the packet was sent, counts once as an override or as a lockdown, and takes
  -- the next sequence number; of the sender it moves only the count of the sent or of the failed packets, as the
  -- frame says, and gives the connection nothing but copies of the frame's packet. Without one the frame has no packet and is not marked as sent, and the opening, the sender and these
  -- counts stay. The configuration stays in any case.
  pub process_frame-IsHandled :
      (ci : ChokeInterceptor E F) (m : Moment E) (h : HydrodynamicsFrame F)
      → let a = (assessed ci m h).1 in
        (out : ChokeInterceptor E F × ChokeFrame F) × (process_frame ci m h ≡ some out)
        × IsHandled ci (a.requires_override && ci.config.enabled) a out
  unfolding assessed choke_frame
  process_frame-IsHandled ci m h =
      let (ci', a) = assessed ci m h in
      let frame = choke_frame ci h a in
      let v = handled-IsHandled ci' m a frame refl refl refl in
      let v' = emit-IsHandled ci' (a.requires_override && ci.config.enabled) m.output_taken a _ v in
      (
        _,
        process_frame-handled ci m h,
        record {
          assessment = v'.assessment;
          opening = v'.opening;
          packet = v'.packet;
          sender = v'.sender;
          wire = v'.wire;
          unsent = v'.unsent;
          overrides = v'.overrides;
          lockdowns = v'.lockdowns;
          numbered = v'.numbered;
          config = v'.config;
        },
      )
