-- ===== src/Choke/Interceptor/Loop.antt =====
-- internal/choke/interceptor.go: `Start`, `Stop` and `processLoop`.
pub mod Counts
use thermal_recovery_flow.Base.{
  ℕ, ◌+◌, ◌≡◌, refl, ◌∙◌, Bool, true, false, ◌&&◌, Option, none, some, List, [], ◌∷◌, arith,
  if◌then◌else◌,
}
use thermal_recovery_flow.Base.Float.{Float}
use thermal_recovery_flow.Driftflux.{HydrodynamicsFrame}
use thermal_recovery_flow.Choke.{SafetyAssessment}
use thermal_recovery_flow.Choke.Controller.Threat.{assess-config}
use thermal_recovery_flow.Choke.Sender.{OverrideSender}
use thermal_recovery_flow.Choke.Sender as Sender
use thermal_recovery_flow.Choke.Interceptor.{
  ChokeInterceptor, ChokeFrame, Moment, build_override, choke_frame, emit, assessed, process_frame,
}
use thermal_recovery_flow.Choke.Interceptor.Handled.{emergency, handled, process_frame-handled}

module _ {E F : Type 0} ⦃o : Float F⦄ where
  -- `Start` and `Stop`, on the flag `running` and the interceptor, without the goroutines.
  pub start : Bool × ChokeInterceptor E F → Bool × ChokeInterceptor E F
  start (running, ci) =
      if running
      then (running, ci)
      else (true, if ci.config.enabled then record ci { sender = Sender.start ci.sender } else ci)

  pub stop : Bool × ChokeInterceptor E F → Bool × ChokeInterceptor E F
  stop (running, ci) =
      if running
      then (false, if ci.config.enabled then record ci { sender = Sender.stop ci.sender } else ci)
      else (running, ci)

  -- A round of `processLoop`, with `none` for a nil frame; the answer `none` is a panic.
  pub loop_round :
      ChokeInterceptor E F
      → Moment E × Option (HydrodynamicsFrame F)
      → Option (ChokeInterceptor E F)
  loop_round ci (m, none) = some ci
  loop_round ci (m, some h) = elim (process_frame ci m h) [ none ↦ none | some out ↦ some (out.0) ]

  -- `processLoop` on the frames that it receives while it runs.
  pub process_loop :
      ChokeInterceptor E F
      → List (Moment E × Option (HydrodynamicsFrame F))
      → Option (ChokeInterceptor E F)
  unfolding loop_round
  process_loop ci [] = some ci
  process_loop ci (i ∷ rest) = elim (loop_round ci i) [
    | none ↦ none
    | some ci' ↦ process_loop ci' rest
  ]

  -- The frames among the inputs.
  abbrev pub frames : List (Moment E × Option (HydrodynamicsFrame F)) → ℕ
  frames [] = 0
  frames ((m, none) ∷ rest) = frames rest
  frames ((m, some h) ∷ rest) = 1 + frames rest

  -- What the loop leaves as it was.
  pub record IsKept (ci ci' : ChokeInterceptor E F) : Type 0 where
    pub config : ci'.config ≡ ci.config
    pub controller : ci'.controller.config ≡ ci.controller.config

  IsKept-trans : {a b c : ChokeInterceptor E F} → IsKept a b → IsKept b c → IsKept a c
  IsKept-trans v w = record {
    config = w.config ∙ v.config;
    controller = w.controller ∙ v.controller;
  }

  emergency-IsKept :
      (ci : ChokeInterceptor E F) (m : Moment E) (a : SafetyAssessment F) (frame : ChokeFrame F)
      → IsKept ci (emergency ci m a frame).0
  unfolding emergency build_override
  emergency-IsKept ci m a frame = ground arith

  handled-IsKept :
      (ci : ChokeInterceptor E F) (m : Moment E) (a : SafetyAssessment F) (frame : ChokeFrame F)
      → IsKept ci (handled ci m a frame).0
  unfolding handled
  handled-IsKept ci m a frame =
      elim (a.requires_override && ci.config.enabled)
        as (λ b. IsKept ci (if b then emergency ci m a frame else (ci, frame)).0) [
          | true ↦ emergency-IsKept ci m a frame
          | false ↦ record { config = refl; controller = refl }
        ]

  emit-IsKept :
      (ci : ChokeInterceptor E F) (taken : Bool) (out : ChokeInterceptor E F × ChokeFrame F)
      → IsKept ci (out.0)
      → IsKept ci (emit taken out).0
  unfolding emit
  emit-IsKept ci true out v = record { config = v.config; controller = v.controller }
  emit-IsKept ci false out v = v

  -- A round neither panics nor changes a configuration.
  pub loop_round-IsKept :
      (ci : ChokeInterceptor E F) (i : Moment E × Option (HydrodynamicsFrame F))
      → (ci' : ChokeInterceptor E F) × (loop_round ci i ≡ some ci') × IsKept ci ci'
  unfolding loop_round assessed
  loop_round-IsKept ci (m, none) = (ci, refl, record { config = refl; controller = refl })
  loop_round-IsKept ci (m, some h) =
      let (ci', a) = assessed ci m h in
      let out = handled ci' m a (choke_frame ci h a) in
      let v = handled-IsKept ci' m a (choke_frame ci h a) in
      let w : IsKept ci (out.0) = record {
        config = v.config;
        controller = v.controller ∙ assess-config ci.controller _;
      } in
      (
        (emit m.output_taken out).0,
        rw (process_frame-handled ci m h, loop_round) refl,
        emit-IsKept ci m.output_taken out w,
      )

  pub process_loop-IsKept :
      (inputs : List (Moment E × Option (HydrodynamicsFrame F))) (ci : ChokeInterceptor E F)
      → (ci' : ChokeInterceptor E F) × (process_loop ci inputs ≡ some ci') × IsKept ci ci'
  unfolding process_loop
  process_loop-IsKept [] ci = (ci, refl, record { config = refl; controller = refl })
  process_loop-IsKept (i ∷ rest) ci =
      let (ci₁, e₁, v₁) = loop_round-IsKept ci i in
      let (ci₂, e₂, v₂) = process_loop-IsKept rest ci₁ in
      (ci₂, rw (e₁, process_loop) e₂, IsKept-trans v₁ v₂)

  -- What one frame leaves, without the frame that is handed on.
  pub process_frame_returns :
      (ci : ChokeInterceptor E F) (m : Moment E) (h : HydrodynamicsFrame F)
      → (out : ChokeInterceptor E F × ChokeFrame F) × (process_frame ci m h ≡ some out)
  process_frame_returns ci m h = (_, process_frame-handled ci m h)

  pub process_loop-nil : (ci : ChokeInterceptor E F) → process_loop ci [] ≡ some ci
  unfolding process_loop
  process_loop-nil ci = refl

  pub process_loop-cons :
      (ci : ChokeInterceptor E F) (m : Moment E) (h : HydrodynamicsFrame F)
      (rest : List (Moment E × Option (HydrodynamicsFrame F)))
      (out : ChokeInterceptor E F × ChokeFrame F)
      → process_frame ci m h ≡ some out
      → process_loop ci ((m, some h) ∷ rest) ≡ process_loop (out.0) rest
  unfolding process_loop loop_round
  process_loop-cons ci m h rest out e = rw (e, process_loop, loop_round) refl

  -- The loop has ended, and so has the sender of an enabled interceptor.
  pub record IsEnded (c : Bool × ChokeInterceptor E F) : Type 0 where
    pub loop_ended : c.0 ≡ false
    pub sender_ended : (c.1).config.enabled ≡ true → (c.1).sender.running ≡ false

  pub stop-IsEnded : (ci : ChokeInterceptor E F) → IsEnded (stop (true, ci))
  unfolding stop
  stop-IsEnded ci = ground (arith, Sender.stop-running ci.sender)

  pub start_lem : (ci : ChokeInterceptor E F) → (start (false, ci)).0 ≡ true
  unfolding start
  start_lem ci = refl
