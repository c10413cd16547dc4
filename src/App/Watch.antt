-- ===== src/App/Watch.antt =====
-- The safety controller in the whole application, and which frames it sees.
use mathlib.Core.Path.{subst}
use thermal_recovery_flow.Base.{
  ℕ, ◌+◌, ◌<◌, ◌≡◌, refl, ap, ◌∙◌, true, Option, none, some, List, [], ◌∷◌, ◌++◌, arith, length,
  replicate, inc64,
}
use thermal_recovery_flow.Base.Int.{ℤ, pos, negsuc}
use thermal_recovery_flow.Base.Float.{Float, ◌≤ᶠ◌}
use thermal_recovery_flow.Driftflux.{HydrodynamicsFrame}
use thermal_recovery_flow.Choke.Override.{OverridePacket}
use thermal_recovery_flow.Choke.Override.Packets.{IsWriteOf}
use thermal_recovery_flow.Choke.Interceptor.{ChokeInterceptor, ChokeFrame, Moment, process_frame}
use thermal_recovery_flow.Choke.Interceptor.Lockdown.{process_frame-IsLockdown}
use thermal_recovery_flow.Choke.Interceptor.Loop.{
  process_loop, process_loop-IsKept, process_loop-nil, process_loop-cons, process_frame_returns,
}
use thermal_recovery_flow.Choke.Interceptor.Setup.{
  override_retry_count, new_choke_interceptor, new_choke_interceptor-config,
}
use thermal_recovery_flow.Frame.{Formats}
use thermal_recovery_flow.Frame.Output.{FrameOutput}
use thermal_recovery_flow.Frame.Output as Output
use thermal_recovery_flow.Config.{Config}
use thermal_recovery_flow.App.{
  GatewayApp, Delivery, to_frame_out, to_choke_interceptor, cut, choke_config, app_of, init,
  hand_out,
}

cut-lt : (size : ℕ) (n : ℤ) → 0 < size → cut size n < size
cut-lt size (pos n) h = omega (arith)
cut-lt size (negsuc n) h = omega arith

module _ {E F : Type 0} ⦃o : Float F⦄ where
  -- The answer to a frame: a packet whose bytes, all that is sent, write 0 to the configured register of the configured slave, cut to
  -- 16 and to 8 bits.
  pub record IsClosing (cfg : Config F) (ci : ChokeInterceptor E F) (p : OverridePacket F)
      (out : ChokeInterceptor E F × ChokeFrame F) : Type 0 where
    pub packet : out.1.override_packet ≡ some p
    pub written :
        IsWriteOf
          (cut 256 cfg.choke.override_slave_addr)
          (cut 65536 cfg.choke.override_register)
          0
          p.raw_bytes
    pub wire : (k : ℕ) × (out.0.sender.wire ≡ ci.sender.wire ++ replicate k p.raw_bytes)
    pub counted : out.0.lockdown_count ≡ inc64 ci.lockdown_count

  pub init-app_of :
      (cfg : Config F) (seq size : ℕ)
      → cfg.solver.channel_size ≡ pos size
      → init {E = E} cfg seq ≡ some (app_of cfg seq size)
  unfolding init
  init-app_of cfg seq size e =
      ap
        (λ n. elim n as (λ _. Option (GatewayApp E F)) [
          | negsuc k ↦ none
          | pos k ↦ some (app_of cfg seq k)
        ])
        e

  abbrev watcher : Config F → ℕ → ChokeInterceptor E F
  watcher cfg seq = new_choke_interceptor (choke_config cfg) override_retry_count seq

  watched :
      (cfg : Config F) (ci : ChokeInterceptor E F) (m : Moment E) (h : HydrodynamicsFrame F)
      → ci.config ≡ choke_config cfg
      → ci.controller.config ≡ (choke_config cfg).controller_config
      → cfg.choke.enabled ≡ true
      → cfg.choke.safety_pressure_limit ≤ᶠ h.pressure ≡ true
      → (out : ChokeInterceptor E F × ChokeFrame F) × (p : OverridePacket F) × (process_frame ci m h
          ≡ some out)
        × IsClosing cfg ci p out
  unfolding choke_config
  watched cfg ci m h e f enabled high =
      let (out, p, done, v, opening) =
        process_frame-IsLockdown ci m h (ap (λ c. c.enabled) e ∙ enabled)
          (ap (λ c. c.safety_pressure_limit ≤ᶠ h.pressure) f ∙ high)
          (rw e (cut-lt 256 cfg.choke.override_slave_addr (omega arith)))
          (rw e (cut-lt 65536 cfg.choke.override_register (omega arith))) in
      (
        out,
        p,
        done,
        record {
          packet = v.packet;
          written =
              subst
                (λ c.
                  IsWriteOf c.controller_config.override_address
                    c.controller_config.override_register 0 p.raw_bytes)
                e v.written;
          wire = v.wire;
          counted = v.counted;
        },
      )

  -- For every configuration with the choke enabled and channels of a size that is not negative, `init` makes an
  -- interceptor that no frames stop or make panic, and that answers the next frame it is given at or above the
  -- configured limit with a packet whose eight bytes ask the configured slave to write 0 to the configured register
  -- under a checksum that holds (the address is cut to 8 bits, the register to 16), and gives the connection
  -- nothing but copies of these bytes.
  pub init-IsClosing :
      (cfg : Config F) (seq size : ℕ) (inputs : List (Moment E × Option (HydrodynamicsFrame F)))
      (m : Moment E) (h : HydrodynamicsFrame F)
      → cfg.solver.channel_size ≡ pos size
      → cfg.choke.enabled ≡ true
      → cfg.choke.safety_pressure_limit ≤ᶠ h.pressure ≡ true
      → (app : GatewayApp E F) × (ci : ChokeInterceptor E F) × (out : ChokeInterceptor E F
          × ChokeFrame F)
        × (p : OverridePacket F) × (init cfg seq ≡ some app)
        × (process_loop (app.choke_interceptor.1) inputs ≡ some ci)
        × (process_frame ci m h ≡ some out)
        × IsClosing cfg ci p out
  unfolding app_of
  init-IsClosing cfg seq size inputs m h room enabled high =
      let (ci, e, kept) = process_loop-IsKept inputs (watcher cfg seq) in
      let (same, same') =
        new_choke_interceptor-config E (choke_config cfg) override_retry_count seq in
      let (out, p, done, v) =
        watched cfg ci m h (kept.config ∙ same) (kept.controller ∙ same') enabled high in
      (app_of cfg seq size, ci, out, p, init-app_of cfg seq size room, e, done, v)

module _ {E F : Type 0} ⦃o : Float F⦄ (std : Formats E F) where
  -- The frames that each reader gets.
  abbrev pub shown : List (Delivery E F) → List (Output.Moment E × Option (HydrodynamicsFrame F))
  shown [] = []
  shown (to_frame_out m h ∷ rest) = (m, some h) ∷ shown rest
  shown (to_choke_interceptor m h ∷ rest) = shown rest

  abbrev pub seen : List (Delivery E F) → List (Moment E × Option (HydrodynamicsFrame F))
  seen [] = []
  seen (to_frame_out m h ∷ rest) = seen rest
  seen (to_choke_interceptor m h ∷ rest) = (m, some h) ∷ seen rest

  -- The readers work on lists of their own.
  pub hand_out-split :
      (deliveries : List (Delivery E F)) (out : FrameOutput) (ci : ChokeInterceptor E F)
      → (ci' : ChokeInterceptor E F) × (hand_out std (out, ci) deliveries
          ≡ some (Output.process_loop std out (shown deliveries), ci'))
        × (process_loop ci (seen deliveries) ≡ some ci')
        × (length (shown deliveries) + length (seen deliveries) ≡ length deliveries)
  unfolding hand_out
  hand_out-split [] out ci =
      (ci, rw (Output.process_loop-nil std out) refl, process_loop-nil ci, refl)
  hand_out-split (to_frame_out m h ∷ rest) out ci =
      let (ci', e, f, n) = hand_out-split rest (Output.process_frame std out (m, some h)) ci in
      (ci', rw (Output.process_loop-cons std out (m, some h) (shown rest)) e, f, omega (arith, n))
  hand_out-split (to_choke_interceptor m h ∷ rest) out ci =
      let (answer, done) = process_frame_returns ci m h in
      let (ci', e, f, n) = hand_out-split rest out (answer.0) in
      (
        ci',
        rw (done, hand_out) e,
        rw (process_loop-cons ci m h (seen rest) answer done) f,
        omega (arith, n),
      )
