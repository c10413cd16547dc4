-- ===== src/App/Barrier.antt =====
-- From the bytes of a sensor to the packet that closes the valve.
use thermal_recovery_flow.Base.{ℕ, ◌≡◌, ap, ◌∙◌, true, false, Option, some, List, [], ◌∷◌, ◌++◌, ok}
use thermal_recovery_flow.Base.Int.{pos}
use thermal_recovery_flow.Base.Float.{Float, IsFloat, ◌≤ᶠ◌}
use thermal_recovery_flow.Thermo.{out_of_range}
use thermal_recovery_flow.Driftflux.{HydrodynamicsFrame}
use thermal_recovery_flow.Driftflux.Solver.{solve}
use thermal_recovery_flow.Driftflux.Solver.Answers.{
  not_operating, kelvin, absolute_pressure, solve_inside,
}
use thermal_recovery_flow.Choke.Override.{OverridePacket}
use thermal_recovery_flow.Choke.Interceptor.{ChokeInterceptor, ChokeFrame, Moment, process_frame}
use thermal_recovery_flow.Choke.Interceptor.Loop.{process_loop}
use thermal_recovery_flow.Pipeline.{
  Pipeline, input, decoder_takes, decoder_ends, solver_takes, solver_ends, act_all,
}
use thermal_recovery_flow.Pipeline.Wire.{
  Measurement, IsSent, IsIdle, Arrives, on_wire, sample_of, act_all-Arrives,
}
use thermal_recovery_flow.Config.{Config}
use thermal_recovery_flow.App.{GatewayApp, init}
use thermal_recovery_flow.App.Watch.{IsClosing, init-IsClosing}

module _ {F : Type 0} ⦃o : Float F⦄ where
  -- The steps of the pipeline that carry one response to the solver's frames.
  abbrev pub through : Pipeline F → ℕ → Measurement → Pipeline F
  through p now s = act_all p (
      input (on_wire s)
      ∷ decoder_takes
      ∷ decoder_ends 0 now false
      ∷ solver_takes
      ∷ solver_ends 0 false
      ∷ [])

module _ {E F : Type 0} ⦃o : Float F⦄ (laws : IsFloat o) where
  -- A response with a temperature in the range of the solver becomes a frame in an idle pipeline;
  -- and when its absolute pressure is at or above the configured limit and the choke is enabled, the
  -- interceptor that `init` makes, whatever frames it has handled before, answers this frame, if it
  -- is given it, with a packet whose eight bytes ask the configured slave to write 0 to the configured
  -- register under a checksum that holds, and gives the connection nothing but copies of these bytes.
  pub through-IsClosing :
      (cfg : Config F) (seq size : ℕ) (p : Pipeline F) (now : ℕ) (s : Measurement)
      (inputs : List (Moment E × Option (HydrodynamicsFrame F))) (m : Moment E)
      → IsSent s
      → IsIdle p
      → not_operating (sample_of {F = F} now s) ≡ false
      → out_of_range (kelvin (sample_of {F = F} now s)) ≡ false
      → cfg.solver.channel_size ≡ pos size
      → cfg.choke.enabled ≡ true
      → cfg.choke.safety_pressure_limit ≤ᶠ absolute_pressure (sample_of {F = F} now s) ≡ true
      → (h : HydrodynamicsFrame F) × ((through p now s).hydro_frame_chan
          ≡ p.hydro_frame_chan ++ h ∷ [])
        × (app : GatewayApp E F) × (ci : ChokeInterceptor E F) × (out : ChokeInterceptor E F
            × ChokeFrame F)
        × (packet : OverridePacket F) × (init cfg seq ≡ some app)
        × (process_loop (app.choke_interceptor.1) inputs ≡ some ci)
        × (process_frame ci m h ≡ some out)
        × IsClosing cfg ci packet out
  through-IsClosing cfg seq size p now s inputs m sent idle warm inside room enabled high =
      let (h, solved, pressure) =
        solve_inside laws p.solver_config (sample_of {F = F} now s) warm inside in
      let sends : Arrives p (through p now s) (solve p.solver_config (sample_of now s)) =
        act_all-Arrives p now s sent idle in
      let arrived : Arrives p (through p now s) (ok h) = rw solved at sends in
      let (app, ci, out, packet, made, ran, answered, closing) =
        init-IsClosing cfg seq size inputs m h room enabled
          (ap (λ x. cfg.choke.safety_pressure_limit ≤ᶠ x) pressure ∙ high) in
      (h, arrived.0, app, ci, out, packet, made, ran, answered, closing)
