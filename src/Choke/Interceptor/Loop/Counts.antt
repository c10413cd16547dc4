-- ===== src/Choke/Interceptor/Loop/Counts.antt =====
-- internal/choke/interceptor.go: the counters that `processLoop` keeps.
use thermal_recovery_flow.Base.{
  ◌+◌, ◌^◌, ◌<◌, ◌≤◌, ◌≡◌, refl, Option, none, some, List, [], ◌∷◌, arith,
}
use thermal_recovery_flow.Base.Float.{Float}
use thermal_recovery_flow.Driftflux.{HydrodynamicsFrame}
use thermal_recovery_flow.Choke.Interceptor.{ChokeInterceptor, Moment}
use thermal_recovery_flow.Choke.Interceptor.Loop.{
  frames, loop_round, process_loop, process_loop-cons,
}
use thermal_recovery_flow.Choke.Interceptor.Lockdown.{process_frame-counts}

module _ {E F : Type 0} ⦃o : Float F⦄ where
  -- With no more overrides and lockdowns together than frames so far, the loop does not panic, counts
  -- every frame that it receives once and nothing for a nil frame, and there are again no more
  -- overrides and lockdowns together than frames, as long as the frames do not wrap.
  pub process_loop-counts :
      (inputs : List (Moment E × Option (HydrodynamicsFrame F))) (ci : ChokeInterceptor E F)
      → ci.override_count + ci.lockdown_count ≤ ci.total_frames
      → ci.total_frames + frames inputs < 2 ^ 64
      → (ci' : ChokeInterceptor E F) × (process_loop ci inputs ≡ some ci')
        × (ci'.total_frames ≡ ci.total_frames + frames inputs)
        × (ci'.override_count + ci'.lockdown_count ≤ ci'.total_frames)
  unfolding process_loop loop_round
  process_loop-counts [] ci bound room = (ci, refl, omega arith, bound)
  process_loop-counts ((m, none) ∷ rest) ci bound room = process_loop-counts rest ci bound room
  process_loop-counts ((m, some h) ∷ rest) ci bound room =
      let (out, e, total, bound') = process_frame-counts ci m h bound (omega arith) in
      let (ci', e', total', bound'') =
        process_loop-counts rest (out.0) bound' (omega (arith, total)) in
      (ci', rw (process_loop-cons ci m h rest out e) e', omega (arith, total, total'), bound'')
