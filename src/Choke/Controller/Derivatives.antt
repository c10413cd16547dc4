-- ===== src/Choke/Controller/Derivatives.antt =====
-- internal/choke/controller.go: the sample type and the two regressions over the last ten samples.
use thermal_recovery_flow.Base.{
  ℕ, ◌+◌, ◌-◌, min, List, [], ◌∷◌, if◌then◌else◌, ltb, lt→ltb, ◌<◌, ◌≡◌, refl, length, drop,
}
use thermal_recovery_flow.Base.Int.{sub_ℕ}
use thermal_recovery_flow.Base.Float.{Float, ◌+ᶠ◌, ◌-ᶠ◌, ◌*ᶠ◌, ◌/ᶠ◌, ◌<ᶠ◌}

-- A time is its number of nanoseconds, and `t.Sub(u)` their difference.
pub record PressureSample (F : Type 0) : Type 0 where
  pub timestamp : ℕ
  pub pressure : F
  pub temperature : F
  pub vapor_flux : F

-- The four sums of a regression of `v` over `t`.
record Sums (F : Type 0) : Type 0 where
  v : F
  t : F
  vt : F
  t2 : F

module _ {F : Type 0} ⦃o : Float F⦄ where
  open o use {lit, abs, seconds}

  -- One round of a summing loop.
  add_point : F → F → Sums F → Sums F
  add_point t v s = record { v = s.v +ᶠ v; t = s.t +ᶠ t; vt = s.vt +ᶠ v *ᶠ t; t2 = s.t2 +ᶠ t *ᶠ t }

  abbrev no_sums : Sums F
  no_sums = record { v = lit 0 0; t = lit 0 0; vt = lit 0 0; t2 = lit 0 0 }

  -- What follows the loop: the slope over `count` points.
  slope : ℕ → Sums F → F
  slope n s =
      let count = lit n 0 in
      let denom = count *ᶠ s.t2 -ᶠ s.t *ᶠ s.t in
      if abs denom <ᶠ lit 1 30 then lit 0 0 else (count *ᶠ s.vt -ᶠ s.v *ᶠ s.t) /ᶠ denom

  -- The loop of `computeFirstDerivative`, over the samples from index `start` on.
  sum_samples : ℕ → List (PressureSample F) → Sums F → Sums F
  unfolding add_point
  sum_samples t0 [] s = s
  sum_samples t0 (x ∷ rest) s =
      sum_samples t0 rest (add_point (seconds (sub_ℕ x.timestamp t0)) x.pressure s)

  start_time : List (PressureSample F) → ℕ
  start_time [] = 0
  start_time (x ∷ rest) = x.timestamp

  pub compute_first_derivative : List (PressureSample F) → F
  unfolding sum_samples start_time slope
  compute_first_derivative samples =
      let n = length samples in
      if ltb n 2
      then lit 0 0
      else let window_size = min n 10 in
        let window = drop (n - window_size) samples in
        slope window_size (sum_samples (start_time window) window no_sums)

  -- The loop that fills `firstDerivs`; `x` is the sample before the rest.
  first_derivs : PressureSample F → List (PressureSample F) → List F
  first_derivs x [] = []
  first_derivs x (y ∷ rest) =
      let dt = seconds (sub_ℕ y.timestamp x.timestamp) in
      let more = first_derivs y rest in
      if o.le dt (lit 0 0) then more else (y.pressure -ᶠ x.pressure) /ᶠ dt ∷ more

  window_derivs : List (PressureSample F) → List F
  unfolding first_derivs
  window_derivs [] = []
  window_derivs (x ∷ rest) = first_derivs x rest

  -- The loop over `firstDerivs` from index `i` on.
  sum_derivs : ℕ → List F → Sums F → Sums F
  unfolding add_point
  sum_derivs i [] s = s
  sum_derivs i (d ∷ rest) s = sum_derivs (i + 1) rest (add_point (lit i 0) d s)

  pub compute_second_derivative : List (PressureSample F) → F
  unfolding window_derivs sum_derivs slope
  compute_second_derivative samples =
      let n = length samples in
      let window_size = min n 10 in
      if ltb n 3
      then lit 0 0
      else if ltb window_size 3
      then lit 0 0
      else let derivs = window_derivs (drop (n - window_size) samples) in
        if ltb (length derivs) 2
        then lit 0 0
        else slope (length derivs) (sum_derivs 0 derivs no_sums)

  -- `computeDerivatives`; the first argument is `MinSamplesForDeriv`.
  pub compute_derivatives : ℕ → List (PressureSample F) → F × F
  compute_derivatives min_samples samples =
      if ltb (length samples) min_samples
      then (lit 0 0, lit 0 0)
      else (compute_first_derivative samples, compute_second_derivative samples)

  pub compute_derivatives_few :
      (min_samples : ℕ) (samples : List (PressureSample F))
      → length samples < min_samples
      → compute_derivatives min_samples samples ≡ (lit 0 0, lit 0 0)
  unfolding compute_derivatives
  compute_derivatives_few min_samples samples few = rw (lt→ltb _ _ few) refl
