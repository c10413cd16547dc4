-- ===== src/Choke/Controller/Window.antt =====
-- The samples and the counters after any sequence of assessments.
use thermal_recovery_flow.Base.{
  ℕ, ◌+◌, ◌-◌, ◌^◌, ◌≤◌, ◌<◌, ◌≡◌, refl, sym, ap, ◌∙◌, List, [], ◌∷◌, ◌++◌, map, arith, ltb, length,
  length-append, drop, drop-append, drop-drop, length-drop, last_n, foldl, Bool-cases, inl, inr,
}
use mathlib.Core.List.{append_assoc, append-nil}
use thermal_recovery_flow.Base.Float.{Float}
use thermal_recovery_flow.Choke.Controller.Derivatives.{PressureSample}
use thermal_recovery_flow.Choke.Controller.{
  SafetyController, Reading, max_samples, push_sample, sample_of, assess,
}

module _ {F : Type 0} ⦃o : Float F⦄ where
  -- Successive calls of `Assess`.
  pub assess_all : SafetyController F → List (Reading F) → SafetyController F
  assess_all = foldl λ c r. (assess c r).0

  pub length-push_sample :
      (samples : List (PressureSample F)) (x : PressureSample F)
      → length (push_sample samples x) ≤ length samples + 1
  unfolding push_sample
  length-push_sample samples x = ground (
    arith,
    length-append samples (x ∷ []),
    length-drop (length (samples ++ x ∷ []) - max_samples) (samples ++ x ∷ []),
  )

  push_sample_last :
      (samples : List (PressureSample F)) (x : PressureSample F)
      → push_sample samples x ≡ last_n max_samples (samples ++ x ∷ [])
  unfolding push_sample
  push_sample_last samples x =
      let all = samples ++ x ∷ [] in
      elim (Bool-cases (ltb max_samples (length all))) [
        | inl more ↦ rw more
        | inr few ↦
            let none_over : length all - max_samples ≡ 0 = ground arith in
            rw few (rw none_over refl)
      ]

  push_sample-last_n :
      (all : List (PressureSample F)) (x : PressureSample F)
      → push_sample (last_n max_samples all) x ≡ last_n max_samples (all ++ x ∷ [])
  push_sample-last_n all x =
      let k = length all - max_samples in
      let kept = drop k all ++ x ∷ [] in
      let same : kept ≡ drop k (all ++ x ∷ []) = sym (drop-append k all (x ∷ []) (omega arith)) in
      push_sample_last (drop k all) x
      ∙ ap (drop (length kept - max_samples)) same
      ∙ drop-drop (length kept - max_samples) k (all ++ x ∷ [])
      ∙ ap (λ (n : ℕ). drop n (all ++ x ∷ []))
          (omega (
            arith,
            length-append all (x ∷ []),
            length-append (drop k all) (x ∷ []),
            length-drop k all,
          ))

  assess-samples :
      (c : SafetyController F) (r : Reading F)
      → (assess c r).0.samples ≡ push_sample c.samples (sample_of r)
  unfolding assess
  assess-samples c r = refl

  -- A controller that holds the last 64 samples of all that it was given, in their order, does so
  -- after any further assessments.
  pub assess_all-last_n :
      (rs : List (Reading F)) (c : SafetyController F) (all : List (PressureSample F))
      → c.samples ≡ last_n max_samples all
      → (assess_all c rs).samples ≡ last_n max_samples (all ++ map sample_of rs)
  unfolding assess_all
  assess_all-last_n [] c all h = h ∙ ap (last_n max_samples) (sym (append-nil all))
  assess_all-last_n (r ∷ rs) c all h =
      assess_all-last_n rs (assess c r).0 (all ++ sample_of r ∷ []) (
        assess-samples c r
        ∙ ap (λ s. push_sample s (sample_of r)) h
        ∙ push_sample-last_n all (sample_of r))
      ∙ ap (last_n max_samples) (append_assoc all (sample_of r ∷ []) (map sample_of rs))

  assess-counts :
      (c : SafetyController F) (r : Reading F)
      → c.override_count ≤ c.total_assess
      → c.total_assess + 1 < 2 ^ 64
      → let c' = (assess c r).0 in
        (c'.total_assess ≡ c.total_assess + 1)
        × (c'.override_count ≤ c'.total_assess)
        × (c.override_count ≤ c'.override_count)
  unfolding assess
  assess-counts c r p q = elim (Bool-cases ((assess c r).1.requires_override)) [
    | inl override ↦ rw override (omega arith)
    | inr none ↦ rw none (omega arith)
  ]

  -- With no more overrides than calls so far, every further call is counted and there are again no
  -- more overrides than calls, as long as the counters do not wrap; the number of overrides never
  -- falls.
  pub assess_all-counts :
      (rs : List (Reading F)) (c : SafetyController F)
      → c.override_count ≤ c.total_assess
      → c.total_assess + length rs < 2 ^ 64
      → let c' = assess_all c rs in
        (c'.total_assess ≡ c.total_assess + length rs)
        × (c'.override_count ≤ c'.total_assess)
        × (c.override_count ≤ c'.override_count)
  unfolding assess_all
  assess_all-counts [] c p q = omega arith
  assess_all-counts (r ∷ rs) c p q =
      let now = assess-counts c r p (omega arith) in
      omega
        (arith, now, assess_all-counts rs (assess c r).0 (omega (arith, now)) (omega (arith, now)))
