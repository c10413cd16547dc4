-- ===== src/Thermo/Saturation.antt =====
-- When the saturation functions answer, and the range of the saturation temperature.
use Prim.Native.String.{String}
use thermal_recovery_flow.Base.{
  ℕ, zero, suc, ◌≡◌, refl, Bool, true, false, not, ◌||◌, arith, if◌then◌else◌, ok, err, is_ok,
  Bool-cases, inl, inr,
}
use thermal_recovery_flow.Base.Float.{Float, IsFloat, ◌<ᶠ◌, ◌*ᶠ◌}
use thermal_recovery_flow.Thermo.{
  ThermoError, err_pressure_out_of_range, err_temp_out_of_range, saturated, out_of_range,
  saturation_pressure, saturation_temperature, saturated_liquid_density, saturated_vapor_density,
  saturated_liquid_enthalpy, saturated_vapor_enthalpy, clamp_nu, nu_round, nu_rounds, critical_temp,
  triple_point_press, critical_press,
}

module _ {F : Type 0} ⦃o : Float F⦄ where
  open o use {lit}

  is_ok-if :
      (b : Bool) (e : ThermoError) (value : F) → is_ok (if b then err e else ok value) ≡ not b
  is_ok-if true e value = refl
  is_ok-if false e value = refl

  saturated-is_ok :
      (detail : String) (t value : F) → is_ok (saturated detail t value) ≡ not (out_of_range t)
  unfolding saturated
  saturated-is_ok detail t value = is_ok-if (out_of_range t) _ value

  saturated_inside :
      (detail : String) (t value : F) → out_of_range t ≡ false → saturated detail t value ≡ ok value
  unfolding saturated
  saturated_inside detail t value h = rw h refl

  pub saturated_liquid_density_inside :
      (t : F) → out_of_range t ≡ false → (v : F) × (saturated_liquid_density t ≡ ok v)
  unfolding saturated_liquid_density
  saturated_liquid_density_inside t h = (_, saturated_inside _ t _ h)

  pub saturated_vapor_density_inside :
      (t : F) → out_of_range t ≡ false → (v : F) × (saturated_vapor_density t ≡ ok v)
  unfolding saturated_vapor_density
  saturated_vapor_density_inside t h = (_, saturated_inside _ t _ h)

  pub saturated_liquid_enthalpy_inside :
      (t : F) → out_of_range t ≡ false → (v : F) × (saturated_liquid_enthalpy t ≡ ok v)
  unfolding saturated_liquid_enthalpy
  saturated_liquid_enthalpy_inside t h = (_, saturated_inside _ t _ h)

  pub saturated_vapor_enthalpy_inside :
      (t : F) → out_of_range t ≡ false → (v : F) × (saturated_vapor_enthalpy t ≡ ok v)
  unfolding saturated_vapor_enthalpy
  saturated_vapor_enthalpy_inside t h = (_, saturated_inside _ t _ h)

  pub saturated_liquid_density_outside :
      (t : F)
      → out_of_range t ≡ true
      → saturated_liquid_density t
        ≡ err (record { type = err_temp_out_of_range; detail = "temperature out of range" })
  unfolding saturated_liquid_density saturated
  saturated_liquid_density_outside t h = rw h refl

  -- All saturation properties of a temperature are defined on the same range: each succeeds exactly
  -- when the temperature is not below the triple point and not above the critical point.
  pub saturated_range :
      (t : F)
      → let inside = not (out_of_range t) in
        (is_ok (saturation_pressure t) ≡ inside)
        × (is_ok (saturated_liquid_density t) ≡ inside)
        × (is_ok (saturated_vapor_density t) ≡ inside)
        × (is_ok (saturated_liquid_enthalpy t) ≡ inside)
        × (is_ok (saturated_vapor_enthalpy t) ≡ inside)
  unfolding saturation_pressure saturated_liquid_density saturated_vapor_density
      saturated_liquid_enthalpy saturated_vapor_enthalpy
  saturated_range t = (
    saturated-is_ok _ t _,
    saturated-is_ok _ t _,
    saturated-is_ok _ t _,
    saturated-is_ok _ t _,
    saturated-is_ok _ t _,
  )

  abbrev pub InNu : F → Type 0
  InNu nu = (nu <ᶠ lit 422 3 ≡ false) × (lit 99999 5 <ᶠ nu ≡ false)

  InNu-if :
      (b c d : Bool) (x y : F)
      → InNu x
      → InNu y
      → let r : F × Bool = if b then (x, true) else if c then (x, true) else (y, d) in InNu (r.0)
  InNu-if true c d x y hx hy = hx
  InNu-if false true d x y hx hy = hx
  InNu-if false false d x y hx hy = hy

  module _ (laws : IsFloat o) where
    open laws use {lt_irrefl, lt-lit}

    clamp_nu-InNu : (nu : F) → InNu (clamp_nu nu)
    unfolding clamp_nu
    clamp_nu-InNu nu =
        ground (
          arith,
          lt_irrefl (lit 422 3),
          lt_irrefl (lit 99999 5),
          lt-lit 422 3 99999 5 (omega arith),
        )

    nu_round-InNu : (p nu : F) → InNu nu → InNu (nu_round p nu).0
    unfolding nu_round
    nu_round-InNu p nu h = InNu-if _ _ _ _ _ h (clamp_nu-InNu _)

    nu_rounds-InNu : (p : F) (left : ℕ) (nu : F) → InNu nu → InNu (nu_rounds p left nu)
    unfolding nu_rounds
    nu_rounds-InNu p zero nu h = h
    nu_rounds-InNu p (suc left) nu h = elim (Bool-cases ((nu_round p nu).1)) [
      | inl done ↦ rw done (nu_round-InNu p nu h)
      | inr more ↦ rw more (nu_rounds-InNu p left (nu_round p nu).0 (nu_round-InNu p nu h))
    ]

    -- Newton's method stops. Under the laws of `IsFloat`, its answer is the critical temperature
    -- times a ratio that is neither below 0.422 nor above 0.99999, in the range of pressures;
    -- outside of it there is none.
    pub saturation_temperature-InNu :
        (p : F)
        → let outside = p <ᶠ triple_point_press || critical_press <ᶠ p in
          (nu : F) × InNu nu
          × (saturation_temperature p ≡ (
              if outside
              then err (record {
                type = err_pressure_out_of_range;
                detail = "pressure out of saturation range";
              })
              else ok (nu *ᶠ critical_temp)))
    unfolding saturation_temperature
    saturation_temperature-InNu p = (
      nu_rounds p 100 (lit 7 1),
      nu_rounds-InNu p 100 (lit 7 1)
          (lt-lit 422 3 7 1 (omega arith), lt-lit 7 1 99999 5 (omega arith)),
      refl,
    )
