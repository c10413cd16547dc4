-- ===== src/Thermo.antt =====
-- internal/thermo: the properties of saturated water and steam, over any type of `float64`. A negative
-- constant is written by `neg`, and a quotient of constants as the quotient of their values.
pub mod Saturation
use Prim.Native.String.{String}
use thermal_recovery_flow.Base.{
  ℕ, zero, suc, ◌||◌, ◌&&◌, Bool, true, false, if◌then◌else◌, List, [], ◌∷◌, foldl, Result, ok, err,
}
use thermal_recovery_flow.Base.Float.{Float, ◌+ᶠ◌, ◌-ᶠ◌, ◌*ᶠ◌, ◌/ᶠ◌, ◌<ᶠ◌, ◌≤ᶠ◌, not_finite}

pub data ThermoErrorType : Type 0 where
  err_temp_out_of_range err_pressure_out_of_range err_density_out_of_range : ThermoErrorType
  err_convergence_failed err_invalid_input err_superheated err_subcooled : ThermoErrorType

pub record ThermoError : Type 0 where
  pub type : ThermoErrorType
  pub detail : String

module _ {F : Type 0} ⦃o : Float F⦄ where
  open o use {lit, neg, abs, sqrt, pow, exp, lt, le}

  abbrev pub triple_point_temp : F
  triple_point_temp = lit 27316 2

  abbrev pub critical_temp : F
  critical_temp = lit 647096 3

  abbrev pub triple_point_press : F
  triple_point_press = lit 611657 3

  abbrev pub critical_press : F
  critical_press = lit 22064000 0

  abbrev critical_density : F
  critical_density = lit 322 0

  -- `T < TriplePointTemp || T > CriticalTemp`.
  abbrev pub out_of_range : F → Bool
  out_of_range t = t <ᶠ triple_point_temp || critical_temp <ᶠ t

  -- A loop `sum += n[i] * math.Pow(tau, e[i])`.
  power_sum : F → List (F × F) → F
  power_sum tau = foldl (λ sum t. sum +ᶠ t.0 *ᶠ pow tau t.1) (lit 0 1)

  -- A loop `dsum += -n[i] * e[i] * math.Pow(tau, e[i]-1.0)`, over the exponents above zero.
  slope_sum : F → List (F × F) → F
  slope_sum tau =
      foldl
        (λ dsum t.
          if lit 0 0 <ᶠ t.1 then dsum +ᶠ neg (t.0) *ᶠ t.1 *ᶠ pow tau (t.1 -ᶠ lit 1 0) else dsum)
        (lit 0 1)

  -- The coefficients and exponents of both saturation functions.
  abbrev saturation_terms : List (F × F)
  saturation_terms =
      (neg (lit 785951783 8), lit 10 1)
      ∷ (lit 184408259 8, lit 15 1)
      ∷ (neg (lit 117866497 7), lit 30 1)
      ∷ (lit 226807411 7, lit 35 1)
      ∷ (neg (lit 159618719 7), lit 40 1)
      ∷ (lit 180122502 8, lit 75 1)
      ∷ []

  abbrev third : ℕ → F
  third n = lit n 0 /ᶠ lit 3 0

  abbrev sixth : ℕ → F
  sixth n = lit n 0 /ᶠ lit 6 0

  abbrev liquid_terms : List (F × F)
  liquid_terms =
      (lit 199274064 8, third 1)
      ∷ (lit 109965342 8, third 2)
      ∷ (neg (lit 51087811 8), third 5)
      ∷ (neg (lit 175493479 8), third 16)
      ∷ (neg (lit 455170352 7), third 43)
      ∷ (neg (lit 674694450 3), third 110)
      ∷ []

  abbrev vapor_terms : List (F × F)
  vapor_terms =
      (neg (lit 203150240 8), sixth 2)
      ∷ (neg (lit 268302940 8), sixth 4)
      ∷ (neg (lit 538626492 8), sixth 8)
      ∷ (neg (lit 172991605 7), sixth 18)
      ∷ (neg (lit 447586581 7), sixth 37)
      ∷ (neg (lit 639201063 7), sixth 71)
      ∷ []

  -- The check that every function of a temperature begins with.
  pub saturated : String → F → F → Result ThermoError F
  saturated detail t value =
      if out_of_range t
      then err (record { type = err_temp_out_of_range; detail = detail })
      else ok value

  pub saturation_pressure : F → Result ThermoError F
  unfolding saturated power_sum
  saturation_pressure t =
      let tau = lit 1 0 -ᶠ t /ᶠ critical_temp in
      saturated "temperature out of saturation range" t
        (critical_press *ᶠ exp ((critical_temp /ᶠ t) *ᶠ power_sum tau saturation_terms))

  -- The clamping of `nuNew`.
  clamp_nu : F → F
  clamp_nu nu =
      let raised = if nu <ᶠ lit 422 3 then lit 422 3 else nu in
      if lit 99999 5 <ᶠ raised then lit 99999 5 else raised

  -- One round of Newton's method: the next `nu` and whether the loop ends with it.
  nu_round : F → F → F × Bool
  unfolding clamp_nu power_sum slope_sum
  nu_round p nu =
      let tau = lit 1 0 -ᶠ nu in
      let sum = power_sum tau saturation_terms in
      let dsum = slope_sum tau saturation_terms in
      let ps = critical_press *ᶠ exp (sum /ᶠ nu) in
      let f = ps -ᶠ p in
      let dps = ps *ᶠ (dsum /ᶠ nu -ᶠ sum /ᶠ (nu *ᶠ nu)) in
      let dnu = neg f /ᶠ dps in
      let nu_new = clamp_nu (nu +ᶠ dnu) in
      if abs dps <ᶠ lit 1 30
      then (nu, true)
      else if not_finite dnu
      then (nu, true)
      else (nu_new, abs (nu_new -ᶠ nu) <ᶠ lit 1 12)

  -- The loop, with the rounds that are left.
  nu_rounds : F → ℕ → F → F
  unfolding nu_round
  nu_rounds p zero nu = nu
  nu_rounds p (suc left) nu =
      let (nu', done) = nu_round p nu in
      let rest = nu_rounds p left nu' in if done then nu' else rest

  pub saturation_temperature : F → Result ThermoError F
  unfolding nu_rounds
  saturation_temperature p =
      if p <ᶠ triple_point_press || critical_press <ᶠ p
      then err
          (record { type = err_pressure_out_of_range; detail = "pressure out of saturation range" })
      else ok (nu_rounds p 100 (lit 7 1) *ᶠ critical_temp)

  pub saturated_liquid_density : F → Result ThermoError F
  unfolding saturated power_sum
  saturated_liquid_density t =
      let tau = lit 1 0 -ᶠ t /ᶠ critical_temp in
      saturated "temperature out of range" t
        (critical_density *ᶠ (lit 1 0 +ᶠ power_sum tau liquid_terms))

  pub saturated_vapor_density : F → Result ThermoError F
  unfolding saturated power_sum
  saturated_vapor_density t =
      let tau = lit 1 0 -ᶠ t /ᶠ critical_temp in
      saturated "temperature out of range" t (critical_density *ᶠ exp (power_sum tau vapor_terms))

  -- `x == y`.
  abbrev eq : F → F → Bool
  eq x y = x ≤ᶠ y && y ≤ᶠ x

  abbrev celsius : F → F
  celsius t = t -ᶠ lit 27315 2

  liquid_enthalpy : F → F
  liquid_enthalpy kelvin =
      let t = celsius kelvin in
      let tc = kelvin /ᶠ critical_temp in
      if t ≤ᶠ lit 350 0
      then (if eq t (lit 100 0)
          then lit 419040 0
          else (lit 4180 0 *ᶠ t
              +ᶠ lit 12 1 *ᶠ t *ᶠ t
              -ᶠ lit 35 4 *ᶠ t *ᶠ t *ᶠ t
              +ᶠ lit 4 6 *ᶠ t *ᶠ t *ᶠ t *ᶠ t))
      else (lit 2087500 0
          +ᶠ lit 13322 1 *ᶠ tc
          +ᶠ lit 12915 1 *ᶠ tc *ᶠ tc
          -ᶠ lit 46523 1 *ᶠ tc *ᶠ tc *ᶠ tc)

  vapor_enthalpy : F → F
  vapor_enthalpy kelvin =
      let t = celsius kelvin in
      let tc = kelvin /ᶠ critical_temp in
      if t ≤ᶠ lit 350 0
      then (if eq t (lit 100 0)
          then lit 2675600 0
          else (lit 2500899 0 +ᶠ lit 1850 0 *ᶠ t -ᶠ lit 24 1 *ᶠ t *ᶠ t -ᶠ lit 12 3 *ᶠ t *ᶠ t *ᶠ t))
      else (lit 2087500 0
          +ᶠ lit 41959 1 *ᶠ tc
          -ᶠ lit 12887 1 *ᶠ tc *ᶠ tc
          -ᶠ lit 23448 1 *ᶠ tc *ᶠ tc *ᶠ tc)

  pub saturated_liquid_enthalpy : F → Result ThermoError F
  unfolding saturated liquid_enthalpy
  saturated_liquid_enthalpy t = saturated "temperature out of range" t (liquid_enthalpy t)

  pub saturated_vapor_enthalpy : F → Result ThermoError F
  unfolding saturated vapor_enthalpy
  saturated_vapor_enthalpy t = saturated "temperature out of range" t (vapor_enthalpy t)

  -- `math.Pow(TStar, float64(i))` divides the coefficients in turn.
  abbrev viscosity_sum : F → F
  viscosity_sum t_star =
      lit 0 1
      +ᶠ lit 167752 5 /ᶠ pow t_star (lit 0 0)
      +ᶠ lit 220462 5 /ᶠ pow t_star (lit 1 0)
      +ᶠ lit 6366564 7 /ᶠ pow t_star (lit 2 0)
      +ᶠ neg (lit 241605 6) /ᶠ pow t_star (lit 3 0)

  pub viscosity : F → F → F
  viscosity kelvin rho =
      let t = celsius kelvin in
      let t_star = kelvin /ᶠ critical_temp in
      let sum0 = viscosity_sum t_star in
      let mu = lit 100 0 *ᶠ sqrt t_star /ᶠ sum0 *ᶠ lit 1 6 in
      if lit 100 0 <ᶠ rho
      then (if eq t (lit 25 0)
          then lit 89 5
          else lit 2414 8 *ᶠ pow (lit 10 0) (lit 2478 1 /ᶠ (kelvin -ᶠ lit 140 0)))
      else if abs sum0 <ᶠ lit 1 30
      then lit 12 6
      else if eq t (lit 100 0) && rho <ᶠ lit 1 0
      then lit 12 6
      else if mu <ᶠ lit 1 10
      then lit 1 10
      else mu

  pub thermal_conductivity : F → F → F
  thermal_conductivity kelvin rho =
      let t = celsius kelvin in
      let k = lit 24 3 +ᶠ lit 65 6 *ᶠ t in
      if lit 100 0 <ᶠ rho
      then (if eq t (lit 25 0) then lit 607 3 else lit 56 2 +ᶠ lit 22 4 *ᶠ t)
      else if eq t (lit 100 0)
      then lit 25 3
      else if k <ᶠ lit 1 5
      then lit 1 5
      else k
