-- ===== src/Psychrometrics.antt =====
-- backend/src/psychron/domain/psychrometrics.py: the quantities that are computed of a temperature
-- and a humidity. CPython's floats are a parameter, and so are their operations, which may raise.
pub mod Derived
mod Tests
use psychron.Base.{Bool, Option, if◌then◌else◌, none, some, ℕ, ◌&&◌}
use psychron.Raise.{Result, ok, raise, value_error, ◌>>=◌, ◌>>◌}

pub record Arithmetic (F : Type 0) : Type 0 where
  -- the decimal literal of a mantissa and the number of its decimals: 17.62 is `literal 1762 2`
  pub literal : ℕ → ℕ → F
  pub add : F → F → F
  pub sub : F → F → F
  pub mul : F → F → F
  -- `-a` and `abs(a)`
  pub neg : F → F
  pub magnitude : F → F
  -- `a / b`: ZeroDivisionError
  pub div : F → F → Result F
  -- math.exp, math.log and math.sqrt: OverflowError and ValueError
  pub exp : F → Result F
  pub log : F → Result F
  pub sqrt : F → Result F
  pub le : F → F → Bool
  pub lt : F → F → Bool

pub record Derivation (F : Type 0) : Type 0 where
  pub dew_point_c : Option F
  pub absolute_humidity_g_m3 : Option F
  pub vapour_pressure_deficit_kpa : Option F
  pub heat_index_c : Option F
  pub condensation_margin_c : Option F

module _ {F : Type 0} (num : Arithmetic F) where
  abbrev pub whole : ℕ → F
  whole n = num.literal n 0

  abbrev pub magnus_b : F
  magnus_b = num.literal 1762 2

  abbrev pub magnus_c : F
  magnus_c = num.literal 24312 2

  unfoldable pub saturation_vapour_pressure_kpa : F → Result F
  saturation_vapour_pressure_kpa temperature_c = do
    x ←
        num.div (num.mul (num.literal 1727 2) temperature_c)
          (num.add temperature_c (num.literal 2373 1))
    e ← num.exp x
    ok (num.mul (num.literal 61078 5) e)

  unfoldable pub vapour_pressure_kpa : F → F → Result F
  unfolding saturation_vapour_pressure_kpa
  vapour_pressure_kpa temperature_c humidity_pct = do
    saturation ← saturation_vapour_pressure_kpa temperature_c
    num.div (num.mul saturation humidity_pct) (whole 100)

  -- the rest of `dew_point_c`, for air that holds water
  unfoldable pub magnus : F → F → Result F
  magnus temperature_c humidity_pct = do
    share ← num.div humidity_pct (whole 100)
    logarithm ← num.log share
    slope ← num.div (num.mul magnus_b temperature_c) (num.add magnus_c temperature_c)
    let gamma = num.add logarithm slope
    num.div (num.mul magnus_c gamma) (num.sub magnus_b gamma)

  unfoldable pub dew_point : F → F → Result F
  unfolding magnus
  dew_point temperature_c humidity_pct =
      if num.le humidity_pct (whole 0) then raise value_error else magnus temperature_c humidity_pct

  unfoldable pub absolute_humidity : F → F → Result F
  unfolding vapour_pressure_kpa
  absolute_humidity temperature_c humidity_pct = do
    kpa ← vapour_pressure_kpa temperature_c humidity_pct
    let vp = num.mul kpa (whole 1000)
    kg ← num.div vp (num.mul (num.literal 4615 1) (num.add temperature_c (num.literal 27315 2)))
    ok (num.mul kg (whole 1000))

  unfoldable pub vapour_pressure_deficit : F → F → Result F
  unfolding saturation_vapour_pressure_kpa
  vapour_pressure_deficit temperature_c humidity_pct = do
    saturation ← saturation_vapour_pressure_kpa temperature_c
    share ← num.div humidity_pct (whole 100)
    ok (num.mul saturation (num.sub (whole 1) share))

  -- the regression, in the order of its terms
  abbrev pub rothfusz : F → F → F
  rothfusz t_f r =
      let times = num.mul in
      let hi = num.add (num.neg (num.literal 42379 3)) (times (num.literal 204901523 8) t_f) in
      let hi = num.add hi (times (num.literal 1014333127 8) r) in
      let hi = num.sub hi (times (times (num.literal 22475541 8) t_f) r) in
      let hi = num.sub hi (times (times (num.literal 683783 8) t_f) t_f) in
      let hi = num.sub hi (times (times (num.literal 5481717 8) r) r) in
      let hi = num.add hi (times (times (times (num.literal 122874 8) t_f) t_f) r) in
      let hi = num.add hi (times (times (times (num.literal 85282 8) t_f) r) r) in
      num.sub hi (times (times (times (times (num.literal 199 8) t_f) t_f) r) r)

  abbrev pub within_f : F → ℕ → Bool
  within_f t_f hi = num.le (whole 80) t_f && num.le t_f (whole hi)

  -- the two corrections of the regression: in dry air, and in damp air
  unfoldable pub dry_heat : F → F → Result F
  dry_heat t_f r = do
    dry ← num.div (num.sub (whole 13) r) (whole 4)
    warm ← num.div (num.sub (whole 17) (num.magnitude (num.sub t_f (whole 95)))) (whole 17)
    root ← num.sqrt warm
    ok (num.sub (rothfusz t_f r) (num.mul dry root))

  unfoldable pub damp_heat : F → F → Result F
  damp_heat t_f r = do
    damp ← num.div (num.sub r (whole 85)) (whole 10)
    cool ← num.div (num.sub (whole 87) t_f) (whole 5)
    ok (num.add (rothfusz t_f r) (num.mul damp cool))

  unfoldable pub adjusted : F → F → Result F
  unfolding dry_heat damp_heat
  adjusted t_f r =
      if num.lt r (whole 13) && within_f t_f 112
      then dry_heat t_f r
      else if num.lt (whole 85) r && within_f t_f 87
      then damp_heat t_f r
      else ok (rothfusz t_f r)

  -- the regression, back in Celsius
  unfoldable pub warm_index : F → F → Result F
  unfolding adjusted
  warm_index t_f r = do
    hi ← adjusted t_f r
    num.div (num.mul (num.sub hi (whole 32)) (whole 5)) (whole 9)

  unfoldable pub heat_index : F → F → Result F
  unfolding warm_index
  heat_index temperature_c humidity_pct = do
    ninths ← num.div (num.mul temperature_c (whole 9)) (whole 5)
    let t_f = num.add ninths (whole 32)
    if num.lt t_f (whole 80) then ok temperature_c else warm_index t_f humidity_pct

  unfoldable pub condensation_margin : F → F → Result F
  unfolding dew_point
  condensation_margin temperature_c humidity_pct = do
    dew ← dew_point temperature_c humidity_pct
    ok (num.sub temperature_c dew)

  abbrev pub nothing_derived : Derivation F
  nothing_derived = record {
    dew_point_c = none;
    absolute_humidity_g_m3 = none;
    vapour_pressure_deficit_kpa = none;
    heat_index_c = none;
    condensation_margin_c = none;
  }

  unfoldable pub derive_both : F → F → Result (Derivation F)
  unfolding dew_point absolute_humidity vapour_pressure_deficit heat_index condensation_margin
  derive_both temperature_c humidity_pct = do
    dew ← dew_point temperature_c humidity_pct
    absolute ← absolute_humidity temperature_c humidity_pct
    deficit ← vapour_pressure_deficit temperature_c humidity_pct
    heat ← heat_index temperature_c humidity_pct
    margin ← condensation_margin temperature_c humidity_pct
    ok (record {
      dew_point_c = some dew;
      absolute_humidity_g_m3 = some absolute;
      vapour_pressure_deficit_kpa = some deficit;
      heat_index_c = some heat;
      condensation_margin_c = some margin;
    })

  unfoldable pub derive : Option F → Option F → Result (Derivation F)
  unfolding derive_both
  derive none humidity_pct = ok nothing_derived
  derive (some temperature_c) none = ok nothing_derived
  derive (some temperature_c) (some humidity_pct) =
      if num.le humidity_pct (whole 0)
      then ok nothing_derived
      else derive_both temperature_c humidity_pct
