-- ===== src/Psychrometrics/Derived.antt =====
use psychron.Base.{Bool-cases, false, inl, inr, none, refl, some, ◌≡◌, ◌∙◌}
use psychron.Psychrometrics.{
  Arithmetic, absolute_humidity, derive, derive_both, dew_point, heat_index, nothing_derived,
  vapour_pressure_deficit,
}
use psychron.Raise.{ok}

-- backend/src/psychron/domain/psychrometrics.py, `derive`. All of the derived quantities, or none.

module _ {F : Type 0} (num : Arithmetic F) (temperature_c humidity_pct : F) where
  -- air whose dew point is known holds water
  dew_point-guard :
      {dew : F}
      → dew_point num temperature_c humidity_pct ≡ ok dew
      → num.le humidity_pct (num.literal 0 0) ≡ false
  unfolding dew_point
  dew_point-guard h = elim (Bool-cases (num.le humidity_pct (num.literal 0 0))) [
    | inl dry ↦ absurd (cc (rw (dry, dew_point) at h))
    | inr damp ↦ damp
  ]

  derive-some :
      num.le humidity_pct (num.literal 0 0) ≡ false
      → derive num (some temperature_c) (some humidity_pct)
        ≡ derive_both num temperature_c humidity_pct
  unfolding derive
  derive-some damp = rw (derive, damp) refl

  derive_both_lem :
      (dew absolute deficit heat : F)
      → dew_point num temperature_c humidity_pct ≡ ok dew
      → absolute_humidity num temperature_c humidity_pct ≡ ok absolute
      → vapour_pressure_deficit num temperature_c humidity_pct ≡ ok deficit
      → heat_index num temperature_c humidity_pct ≡ ok heat
      → derive_both num temperature_c humidity_pct
        ≡ ok (record {
          dew_point_c = some dew;
          absolute_humidity_g_m3 = some absolute;
          vapour_pressure_deficit_kpa = some deficit;
          heat_index_c = some heat;
          condensation_margin_c = some (num.sub temperature_c dew);
        })
  unfolding derive_both
  derive_both_lem dew absolute deficit heat dews absolutes deficits heats =
      rw (derive_both, dews, absolutes, deficits, heats) refl

-- `derive` gives nulls alone when a measured value is missing; and when the dew point, the absolute
-- humidity, the deficit and the heat index of the two values are computed without an exception, it
-- gives all five quantities, with the temperature less that dew point as the condensation margin.
derive_lem :
    {F : Type 0} (num : Arithmetic F) (t h dew absolute deficit heat : F)
    → dew_point num t h ≡ ok dew
    → absolute_humidity num t h ≡ ok absolute
    → vapour_pressure_deficit num t h ≡ ok deficit
    → heat_index num t h ≡ ok heat
    → (derive num none (some h) ≡ ok (nothing_derived num))
      × (derive num (some t) none ≡ ok (nothing_derived num))
      × (derive num (some t) (some h)
          ≡ ok (record {
            dew_point_c = some dew;
            absolute_humidity_g_m3 = some absolute;
            vapour_pressure_deficit_kpa = some deficit;
            heat_index_c = some heat;
            condensation_margin_c = some (num.sub t dew);
          }))
unfolding derive
derive_lem num t h dew absolute deficit heat dews absolutes deficits heats = (
  refl,
  refl,
  derive-some num t h (dew_point-guard num t h dews)
      ∙ derive_both_lem num t h dew absolute deficit heat dews absolutes deficits heats,
)
