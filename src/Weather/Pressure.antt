-- ===== src/Weather/Pressure.antt =====
use psychron.Psychrometrics.{Arithmetic}
use psychron.Raise.{Result, ok, ◌>>=◌}

-- backend/src/psychron/domain/weather.py: the pressure formulas, over the arithmetic of floats.
-- `power a b` is `a ** b`, for a base above zero.

module _ {F : Type 0} (num : Arithmetic F) (power : F → F → Result F) where
  abbrev pub t0_k : F
  t0_k = num.literal 28815 2

  abbrev pub lapse_k_per_m : F
  lapse_k_per_m = num.literal 65 4

  abbrev pub barometric_exponent : F
  barometric_exponent = num.literal 525588 5

  -- `1.0 - LAPSE_K_PER_M * altitude_m / T0_K`
  unfoldable pub lapse_share : F → Result F
  lapse_share altitude_m = do
    share ← num.div (num.mul lapse_k_per_m altitude_m) t0_k
    ok (num.sub (num.literal 1 0) share)

  unfoldable pub sea_level_pressure : F → F → Result F
  unfolding lapse_share
  sea_level_pressure station_hpa altitude_m = do
    base ← lapse_share altitude_m
    factor ← power base (num.neg barometric_exponent)
    ok (num.mul station_hpa factor)

  unfoldable pub station_pressure : F → F → Result F
  unfolding lapse_share
  station_pressure sea_level_hpa altitude_m = do
    base ← lapse_share altitude_m
    factor ← power base barometric_exponent
    ok (num.mul sea_level_hpa factor)

  unfoldable pub height_change : F → F → Result F
  height_change hpa reference_hpa = do
    metres ← num.div t0_k lapse_k_per_m
    quotient ← num.div hpa reference_hpa
    inverse ← num.div (num.literal 1 0) barometric_exponent
    factor ← power quotient inverse
    ok (num.mul metres (num.sub (num.literal 1 0) factor))
