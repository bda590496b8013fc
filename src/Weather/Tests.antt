-- ===== src/Weather/Tests.antt =====
-- backend/src/psychron/domain/weather.py. The forecaster at a concrete pressure.
use psychron.Base.{if◌then◌else◌, pos, refl, ℤ, ◌==◌, ◌≡◌}
use psychron.Fixture.{tenth_float}
use psychron.Raise.{ok}
use psychron.Weather.{Outlook, Score, outlook_of, rising, text_at, zambretti}
use psychron.Weather.Outlooks.{OfTrend, zambretti_total}

-- 1013 hPa, for which the three formulas give 5, 23 and 12
abbrev scores : Score ℤ
scores a b hpa = ok (pos (if a == 127 then 5 else if a == 185 then 23 else 12))

rising_outlook :
    zambretti tenth_float scores (pos 10130) (pos 20)
    ≡ ok (record { number = 23; trend = rising; forecast = "Fairly fine, improving" })
unfolding zambretti outlook_of text_at
rising_outlook = refl

zambretti_total_example :
    (outlook : Outlook) × (zambretti tenth_float scores (pos 10130) (pos 20) ≡ ok outlook)
    × OfTrend outlook.trend outlook.number
zambretti_total_example =
    zambretti_total tenth_float scores (pos 10130) (pos 20) (pos 5) (pos 23) (pos 12) refl refl refl
