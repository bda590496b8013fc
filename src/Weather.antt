-- ===== src/Weather.antt =====
-- backend/src/psychron/domain/weather.py: the outlook. The arithmetic on floats is a parameter, as
-- are the pressure formulas, which only feed it.
pub mod Outlooks
pub mod Pressure
mod Tests
use psychron.Base.{
  List, String, [], if◌then◌else◌, ltb, negsuc, pos, pos_part, suc, ℕ, ℤ, ◌==◌, ◌∷◌,
}
use psychron.PyFloat.{Float}
use psychron.Raise.{Result, key_error, ok, raise, ◌>>=◌, ◌>>◌}
use psychron.Schema.{number}

-- `int(a - b * sea_level_hpa + 0.5)`, for a whole number a and b in hundredths; int() raises on a
-- NaN and on an infinity
abbrev pub Score : Type 0 → Type 0
Score F = ℕ → ℕ → F → Result ℤ

pub data Trend : Type 0 where
  falling rising steady : Trend

pub record Outlook : Type 0 where
  pub number : ℕ
  pub trend : Trend
  pub forecast : String

-- a dict whose keys count up from a first number
abbrev pub numbered : ℕ → List String → List (ℕ × String)
numbered n [] = []
numbered n (t ∷ ts) = (n, t) ∷ numbered (suc n) ts

-- `table[number]`
unfoldable pub text_at : ℕ → List (ℕ × String) → Result String
text_at n [] = raise key_error
text_at n ((k, t) ∷ table) = if k == n then ok t else text_at n table

abbrev pub falling_texts : List String
falling_texts =
    "Settled fine" ∷ "Fine weather" ∷ "Fine, becoming less settled" ∷ "Fairly fine, showery later"
    ∷ "Showery, becoming more unsettled" ∷ "Unsettled, rain later" ∷ "Rain at times, worse later"
    ∷ "Rain at times, becoming very unsettled" ∷ "Very unsettled, rain" ∷ []

abbrev pub steady_texts : List String
steady_texts =
    "Settled fine" ∷ "Fine weather" ∷ "Fine, possibly showers" ∷ "Fairly fine, showers likely"
    ∷ "Showery, bright intervals" ∷ "Changeable, some rain" ∷ "Unsettled, rain at times"
    ∷ "Rain at frequent intervals" ∷ "Very unsettled, rain" ∷ "Stormy, much rain" ∷ []

abbrev pub rising_texts : List String
rising_texts =
    "Settled fine" ∷ "Fine weather" ∷ "Becoming fine" ∷ "Fairly fine, improving"
    ∷ "Fairly fine, possibly showers early" ∷ "Showery early, improving" ∷ "Changeable, mending"
    ∷ "Rather unsettled, clearing later" ∷ "Unsettled, probably improving"
    ∷ "Unsettled, short fine intervals" ∷ "Very unsettled, finer at times"
    ∷ "Stormy, possibly improving" ∷ "Stormy, much rain" ∷ []

-- `min(hi, max(lo, z))`, for natural bounds
abbrev pub clamp : ℕ → ℕ → ℤ → ℕ
clamp lo hi z = let n = pos_part z in if ltb n lo then lo else if ltb hi n then hi else n

module _ {F : Type 0} (fl : Float F) (score : Score F) where
  -- the last two statements, for the trend, bounds and table that the branch has chosen
  unfoldable pub outlook_of : Trend → Result ℤ → ℕ → ℕ → List (ℕ × String) → Result Outlook
  unfolding text_at
  outlook_of trend z lo hi table = do
    z ← z
    forecast ← text_at (clamp lo hi z) table
    ok (record { number = clamp lo hi z; trend = trend; forecast = forecast })

  unfoldable pub zambretti : F → F → Result Outlook
  unfolding outlook_of
  zambretti sea_level_hpa change_3h_hpa =
      if fl.le change_3h_hpa (fl.tenths (negsuc 15))
      then outlook_of falling (score 127 12 sea_level_hpa) 1 9 (numbered 1 falling_texts)
      else if fl.le (fl.tenths (pos 16)) change_3h_hpa
      then outlook_of rising (score 185 16 sea_level_hpa) 20 32 (numbered 20 rising_texts)
      else outlook_of steady (score 144 13 sea_level_hpa) 10 19 (numbered 10 steady_texts)
