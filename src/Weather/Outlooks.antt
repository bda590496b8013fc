-- ===== src/Weather/Outlooks.antt =====
-- backend/src/psychron/domain/weather.py. Every score has its outlook.
use psychron.Base.{
  Bool-cases, List, String, [], arith, inl, inr, length, negsuc, pos, refl, suc, ℕ, ℤ, ◌+◌, ◌<◌,
  ◌==◌, ◌∷◌, ◌≡◌, ◌≤◌,
}
use psychron.PyFloat.{Float}
use psychron.Raise.{Result, ok}
use psychron.Weather.{
  Outlook, Score, Trend, clamp, falling, falling_texts, numbered, outlook_of, rising, rising_texts,
  steady, steady_texts, text_at, zambretti,
}

text_at-numbered :
    (n first : ℕ) (texts : List String)
    → first ≤ n
    → n < first + length texts
    → (t : String) × (text_at n (numbered first texts) ≡ ok t)
unfolding text_at
text_at-numbered n first [] low high = absurd (omega arith)
text_at-numbered n first (t ∷ texts) low high = elim (Bool-cases (first == n)) [
  | inl here ↦ (t, rw here refl)
  | inr beyond ↦
      let (s, found) = text_at-numbered n (suc first) texts (ground arith) (ground arith) in
      (s, rw beyond found)
]

-- the numbers of a trend's outlooks
abbrev pub OfTrend : Trend → ℕ → Type 0
OfTrend falling n = (1 ≤ n) × (n ≤ 9)
OfTrend steady n = (10 ≤ n) × (n ≤ 19)
OfTrend rising n = (20 ≤ n) × (n ≤ 32)

module _ {F : Type 0} (fl : Float F) (score : Score F) where
  outlook_found :
      (trend : Trend) (z : Result ℤ) (k : ℤ) (lo hi : ℕ) (texts : List String)
      → z ≡ ok k
      → lo ≤ hi
      → hi < lo + length texts
      → (outlook : Outlook) × (outlook_of fl score trend z lo hi (numbered lo texts) ≡ ok outlook)
        × (outlook.trend ≡ trend)
        × (lo ≤ outlook.number)
        × (outlook.number ≤ hi)
  unfolding outlook_of
  outlook_found trend z k lo hi texts scored ordered wide =
      let low : lo ≤ clamp lo hi k = ground arith in
      let high : clamp lo hi k ≤ hi = ground arith in
      let (t, found) = text_at-numbered (clamp lo hi k) lo texts low (omega (arith, high, wide)) in
      (
        record { number = clamp lo hi k; trend = trend; forecast = t },
        rw scored (rw found refl),
        refl,
        low,
        high,
      )

  -- Whatever the pressure, if the three scores are numbers, the forecaster returns an outlook of
  -- the table of its trend: the clamped number is always a key, and no KeyError is raised.
  pub zambretti_total :
      (hpa change : F) (a b c : ℤ)
      → score 127 12 hpa ≡ ok a
      → score 185 16 hpa ≡ ok b
      → score 144 13 hpa ≡ ok c
      → (outlook : Outlook) × (zambretti fl score hpa change ≡ ok outlook)
        × OfTrend outlook.trend outlook.number
  unfolding zambretti
  zambretti_total hpa change a b c fall rise keep =
      elim (Bool-cases (fl.le change (fl.tenths (negsuc 15)))) [
        | inl down ↦
            let (o, e, t, low, high) =
              outlook_found falling (score 127 12 hpa) a 1 9 falling_texts fall (omega arith)
                (omega arith) in
            (o, rw down e, rw t (low, high))
        | inr not_down ↦ elim (Bool-cases (fl.le (fl.tenths (pos 16)) change)) [
          | inl up ↦
              let (o, e, t, low, high) =
                outlook_found rising (score 185 16 hpa) b 20 32 rising_texts rise (omega arith)
                  (omega arith) in
              (o, rw (not_down, up) e, rw t (low, high))
          | inr flat ↦
              let (o, e, t, low, high) =
                outlook_found steady (score 144 13 hpa) c 10 19 steady_texts keep (omega arith)
                  (omega arith) in
              (o, rw (not_down, flat) e, rw t (low, high))
        ]
      ]
