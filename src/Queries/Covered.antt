-- ===== src/Queries/Covered.antt =====
use psychron.Base.{
  All, Bool, Bool-cases, List, String, [], any, ap, arith, false, inl, inr, is_some, leb, length,
  ltb, map, refl, select, suc, sym, take, true, zero, ℕ, ◌&&◌, ◌*◌, ◌+◌, ◌-◌, ◌<◌, ◌∙◌, ◌∷◌, ◌≡◌,
  ◌≤◌, ◌⊎◌,
}
use psychron.Database.{Database}
use psychron.Instant.{Instant, minus_ms}
use psychron.Queries.{of_device}
use psychron.Queries.Health.{
  all_gaps, earliest_of, edges, gaps_24h, lagged, latest_of, long_gaps, seen_since,
}
use psychron.Queries.Nearest.{minus_ms-value}
use psychron.Queries.Outages.{covers, edges-cover}
use psychron.Raise.{>>=-eq-ok, ok, ok-injective}
use psychron.Sorting.{descending, order_by}
use psychron.Sorting.Laws.{any-order_by}
use psychron.Telemetry.{ResolvedReading}

-- backend/src/psychron/adapters/queries.py, `device_health`. Which outages of the last day it lists.

take_short : {A : Type 0} (n : ℕ) (xs : List A) → length (take n xs) < n → take n xs ≡ xs
take_short zero xs h = absurd (omega (arith, h))
take_short (suc n) [] h = refl
take_short (suc n) (x ∷ xs) h = ap (λ ys. x ∷ ys) (take_short n xs (omega (arith, h)))

take_short-any :
    {A : Type 0} (p : A → Bool) (n : ℕ) (xs ys : List A)
    → take n xs ≡ ys
    → length ys < n
    → any p xs ≡ true
    → any p ys ≡ true
take_short-any p n xs ys same few h = rw (sym same, take_short n xs (rw same few)) h

minus_ms-ok : (t : Instant) (ms : ℕ) → ms * 1000 ≤ t → minus_ms t ms ≡ ok (t - ms * 1000)
unfolding minus_ms
minus_ms-ok t ms h =
    let reach : leb (ms * 1000) t ≡ true = ground (arith, h) in rw (minus_ms, reach) refl

no_edges :
    (opening now : Instant)
    → ok (take 20 (order_by (descending (λ g. g.1)) (long_gaps (edges opening now [])))) ≡ ok []
unfolding edges lagged long_gaps earliest_of latest_of order_by
no_edges opening now = refl

select-none :
    {A : Type 0} (p : A → Bool) (xs : List A) → All (λ x. p x ≡ false) xs → select p xs ≡ []
select-none p [] h = refl
select-none p (x ∷ xs) (miss, h) = rw miss (select-none p xs h)

earliest_there : (t : Instant) (ts : List Instant) → is_some (earliest_of (t ∷ ts)) ≡ true
unfolding earliest_of
earliest_there t ts = ground arith

module _ {F : Type 0} (device_id : String) (now : Instant) (db : Database F) where
  -- a reading of the device of the last day
  abbrev pub seen_today : ResolvedReading F → Bool
  seen_today r = of_device device_id r && ltb (now - 86400000000) r.time

  clear_times :
      (a b opening : Instant) (rows : List (ResolvedReading F))
      → All (λ r. of_device device_id r ≡ true → (r.time ≤ a) ⊎ (b ≤ r.time)) rows
      → All
          (λ t. (t ≤ a) ⊎ (b ≤ t))
          (map (λ r. r.time) (select (λ r. of_device device_id r && ltb opening r.time) rows))
  clear_times a b opening [] clear = tt
  clear_times a b opening (r ∷ rows) (this, clear) =
      let rest = clear_times a b opening rows clear in
      elim (Bool-cases (of_device device_id r)) [
        | inl mine ↦ elim (Bool-cases (ltb opening r.time)) [
          | inl late ↦ rw (mine, late) (this mine, rest)
          | inr old ↦ rw (mine, old) rest
        ]
        | inr other ↦ rw other rest
      ]

  times_seen :
      (opening : Instant) (rows : List (ResolvedReading F))
      → any (λ r. of_device device_id r && ltb opening r.time) rows ≡ true
      → is_some (
          earliest_of
            (map (λ r. r.time) (select (λ r. of_device device_id r && ltb opening r.time) rows)))
        ≡ true
  times_seen opening [] h = cc
  times_seen opening (r ∷ rows) h =
      elim (Bool-cases (of_device device_id r && ltb opening r.time)) [
        | inl hit ↦ rw hit (
            earliest_there r.time
              (map (λ r. r.time) (select (λ r. of_device device_id r && ltb opening r.time) rows)))
        | inr miss ↦ rw miss (times_seen opening rows (rw miss at h))
      ]

-- Every outage of the last day is in a gap that is listed: between two instants of the day that are
-- more than 30 seconds apart and between which the device has no reading, when fewer than twenty
-- gaps are listed, and when the device has some reading of the day at all.
pub gaps_cover :
    {F : Type 0} (device_id : String) (now a b : Instant) (db : Database F)
    (gaps : List (Instant × Instant))
    → gaps_24h device_id now db ≡ ok gaps
    → length gaps < 20
    → now ≤ a + 86400000000
    → a + 30000000 < b
    → b ≤ now
    → any (seen_today device_id now db) db.readings ≡ true
    → All (λ r. of_device device_id r ≡ true → (r.time ≤ a) ⊎ (b ≤ r.time)) db.readings
    → any (covers a b) gaps ≡ true
unfolding gaps_24h all_gaps seen_since
gaps_cover device_id now a b db gaps listed few recent long past there clear =
    let (found, every, eq) = >>=-eq-ok (all_gaps device_id now db) _ listed in
    let (opening, opens, eq') = >>=-eq-ok (minus_ms now 86400000) _ every in
    let (reach, low) = minus_ms-value now 86400000 opens in
    let seen = seen_since device_id opening db in
    let hit : any (covers a b) (long_gaps (edges opening now seen)) ≡ true =
      edges-cover a b long opening now seen (omega (arith, low, recent)) past
        (clear_times device_id now db a b opening db.readings clear)
        (times_seen device_id now db opening db.readings (rw low there)) in
    let all_of : any (covers a b) found ≡ true = rw (sym (ok-injective eq')) hit in
    take_short-any (covers a b) 20 (order_by (descending (λ g. g.1)) found) gaps (ok-injective eq)
      few (any-order_by (descending (λ g. g.1)) (covers a b) found ∙ all_of)

-- A device that has sent nothing all day has no gap listed: the outage that is longest is not there.
pub gaps_silent :
    {F : Type 0} (device_id : String) (now : Instant) (db : Database F)
    → 86400000000 ≤ now
    → All (λ r. seen_today device_id now db r ≡ false) db.readings
    → gaps_24h device_id now db ≡ ok []
unfolding gaps_24h all_gaps seen_since
gaps_silent device_id now db reach silent =
    let opens : minus_ms now 86400000 ≡ ok (now - 86400000000) = minus_ms-ok now 86400000 reach in
    let unseen = select-none (seen_today device_id now db) db.readings silent in
    rw (gaps_24h, all_gaps, opens, seen_since, unseen) (no_edges (now - 86400000000) now)
