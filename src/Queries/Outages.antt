-- ===== src/Queries/Outages.antt =====
use mathlib.Core.Path.{subst}
use psychron.Base.{
  All, Bool, List, Option, [], all, any, arith, false, inl, inr, leb, none, refl, some, true, ◌&&◌,
  ◌++◌, ◌+◌, ◌<◌, ◌||◌, ◌∷◌, ◌≡◌, ◌≤◌, ◌⊎◌, AllSome, Bool-cases, Option-cases, is_some,
}
use psychron.Instant.{Instant}
use psychron.Queries.Health.{earliest_of, lagged, latest_of, long_gaps, edges}
use psychron.Sorting.{ascending, order_by}
use psychron.Sorting.Laws.{InOrder, ascending-IsOrder, order_by-All, order_by-InOrder}
use psychron.Queries.Nearest.{All-order_by}

-- backend/src/psychron/adapters/queries.py, `device_health`. The edges of a day, and the times in it.

-- a gap that contains the time from a to b
abbrev pub covers : Instant → Instant → Instant × Instant → Bool
covers a b gap = leb gap.0 a && leb b gap.1

any-long_gaps :
    (p : Instant × Instant → Bool) (xs ys : List (Option Instant × Option Instant))
    → any p (long_gaps (xs ++ ys)) ≡ (any p (long_gaps xs) || any p (long_gaps ys))
unfolding long_gaps
any-long_gaps p [] ys = refl
any-long_gaps p ((none, e) ∷ xs) ys = any-long_gaps p xs ys
any-long_gaps p ((some s, none) ∷ xs) ys = any-long_gaps p xs ys
any-long_gaps p ((some s, some e) ∷ xs) ys = ground (arith, any-long_gaps p xs ys)

earliest_of-All :
    (P : Instant → Type 0) (ts : List Instant) {m : Instant}
    → earliest_of ts ≡ some m
    → All P ts
    → P m
unfolding earliest_of
earliest_of-All P [] h all = cc
earliest_of-All P (t ∷ ts) h (pt, all) = elim (Option-cases (earliest_of ts)) [
  | inl nothing ↦ subst (λ m. AllSome P m) (rw (nothing, earliest_of) at h) pt
  | inr (u, found) ↦ elim (Bool-cases (leb t u)) [
    | inl before ↦ subst (λ m. AllSome P m) (rw (earliest_of, found, before) at h) pt
    | inr after_it ↦
        subst (λ m. AllSome P m) (rw (earliest_of, found, after_it) at h)
          (earliest_of-All P ts found all)
  ]
]

latest_of-All :
    (P : Instant → Type 0) (ts : List Instant) {m : Instant}
    → latest_of ts ≡ some m
    → All P ts
    → P m
unfolding latest_of
latest_of-All P [] h all = cc
latest_of-All P (t ∷ ts) h (pt, all) = elim (Option-cases (latest_of ts)) [
  | inl nothing ↦ subst (λ m. AllSome P m) (rw (nothing, latest_of) at h) pt
  | inr (u, found) ↦ elim (Bool-cases (leb u t)) [
    | inl before ↦ subst (λ m. AllSome P m) (rw (latest_of, found, before) at h) pt
    | inr after_it ↦
        subst (λ m. AllSome P m) (rw (latest_of, found, after_it) at h)
          (latest_of-All P ts found all)
  ]
]

earliest_some :
    (ts : List Instant)
    → is_some (earliest_of ts) ≡ true
    → (m : Instant) × (earliest_of ts ≡ some m)
earliest_some ts h = elim (Option-cases (earliest_of ts)) [
  | inl nothing ↦ absurd (cc (rw nothing at h))
  | inr found ↦ found
]

latest_some :
    (ts : List Instant) → is_some (earliest_of ts) ≡ true → (m : Instant) × (latest_of ts ≡ some m)
unfolding earliest_of latest_of
latest_some [] h = absurd (cc h)
latest_some (t ∷ ts) h = elim (Option-cases (latest_of ts)) [
  | inl nothing ↦ (t, rw (latest_of, nothing) refl)
  | inr (u, found) ↦ elim (Bool-cases (leb u t)) [
    | inl before ↦ (t, rw (latest_of, found, before) refl)
    | inr after_it ↦ (u, rw (latest_of, found, after_it) refl)
  ]
]

or_left : (x y : Bool) → x ≡ true → (x || y) ≡ true
or_left x y h = rw h refl

or_right : (x y : Bool) → y ≡ true → (x || y) ≡ true
or_right x y h = ground arith

-- the rows of the union behind `lag`
abbrev day_edges : Instant → Instant → List Instant → List (Option Instant × Option Instant)
day_edges opening closing seen =
    (some opening, earliest_of seen) ∷ (latest_of seen, some closing) ∷ []

module _ (a b : Instant) (long : a + 30000000 < b) where
  -- no time is between the two
  abbrev Clear : List Instant → Type 0
  Clear = All (λ t. (t ≤ a) ⊎ (b ≤ t))

  not_yet :
      (t : Instant) (ts : List Instant)
      → t ≤ a
      → any (λ t. leb b t) (t ∷ ts) ≡ true
      → any (λ t. leb b t) ts ≡ true
  not_yet t ts reached after_it =
      let below : leb b t ≡ false = ground (arith, long) in rw below at after_it

  all-above :
      (t : Instant) (ts : List Instant)
      → b ≤ t
      → All (λ u. leb t u ≡ true) ts
      → all (λ t. leb b t) ts ≡ true
  all-above t [] h above = refl
  all-above t (u ∷ ts) h (next, above) = ground (arith, all-above t ts h above)

  lagged-covers :
      (previous : Instant) (ts : List Instant)
      → previous ≤ a
      → Clear ts
      → any (λ t. leb b t) ts ≡ true
      → any (covers a b) (long_gaps (lagged (some previous) ts)) ≡ true
  unfolding lagged long_gaps
  lagged-covers previous [] before clear after_it = cc
  lagged-covers previous (t ∷ ts) before (inr beyond, clear) after_it = ground (arith, long)
  lagged-covers previous (t ∷ ts) before (inl reached, clear) after_it =
      let rest = lagged-covers t ts reached clear (not_yet t ts reached after_it) in ground arith

  -- from the first time on, when it is not after the two
  started-covers :
      (ts : List Instant)
      → InOrder (ascending (λ t. t)) ts
      → Clear ts
      → any (λ t. leb b t) ts ≡ true
      → all (λ t. leb b t) ts ≡ false
      → any (covers a b) (long_gaps (lagged none ts)) ≡ true
  unfolding lagged long_gaps
  started-covers [] order clear after_it h = cc
  started-covers (t ∷ ts) (first, order) (inl reached, clear) after_it h =
      lagged-covers t ts reached clear (not_yet t ts reached after_it)
  started-covers (t ∷ ts) (first, order) (inr beyond, clear) after_it h =
      let every = all-above t ts beyond first in absurd (ground (arith, every))

  all_after : (ts : List Instant) → all (λ t. leb b t) ts ≡ true → All (λ t. b ≤ t) ts
  all_after [] h = tt
  all_after (t ∷ ts) h = (ground arith, all_after ts (ground arith))

  none_after : (ts : List Instant) → Clear ts → any (λ t. leb b t) ts ≡ false → All (λ t. t ≤ a) ts
  none_after [] clear h = tt
  none_after (t ∷ ts) (inl reached, clear) h = (reached, none_after ts clear (ground arith))
  none_after (t ∷ ts) (inr beyond, clear) h = absurd (ground arith)

  opening-covers :
      (opening closing m : Instant) (last : Option Instant)
      → opening ≤ a
      → b ≤ m
      → any (covers a b) (long_gaps ((some opening, some m) ∷ (last, some closing) ∷ [])) ≡ true
  unfolding long_gaps
  opening-covers opening closing m last low late = ground (arith, long)

  closing-covers :
      (opening closing m : Instant) (first : Option Instant)
      → b ≤ closing
      → m ≤ a
      → any (covers a b) (long_gaps ((some opening, first) ∷ (some m, some closing) ∷ [])) ≡ true
  unfolding long_gaps
  closing-covers opening closing m none high early = ground (arith, long)
  closing-covers opening closing m (some first) high early = ground (arith, long)

  -- the edges of the day count: times that are all after, or all before
  pub edges-cover :
      (opening closing : Instant) (seen : List Instant)
      → opening ≤ a
      → b ≤ closing
      → Clear seen
      → is_some (earliest_of seen) ≡ true
      → any (covers a b) (long_gaps (edges opening closing seen)) ≡ true
  unfolding edges
  edges-cover opening closing seen low high clear there =
      let ts = order_by (ascending (λ t. t)) seen in
      let clear_ts = order_by-All (ascending (λ t. t)) (λ t. (t ≤ a) ⊎ (b ≤ t)) seen clear in
      let tail = day_edges opening closing seen in
      let lags = any (covers a b) (long_gaps (lagged none ts)) in
      let ends = any (covers a b) (long_gaps tail) in
      rw (edges, any-long_gaps (covers a b) (lagged none ts) tail)
        (elim (Bool-cases (all (λ t. leb b t) ts)) [
          | inl every ↦
              let (m, found) = earliest_some seen there in
              let late =
                earliest_of-All (λ t. b ≤ t) seen found
                  (All-order_by (ascending (λ t. t)) (λ t. b ≤ t) seen (all_after ts every)) in
              or_right lags ends
                (rw found (opening-covers opening closing m (latest_of seen) low late))
          | inr some_not ↦ elim (Bool-cases (any (λ t. leb b t) ts)) [
            | inl after_it ↦ or_left lags ends (
                started-covers ts
                  (order_by-InOrder (ascending (λ t. t)) (ascending-IsOrder (λ t. t)) seen) clear_ts
                  after_it some_not)
            | inr never ↦
                let (m, found) = latest_some seen there in
                let early =
                  latest_of-All (λ t. t ≤ a) seen found
                    (All-order_by (ascending (λ t. t)) (λ t. t ≤ a) seen
                      (none_after ts clear_ts never)) in
                or_right lags ends
                  (rw found (closing-covers opening closing m (earliest_of seen) high early))
          ]
        ])
