-- ===== src/Queries/Nearest.antt =====
use mathlib.Core.Path.{subst}
use psychron.Base.{
  All, Bool, Bool-cases, List, [], false, inl, inr, none, refl, select, some, sym, true, ◌∷◌, ◌≡◌,
  ◌⊎◌, String, ap, arith, leb, length, ℕ, ◌&&◌, ◌∙◌, if◌then◌else◌, ltb, ◌*◌, ◌+◌, ◌-◌, ◌≤◌,
}
use psychron.Queries.{fetchone, between, distance, latest_reading, near, of_device}
use psychron.Sorting.{order_by, place, descending, ascending}
use psychron.Sorting.Laws.{
  InOrder, IsOrder, order_by-All, order_by-InOrder, descending-IsOrder, length-order_by,
  ascending-IsOrder,
}
use psychron.Database.{Database}
use psychron.Instant.{Instant, micros_of_ms, minus_ms, plus_ms, end_of_time}
use psychron.Raise.{ok, ok-injective}
use psychron.Telemetry.{ResolvedReading}
use psychron.Clock.Provenance.{tolerance}

-- backend/src/psychron/adapters/queries.py, `latest` and `near`. What a query that orders the rows
-- and fetches one of them fetches.

module _ {A : Type 0} (le : A → A → Bool) where
  All-place : (P : A → Type 0) (x : A) (ys : List A) → All P (place le x ys) → P x × All P ys
  unfolding place
  All-place P x [] (px, h) = (px, tt)
  All-place P x (y ∷ ys) h = elim (Bool-cases (le x y)) [
    | inl before ↦ rw before at h
    | inr after_it ↦
        let (py, rest) = rw after_it at h in
        let (px, pys) = All-place P x ys rest in (px, (py, pys))
  ]

  -- what holds of the rows in order holds of the rows
  pub All-order_by : (P : A → Type 0) (xs : List A) → All P (order_by le xs) → All P xs
  unfolding order_by
  All-order_by P [] h = tt
  All-order_by P (x ∷ xs) h =
      let (px, rest) = All-place P x (order_by le xs) h in (px, All-order_by P xs rest)

module _ {A : Type 0} (wanted : A → Bool) where
  select-wanted : (table : List A) → All (λ r. wanted r ≡ true) (select wanted table)
  select-wanted [] = tt
  select-wanted (x ∷ table) = elim (Bool-cases (wanted x)) [
    | inl yes_it_is ↦ rw yes_it_is (yes_it_is, select-wanted table)
    | inr other ↦ rw other (select-wanted table)
  ]

  All-select :
      (P : A → Type 0) (table : List A)
      → All P (select wanted table)
      → All (λ r. wanted r ≡ true → P r) table
  All-select P [] h = tt
  All-select P (x ∷ table) h = elim (Bool-cases (wanted x)) [
    | inl yes_it_is ↦ let (px, rest) = rw yes_it_is at h in ((λ w. px), All-select P table rest)
    | inr other ↦ ((λ w. absurd (cc w)), All-select P table (rw other at h))
  ]

  select-same :
      (other : A → Bool) (table : List A)
      → ((r : A) → wanted r ≡ other r)
      → select wanted table ≡ select other table
  select-same other [] same = refl
  select-same other (x ∷ table) same = rw (same x, select-same other table same) refl

  select-nil : (table : List A) → select wanted table ≡ [] → All (λ r. wanted r ≡ false) table
  select-nil [] h = tt
  select-nil (x ∷ table) h = elim (Bool-cases (wanted x)) [
    | inl yes_it_is ↦ absurd (cc (rw yes_it_is at h))
    | inr other ↦ (other, select-nil table (rw other at h))
  ]

length-nil : {A : Type 0} (xs : List A) → length xs ≡ 0 → xs ≡ []
length-nil [] h = refl
length-nil (x ∷ xs) h = absurd (omega (arith, h))

module _ {A : Type 0} (le : A → A → Bool) (o : IsOrder le) where
  order_refl : (a : A) → le a a ≡ true
  order_refl a = elim (Bool-cases (le a a)) [ inl h ↦ h | inr h ↦ o.total a a h ]

  -- SELECT ... WHERE wanted ORDER BY ... LIMIT 1: a wanted row, before which no wanted row stands
  fetchone_first :
      (wanted : A → Bool) (table : List A)
      → (All (λ r. wanted r ≡ false) table × (fetchone (order_by le (select wanted table)) ≡ none))
        ⊎ ((row : A) × (fetchone (order_by le (select wanted table)) ≡ some row)
            × (wanted row ≡ true)
            × All (λ r. wanted r ≡ true → le row r ≡ true) table)
  fetchone_first wanted table =
      go (order_by le (select wanted table))
        (order_by-All le (λ r. wanted r ≡ true) (select wanted table) (select-wanted wanted table))
        (order_by-InOrder le o (select wanted table)) refl
    where
      go :
          (rows : List A)
          → All (λ r. wanted r ≡ true) rows
          → InOrder le rows
          → order_by le (select wanted table) ≡ rows
          → (All (λ r. wanted r ≡ false) table × (fetchone rows ≡ none))
            ⊎ ((row : A) × (fetchone rows ≡ some row)
                × (wanted row ≡ true)
                × All (λ r. wanted r ≡ true → le row r ≡ true) table)
      go [] good h e = inl (
        select-nil wanted table (
            length-nil (select wanted table)
              (sym (length-order_by le (select wanted table)) ∙ ap (λ rs. length rs) e)),
        refl,
      )
      go (row ∷ rows) (good, goods) (first, h) e = inr (
        row,
        refl,
        good,
        All-select wanted (λ r. le row r ≡ true) table
            (All-order_by le (λ r. le row r ≡ true) (select wanted table)
              (subst (λ rs. All (λ r. le row r ≡ true) rs) (sym e) (order_refl row, first))),
      )

-- `latest` gives a reading of the device that none of its readings is later than, and nothing only
-- when it has none.
latest_newest :
    {F : Type 0} (device_id : String) (db : Database F)
    → (All (λ r. of_device device_id r ≡ false) db.readings × (latest_reading device_id db ≡ none))
      ⊎ ((row : ResolvedReading F) × (latest_reading device_id db ≡ some row)
          × (of_device device_id row ≡ true)
          × All (λ r. of_device device_id r ≡ true → leb r.time row.time ≡ true) db.readings)
unfolding latest_reading
latest_newest device_id db =
    fetchone_first (descending (λ r. r.time)) (descending-IsOrder (λ r. r.time))
      (of_device device_id) db.readings

-- a reading that `near` may give
abbrev pub is_near : {F : Type 0} → String → Instant → ℕ → ResolvedReading F → Bool
is_near device_id target tolerance_ms r =
    of_device device_id r && leb (distance target r) (micros_of_ms tolerance_ms)

pub minus_ms-value :
    (t : Instant) (ms : ℕ) {e : Instant}
    → minus_ms t ms ≡ ok e
    → (ms * 1000 ≤ t) × (e ≡ t - ms * 1000)
unfolding minus_ms
minus_ms-value t ms h = elim (Bool-cases (leb (ms * 1000) t)) [
  | inl reach ↦ (ground (arith, reach), sym (ok-injective (rw reach at h)))
  | inr short ↦ absurd (cc (rw short at h))
]

plus_ms-value : (t : Instant) (ms : ℕ) {e : Instant} → plus_ms t ms ≡ ok e → e ≡ t + ms * 1000
unfolding plus_ms
plus_ms-value t ms h = elim (Bool-cases (ltb (t + ms * 1000) end_of_time)) [
  | inl inside ↦ sym (ok-injective (rw inside at h))
  | inr beyond ↦ absurd (cc (rw beyond at h))
]

span_test :
    (target tolerance t : ℕ)
    → tolerance ≤ target
    → (leb (target - tolerance) t && leb t (target + tolerance))
      ≡ leb (if leb t target then target - t else t - target) tolerance
span_test target tolerance t h = ground arith

near_test :
    {F : Type 0} (device_id : String) (target : Instant) (tolerance_ms : ℕ)
    (earliest last : Instant) (r : ResolvedReading F)
    → minus_ms target tolerance_ms ≡ ok earliest
    → plus_ms target tolerance_ms ≡ ok last
    → (of_device device_id r && between earliest last r.time)
      ≡ is_near device_id target tolerance_ms r
unfolding minus_ms plus_ms
near_test device_id target tolerance_ms earliest last r h k =
    let (reach, low) = minus_ms-value target tolerance_ms h in
    let high = plus_ms-value target tolerance_ms k in
    let same : (leb earliest r.time && leb r.time last)
        ≡ leb (distance target r) (micros_of_ms tolerance_ms) =
      rw (low, high) (span_test target (tolerance_ms * 1000) r.time reach) in
    ap (λ b. of_device device_id r && b) same

-- When the instants that bound the search are in the calendar, `near` gives a reading of the device
-- that lies within the tolerance of the target and that no reading of the device within it is
-- nearer than, and nothing only when no reading of the device lies within it.
pub near_closest :
    {F : Type 0} (device_id : String) (target : Instant) (tolerance_ms : ℕ)
    (earliest last : Instant) (db : Database F)
    → minus_ms target tolerance_ms ≡ ok earliest
    → plus_ms target tolerance_ms ≡ ok last
    → (All (λ r. is_near device_id target tolerance_ms r ≡ false) db.readings
        × (near device_id target tolerance_ms db ≡ ok none))
      ⊎ ((row : ResolvedReading F) × (near device_id target tolerance_ms db ≡ ok (some row))
          × (is_near device_id target tolerance_ms row ≡ true)
          × All
              (λ r.
                is_near device_id target tolerance_ms r ≡ true
                → leb (distance target row) (distance target r) ≡ true)
              db.readings)
unfolding near
near_closest device_id target tolerance_ms earliest last db h k =
    rw
      (
        near,
        h,
        k,
        select-same _ _ db.readings
            (λ r. near_test device_id target tolerance_ms earliest last r h k),
      )
      (elim (fetchone_first (ascending (distance target)) (ascending-IsOrder (distance target))
        (is_near device_id target tolerance_ms) db.readings) [
          | inl (nothing, missing) ↦ inl (nothing, ap (λ f. ok f) missing)
          | inr (row, found, close, nearest) ↦ inr (row, ap (λ f. ok f) found, close, nearest)
        ])
