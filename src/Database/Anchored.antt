-- ===== src/Database/Anchored.antt =====
-- backend/src/psychron/adapters/postgres.py, `known_boot_anchors`: which boots a restart anchors, and
-- where.
use psychron.Base.{
  All, All-append, All-imp, All-map, All-select, All-unappend, All-unmap, All-unselect, Bool-cases,
  List, Option, String, [], any, arith, eq_iff, false, inl, inr, map, refl, select, str_eq, true, ℕ,
  ◌%◌, ◌+◌, ◌/◌, ◌∷◌, ◌≡◌, ◌≢◌, ◌≤◌, ◌⊎◌, is_some, leb,
}
use psychron.Clock.{Anchor, same_boot}
use psychron.Database.{
  Database, Observed, anchor_row, distinct_boots, fetch_anchors, is_trusted, known_boot_anchors,
  observed, observed_reading, observed_sample, same_boot_as,
}
use psychron.Database.Earliest.{FirstOf, NotBefore, distinct_boots-All, distinct_boots-FirstOf}
use psychron.Database.Restart.{distinct_boots-cover, fetched, no_later}
use psychron.Instant.{Instant, micros_of_ms}
use psychron.Raise.{>>=-eq-ok, ok, ok-injective}
use psychron.Samples.{ResolvedSample}
use psychron.Telemetry.{ResolvedReading}

abbrev pub In : {A : Type 0} → A → List A → Type 0
In x [] = ⊥
In x (y ∷ ys) = (x ≡ y) ⊎ In x ys

-- the device's clock was claimed, and neither bit 0x100 nor bit 0x200 of the quality is set
abbrev pub Trusted : Option Instant → ℕ → Type 0
Trusted device_time quality =
    (is_some device_time ≡ true) × ((quality / 256) % 2 ≡ 0) × ((quality / 512) % 2 ≡ 0)

abbrev pub Untrusted : Option Instant → ℕ → Type 0
Untrusted device_time quality =
    (is_some device_time ≡ false) ⊎ ((quality / 256) % 2 ≡ 1) ⊎ ((quality / 512) % 2 ≡ 1)

module _ {F : Type 0} where
  -- `o` has the boot, the time, the uptime, the clock and the quality of a stored row
  abbrev pub IsReading : Observed → ResolvedReading F → Type 0
  IsReading o r =
      (o.device_id ≡ r.device_id)
      × (o.boot_id ≡ r.boot_id)
      × (o.time ≡ r.time)
      × (o.uptime_ms ≡ r.uptime_ms)
      × (o.device_time ≡ r.device_time)
      × (o.quality ≡ r.quality)

  abbrev pub IsSampleRow : Observed → ResolvedSample F → Type 0
  IsSampleRow o r =
      (o.device_id ≡ r.device_id)
      × (o.boot_id ≡ r.boot_id)
      × (o.time ≡ r.time)
      × (o.uptime_ms ≡ r.uptime_ms)
      × (o.device_time ≡ r.device_time)
      × (o.quality ≡ r.quality)

  -- `o` is a row of the readings or of the samples
  abbrev pub IsStored : Database F → Observed → Type 0
  IsStored db o =
      ((r : ResolvedReading F) × In r db.readings × IsReading o r)
      ⊎ ((r : ResolvedSample F) × In r db.samples × IsSampleRow o r)

-- a row is no basis for an anchor, or of another boot than `o`, or not before it
abbrev pub NoEarlier : Observed → String → ℕ → Instant → Option Instant → ℕ → Type 0
NoEarlier o device_id boot_id time device_time quality =
    Untrusted device_time quality
    ⊎ (o.device_id ≢ device_id)
    ⊎ (o.boot_id ≢ boot_id)
    ⊎ (o.time ≤ time)

-- a row is no basis for an anchor, or its boot has one
abbrev pub HasAnchor : List Anchor → String → ℕ → Option Instant → ℕ → Type 0
HasAnchor anchors device_id boot_id device_time quality =
    Untrusted device_time quality ⊎ (any (same_boot device_id boot_id) anchors ≡ true)

module _ {F : Type 0} (db : Database F) where
  -- the boot's beginning, by the boot's earliest trusted row
  abbrev pub ByEarliest : Anchor → Type 0
  ByEarliest a =
      (o : Observed) × IsStored db o
      × Trusted o.device_time o.quality
      × (a.device_id ≡ o.device_id)
      × (a.boot_id ≡ o.boot_id)
      × (a.boot_epoch + micros_of_ms o.uptime_ms ≡ o.time)
      × All (λ r. NoEarlier o r.device_id r.boot_id r.time r.device_time r.quality) db.readings
      × All (λ r. NoEarlier o r.device_id r.boot_id r.time r.device_time r.quality) db.samples

  abbrev pub AllAnchored : List Anchor → Type 0
  AllAnchored anchors =
      All (λ r. HasAnchor anchors r.device_id r.boot_id r.device_time r.quality) db.readings
      × All (λ r. HasAnchor anchors r.device_id r.boot_id r.device_time r.quality) db.samples

All-In : {A : Type 0} (xs ys : List A) → ((x : A) → In x xs → In x ys) → All (λ x. In x ys) xs
All-In [] ys f = tt
All-In (x ∷ xs) ys f = (f x (inl refl), All-In xs ys (λ z m. f z (inr m)))

is_trusted-Trusted : (o : Observed) → is_trusted o ≡ true → Trusted o.device_time o.quality
unfolding is_trusted
is_trusted-Trusted o h = (ground arith, ground arith, ground arith)

is_trusted-Untrusted : (o : Observed) → is_trusted o ≡ false → Untrusted o.device_time o.quality
unfolding is_trusted
is_trusted-Untrusted o h = ground arith

apart :
    (o p : Observed)
    → same_boot_as o p ≡ false
    → (o.device_id ≢ p.device_id) ⊎ (o.boot_id ≢ p.boot_id)
apart o p h = elim (Bool-cases (str_eq o.device_id p.device_id)) [
  | inl same ↦ inr (λ e. ground (arith, h, same, e))
  | inr differ ↦ inl (λ e. ground (arith, eq_iff o.device_id p.device_id, differ, e))
]

NoEarlier-of :
    (o p : Observed)
    → (is_trusted p ≡ false) ⊎ NotBefore o p
    → NoEarlier o p.device_id p.boot_id p.time p.device_time p.quality
NoEarlier-of o p (inl none_there) = inl (is_trusted-Untrusted p none_there)
NoEarlier-of o p (inr (inl differ)) = elim (apart o p differ) [
  | inl device ↦ inr (inl device)
  | inr boot ↦ inr (inr (inl boot))
]
NoEarlier-of o p (inr (inr before)) = inr (inr (inr before))

module _ {F : Type 0} (db : Database F) where
  observed-IsStored : All (IsStored db) (observed db)
  observed-IsStored =
      All-append (IsStored db) (map observed_reading db.readings) (map observed_sample db.samples)
        (All-map (IsStored db) observed_reading db.readings (
          All-imp db.readings (λ r m. inl (r, m, (refl, refl, refl, refl, refl, refl)))
            (All-In db.readings db.readings (λ r m. m))))
        (All-map (IsStored db) observed_sample db.samples (
          All-imp db.samples (λ r m. inr (r, m, (refl, refl, refl, refl, refl, refl)))
            (All-In db.samples db.samples (λ r m. m))))

  -- what holds of each row of the union holds of each reading and of each sample
  of_observed :
      (P : Observed → Type 0)
      → All P (observed db)
      → All (λ r. P (observed_reading r)) db.readings × All (λ r. P (observed_sample r)) db.samples
  of_observed P h =
      let (readings, samples) =
        All-unappend P (map observed_reading db.readings) (map observed_sample db.samples) h in
      (
        All-unmap P observed_reading db.readings readings,
        All-unmap P observed_sample db.samples samples,
      )

  -- a row that is kept for its boot
  abbrev Kept : Observed → Type 0
  Kept o = ((is_trusted o ≡ true) × IsStored db o) × FirstOf (select is_trusted (observed db)) o

  distinct_boots-Kept : All Kept (distinct_boots (select is_trusted (observed db)))
  distinct_boots-Kept =
      let rows = select is_trusted (observed db) in
      both (distinct_boots rows)
        (distinct_boots-All (λ o. (is_trusted o ≡ true) × IsStored db o) rows
          (All-select (IsStored db) is_trusted (observed db) observed-IsStored))
        (distinct_boots-FirstOf rows)
    where
      both :
          (xs : List Observed)
          → All (λ o. (is_trusted o ≡ true) × IsStored db o) xs
          → All (FirstOf (select is_trusted (observed db))) xs
          → All Kept xs
      both [] h k = tt
      both (x ∷ xs) (p, h) (q, k) = ((p, q), both xs h k)

  anchored : (o : Observed) (a : Anchor) → Kept o → anchor_row o ≡ ok a → ByEarliest db a
  unfolding anchor_row
  anchored o a ((trusted, stored), first) made =
      elim (Bool-cases (leb (micros_of_ms o.uptime_ms) o.time)) [
        | inl fits ↦
            let same = ok-injective (rw (fits, anchor_row) at made) in
            let none_earlier =
              of_observed (λ p. NoEarlier o p.device_id p.boot_id p.time p.device_time p.quality)
                (All-imp (observed db) (λ p. NoEarlier-of o p)
                  (All-unselect (NotBefore o) is_trusted (observed db) first)) in
            rw (← same) (
              o,
              stored,
              is_trusted-Trusted o trusted,
              refl,
              refl,
              ground (arith, fits),
              none_earlier.0,
              none_earlier.1,
            )
        | inr old ↦ absurd (cc (rw (old, anchor_row) at made))
      ]

  fetch_anchors-ByEarliest :
      (rows : List Observed) (anchors : List Anchor)
      → All Kept rows
      → fetch_anchors rows ≡ ok anchors
      → All (ByEarliest db) anchors
  unfolding fetch_anchors
  fetch_anchors-ByEarliest [] anchors h k = rw (← ok-injective k) tt
  fetch_anchors-ByEarliest (o ∷ rows) anchors (p, h) k =
      let (a, made, k1) = >>=-eq-ok (anchor_row o) _ k in
      let (rest, others, eq) = >>=-eq-ok (fetch_anchors rows) _ k1 in
      rw (← ok-injective eq) (anchored o a p made, fetch_anchors-ByEarliest rows rest h others)

-- When `known_boot_anchors` has returned, every boot with a trusted row, among the readings or the
-- samples, has an anchor in the result, and every anchor of the result is the time of its boot's
-- earliest trusted row, less that row's uptime. A row is trusted when its device's clock was claimed
-- and its quality has neither bit 0x100 nor bit 0x200, which mark an instant that was inferred.
pub known_boot_anchors_complete :
    {F : Type 0} (db : Database F) (anchors : List Anchor)
    → known_boot_anchors db ≡ ok anchors
    → AllAnchored db anchors × All (ByEarliest db) anchors
unfolding known_boot_anchors
known_boot_anchors_complete db anchors h =
    let rows = select is_trusted (observed db) in
    let found =
      of_observed db (λ o. HasAnchor anchors o.device_id o.boot_id o.device_time o.quality)
        (All-imp (observed db)
          (λ o k. elim k [
            | inl none_there ↦ inl (is_trusted-Untrusted o none_there)
            | inr kept ↦ inr (fetched o (distinct_boots rows) anchors h kept)
          ])
          (All-unselect (λ o. any (no_later o) (distinct_boots rows) ≡ true) is_trusted
            (observed db) (distinct_boots-cover rows))) in
    (found, fetch_anchors-ByEarliest db (distinct_boots rows) anchors (distinct_boots-Kept db) h)
