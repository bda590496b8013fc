-- ===== src/Database/Restart.antt =====
-- backend/src/psychron/adapters/postgres.py, `known_boot_anchors`: what a restart finds.
use psychron.Database.{
  Observed, anchor_row, distinct_boots, fetch_anchors, keep_earliest, same_boot_as,
}
use psychron.Base.{
  All, All-zip, Bool, Bool-cases, List, [], any, arith, eq_iff, inl, inr, leb, refl, true, ◌&&◌,
  ◌∷◌, ◌≡◌,
}
use psychron.Clock.{Anchor, same_boot}
use psychron.Raise.{>>=-eq-ok, ok, ok-injective}
use psychron.Instant.{micros_of_ms}

-- the earliest row of each boot that `o` belongs to is no later than `o`
abbrev pub no_later : Observed → Observed → Bool
no_later o kept = same_boot_as kept o && leb kept.time o.time

keep_earliest-own :
    (o : Observed) (rows : List Observed) → any (no_later o) (keep_earliest o rows) ≡ true
unfolding keep_earliest
keep_earliest-own o [] = ground (arith, eq_iff o.device_id o.device_id)
keep_earliest-own o (kept ∷ rows) =
    let rest = keep_earliest-own o rows in
    ground (arith, eq_iff o.device_id o.device_id, eq_iff kept.device_id o.device_id)

keep_earliest-others :
    (p o : Observed) (rows : List Observed)
    → any (no_later p) rows ≡ true
    → any (no_later p) (keep_earliest o rows) ≡ true
unfolding keep_earliest
keep_earliest-others p o [] h = cc
keep_earliest-others p o (kept ∷ rows) h = elim (Bool-cases (same_boot_as kept o)) [
  | inl same ↦ rw same (
      ground (
        arith,
        eq_iff kept.device_id o.device_id,
        eq_iff kept.device_id p.device_id,
        eq_iff o.device_id p.device_id,
      ))
  | inr differ ↦ elim (Bool-cases (no_later p kept)) [
    | inl here ↦ rw (differ, here) refl
    | inr beyond ↦
        let rest = keep_earliest-others p o rows (rw beyond at h) in rw (differ, beyond) rest
  ]
]

pub distinct_boots-cover :
    (rows : List Observed) → All (λ o. any (no_later o) (distinct_boots rows) ≡ true) rows
unfolding distinct_boots
distinct_boots-cover [] = tt
distinct_boots-cover (o ∷ rows) = (
  keep_earliest-own o (distinct_boots rows),
  All-zip rows (λ p _ h. keep_earliest-others p o (distinct_boots rows) h)
      (distinct_boots-cover rows) (distinct_boots-cover rows),
)

anchor_row-boot :
    (o : Observed) (a : Anchor)
    → anchor_row o ≡ ok a
    → (a.device_id ≡ o.device_id) × (a.boot_id ≡ o.boot_id)
unfolding anchor_row
anchor_row-boot o a h = elim (Bool-cases (leb (micros_of_ms o.uptime_ms) o.time)) [
  | inl fits ↦ let same = ok-injective (rw (fits, anchor_row) at h) in rw (← same) (refl, refl)
  | inr old ↦ absurd (cc (rw (old, anchor_row) at h))
]

anchored_here :
    (o row : Observed) (a : Anchor) (rest : List Anchor)
    → a.device_id ≡ row.device_id
    → a.boot_id ≡ row.boot_id
    → no_later o row ≡ true
    → any (same_boot o.device_id o.boot_id) (a ∷ rest) ≡ true
anchored_here o row a rest device boot here = rw (device, boot) (ground arith)

pub fetched :
    (o : Observed) (rows : List Observed) (anchors : List Anchor)
    → fetch_anchors rows ≡ ok anchors
    → any (no_later o) rows ≡ true
    → any (same_boot o.device_id o.boot_id) anchors ≡ true
unfolding fetch_anchors anchor_row
fetched o [] anchors h kept = cc
fetched o (row ∷ rows) anchors h kept =
    let (a, made, h1) = >>=-eq-ok (anchor_row row) _ h in
    let (rest, fetched_rest, eq) = >>=-eq-ok (fetch_anchors rows) _ h1 in
    let same : a ∷ rest ≡ anchors = ok-injective eq in
    let (device, boot) = anchor_row-boot row a made in
    rw (← same) (elim (Bool-cases (no_later o row)) [
      | inl here ↦ anchored_here o row a rest device boot here
      | inr beyond ↦
          let later = fetched o rows rest fetched_rest (rw beyond at kept) in ground (arith, later)
    ])
