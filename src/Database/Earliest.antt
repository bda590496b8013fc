-- ===== src/Database/Earliest.antt =====
-- backend/src/psychron/adapters/postgres.py, `SELECT DISTINCT ON ... ORDER BY ... time ASC`: of each
-- boot one row is kept, and no row of the boot is earlier.
use psychron.Base.{
  All, Bool, Bool-cases, List, [], any, arith, eq_iff, false, if◌then◌else◌, inl, inr, ltb, refl,
  true, ◌∷◌, ◌≡◌, ◌≤◌, ◌⊎◌,
}
use psychron.Database.{Observed, distinct_boots, keep_earliest, same_boot_as}
use psychron.Database.Restart.{distinct_boots-cover, no_later}

-- `p` is of another boot, or not before `k`
abbrev pub NotBefore : Observed → Observed → Type 0
NotBefore k p = (same_boot_as k p ≡ false) ⊎ (k.time ≤ p.time)

-- no two rows are of one boot
abbrev Unique : List Observed → Type 0
Unique [] = Unit
Unique (k ∷ rows) = (any (same_boot_as k) rows ≡ false) × Unique rows

same_boot_as-right :
    (q k o : Observed) → same_boot_as k o ≡ true → same_boot_as q k ≡ same_boot_as q o
same_boot_as-right q k o same = ground (
  arith,
  eq_iff k.device_id o.device_id,
  eq_iff q.device_id k.device_id,
  eq_iff q.device_id o.device_id,
)

same_boot_as-left :
    (q k o : Observed) → same_boot_as k o ≡ true → same_boot_as k q ≡ same_boot_as o q
same_boot_as-left q k o same = ground (
  arith,
  eq_iff k.device_id o.device_id,
  eq_iff k.device_id q.device_id,
  eq_iff o.device_id q.device_id,
)

same_boot_as_sym : (k o : Observed) → same_boot_as k o ≡ false → same_boot_as o k ≡ false
same_boot_as_sym k o differ =
    ground (arith, eq_iff k.device_id o.device_id, eq_iff o.device_id k.device_id)

any_same :
    (k o : Observed) (rows : List Observed)
    → same_boot_as k o ≡ true
    → any (same_boot_as k) rows ≡ any (same_boot_as o) rows
any_same k o [] same = refl
any_same k o (x ∷ rows) same = rw (same_boot_as-left x k o same, any_same k o rows same) refl

keep_earliest-any :
    (q o : Observed) (rows : List Observed)
    → any (same_boot_as q) rows ≡ false
    → same_boot_as q o ≡ false
    → any (same_boot_as q) (keep_earliest o rows) ≡ false
unfolding keep_earliest
keep_earliest-any q o [] none_there differ = rw differ refl
keep_earliest-any q o (k ∷ rows) none_there differ = elim (Bool-cases (same_boot_as q k)) [
  | inl hit ↦ absurd (cc (rw hit at none_there))
  | inr miss ↦
      let rest = rw miss at none_there in
      elim (Bool-cases (same_boot_as k o)) [
        | inl same ↦ elim (Bool-cases (ltb o.time k.time)) [
          | inl sooner ↦ rw (same, sooner, differ) rest
          | inr not_sooner ↦ rw (same, not_sooner, miss) rest
        ]
        | inr other ↦ rw (other, miss) (keep_earliest-any q o rows rest differ)
      ]
]

keep_earliest-Unique :
    (o : Observed) (rows : List Observed) → Unique rows → Unique (keep_earliest o rows)
unfolding keep_earliest
keep_earliest-Unique o [] u = (refl, tt)
keep_earliest-Unique o (k ∷ rows) (alone, u) = elim (Bool-cases (same_boot_as k o)) [
  | inl same ↦ elim (Bool-cases (ltb o.time k.time)) [
    | inl sooner ↦ rw (same, sooner) (rw (any_same k o rows same) at alone, u)
    | inr not_sooner ↦ rw (same, not_sooner) (alone, u)
  ]
  | inr other ↦ rw other (keep_earliest-any k o rows alone other, keep_earliest-Unique o rows u)
]

distinct_boots-Unique : (rows : List Observed) → Unique (distinct_boots rows)
unfolding distinct_boots
distinct_boots-Unique [] = tt
distinct_boots-Unique (o ∷ rows) =
    keep_earliest-Unique o (distinct_boots rows) (distinct_boots-Unique rows)

abbrev pub FirstOf : List Observed → Observed → Type 0
FirstOf rows k = All (NotBefore k) rows

-- the rows of other boots go on being first
others-FirstOf :
    (k o : Observed) (rows kept : List Observed)
    → same_boot_as k o ≡ true
    → any (same_boot_as k) kept ≡ false
    → All (FirstOf rows) kept
    → All (FirstOf (o ∷ rows)) kept
others-FirstOf k o rows [] same alone h = tt
others-FirstOf k o rows (x ∷ kept) same alone (first, h) = elim (Bool-cases (same_boot_as k x)) [
  | inl hit ↦ absurd (cc (rw hit at alone))
  | inr miss ↦
      let apart = same_boot_as_sym o x ((rw (same_boot_as-left x k o same) at miss)) in
      ((inl apart, first), others-FirstOf k o rows kept same (rw miss at alone) h)
]

sooner-FirstOf :
    (k o : Observed) (rows : List Observed)
    → same_boot_as k o ≡ true
    → o.time ≤ k.time
    → FirstOf rows k
    → FirstOf rows o
sooner-FirstOf k o [] same sooner h = tt
sooner-FirstOf k o (p ∷ rows) same sooner (inl differ, h) =
    (inl (rw (same_boot_as-left p k o same) at differ), sooner-FirstOf k o rows same sooner h)
sooner-FirstOf k o (p ∷ rows) same sooner (inr before, h) =
    (inr (omega arith), sooner-FirstOf k o rows same sooner h)

pick :
    (P : Observed → Type 0) (b : Bool) (o k : Observed)
    → (b ≡ true → P o)
    → (b ≡ false → P k)
    → P (if b then o else k)
pick P true o k h g = h refl
pick P false o k h g = g refl

keep_earliest-FirstOf :
    (o : Observed) (rows kept : List Observed)
    → Unique kept
    → (any (same_boot_as o) kept ≡ false → FirstOf rows o)
    → All (FirstOf rows) kept
    → All (FirstOf (o ∷ rows)) (keep_earliest o kept)
unfolding keep_earliest
keep_earliest-FirstOf o rows [] u fresh h = ((inr (omega arith), fresh refl), tt)
keep_earliest-FirstOf o rows (k ∷ kept) (alone, u) fresh (first, h) =
    elim (Bool-cases (same_boot_as k o)) [
      | inl same ↦
          let others = others-FirstOf k o rows kept same alone h in
          let sooner_first = λ (sooner : ltb o.time k.time ≡ true).
            sooner-FirstOf k o rows same (ground (arith, sooner)) first in
          rw same (
            pick (FirstOf (o ∷ rows)) (ltb o.time k.time) o k
                (λ sooner. (inr (omega arith), sooner_first sooner))
                (λ not_sooner. (inr (ground (arith, not_sooner)), first)),
            others,
          )
      | inr other ↦ rw other (
        (inl other, first),
        keep_earliest-FirstOf o rows kept u (λ e. fresh (rw (same_boot_as_sym k o other) e)) h,
      )
    ]

-- a row of a boot that is not kept yet is the first of its boot
unseen :
    (o : Observed) (kept : List Observed) (rows : List Observed)
    → any (same_boot_as o) kept ≡ false
    → All (λ p. any (no_later p) kept ≡ true) rows
    → FirstOf rows o
unseen o kept [] new h = tt
unseen o kept (p ∷ rows) new (there, h) = elim (Bool-cases (same_boot_as o p)) [
  | inr apart ↦ (inl apart, unseen o kept rows new h)
  | inl same ↦ absurd (meets o p kept same new there)
]
  where
    meets :
        (o p : Observed) (kept : List Observed)
        → same_boot_as o p ≡ true
        → any (same_boot_as o) kept ≡ false
        → any (no_later p) kept ≡ true
        → ⊥
    meets o p [] same new there = cc
    meets o p (k ∷ kept) same new there = elim (Bool-cases (same_boot_as o k)) [
      | inl hit ↦ cc (rw hit at new)
      | inr miss ↦
          let apart = same_boot_as_sym p k (rw (same_boot_as-left k o p same) at miss) in
          meets o p kept same (rw miss at new) (rw apart at there)
    ]

-- Of each boot the row that is kept is the first: no row of the boot is earlier.
pub distinct_boots-FirstOf : (rows : List Observed) → All (FirstOf rows) (distinct_boots rows)
unfolding distinct_boots
distinct_boots-FirstOf [] = tt
distinct_boots-FirstOf (o ∷ rows) =
    keep_earliest-FirstOf o rows (distinct_boots rows) (distinct_boots-Unique rows)
      (λ new. unseen o (distinct_boots rows) rows new (distinct_boots-cover rows))
      (distinct_boots-FirstOf rows)

keep_earliest-All :
    (P : Observed → Type 0) (o : Observed) (kept : List Observed)
    → P o
    → All P kept
    → All P (keep_earliest o kept)
unfolding keep_earliest
keep_earliest-All P o [] p h = (p, tt)
keep_earliest-All P o (k ∷ kept) p (pk, h) = elim (Bool-cases (same_boot_as k o)) [
  | inl same ↦ elim (Bool-cases (ltb o.time k.time)) [
    | inl sooner ↦ rw (same, sooner) (p, h)
    | inr not_sooner ↦ rw (same, not_sooner) (pk, h)
  ]
  | inr other ↦ rw other (pk, keep_earliest-All P o kept p h)
]

pub distinct_boots-All :
    (P : Observed → Type 0) (rows : List Observed) → All P rows → All P (distinct_boots rows)
unfolding distinct_boots
distinct_boots-All P [] h = tt
distinct_boots-All P (o ∷ rows) (p, h) =
    keep_earliest-All P o (distinct_boots rows) p (distinct_boots-All P rows h)
