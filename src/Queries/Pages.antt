-- ===== src/Queries/Pages.antt =====
use psychron.Base.{
  Bool, List, String, [], ap, arith, false, length, length-take-le, ltb, refl, suc, sym, take, true,
  zero, ℕ, ◌++◌, ◌∙◌, ◌∷◌, ◌≡◌, ◌≤◌, All, Bool-cases, Option, inl, inr, map, none, select, some,
  str_eq, ◌&&◌,
}
use psychron.Instant.{Instant}
use psychron.Queries.{
  Series, paged, Aggregate, bucket_point, choose_bucket, in_range, of_device, raw_point,
  readings_in, series, tier_rows,
}
use psychron.Sorting.{ascending, order_by}
use psychron.Sorting.Laws.{
  InOrder, ascending-IsOrder, how_many, how_many-order_by, order_by-InOrder, order_by-All,
}
use psychron.Database.{Database}
use psychron.Queries.Phone.{Sql, choose_interval, sample_rows, sample_series}

-- backend/src/psychron/adapters/queries.py. What a series shows, and what it leaves out.

module _ {A : Type 0} where
  abbrev pub drop : ℕ → List A → List A
  drop zero xs = xs
  drop (suc n) [] = []
  drop (suc n) (x ∷ xs) = drop n xs

  take-take-suc : (n : ℕ) (xs : List A) → take n (take (suc n) xs) ≡ take n xs
  take-take-suc zero xs = refl
  take-take-suc (suc n) [] = refl
  take-take-suc (suc n) (x ∷ xs) = ap (λ ys. x ∷ ys) (take-take-suc n xs)

  take-append-drop : (n : ℕ) (xs : List A) → take n xs ++ drop n xs ≡ xs
  take-append-drop zero xs = refl
  take-append-drop (suc n) [] = refl
  take-append-drop (suc n) (x ∷ xs) = ap (λ ys. x ∷ ys) (take-append-drop n xs)

  -- one row more than the limit tells whether there are more
  length-take-suc : (n : ℕ) (xs : List A) → ltb n (length (take (suc n) xs)) ≡ ltb n (length xs)
  length-take-suc zero [] = refl
  length-take-suc zero (x ∷ xs) = ground arith
  length-take-suc (suc n) [] = refl
  length-take-suc (suc n) (x ∷ xs) = let same = length-take-suc n xs in ground arith

  drop-all : (n : ℕ) (xs : List A) → ltb n (length xs) ≡ false → drop n xs ≡ []
  drop-all zero [] h = refl
  drop-all zero (x ∷ xs) h = absurd (ground arith)
  drop-all (suc n) [] h = refl
  drop-all (suc n) (x ∷ xs) h = drop-all n xs (ground arith)

  drop-some : (n : ℕ) (xs : List A) → ltb n (length xs) ≡ true → 1 ≤ length (drop n xs)
  drop-some zero [] h = absurd (ground arith)
  drop-some zero (x ∷ xs) h = omega arith
  drop-some (suc n) [] h = absurd (ground arith)
  drop-some (suc n) (x ∷ xs) h = drop-some n xs (ground arith)

  length-take-full : (n : ℕ) (xs : List A) → ltb n (length xs) ≡ true → length (take n xs) ≡ n
  length-take-full zero xs h = refl
  length-take-full (suc n) [] h = absurd (ground arith)
  length-take-full (suc n) (x ∷ xs) h = ap (λ k. suc k) (length-take-full n xs (ground arith))

-- What a page is of the rows that match: the beginning of all of them in order.
pub record IsPage {A : Type 0} (t : A → Instant) (matching : List A) (page : Series A)
    : Type 0 where
  pub rest : List A
  -- the page and the rest are the rows that match, each as often, in order
  pub same_rows :
      (p : A → Bool)
      → how_many (ascending t) p (page.points ++ rest) ≡ how_many (ascending t) p matching
  pub in_order : InOrder (ascending t) (page.points ++ rest)
  pub bounded : length page.points ≤ 5000
  -- nothing is left out unless the page says so
  pub whole : page.truncated ≡ false → rest ≡ []
  pub left_out : page.truncated ≡ true → 1 ≤ length rest
  pub full : page.truncated ≡ true → length page.points ≡ 5000

paged-IsPage :
    {A : Type 0} (t : A → Instant) (label : String) (matching : List A)
    → IsPage t matching (paged t label matching)
unfolding paged
paged-IsPage t label matching =
    let rows = order_by (ascending t) matching in
    record {
      rest = drop 5000 rows;
      same_rows = λ p.
          rw (take-take-suc 5000 rows, take-append-drop 5000 rows)
            (how_many-order_by (ascending t) p matching);
      in_order =
          rw (take-take-suc 5000 rows, take-append-drop 5000 rows)
            (order_by-InOrder (ascending t) (ascending-IsOrder t) matching);
      bounded = length-take-le 5000 (take 5001 rows);
      whole = λ all. drop-all 5000 rows (sym (length-take-suc 5000 rows) ∙ all);
      left_out = λ more. drop-some 5000 rows (sym (length-take-suc 5000 rows) ∙ more);
      full = λ more.
          rw (take-take-suc 5000 rows)
            (length-take-full 5000 rows (sym (length-take-suc 5000 rows) ∙ more));
    }

module _ {A B : Type 0} (P : B → Type 0) (f : A → B) (wanted : A → Bool) where
  map-select-All :
      (table : List A) → ((a : A) → wanted a ≡ true → P (f a)) → All P (map f (select wanted table))
  map-select-All [] h = tt
  map-select-All (a ∷ table) h = elim (Bool-cases (wanted a)) [
    | inl hit ↦ rw hit (h a hit, map-select-All table h)
    | inr miss ↦ rw miss (map-select-All table h)
  ]

take-All : {A : Type 0} (P : A → Type 0) (n : ℕ) (xs : List A) → All P xs → All P (take n xs)
take-All P zero xs h = tt
take-All P (suc n) [] h = tt
take-All P (suc n) (x ∷ xs) (px, h) = (px, take-All P n xs h)

paged-All :
    {A : Type 0} (P : A → Type 0) (t : A → Instant) (label : String) (matching : List A)
    → All P matching
    → All P ((paged t label matching).points)
unfolding paged
paged-All P t label matching h =
    take-All P 5000 (take 5001 (order_by (ascending t) matching))
      (take-All P 5001 (order_by (ascending t) matching) (order_by-All (ascending t) P matching h))

both_right : (x y : Bool) → (x && y) ≡ true → y ≡ true
both_right true y h = h
both_right false y h = absurd (cc h)

module _ {F : Type 0} (views : String → Database F → List (Aggregate F)) (device_id : String)
    (start stop : Instant) (db : Database F) where
  tier_rows-All :
      (tier : Option String)
      → All (λ p. in_range start stop p.t ≡ true) (tier_rows views tier device_id start stop db)
  unfolding tier_rows readings_in
  tier_rows-All none =
      map-select-All (λ p. in_range start stop p.t ≡ true) raw_point
        (λ r. of_device device_id r && in_range start stop r.time) db.readings
        (λ r h. both_right (of_device device_id r) (in_range start stop r.time) h)
  tier_rows-All (some view) =
      map-select-All (λ p. in_range start stop p.t ≡ true) bucket_point
        (λ a. str_eq a.device_id device_id && in_range start stop a.bucket) (views view db)
        (λ a h. both_right (str_eq a.device_id device_id) (in_range start stop a.bucket) h)

-- `series` shows at most 5000 points, all of the range that is asked for and in the order of time:
-- the beginning of the rows of the tier that `choose_bucket` gives, each as often as it is there.
-- It says that it is truncated exactly when rows are left out, and then it shows 5000.
pub series-IsPage :
    {F : Type 0} (views : String → Database F → List (Aggregate F)) (device_id : String)
    (start stop : Instant) (db : Database F)
    → IsPage
        (λ p. p.t)
        (tier_rows views ((choose_bucket start stop).0) device_id start stop db)
        (series views device_id start stop db)
      × All (λ p. in_range start stop p.t ≡ true) ((series views device_id start stop db).points)
unfolding series
series-IsPage views device_id start stop db =
    let (tier, label) = choose_bucket start stop in
    let rows = tier_rows views tier device_id start stop db in
    (
      paged-IsPage (λ p. p.t) label rows,
      paged-All (λ p. in_range start stop p.t ≡ true) (λ p. p.t) label rows
          (tier_rows-All views device_id start stop db tier),
    )

-- The same of `sample_series`, for the windows or the buckets of the tier of its ladder.
sample_series-IsPage :
    {F : Type 0} (sql : Sql F) (device_id : String) (start stop : Instant) (db : Database F)
    → IsPage
        (λ p. p.t)
        (sample_rows sql ((choose_interval start stop).0) device_id start stop db)
        (sample_series sql device_id start stop db)
unfolding sample_series
sample_series-IsPage sql device_id start stop db =
    let (interval, label) = choose_interval start stop in
    paged-IsPage (λ p. p.t) label (sample_rows sql interval device_id start stop db)
