-- ===== src/Sorting.antt =====
-- ORDER BY and LIMIT, as the queries of adapters/queries.py use them: an insertion sort, which is
-- stable, where PostgreSQL leaves the order of equals open.
pub mod Laws
use psychron.Base.{Bool, List, [], if◌then◌else◌, leb, ℕ, ◌∷◌}

module _ {A : Type 0} (le : A → A → Bool) where
  unfoldable pub place : A → List A → List A
  place x [] = x ∷ []
  place x (y ∷ ys) = if le x y then x ∷ y ∷ ys else y ∷ place x ys

  unfoldable pub order_by : List A → List A
  unfolding place
  order_by [] = []
  order_by (x ∷ xs) = place x (order_by xs)

-- ASC and DESC by a column
module _ {A : Type 0} (column : A → ℕ) where
  abbrev pub ascending : A → A → Bool
  ascending a b = leb (column a) (column b)

  abbrev pub descending : A → A → Bool
  descending a b = leb (column b) (column a)
