-- ===== src/PyFloat.antt =====
-- Python's float, a parameter of the model: the operations that the source applies to it. The
-- double itself is CPython's and not the repository's.
use psychron.Base.{ℤ, Bool, Option, ◌≡◌, true, false}

pub record Float (F : Type 0) : Type 0 where
  -- `float(n)` of an int; `none` is the OverflowError of an int beyond the doubles
  pub of_int : ℤ → Option F
  -- `math.isfinite`
  pub is_finite : F → Bool
  -- `a <= b` and `a < b`, false when either is a NaN
  pub le : F → F → Bool
  pub lt : F → F → Bool
  -- `a == n`, for an int n
  pub eq_int : F → ℤ → Bool
  -- the literal n.0
  pub whole : ℤ → F
  -- the literal of n tenths: `tenths (pos 420)` is 42.0
  pub tenths : ℤ → F

-- What IEEE 754 says of the order, NaN included.
pub record FloatOrder {F : Type 0} (fl : Float F) : Type 0 where
  pub lt_irrefl : (a : F) → fl.lt a a ≡ false
  pub lt_trans : (a b c : F) → fl.lt a b ≡ true → fl.lt b c ≡ true → fl.lt a c ≡ true
  pub lt_le_trans : (a b c : F) → fl.lt a b ≡ true → fl.le b c ≡ true → fl.lt a c ≡ true
