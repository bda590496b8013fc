-- ===== src/Sorting/Laws.antt =====
use psychron.Base.{
  All, Bool, Bool-cases, List, [], any, ap, arith, false, if◌then◌else◌, inl, inr, length, refl,
  suc, true, ℕ, ◌+◌, ◌||◌, ◌∙◌, ◌∷◌, ◌≡◌,
}
use psychron.Sorting.{ascending, descending, order_by, place}

-- What an ordered list keeps of the rows, and that it is in order.

pub record IsOrder {A : Type 0} (le : A → A → Bool) : Type 0 where
  pub total : (a b : A) → le a b ≡ false → le b a ≡ true
  pub trans : (a b c : A) → le a b ≡ true → le b c ≡ true → le a c ≡ true

pub ascending-IsOrder : {A : Type 0} (column : A → ℕ) → IsOrder (ascending column)
ascending-IsOrder column = record {
  total = λ a b h. ground arith;
  trans = λ a b c h k. ground arith;
}

pub descending-IsOrder : {A : Type 0} (column : A → ℕ) → IsOrder (descending column)
descending-IsOrder column = record {
  total = λ a b h. ground arith;
  trans = λ a b c h k. ground arith;
}

module _ {A : Type 0} (le : A → A → Bool) where
  -- every row stands before those it must not follow
  abbrev pub InOrder : List A → Type 0
  InOrder [] = Unit
  InOrder (x ∷ xs) = All (λ y. le x y ≡ true) xs × InOrder xs

  -- how many rows satisfy a test
  abbrev pub how_many : (A → Bool) → List A → ℕ
  how_many p [] = 0
  how_many p (x ∷ xs) = (if p x then 1 else 0) + how_many p xs

  how_many-place :
      (p : A → Bool) (x : A) (ys : List A)
      → how_many p (place le x ys) ≡ (if p x then 1 else 0) + how_many p ys
  unfolding place
  how_many-place p x [] = refl
  how_many-place p x (y ∷ ys) = ground (arith, how_many-place p x ys)

  -- the rows are the same, each as often
  pub how_many-order_by : (p : A → Bool) (xs : List A) → how_many p (order_by le xs) ≡ how_many p xs
  unfolding order_by
  how_many-order_by p [] = refl
  how_many-order_by p (x ∷ xs) =
      omega (arith, how_many-place p x (order_by le xs), how_many-order_by p xs)

  place-All : (P : A → Type 0) (x : A) (ys : List A) → P x → All P ys → All P (place le x ys)
  unfolding place
  place-All P x [] px h = (px, tt)
  place-All P x (y ∷ ys) px (py, h) = elim (Bool-cases (le x y)) [
    | inl before ↦ rw before (px, (py, h))
    | inr after ↦ rw after (py, place-All P x ys px h)
  ]

  pub order_by-All : (P : A → Type 0) (xs : List A) → All P xs → All P (order_by le xs)
  unfolding order_by
  order_by-All P [] h = tt
  order_by-All P (x ∷ xs) (px, h) = place-All P x (order_by le xs) px (order_by-All P xs h)

  length-place : (x : A) (ys : List A) → length (place le x ys) ≡ suc (length ys)
  unfolding place
  length-place x [] = refl
  length-place x (y ∷ ys) = ground (arith, length-place x ys)

  pub length-order_by : (xs : List A) → length (order_by le xs) ≡ length xs
  unfolding order_by
  length-order_by [] = refl
  length-order_by (x ∷ xs) = omega (arith, length-place x (order_by le xs), length-order_by xs)

  any-place : (p : A → Bool) (x : A) (ys : List A) → any p (place le x ys) ≡ (p x || any p ys)
  unfolding place
  any-place p x [] = refl
  any-place p x (y ∷ ys) = ground (arith, any-place p x ys)

  pub any-order_by : (p : A → Bool) (xs : List A) → any p (order_by le xs) ≡ any p xs
  unfolding order_by
  any-order_by p [] = refl
  any-order_by p (x ∷ xs) = any-place p x (order_by le xs) ∙ ap (λ b. p x || b) (any-order_by p xs)

  module _ (o : IsOrder le) where
    above :
        (x y : A) (ys : List A)
        → le x y ≡ true
        → All (λ z. le y z ≡ true) ys
        → All (λ z. le x z ≡ true) ys
    above x y [] h k = tt
    above x y (z ∷ ys) h (k, ks) = (o.trans x y z h k, above x y ys h ks)

    place-InOrder : (x : A) (ys : List A) → InOrder ys → InOrder (place le x ys)
    unfolding place
    place-InOrder x [] h = (tt, tt)
    place-InOrder x (y ∷ ys) (first, h) = elim (Bool-cases (le x y)) [
      | inl before ↦ rw before ((before, above x y ys before first), (first, h))
      | inr after ↦
          rw after
            (place-All (λ z. le y z ≡ true) x ys (o.total x y after) first, place-InOrder x ys h)
    ]

    -- ORDER BY puts the rows in order
    pub order_by-InOrder : (xs : List A) → InOrder (order_by le xs)
    unfolding order_by
    order_by-InOrder [] = tt
    order_by-InOrder (x ∷ xs) = place-InOrder x (order_by le xs) (order_by-InOrder xs)
