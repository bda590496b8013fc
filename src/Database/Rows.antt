-- ===== src/Database/Rows.antt =====
-- backend/src/psychron/adapters/postgres.py. A table keeps one row of each identity, and `store`
-- adds a row or changes nothing.
use psychron.Base.{
  Bool-cases, List, Option, Option-cases, [], false, inl, inr, refl, true, ◌∷◌, ◌≡◌, ◌⊎◌, Bool, ap,
  arith, eq_iff, sym, ◌∙◌,
}
use psychron.Database.{Identity, conflicts, insert_row, is_stored, same_identity, store_row}
use psychron.Instant.{Instant}
use psychron.Raise.{Error, ok, raise}

module _ {V : Type 0} (identity : V → Identity) (time_of : V → Instant) where
  -- no two rows of a table have the same identity
  abbrev pub Distinct : List V → Type 0
  Distinct [] = Unit
  Distinct (row ∷ rows) = (is_stored identity time_of (identity row) rows ≡ false) × Distinct rows

  conflicts→is_stored :
      (row : V) (rows : List V)
      → conflicts identity time_of row rows ≡ true
      → is_stored identity time_of (identity row) rows ≡ true
  unfolding conflicts is_stored
  conflicts→is_stored row [] h = h
  conflicts→is_stored row (other ∷ rows) h =
      elim (Bool-cases (same_identity (identity row) (identity other))) [
        | inl same ↦ rw same refl
        | inr differ ↦ let rest = conflicts→is_stored row rows (rw differ at h) in rw (differ, rest)
      ]

  -- The outcomes of `store_row`: a row whose identity is stored is passed over, a row that the
  -- constraints refuse raises, and any other row is added; ON CONFLICT never applies.
  pub store_row_cases :
      (refuses : V → Option Error) (row : V) (rows : List V)
      → ((is_stored identity time_of (identity row) rows ≡ true)
          × (store_row identity time_of refuses row rows ≡ (ok false, rows)))
        ⊎ ((is_stored identity time_of (identity row) rows ≡ false)
            × (((e : Error) × (store_row identity time_of refuses row rows ≡ (raise e, rows)))
                ⊎ (store_row identity time_of refuses row rows ≡ (ok true, row ∷ rows))))
  unfolding store_row insert_row
  store_row_cases refuses row rows =
      elim (Bool-cases (is_stored identity time_of (identity row) rows)) [
        | inl stored ↦ inl (stored, rw stored refl)
        | inr new ↦ elim (Option-cases (refuses row)) [
          | inl admitted ↦ elim (Bool-cases (conflicts identity time_of row rows)) [
            | inl clash ↦ absurd (cc (new, conflicts→is_stored row rows clash))
            | inr free ↦ inr (new, inr (rw (new, admitted, insert_row, free) refl))
          ]
          | inr (e, refused) ↦ inr (new, inl (e, rw (new, refused, insert_row) refl))
        ]
      ]

  pub store_row-Distinct :
      (refuses : V → Option Error) (row : V) (rows : List V)
      → Distinct rows
      → Distinct ((store_row identity time_of refuses row rows).1)
  store_row-Distinct refuses row rows h = elim (store_row_cases refuses row rows) [
    | inl (stored, e) ↦ rw e h
    | inr (new, inl (x, e)) ↦ rw e h
    | inr (new, inr e) ↦ rw e (new, h)
  ]

  pub is_stored-cons :
      (key : Identity) (row : V) (rows : List V)
      → is_stored identity time_of key rows ≡ true
      → is_stored identity time_of key (row ∷ rows) ≡ true
  unfolding is_stored
  is_stored-cons key row rows h = ground arith

  stored_once :
      (row : V) (rows : List V) → is_stored identity time_of (identity row) (row ∷ rows) ≡ true
  unfolding is_stored
  stored_once row rows =
      ground (arith, eq_iff ((identity row).device_id) ((identity row).device_id))

  pub store_row-is_stored :
      (refuses : V → Option Error) (row : V) (rows rows' : List V) (b : Bool)
      → store_row identity time_of refuses row rows ≡ (ok b, rows')
      → is_stored identity time_of (identity row) rows' ≡ true
  store_row-is_stored refuses row rows rows' b h = elim (store_row_cases refuses row rows) [
    | inl (stored, e) ↦ let same : rows ≡ rows' = ap (λ p. p.1) (sym e ∙ h) in rw (← same) stored
    | inr (new, inl (x, e)) ↦ absurd (cc (ap (λ p. p.0) (sym e ∙ h)))
    | inr (new, inr e) ↦
        let same : row ∷ rows ≡ rows' = ap (λ p. p.1) (sym e ∙ h) in
        rw (← same) (stored_once row rows)
  ]

  pub store_row-passes :
      (refuses : V → Option Error) (row : V) (rows : List V)
      → is_stored identity time_of (identity row) rows ≡ true
      → store_row identity time_of refuses row rows ≡ (ok false, rows)
  store_row-passes refuses row rows h = elim (store_row_cases refuses row rows) [
    | inl (stored, e) ↦ e
    | inr (new, rest) ↦ absurd (cc (new, h))
  ]
