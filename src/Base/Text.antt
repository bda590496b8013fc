-- ===== src/Base/Text.antt =====
-- Texts as dictionary keys: association lists by the native string test.
use mathlib.Core.Path.{◌≡◌, refl}
use mathlib.Core.Bool.{Bool}
use mathlib.Core.Option.{Option, none, some}
use mathlib.Core.List.{List, [], ◌∷◌}
use Prim.Native.String.{String}
use native.Mathlib.Omega.{arith}
use text.Mathlib.Text.{◌==◌}
use text.Mathlib.TextEquality.{eq_iff}
use mathlib.Core.Logic.{inl, inr}
use psychron.Base.Tests.{if◌then◌else◌, is_some, Bool-cases}
use psychron.Base.Lists.{any, All}

-- `k in ks`, for a tuple or a set of texts
abbrev pub elem : String → List String → Bool
elem k ks = any (λ j. j == k) ks

module _ {ℓ} {V : Type ℓ} where
  -- `d.get(k)`
  abbrev pub lookup : String → List (String × V) → Option V
  lookup k [] = none
  lookup k ((j, v) ∷ d) = if j == k then some v else lookup k d

  -- `k in d`
  abbrev pub has_key : String → List (String × V) → Bool
  has_key k d = is_some (lookup k d)

  -- `d[k] = v`: a key keeps its place
  abbrev pub insert : String → V → List (String × V) → List (String × V)
  insert k v [] = (k, v) ∷ []
  insert k v ((j, w) ∷ d) = if j == k then (k, v) ∷ d else (j, w) ∷ insert k v d

  pub lookup-insert :
      (k j : String) (v : V) (d : List (String × V))
      → lookup j (insert k v d) ≡ (if k == j then some v else lookup j d)
  lookup-insert k j v [] = refl
  lookup-insert k j v ((i, w) ∷ d) =
      ground (arith, eq_iff k j, eq_iff i k, eq_iff i j, lookup-insert k j v d)

-- A property of all pairs survives a write that has it.
pub insert-All {ℓ κ} :
    {V : Type ℓ} (P : String × V → Type κ) (k : String) (v : V) (d : List (String × V))
    → All P d
    → P (k, v)
    → All P (insert k v d)
insert-All P k v [] h p = (p, tt)
insert-All P k v ((j, w) ∷ d) h p = elim (Bool-cases (j == k)) [
  | inl same ↦ rw same (p, h.1)
  | inr other ↦ rw other (h.0, insert-All P k v d h.1 p)
]

pub lookup-All {ℓ κ} :
    {V : Type ℓ} (P : String × V → Type κ) (k : String) {v : V} (d : List (String × V))
    → All P d
    → lookup k d ≡ some v
    → P (k, v)
lookup-All P k [] h found = cc
lookup-All P k {v} ((j, w) ∷ d) h found = elim (Bool-cases (j == k)) [
  | inl same ↦
      let e : w ≡ v = ground arith in
      let same_key : j ≡ k = (eq_iff j k).0 same in rw (← e, ← same_key) h.0
  | inr other ↦ lookup-All P k d h.1 (rw other at found)
]
