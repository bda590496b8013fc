-- ===== src/Schema.antt =====
-- backend/src/psychron/domain/samples.py, the closed schema: `Spec`, `check_value` and
-- `check_group`, which domain/events.py shares. The bounds of a Spec are whole numbers in the
-- source, and stand here as integers.
pub mod Conforms
pub mod Validator
pub mod Columns
mod Tests
use psychron.Base.{
  Bool, List, Option, String, [], elem, false, has_key, if◌then◌else◌, insert, lookup, map, none,
  not, select, some, true, ℤ, ◌&&◌, ◌∷◌,
}
use psychron.Fields.{to_float}
use psychron.Json.{Json, as_bool, as_dict, as_int, as_str, int, null}
use psychron.PyFloat.{Float}
use psychron.Raise.{
  Result, bad_choice, bad_flag, bad_integer, bad_number, expect, group_not_object, infinite_field,
  key_error, missing_in_group, null_field, ok, outside, raise, require, type_error,
  unknown_in_group, ◌>>=◌, ◌>>◌,
}

pub data Kind : Type 0 where
  number integer choice flag : Kind

pub record Spec : Type 0 where
  pub column : String
  pub lo : Option ℤ
  pub hi : Option ℤ
  pub hi_inclusive : Bool
  pub required : Bool
  pub kind : Kind
  pub choices : List String

-- `Spec(column, lo, hi)`
abbrev pub number_spec : String → ℤ → ℤ → Spec
number_spec column lo hi = record {
  column = column;
  lo = some lo;
  hi = some hi;
  hi_inclusive = true;
  required = true;
  kind = number;
  choices = [];
}

-- `Spec(column, kind="choice", choices=choices)`
abbrev pub choice_spec : String → List String → Spec
choice_spec column choices = record {
  column = column;
  lo = none;
  hi = none;
  hi_inclusive = true;
  required = true;
  kind = choice;
  choices = choices;
}

-- `Spec(column, kind="flag")`
abbrev pub flag_spec : String → Spec
flag_spec column = record {
  column = column;
  lo = none;
  hi = none;
  hi_inclusive = true;
  required = true;
  kind = flag;
  choices = [];
}

-- `required=False`
abbrev pub optional : Spec → Spec
optional s = record s { required = false }

-- The dict of one group: a Spec for each name.
abbrev pub Group : Type 0
Group = List (String × Spec)

-- What `check_value` returns.
pub data Value (F : Type 0) : Type 0 where
  real : F → Value F
  whole_number : ℤ → Value F
  text : String → Value F
  truth : Bool → Value F

abbrev pub keys {ℓ} : {V : Type ℓ} → List (String × V) → List String
keys = map (λ e. e.0)

abbrev pub is_empty {ℓ} : {A : Type ℓ} → List A → Bool
is_empty [] = true
is_empty (x ∷ xs) = false

-- the names in `names` that are no key of `d`: `set(names) - set(d)`
abbrev pub absent_from {ℓ} : {V : Type ℓ} → List (String × V) → List String → List String
absent_from d names = select (λ name. not (has_key name d)) names

-- `{name for name, s in spec.items() if s.required}`
abbrev pub required_names : Group → List String
required_names spec = keys (select (λ e. e.1.required) spec)

-- a bound that is None would make the comparison raise TypeError
abbrev pub bound : Option ℤ → Result ℤ
bound none = raise type_error
bound (some n) = ok n

module _ {F : Type 0} where
  abbrev pub is_null : Json F → Bool
  is_null null = true
  is_null _ = false

module _ {F : Type 0} (fl : Float F) where
  abbrev pub within : Spec → ℤ → ℤ → F → Bool
  within spec lo hi value =
      if spec.hi_inclusive
      then fl.le (fl.whole lo) value && fl.le value (fl.whole hi)
      else fl.le (fl.whole lo) value && fl.lt value (fl.whole hi)

  -- the tests that a number and an integer share
  unfoldable pub check_range : String → String → Spec → F → Result (Unit {0})
  check_range group name spec value = do
    require (fl.is_finite value) (infinite_field group name)
    lo ← bound spec.lo
    hi ← bound spec.hi
    require (within spec lo hi value) (outside group name)

  -- `check_value` behind the test for null, by the kind of the Spec
  unfoldable pub check_kind : String → String → Spec → Kind → Json F → Result (Value F)
  unfolding to_float
  check_kind group name spec choice raw = do
    s ← expect (as_str (some raw)) (bad_choice group name)
    require (elem s spec.choices) (bad_choice group name)
    ok (text s)
  check_kind group name spec flag raw = do
    b ← expect (as_bool (some raw)) (bad_flag group name)
    ok (truth b)
  check_kind group name spec integer raw = do
    n ← expect (as_int (some raw)) (bad_integer group name)
    value ← to_float fl (int n) (bad_integer group name)
    check_range group name spec value
    ok (whole_number n)
  check_kind group name spec number raw = do
    value ← to_float fl raw (bad_number group name)
    check_range group name spec value
    ok (real value)

  unfoldable pub check_value : String → String → Spec → Json F → Result (Value F)
  check_value group name spec raw = do
    require (not (is_null raw)) (null_field group name)
    check_kind group name spec spec.kind raw

  -- the dict comprehension of `check_group`; `spec[name]` raises KeyError on an unknown name
  unfoldable pub check_members :
      String
      → Group
      → List (String × Value F)
      → List (String × Json F)
      → Result (List (String × Value F))
  check_members group spec values [] = ok values
  check_members group spec values ((name, raw) ∷ body) = elim (lookup name spec) [
    | none ↦ raise key_error
    | some s ↦ do
      value ← check_value group name s raw
      check_members group spec (insert s.column value values) body
  ]

  -- `check_group` on a dict
  unfoldable pub check_dict :
      String → Group → List (String × Json F) → Result (List (String × Value F))
  check_dict group spec body = do
    let extra = absent_from spec (keys body)
    require (is_empty extra) (unknown_in_group group extra)
    let missing = absent_from body (required_names spec)
    require (is_empty missing) (missing_in_group group missing)
    check_members group spec [] body

  unfoldable pub check_group : String → Group → Json F → Result (List (String × Value F))
  check_group group spec body = do
    members ← expect (as_dict body) (group_not_object group)
    check_dict group spec members
