-- ===== src/Json.antt =====
-- What json.loads returns, and the tests that backend/src/psychron makes on it. The decoder is
-- CPython's: a parameter `Loads F` of the functions that call it.
use psychron.PyFloat.{Float}
use psychron.Base.{
  ℕ, ℤ, pos, String, Bool, false, Option, none, some, List, [], ◌∷◌, lookup, eqb_ℤ, if◌then◌else◌,
}

-- Object members are kept in the dict's order, each key once.
mutual
  pub data Json (F : Type 0) : Type 0 where
    null : Json F
    bool : Bool → Json F
    int : ℤ → Json F
    float : F → Json F
    str : String → Json F
    arr : Items F → Json F
    obj : Members F → Json F

  pub data Items (F : Type 0) : Type 0 where
    nil : Items F
    cons : Json F → Items F → Items F

  pub data Members (F : Type 0) : Type 0 where
    end : Members F
    member : String → Json F → Members F → Members F

abbrev pub Bytes : Type 0
Bytes = List ℕ

-- `json.loads(payload)`: a value, a ValueError, or the RecursionError of a deep nesting
pub data Loaded (F : Type 0) : Type 0 where
  loaded : Json F → Loaded F
  bad_json : Loaded F
  too_deep : Loaded F

abbrev pub Loads : Type 0 → Type 0
Loads F = Bytes → Loaded F

module _ {F : Type 0} where
  abbrev pub dict_of : Members F → List (String × Json F)
  dict_of end = []
  dict_of (member k v ms) = (k, v) ∷ dict_of ms

  abbrev pub to_members : List (String × Json F) → Members F
  to_members [] = end
  to_members ((k, v) ∷ ms) = member k v (to_members ms)

  -- `data.get(key)`: None for an absent key and for a null
  abbrev pub not_null : Option (Json F) → Option (Json F)
  not_null none = none
  not_null (some null) = none
  not_null (some v) = some v

  abbrev pub get : String → List (String × Json F) → Option (Json F)
  get key d = not_null (lookup key d)

  -- `isinstance(raw, int) and not isinstance(raw, bool)`
  abbrev pub as_int : Option (Json F) → Option ℤ
  as_int (some (int n)) = some n
  as_int _ = none

  -- `isinstance(raw, str)`
  abbrev pub as_str : Option (Json F) → Option String
  as_str (some (str s)) = some s
  as_str _ = none

  -- `isinstance(raw, bool)`
  abbrev pub as_bool : Option (Json F) → Option Bool
  as_bool (some (bool b)) = some b
  as_bool _ = none

  -- `isinstance(raw, dict)`
  abbrev pub as_dict : Json F → Option (List (String × Json F))
  as_dict (obj ms) = some (dict_of ms)
  as_dict _ = none

  -- `raw == n`: True is 1 and 1.0 is 1
  abbrev pub equals_int : Float F → Option (Json F) → ℤ → Bool
  equals_int fl (some (int m)) n = eqb_ℤ m n
  equals_int fl (some (bool b)) n = eqb_ℤ (if b then pos 1 else pos 0) n
  equals_int fl (some (float x)) n = fl.eq_int x n
  equals_int fl _ n = false
