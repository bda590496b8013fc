-- ===== src/Schema/Conforms.antt =====
-- backend/src/psychron/domain/samples.py. The closed schema as a relation: which JSON value fits a
-- Spec, and as what it is stored.
use psychron.Base.{All, Bool, List, String, elem, false, has_key, lookup, some, true, ℤ, ◌≡◌, ◌⊎◌}
use psychron.Json.{Json, bool, float, int, str}
use psychron.PyFloat.{Float}
use psychron.Schema.{
  Group, Kind, Spec, Value, choice, flag, integer, number, real, required_names, text, truth,
  whole_number,
}

module _ {F : Type 0} (fl : Float F) where
  pub record InRange (spec : Spec) (x : F) : Type 0 where
    pub lo : ℤ
    pub hi : ℤ
    pub has_lo : spec.lo ≡ some lo
    pub has_hi : spec.hi ≡ some hi
    pub finite : fl.is_finite x ≡ true
    pub above : fl.le (fl.whole lo) x ≡ true
    pub below :
        ((spec.hi_inclusive ≡ true) × (fl.le x (fl.whole hi) ≡ true))
        ⊎ ((spec.hi_inclusive ≡ false) × (fl.lt x (fl.whole hi) ≡ true))

  -- An int is stored as the double nearest to it, except by an integer Spec.
  pub data Fits (spec : Spec) : Kind → Json F → Value F → Type 0 where
    a_choice : {s : String} → elem s spec.choices ≡ true → Fits spec choice (str s) (text s)
    a_flag : {b : Bool} → Fits spec flag (bool b) (truth b)
    an_integer :
        {n : ℤ} {x : F}
        → fl.of_int n ≡ some x
        → InRange spec x
        → Fits spec integer (int n) (whole_number n)
    a_real : {x : F} → InRange spec x → Fits spec number (float x) (real x)
    a_whole :
        {n : ℤ} {x : F} → fl.of_int n ≡ some x → InRange spec x → Fits spec number (int n) (real x)

  -- a member of a group's object: a name of the group, with a value that fits
  pub record Known (spec : Group) (e : String × Json F) : Type 0 where
    pub field : Spec
    pub stored : Value F
    pub named : lookup e.0 spec ≡ some field
    pub fits : Fits field field.kind e.1 stored

  pub record Conforms (spec : Group) (body : List (String × Json F)) : Type 0 where
    pub complete : All (λ name. has_key name body ≡ true) (required_names spec)
    pub known : All (Known spec) body
