-- ===== src/Schema/Columns.antt =====
-- Where the values of a group are stored.
use mathlib.Core.Path.{subst}
use psychron.Base.{
  All, List, Option-cases, String, [], inl, inr, insert, insert-All, lookup, refl, some, ◌∷◌, ◌≡◌,
}
use psychron.Json.{Json}
use psychron.PyFloat.{Float}
use psychron.Raise.{>>=-eq-ok, missing_in_group, ok, ok-injective, require, unknown_in_group}
use psychron.Schema.{
  Group, Spec, Value, absent_from, check_dict, check_members, check_value, is_empty, keys,
  required_names,
}
use psychron.Schema.Conforms.{Fits}
use psychron.Schema.Validator.{check_value_iff}

module _ {F : Type 0} (fl : Float F) where
  -- A stored value is what a value that fits one of the group's Specs becomes, under its column.
  pub record Stored (spec : Group) (e : String × Value F) : Type 0 where
    pub name : String
    pub field : Spec
    pub named : lookup name spec ≡ some field
    pub column : field.column ≡ e.0
    pub raw : Json F
    pub fits : Fits fl field field.kind raw e.1

  module _ (group : String) (spec : Group) where
    check_members-Stored :
        (body : List (String × Json F)) (values : List (String × Value F))
        {out : List (String × Value F)}
        → All (Stored spec) values
        → check_members fl group spec values body ≡ ok out
        → All (Stored spec) out
    unfolding check_members
    check_members-Stored [] values s h = subst (All (Stored spec)) (ok-injective h) s
    check_members-Stored ((name, raw) ∷ body) values s h = elim (Option-cases (lookup name spec)) [
      | inl unknown ↦ absurd (cc)
      | inr (f, found) ↦
          let (v, valid, h1) =
            >>=-eq-ok (check_value fl group name f raw) _ (rw (found, check_members) at h) in
          check_members-Stored body (insert f.column v values)
            (insert-All (Stored spec) f.column v values s (record {
              name = name;
              field = f;
              named = found;
              column = refl;
              raw = raw;
              fits = (check_value_iff fl group name f raw v).0 valid;
            }))
            h1
    ]

    pub check_dict-Stored :
        (body : List (String × Json F)) {out : List (String × Value F)}
        → check_dict fl group spec body ≡ ok out
        → All (Stored spec) out
    unfolding check_dict
    check_dict-Stored body h =
        let (_, p, h1) =
          >>=-eq-ok
            (require (is_empty (absent_from spec (keys body)))
              (unknown_in_group group (absent_from spec (keys body))))
            _ h in
        let (_, q, h2) =
          >>=-eq-ok
            (require (is_empty (absent_from body (required_names spec)))
              (missing_in_group group (absent_from body (required_names spec))))
            _ h1 in
        check_members-Stored body [] tt h2
