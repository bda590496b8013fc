-- ===== src/Schema/Validator.antt =====
-- backend/src/psychron/domain/samples.py. What the validator accepts.
use psychron.Base.{
  Option, String, arith, none, some, true, ℤ, ◌≡◌, elem, false, not, refl, ◌↔◌, All, List,
  Option-cases, [], inl, inr, insert, lookup, ◌∷◌, Bool-cases, has_key,
}
use psychron.Json.{Json, bool, float, int, str}
use psychron.PyFloat.{Float}
use psychron.Raise.{
  >>=-eq-ok, infinite_field, ok, require, require-eq-ok, Reason, bad_choice, bad_integer,
  bad_number, null_field, ok-injective, missing_in_group, unknown_in_group,
}
use psychron.Schema.{
  Kind, Spec, Value, bound, check_kind, check_range, within, check_value, choice, flag, integer,
  is_null, number, Group, check_members, absent_from, check_dict, is_empty, keys, required_names,
}
use psychron.Schema.Conforms.{
  Fits, InRange, a_choice, a_flag, a_real, a_whole, an_integer, Known, Conforms,
}
-- `check_value` and `check_group` decide the relation.
use mathlib.Core.Path.{subst}
use psychron.Fields.{to_float}

bound-eq-ok : (b : Option ℤ) {n : ℤ} → bound b ≡ ok n → b ≡ some n
bound-eq-ok none h = cc
bound-eq-ok (some m) h = ground arith

module _ {F : Type 0} (fl : Float F) (group name : String) (spec : Spec) where
  check_range_sound :
      (x : F) {u : Unit {0}} → check_range fl group name spec x ≡ ok u → InRange fl spec x
  unfolding check_range
  check_range_sound x h =
      let (_, finite, h1) = >>=-eq-ok (require (fl.is_finite x) (infinite_field group name)) _ h in
      let (lo, has_lo, h2) = >>=-eq-ok (bound spec.lo) _ h1 in
      let (hi, has_hi, h3) = >>=-eq-ok (bound spec.hi) _ h2 in
      let inside : within fl spec lo hi x ≡ true = require-eq-ok _ _ h3 in
      record {
        lo = lo;
        hi = hi;
        has_lo = bound-eq-ok spec.lo has_lo;
        has_hi = bound-eq-ok spec.hi has_hi;
        finite = require-eq-ok _ _ finite;
        above = ground arith;
        below = ground arith;
      }

  check_range_complete : (x : F) → InRange fl spec x → check_range fl group name spec x ≡ ok tt
  unfolding check_range
  check_range_complete x r = rw (r.finite, r.has_lo, r.has_hi, r.above) (ground arith)

  to_float-int :
      (n : ℤ) (reason : Reason) {x : F} → to_float fl (int n) reason ≡ ok x → fl.of_int n ≡ some x
  unfolding to_float
  to_float-int n reason h = ground arith

  check_kind_sound :
      (kind : Kind) (raw : Json F) (v : Value F)
      → check_kind fl group name spec kind raw ≡ ok v
      → Fits fl spec kind raw v
  unfolding check_kind
  check_kind_sound choice (str s) v h =
      let (_, p, h1) = >>=-eq-ok (require (elem s spec.choices) (bad_choice group name)) _ h in
      subst (Fits fl spec choice (str s)) (ok-injective h1) (a_choice (require-eq-ok _ _ p))
  check_kind_sound flag (bool b) v h = subst (Fits fl spec flag (bool b)) (ok-injective h) a_flag
  check_kind_sound integer (int n) v h =
      let (x, rounded, h1) = >>=-eq-ok (to_float fl (int n) (bad_integer group name)) _ h in
      let (_, p, h2) = >>=-eq-ok (check_range fl group name spec x) _ h1 in
      subst (Fits fl spec integer (int n)) (ok-injective h2)
        (an_integer (to_float-int n (bad_integer group name) rounded) (check_range_sound x p))
  check_kind_sound number (int n) v h =
      let (x, rounded, h1) = >>=-eq-ok (to_float fl (int n) (bad_number group name)) _ h in
      let (_, p, h2) = >>=-eq-ok (check_range fl group name spec x) _ h1 in
      subst (Fits fl spec number (int n)) (ok-injective h2)
        (a_whole (to_float-int n (bad_number group name) rounded) (check_range_sound x p))
  check_kind_sound number (float x) v h =
      let (_, p, h2) = >>=-eq-ok (check_range fl group name spec x) _ h in
      subst (Fits fl spec number (float x)) (ok-injective h2) (a_real (check_range_sound x p))
  check_kind_sound _ _ v h = cc

  check_kind_complete :
      {kind : Kind} {raw : Json F} {v : Value F}
      → Fits fl spec kind raw v
      → check_kind fl group name spec kind raw ≡ ok v
  unfolding check_kind
  check_kind_complete (a_choice p) = rw p
  check_kind_complete a_flag = refl
  check_kind_complete (an_integer {x} e r) = ground (arith, check_range_complete x r)
  check_kind_complete (a_real {x} r) = rw (check_range_complete x r)
  check_kind_complete (a_whole {x} e r) = ground (arith, check_range_complete x r)

  -- A null is refused by each kind of Spec too.
  Fits-not-null :
      {kind : Kind} {raw : Json F} {v : Value F} → Fits fl spec kind raw v → is_null raw ≡ false
  Fits-not-null (a_choice p) = refl
  Fits-not-null a_flag = refl
  Fits-not-null (an_integer e r) = refl
  Fits-not-null (a_real r) = refl
  Fits-not-null (a_whole e r) = refl

  -- `check_value` returns exactly the stored form of the values that fit the Spec.
  pub check_value_iff :
      (raw : Json F) (v : Value F)
      → (check_value fl group name spec raw ≡ ok v) ↔ Fits fl spec spec.kind raw v
  unfolding check_value
  check_value_iff raw v = (
    λ h.
        let (_, p, h1) = >>=-eq-ok (require (not (is_null raw)) (null_field group name)) _ h in
        check_kind_sound spec.kind raw v h1,
    λ f. rw (Fits-not-null f) (check_kind_complete f),
  )

module _ {ℓ} {V : Type ℓ} (d : List (String × V)) where
  present_of_none_absent :
      (names : List String)
      → is_empty (absent_from d names) ≡ true
      → All (λ name. has_key name d ≡ true) names
  present_of_none_absent [] h = tt
  present_of_none_absent (name ∷ names) h = elim (Bool-cases (has_key name d)) [
    | inl there ↦ (there, present_of_none_absent names (rw there at h))
    | inr missing ↦ absurd (cc (rw missing at h))
  ]

  none_absent_of_present :
      (names : List String) → All (λ name. has_key name d ≡ true) names → absent_from d names ≡ []
  none_absent_of_present [] h = refl
  none_absent_of_present (name ∷ names) (there, h) = rw (there, none_absent_of_present names h)

module _ {F : Type 0} (fl : Float F) (group : String) (spec : Group) where
  check_members_sound :
      (body : List (String × Json F)) (values : List (String × Value F))
      {out : List (String × Value F)}
      → check_members fl group spec values body ≡ ok out
      → All (Known fl spec) body
  unfolding check_members
  check_members_sound [] values h = tt
  check_members_sound ((name, raw) ∷ body) values h = elim (Option-cases (lookup name spec)) [
    | inl unknown ↦ absurd (cc)
    | inr (s, found) ↦
        let (v, valid, h1) =
          >>=-eq-ok (check_value fl group name s raw) _ (rw (found, check_members) at h) in
        (
          record {
            field = s;
            stored = v;
            named = found;
            fits = (check_value_iff fl group name s raw v).0 valid;
          },
          check_members_sound body (insert s.column v values) h1,
        )
  ]

  check_members_complete :
      (body : List (String × Json F)) (values : List (String × Value F))
      → All (Known fl spec) body
      → (out : List (String × Value F)) × (check_members fl group spec values body ≡ ok out)
  unfolding check_members
  check_members_complete [] values h = (values, refl)
  check_members_complete ((name, raw) ∷ body) values (k, h) =
      let (out, e) = check_members_complete body (insert k.field.column k.stored values) h in
      (
        out,
        ground (arith, k.named, (check_value_iff fl group name k.field raw k.stored).1 k.fits, e),
      )

  Known-names :
      (body : List (String × Json F))
      → All (Known fl spec) body
      → All (λ name. has_key name spec ≡ true) (keys body)
  Known-names [] h = tt
  Known-names (e ∷ body) (k, h) = (rw k.named refl, Known-names body h)

  -- `check_dict` accepts a dict exactly when every required field of the group is there and every
  -- field that is there is one of the group's, with a value that fits.
  pub check_dict_iff :
      (body : List (String × Json F))
      → ((out : List (String × Value F)) × (check_dict fl group spec body ≡ ok out))
        ↔ Conforms fl spec body
  unfolding check_dict
  check_dict_iff body = (
    λ (out, h).
        let (_, p, h1) =
          >>=-eq-ok
            (require (is_empty (absent_from spec (keys body)))
              (unknown_in_group group (absent_from spec (keys body))))
            _ h in
        let (_, q, h2) =
          >>=-eq-ok
            (require (is_empty (absent_from body (required_names spec)))
              (missing_in_group group (absent_from body (required_names spec))))
            _ h1 in
        record {
          complete = present_of_none_absent body (required_names spec) (require-eq-ok _ _ q);
          known = check_members_sound body [] h2;
        },
    λ c.
        let (out, e) = check_members_complete body [] c.known in
        (
          out,
          rw
              (
                none_absent_of_present spec (keys body) (Known-names body c.known),
                none_absent_of_present body (required_names spec) c.complete,
              )
              e,
        ),
  )
