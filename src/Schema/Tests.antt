-- ===== src/Schema/Tests.antt =====
-- backend/src/psychron/domain/samples.py. The validator at concrete values.
use psychron.Base.{List, String, [], false, pos, refl, ℤ, ◌↔◌, ◌∷◌, ◌≡◌}
use psychron.Fields.{to_float}
use psychron.Fixture.{tenth_float}
use psychron.Json.{int}
use psychron.Raise.{invalid, ok, outside, raise}
use psychron.Schema.{
  Group, Spec, Value, check_dict, check_kind, check_range, check_value, number, number_spec, real,
}
use psychron.Schema.Conforms.{Conforms, Fits}
use psychron.Schema.Validator.{check_dict_iff, check_value_iff}

abbrev heading : Spec
heading = record (number_spec "heading_deg" (pos 0) (pos 360)) { hi_inclusive = false }

abbrev magnetic : Group
magnetic = ("ut", number_spec "magnetic_ut" (pos 0) (pos 2000)) ∷ ("heading", heading) ∷ []

-- 360 degrees are outside
north :
    check_value tenth_float "mag" "heading" heading (int (pos 360))
    ≡ raise (invalid (outside "mag" "heading"))
unfolding check_value check_kind check_range to_float
north = refl

check_value_iff_example :
    (check_value tenth_float "mag" "heading" heading (int (pos 359)) ≡ ok (real (pos 3590)))
    ↔ Fits tenth_float heading number (int (pos 359)) (real (pos 3590))
check_value_iff_example =
    check_value_iff tenth_float "mag" "heading" heading (int (pos 359)) (real (pos 3590))

check_dict_iff_example :
    ((out : List (String × Value ℤ)) × (check_dict tenth_float "mag" magnetic
          (("ut", int (pos 45)) ∷ [])
        ≡ ok out))
    ↔ Conforms tenth_float magnetic (("ut", int (pos 45)) ∷ [])
check_dict_iff_example = check_dict_iff tenth_float "mag" magnetic (("ut", int (pos 45)) ∷ [])
