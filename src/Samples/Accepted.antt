-- ===== src/Samples/Accepted.antt =====
-- backend/src/psychron/domain/samples.py. What an accepted v2 sample satisfies.
use mathlib.Core.Path.{subst}
use psychron.Base.{
  All, List, Option-cases, String, [], inl, inr, insert, insert-All, lookup, refl, some, ◌∷◌, ◌≡◌,
  AllSome, Bool-cases, all, arith, count, elem, has_key, is_some, lookup-All, ltb, none, not, true,
  ◌&&◌, ◌<◌, ◌≤◌, ◌⊎◌, ltb→lt, ℕ,
}
use psychron.Json.{Json, as_dict, Bytes, Loaded, Loads, bad_json, equals_int, get, loaded, too_deep}
use psychron.PyFloat.{Float}
use psychron.Quantities.{
  sample_schema, update, Measurements, measured, measurement_columns, present, to_measurements,
  with_defaults,
}
use psychron.Raise.{
  >>=-eq-ok, expect, group_not_object, ok, ok-injective, alt_acc_without_alt, no_groups, require,
  unknown_fields, dev_not_short, fw_not_short, not_object, require-eq-ok, unsupported_version,
}
use psychron.Samples.{
  check_groups, SampleMessage, max_safe_int, parse_measurements, unknown_keys, envelope_int,
  contract_version, parse, parse_loaded, parse_members,
}
use psychron.Schema.{Group, Value, check_group, is_empty, keys}
use psychron.Schema.Columns.{Stored, check_dict-Stored}
use psychron.Instant.{epoch, year_2100}
use psychron.Fields.{parse_device_clock, short_text}
use psychron.Fields.Reads.{parse_device_clock_bounds, short_text_bounds}

-- A stored value comes from a group of the schema, by one of its Specs.
pub record Measured {F : Type 0} (fl : Float F) (e : String × Value F) : Type 0 where
  pub group : String
  pub spec : Group
  pub grouped : lookup group sample_schema ≡ some spec
  pub stored : Stored fl spec e

module _ {F : Type 0} (fl : Float F) where
  update-Measured :
      (values checked : List (String × Value F)) (group : String) (spec : Group)
      → lookup group sample_schema ≡ some spec
      → All (Measured fl) values
      → All (Stored fl spec) checked
      → All (Measured fl) (update values checked)
  unfolding update
  update-Measured values [] group spec g m s = m
  update-Measured values ((column, v) ∷ checked) group spec g m s =
      update-Measured (insert column v values) checked group spec g
        (insert-All (Measured fl) column v values m
          (record { group = group; spec = spec; grouped = g; stored = s.0 }))
        s.1

  check_group-Stored :
      (group : String) (spec : Group) (body : Json F) {out : List (String × Value F)}
      → check_group fl group spec body ≡ ok out
      → All (Stored fl spec) out
  unfolding check_group
  check_group-Stored group spec body h =
      let (members, _, h1) = >>=-eq-ok (expect (as_dict body) (group_not_object group)) _ h in
      check_dict-Stored fl group spec members h1

  -- The loop over a part of the schema whose groups are all found in the whole.
  check_groups-Measured :
      (schema : List (String × Group)) (members : List (String × Json F))
      (values : List (String × Value F)) {out : List (String × Value F)}
      → All (λ e. lookup e.0 sample_schema ≡ some e.1) schema
      → All (Measured fl) values
      → check_groups fl schema members values ≡ ok out
      → All (Measured fl) out
  unfolding check_groups
  check_groups-Measured [] members values found m h = subst (All (Measured fl)) (ok-injective h) m
  check_groups-Measured ((group, spec) ∷ schema) members values found m h =
      elim (Option-cases (lookup group members)) [
        | inl missing ↦
            check_groups-Measured schema members values found.1 m (rw (missing, check_groups) at h)
        | inr (body, there) ↦
            let (checked, e, h1) =
              >>=-eq-ok (check_group fl group spec body) _ (rw (there, check_groups) at h) in
            check_groups-Measured schema members (update values checked) found.1
              (update-Measured values checked group spec found.0 m
                (check_group-Stored group spec body e))
              h1
      ]

schema_found : All (λ e. lookup e.0 sample_schema ≡ some e.1) sample_schema
schema_found =
    (refl, (refl, (refl, (refl, (refl, (refl, (refl, (refl, (refl, (refl, (refl, tt)))))))))))

pub envelope_int_bounds :
    {F : Type 0} (members : List (String × Json F)) (key : String) (lo hi : ℕ) {n : ℕ}
    → envelope_int members key lo hi ≡ ok n
    → (lo ≤ n) × (n ≤ hi)
unfolding envelope_int
envelope_int_bounds members key lo hi h = ground arith

-- The bounds of docs/CONTRACT-v2.md.
pub record IsSample {F : Type 0} (fl : Float F) (m : SampleMessage F) : Type 0 where
  pub device_id : (0 < count m.device_id) × (count m.device_id ≤ 64)
  pub firmware : (0 < count m.firmware) × (count m.firmware ≤ 32)
  pub boot_id : m.boot_id ≤ 0xFFFFFFFF
  pub seq : m.seq ≤ max_safe_int
  pub uptime : m.uptime_ms ≤ max_safe_int
  pub window : (100 ≤ m.window_ms) × (m.window_ms ≤ 60000)
  pub quality : m.quality ≤ 0xFFFF
  pub clock : AllSome (λ t. (epoch < t) × (t < year_2100)) m.device_time
  pub measured_any : 0 < present m.measurements
  pub altitude :
      (measured "alt_acc_m" m.measurements ≡ none)
      ⊎ (is_some (measured "alt_msl_m" m.measurements) ≡ true)
  pub in_schema : All (λ e. AllSome (λ v. Measured fl (e.0, v)) e.1) m.measurements

module _ {F : Type 0} (fl : Float F) where
  defaults-Measured :
      (columns : List String) (values : List (String × Value F))
      → All (Measured fl) values
      → All (λ e. AllSome (λ v. Measured fl (e.0, v)) e.1) (with_defaults columns values)
  defaults-Measured [] values m = tt
  defaults-Measured (column ∷ columns) values m = (
    elim (Option-cases (lookup column values)) [
      | inl missing ↦ rw missing tt
      | inr (v, found) ↦ rw found (lookup-All (Measured fl) column values m found)
    ],
    defaults-Measured columns values m,
  )

  to_measurements-eq-ok :
      (values : List (String × Value F)) {m : Measurements F}
      → to_measurements values ≡ ok m
      → with_defaults measurement_columns values ≡ m
  unfolding to_measurements
  to_measurements-eq-ok values h =
      elim (Bool-cases (all (λ column. elem column measurement_columns) (keys values))) [
        | inl fields ↦ ok-injective (rw fields at h)
        | inr other ↦ absurd (cc (rw other at h))
      ]

  -- the part of the message that the groups make
  record IsMeasurements (m : Measurements F) : Type 0 where
    measured_any : 0 < present m
    altitude : (measured "alt_acc_m" m ≡ none) ⊎ (is_some (measured "alt_msl_m" m) ≡ true)
    in_schema : All (λ e. AllSome (λ v. Measured fl (e.0, v)) e.1) m

  altitude_of_values :
      (values : List (String × Value F))
      → not (has_key "alt_acc_m" values && not (has_key "alt_msl_m" values)) ≡ true
      → (lookup "alt_acc_m" values ≡ none) ⊎ (is_some (lookup "alt_msl_m" values) ≡ true)
  altitude_of_values values h = ground arith

  made_sound :
      (values : List (String × Value F)) (m : Measurements F)
      → All (Measured fl) values
      → not (has_key "alt_acc_m" values && not (has_key "alt_msl_m" values)) ≡ true
      → to_measurements values ≡ ok m
      → ltb 0 (present m) ≡ true
      → IsMeasurements m
  made_sound values m all_measured whole made some_value =
      let e : with_defaults measurement_columns values ≡ m = to_measurements-eq-ok values made in
      record {
        measured_any = ltb→lt 0 (present m) some_value;
        altitude =
            subst (λ m. (measured "alt_acc_m" m ≡ none) ⊎ (is_some (measured "alt_msl_m" m) ≡ true))
              e (altitude_of_values values whole);
        in_schema =
            subst (All (λ e. AllSome (λ v. Measured fl (e.0, v)) e.1)) e
              (defaults-Measured measurement_columns values all_measured);
      }

  parse_measurements_sound :
      (members : List (String × Json F)) (m : Measurements F)
      → parse_measurements fl members ≡ ok m
      → IsMeasurements m
  unfolding parse_measurements
  parse_measurements_sound members m h =
      let (_, _, h1) =
        >>=-eq-ok
          (require (is_empty (unknown_keys members)) (unknown_fields (unknown_keys members))) _ h in
      let (values, checked, h2) = >>=-eq-ok (check_groups fl sample_schema members []) _ h1 in
      let (_, whole, h3) =
        >>=-eq-ok
          (require (not (has_key "alt_acc_m" values && not (has_key "alt_msl_m" values)))
            alt_acc_without_alt)
          _ h2 in
      let (m', made, h4) = >>=-eq-ok (to_measurements values) _ h3 in
      let (_, some_value, h5) = >>=-eq-ok (require (ltb 0 (present m')) no_groups) _ h4 in
      let sound =
        made_sound values m'
          (check_groups-Measured fl sample_schema members [] schema_found tt checked)
          (require-eq-ok _ _ whole) made (require-eq-ok _ _ some_value) in
      subst IsMeasurements (ok-injective h5) sound

  members_sound :
      (members : List (String × Json F)) (m : SampleMessage F)
      → parse_members fl members ≡ ok m
      → IsSample fl m
  unfolding parse_members
  members_sound members m h =
      let (_, v, h1) =
        >>=-eq-ok (require (equals_int fl (get "v" members) contract_version) unsupported_version) _
          h in
      let (dev, p1, h2) = >>=-eq-ok (short_text "dev" 64 dev_not_short members) _ h1 in
      let (fw, p2, h3) = >>=-eq-ok (short_text "fw" 32 fw_not_short members) _ h2 in
      let (t, p3, h4) = >>=-eq-ok (parse_device_clock members) _ h3 in
      let (found, p4, h5) = >>=-eq-ok (parse_measurements fl members) _ h4 in
      let (boot, p5, h6) = >>=-eq-ok (envelope_int members "boot" 0 0xFFFFFFFF) _ h5 in
      let (seq, p6, h7) = >>=-eq-ok (envelope_int members "seq" 0 max_safe_int) _ h6 in
      let (up, p7, h8) = >>=-eq-ok (envelope_int members "up" 0 max_safe_int) _ h7 in
      let (win, p8, h9) = >>=-eq-ok (envelope_int members "win" 100 60000) _ h8 in
      let (q, p9, h10) = >>=-eq-ok (envelope_int members "q" 0 0xFFFF) _ h9 in
      let sound = parse_measurements_sound members found p4 in
      subst (IsSample fl) (ok-injective h10) (record {
        device_id = let (a, b, _) = short_text_bounds "dev" 64 dev_not_short members p1 in (a, b);
        firmware = let (a, b, _) = short_text_bounds "fw" 32 fw_not_short members p2 in (a, b);
        boot_id = (envelope_int_bounds members "boot" 0 0xFFFFFFFF p5).1;
        seq = (envelope_int_bounds members "seq" 0 max_safe_int p6).1;
        uptime = (envelope_int_bounds members "up" 0 max_safe_int p7).1;
        window = envelope_int_bounds members "win" 100 60000 p8;
        quality = (envelope_int_bounds members "q" 0 0xFFFF p9).1;
        clock = parse_device_clock_bounds members t p3;
        measured_any = sound.measured_any;
        altitude = sound.altitude;
        in_schema = sound.in_schema;
      })

  loaded_sound : (v : Loaded F) (m : SampleMessage F) → parse_loaded fl v ≡ ok m → IsSample fl m
  unfolding parse_loaded
  loaded_sound bad_json m h = cc
  loaded_sound too_deep m h = cc
  loaded_sound (loaded v) m h =
      let (members, found, h') = >>=-eq-ok (expect (as_dict v) not_object) _ h in
      members_sound members m h'

  -- Every sample that the parser returns is within the contract's bounds, carries at least one
  -- quantity, has no altitude accuracy without an altitude, and each quantity in it comes from a
  -- value that fits the quantity's own Spec in the schema.
  pub parse-IsSample :
      (loads : Loads F) (payload : Bytes) (m : SampleMessage F)
      → parse fl loads payload ≡ ok m
      → IsSample fl m
  unfolding parse
  parse-IsSample loads payload m h = loaded_sound (loads payload) m h
