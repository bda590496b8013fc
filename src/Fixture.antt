-- ===== src/Fixture.antt =====
-- The concrete parameters and messages that the tests of the other modules run on: a float that is
-- an exact number of tenths, a decoder that knows five payloads, a database with one device.
use psychron.Base.{
  List, Option, String, [], arith, elem, eqb_ℤ, if◌then◌else◌, leb_ℤ, ltb_ℤ, negsuc, none, pos,
  some, true, ℕ, ℤ, ◌*◌, ◌++◌, ◌+◌, ◌∷◌, ◌==◌,
}
use psychron.Database.{Constraints, Database}
use psychron.Ingest.{Conversions, IngestStats, Ingestor}
use psychron.Instant.{Instant}
use psychron.Json.{
  Json, Loads, as_int, as_str, bad_json, float, int, loaded, null, obj, str, to_members,
}
use psychron.PyFloat.{Float, FloatOrder}
use psychron.Raise.{Error, data_error, foreign_key_violation, ok, raise, type_error}
use psychron.Alerts.{Wording}

abbrev pub ten : ℤ → ℤ
ten (pos n) = pos (n * 10)
ten (negsuc n) = negsuc (n * 10 + 9)

abbrev pub tenth_float : Float ℤ
tenth_float = record {
  of_int = λ n. some (ten n);
  is_finite = λ x. true;
  le = leb_ℤ;
  lt = ltb_ℤ;
  eq_int = λ x n. eqb_ℤ x (ten n);
  whole = ten;
  tenths = λ n. n;
}

pub tenth_order : FloatOrder tenth_float
tenth_order = record {
  lt_irrefl = λ a. ground arith;
  lt_trans = λ a b c h k. ground arith;
  lt_le_trans = λ a b c h k. ground arith;
}

-- 1 700 000 000 seconds after the epoch
abbrev pub autumn : Instant
autumn = 63835596800000000

abbrev pub header : ℕ → ℕ → List (String × Json ℤ)
header version seq =
    ("v", int (pos version))
    ∷ ("dev", str "node-1")
    ∷ ("fw", str "1.2.0")
    ∷ ("boot", int (pos 3))
    ∷ ("seq", int (pos seq))
    ∷ ("up", int (pos 60000))
    ∷ ("q", int (pos 0))
    ∷ []

abbrev pub clock_fields : List (String × Json ℤ)
clock_fields = ("ts", int (pos 1700000000)) ∷ ("ms", int (pos 0)) ∷ []

abbrev pub reading_object : List (String × Json ℤ)
reading_object = header 1 7 ++ clock_fields ++ (("t", float (pos 215)) ∷ ("h", null) ∷ [])

abbrev pub sample_object : List (String × Json ℤ)
sample_object =
    header 2 7
    ++ clock_fields
    ++ (("win", int (pos 1000)) ∷ ("batt", obj (to_members (("c", int (pos 31)) ∷ []))) ∷ [])

abbrev pub event_object : List (String × Json ℤ)
event_object =
    header 2 7
    ++ clock_fields
    ++ (("kind", str "vibration")
        ∷ ("dur", int (pos 900))
        ∷ ("pga", int (pos 2))
        ∷ ("ratio", int (pos 5))
        ∷ [])

abbrev pub boot_object : List (String × Json ℤ)
boot_object = ("dev", str "node-1") ∷ ("boot", int (pos 3)) ∷ ("fw", str "1.2.0") ∷ []

abbrev pub decode : Loads ℤ
decode [] = bad_json
decode (b ∷ rest) =
    if b == 1
    then loaded (obj (to_members reading_object))
    else if b == 2
    then loaded (obj (to_members sample_object))
    else if b == 3
    then loaded (obj (to_members event_object))
    else if b == 4
    then loaded (obj (to_members boot_object))
    else bad_json

abbrev pub conversions : Conversions ℤ
conversions = record {
  int_of = λ v. elim (as_int (some v)) [ none ↦ raise type_error | some n ↦ ok n ];
  str_of = λ v. elim (as_str (some v)) [ none ↦ "" | some s ↦ s ];
}

abbrev pub unknown_device : List String → String → Option Error
unknown_device devices device_id =
    if elem device_id devices then none else some foreign_key_violation

abbrev pub constraints : Constraints ℤ
constraints = record {
  refuses_reading = λ devices r. unknown_device devices r.device_id;
  refuses_sample = λ devices r. unknown_device devices r.device_id;
  refuses_event = λ devices r. unknown_device devices r.message.device_id;
  refuses_boot = λ devices b. unknown_device devices b.device_id;
  refuses_rejected = λ r. none;
  as_text = λ v. elim (as_str (some v)) [ none ↦ raise data_error | some s ↦ ok s ];
}

abbrev pub empty_database : Database ℤ
empty_database = record {
  devices = "node-1" ∷ [];
  readings = [];
  samples = [];
  events = [];
  rejected_messages = [];
  device_boots = [];
}

abbrev pub no_stats : IngestStats
no_stats = record { stored = 0; samples = 0; events = 0; duplicates = 0; rejected = 0; boots = 0 }

abbrev pub started : Ingestor (Database ℤ)
started = record { repo = empty_database; anchors = []; stats = no_stats }

abbrev pub wording : Wording ℤ
wording = record { falling = λ v. "falling"; silent = λ v. "silent"; hot = λ v. "hot" }
