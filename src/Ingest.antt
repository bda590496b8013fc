-- ===== src/Ingest.antt =====
-- backend/src/psychron/ingest.py, over any repository that offers the port. The logging is left
-- out. A handler returns the ingestor as the call leaves it, beside the exception that escapes.
pub mod Counting
pub mod Writes
pub mod Rows
pub mod Handled
pub mod Redelivery
pub mod Duplicates
pub mod Once
mod Tests
use psychron.Telemetry
use psychron.Samples
use psychron.Events
use psychron.Base.{
  Bool, List, Option, String, [], false, if◌then◌else◌, lookup, none, some, str_eq, true, ℕ, ℤ, ◌+◌,
  ◌∷◌,
}
use psychron.Clock.{Anchor, BootAnchors, seed}
use psychron.Events.{at_key}
use psychron.Instant.{Instant}
use psychron.Json.{Bytes, Json, Loaded, Loads, as_dict, bad_json, get, loaded, too_deep}
use psychron.Ports.{Outcome, ReadingRepository}
use psychron.PyFloat.{Float}
use psychron.Raise.{
  Error, Reason, Result, identity_mismatch, invalid, key_error, malformed_boot, ok, raise,
  recursion_error, type_error, value_error, ◌>>=◌, ◌>>◌,
}
use psychron.Topics.{device_from_topic, ends_with, is_topic}

pub record IngestStats : Type 0 where
  pub stored : ℕ
  pub samples : ℕ
  pub events : ℕ
  pub duplicates : ℕ
  pub rejected : ℕ
  pub boots : ℕ

pub record Ingestor (R : Type 0) : Type 0 where
  pub repo : R
  pub anchors : BootAnchors
  pub stats : IngestStats

-- `int(raw)` and `str(raw)` of a JSON value, which CPython defines
pub record Conversions (F : Type 0) : Type 0 where
  pub int_of : Json F → Result ℤ
  pub str_of : Json F → String

-- `except (ValueError, KeyError, TypeError)`
abbrev pub is_caught : Error → Bool
is_caught value_error = true
is_caught key_error = true
is_caught type_error = true
is_caught _ = false

-- the arguments that `_handle_boot` passes to `record_boot`
pub record Announcement (F : Type 0) : Type 0 where
  pub device_id : Json F
  pub boot_id : ℤ
  pub firmware : String
  pub reset_reason : Option (Json F)

abbrev pub count_stored : IngestStats → IngestStats
count_stored s = record s { stored = s.stored + 1 }

abbrev pub count_sample : IngestStats → IngestStats
count_sample s = record s { samples = s.samples + 1 }

abbrev pub count_event : IngestStats → IngestStats
count_event s = record s { events = s.events + 1 }

abbrev pub count_duplicate : IngestStats → IngestStats
count_duplicate s = record s { duplicates = s.duplicates + 1 }

-- `expected is not None and expected != msg.device_id`
abbrev pub mismatch : Option String → String → Option Reason
mismatch none device_id = none
mismatch (some expected) device_id =
    if str_eq expected device_id then none else some (identity_mismatch expected device_id)

module _ {F R : Type 0} (fl : Float F) (loads : Loads F) (conv : Conversions F)
    (port : ReadingRepository F R) where
  -- the loop of `load_anchors`
  unfoldable pub seed_all : List Anchor → BootAnchors → ℕ → BootAnchors × ℕ
  seed_all [] anchors n = (anchors, n)
  seed_all (a ∷ known) anchors n =
      seed_all known (seed a.device_id a.boot_id a.boot_epoch anchors) (n + 1)

  unfoldable pub load_anchors : Ingestor R → Result (Ingestor R × ℕ)
  unfolding seed_all
  load_anchors ing = do
    known ← port.known_boot_anchors ing.repo
    let (anchors, n) = seed_all known ing.anchors 0
    ok (record ing { anchors = anchors }, n)

  -- the counter that `_reject` moves when the store has returned
  abbrev pub after_reject : Ingestor R → Outcome Unit R → Outcome Unit (Ingestor R)
  after_reject ing (ok _, repo) = (
    ok tt,
    record ing { repo = repo; stats = record (ing.stats) { rejected = ing.stats.rejected + 1 } },
  )
  after_reject ing (raise e, repo) = (raise e, record ing { repo = repo })

  -- `_reject`
  unfoldable pub reject : String → Bytes → Reason → Ingestor R → Outcome Unit (Ingestor R)
  reject topic payload reason ing =
      after_reject ing (port.store_rejected topic payload reason (device_from_topic topic) ing.repo)

  -- the last step of a handler: the counter that the outcome of the store moves
  unfoldable pub conclude :
      (IngestStats → IngestStats) → Ingestor R → Outcome Bool R → Outcome Unit (Ingestor R)
  conclude counted ing (ok true, repo) =
      (ok tt, record ing { repo = repo; stats = counted ing.stats })
  conclude counted ing (ok false, repo) =
      (ok tt, record ing { repo = repo; stats = count_duplicate ing.stats })
  conclude counted ing (raise e, repo) = (raise e, record ing { repo = repo })

  module _ {M V : Type 0} (device_of : M → String)
      (resolve : M → BootAnchors → Result (V × BootAnchors)) (store : V → R → Outcome Bool R)
      (counted : IngestStats → IngestStats) where
    unfoldable pub resolve_and_store : M → Ingestor R → Outcome Unit (Ingestor R)
    unfolding conclude
    resolve_and_store msg ing = elim (resolve msg ing.anchors) [
      | raise e ↦ (raise e, ing)
      | ok (value, anchors) ↦
          conclude counted (record ing { anchors = anchors }) (store value ing.repo)
    ]

    -- The body that `handle`, `_handle_sample` and `_handle_event` share, from the `try` on.
    unfoldable pub receive : Result M → String → Bytes → Ingestor R → Outcome Unit (Ingestor R)
    unfolding resolve_and_store reject
    receive (raise (invalid reason)) topic payload ing = reject topic payload reason ing
    receive (raise e) topic payload ing = (raise e, ing)
    receive (ok msg) topic payload ing = elim (mismatch (device_from_topic topic) (device_of msg)) [
      | some reason ↦ reject topic payload reason ing
      | none ↦ resolve_and_store msg ing
    ]

  unfoldable pub handle_reading : String → Bytes → Instant → Ingestor R → Outcome Unit (Ingestor R)
  unfolding receive
  handle_reading topic payload received_at =
      receive (λ m. m.device_id) (λ m. Telemetry.resolve m received_at) port.store count_stored
        (Telemetry.parse fl loads payload) topic payload

  unfoldable pub handle_sample : String → Bytes → Instant → Ingestor R → Outcome Unit (Ingestor R)
  unfolding receive
  handle_sample topic payload received_at =
      receive (λ m. m.device_id) (λ m. Samples.resolve m received_at) port.store_sample count_sample
        (Samples.parse fl loads payload) topic payload

  unfoldable pub handle_event : String → Bytes → Instant → Ingestor R → Outcome Unit (Ingestor R)
  unfolding receive
  handle_event topic payload received_at =
      receive (λ m. m.device_id) (λ m. Events.resolve m received_at) port.store_event count_event
        (Events.parse fl loads payload) topic payload

  abbrev pub dict_or_type_error : Option (List (String × Json F)) → Result (List (String × Json F))
  dict_or_type_error none = raise type_error
  dict_or_type_error (some members) = ok members

  unfoldable pub announcement : Loaded F → Result (Announcement F)
  announcement bad_json = raise value_error
  announcement too_deep = raise recursion_error
  announcement (loaded v) = do
    members ← dict_or_type_error (as_dict v)
    device_id ← at_key (lookup "dev" members)
    boot_raw ← at_key (lookup "boot" members)
    boot_id ← conv.int_of boot_raw
    fw_raw ← at_key (lookup "fw" members)
    ok (record {
      device_id = device_id;
      boot_id = boot_id;
      firmware = conv.str_of fw_raw;
      reset_reason = get "reset" members;
    })

  -- the `except` of `_handle_boot`, and its counter
  unfoldable pub after_boot :
      String → Bytes → Ingestor R → Outcome Unit R → Outcome Unit (Ingestor R)
  unfolding reject
  after_boot topic payload ing (ok _, repo) = (
    ok tt,
    record ing { repo = repo; stats = record (ing.stats) { boots = ing.stats.boots + 1 } },
  )
  after_boot topic payload ing (raise e, repo) =
      if is_caught e
      then reject topic payload malformed_boot (record ing { repo = repo })
      else (raise e, record ing { repo = repo })

  unfoldable pub handle_boot : String → Bytes → Ingestor R → Outcome Unit (Ingestor R)
  unfolding announcement after_boot
  handle_boot topic payload ing = elim (announcement (loads payload)) [
    | raise e ↦ after_boot topic payload ing (raise e, ing.repo)
    | ok a ↦
        after_boot topic payload ing
          (port.record_boot a.device_id a.boot_id a.firmware a.reset_reason ing.repo)
  ]

  unfoldable pub handle : String → Bytes → Instant → Ingestor R → Outcome Unit (Ingestor R)
  handle topic payload received_at ing =
      if ends_with topic "/boot"
      then handle_boot topic payload ing
      else if is_topic "psychron/v2/" "/sample" topic
      then handle_sample topic payload received_at ing
      else if is_topic "psychron/v2/" "/event" topic
      then handle_event topic payload received_at ing
      else if is_topic "psychron/v1/" "/reading" topic
      then handle_reading topic payload received_at ing
      else (ok tt, ing)
