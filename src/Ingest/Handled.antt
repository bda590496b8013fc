-- ===== src/Ingest/Handled.antt =====
-- backend/src/psychron/ingest.py. What `handle` writes, whatever the topic.
use psychron.Ingest.Writes.{no_row, reading_row, sample_row, event_row, Written}
use psychron.Database
use psychron.Base.{Bool-cases, List, Option, Option-cases, String, any, inl, inr, refl, ℤ}
use psychron.Database.{
  Boot, Constraints, Database, Rejected, boot_row, event_identity, insert_boot, reading_identity,
  repository, same_boot_row, sample_identity, rejected_row,
}
use psychron.Database.Rows.{Distinct}
use psychron.Ingest.{
  Conversions, Ingestor, after_boot, announcement, handle, handle_boot, is_caught, reject,
}
use psychron.Ingest.Rows.{handle_event-Written, handle_reading-Written, handle_sample-Written}
use psychron.Instant.{Instant}
use psychron.Json.{Bytes, Json, Loads}
use psychron.Ports.{Outcome}
use psychron.PyFloat.{Float}
use psychron.Raise.{Reason, malformed_boot, Result-cases, ok, raise}
use psychron.Topics.{device_from_topic, ends_with, is_topic}

module _ {F : Type 0} (con : Constraints F) (topic : String) (received_at : Instant)
    (db : Database F) where
  insert_boot-Written : (boot : Boot) → Written topic received_at db ((insert_boot con boot db).1)
  unfolding insert_boot
  insert_boot-Written boot = elim (Option-cases (con.refuses_boot db.devices boot)) [
    | inr (e, refused) ↦ rw (refused, insert_boot) (no_row refl refl refl)
    | inl admitted ↦ elim (Bool-cases (any (same_boot_row boot) db.device_boots)) [
      | inl known ↦ rw (admitted, insert_boot, known) (no_row refl refl refl)
      | inr new ↦ rw (admitted, insert_boot, new) (no_row refl refl refl)
    ]
  ]

  record_boot-Written :
      (device_id : Json F) (boot_id : ℤ) (firmware : String) (reset_reason : Option (Json F))
      → Written topic received_at db
          ((Database.record_boot con device_id boot_id firmware reset_reason db).1)
  unfolding Database.record_boot
  record_boot-Written device_id boot_id firmware reset_reason =
      elim (Result-cases (boot_row con device_id boot_id firmware reset_reason)) [
        | inl (e, raised) ↦ rw (raised, Database.record_boot) (no_row refl refl refl)
        | inr (boot, row) ↦ rw (row, Database.record_boot) (insert_boot-Written boot)
      ]

-- every table of measurements keeps one row of each identity
abbrev pub HasIdentities : {F : Type 0} → Database F → Type 0
HasIdentities db =
    Distinct reading_identity (λ x. x.time) db.readings
    × Distinct sample_identity (λ x. x.time) db.samples
    × Distinct event_identity (λ x. x.time) db.events

module _ {F : Type 0} {topic : String} {received_at : Instant} {db : Database F} where
  rows-Written :
      {db' : Database F} {rows : List Rejected}
      → Written topic received_at db db'
      → Written topic received_at db (record db' { rejected_messages = rows })
  rows-Written (no_row a b c) = no_row a b c
  rows-Written (reading_row r n t new a b c) = reading_row r n t new a b c
  rows-Written (sample_row r n t new a b c) = sample_row r n t new a b c
  rows-Written (event_row r n t new a b c) = event_row r n t new a b c

  Written-HasIdentities :
      {db' : Database F} → Written topic received_at db db' → HasIdentities db → HasIdentities db'
  Written-HasIdentities (no_row a b c) h = rw (a, b, c) h
  Written-HasIdentities (reading_row r n t new a b c) (x, y, z) = rw (a, b, c) ((new, x), y, z)
  Written-HasIdentities (sample_row r n t new a b c) (x, y, z) = rw (a, b, c) (x, (new, y), z)
  Written-HasIdentities (event_row r n t new a b c) (x, y, z) = rw (a, b, c) (x, y, (new, z))

module _ {F : Type 0} (fl : Float F) (loads : Loads F) (conv : Conversions F) (con : Constraints F)
    (topic : String) (payload : Bytes) (received_at : Instant) where
  rejected-Written :
      (reason : Reason) (ing : Ingestor (Database F)) {db : Database F}
      → Written topic received_at db ing.repo
      → Written topic received_at db
          ((reject fl loads conv (repository con) topic payload reason ing).1.repo)
  unfolding reject Database.store_rejected
  rejected-Written reason ing h =
      elim (Option-cases
        (con.refuses_rejected (rejected_row topic payload reason (device_from_topic topic)))) [
          | inl admitted ↦ rw (reject, Database.store_rejected, admitted) (rows-Written h)
          | inr (e, refused) ↦ rw (reject, Database.store_rejected, refused) h
        ]

  after_boot-Written :
      (ing : Ingestor (Database F)) (out : Outcome Unit (Database F))
      → Written topic received_at ing.repo (out.1)
      → Written topic received_at ing.repo
          ((after_boot fl loads conv (repository con) topic payload ing out).1.repo)
  unfolding after_boot
  after_boot-Written ing (ok u, repo) h = h
  after_boot-Written ing (raise e, repo) h = elim (Bool-cases (is_caught e)) [
    | inl caught ↦ rw caught (rejected-Written malformed_boot (record ing { repo = repo }) h)
    | inr escapes ↦ rw escapes h
  ]

  handle_boot-Written :
      (ing : Ingestor (Database F))
      → Written topic received_at ing.repo
          ((handle_boot fl loads conv (repository con) topic payload ing).1.repo)
  unfolding handle_boot
  handle_boot-Written ing =
      elim (Result-cases (announcement fl loads conv (repository con) (loads payload))) [
        | inl (e, raised) ↦
            rw (raised, handle_boot)
              (after_boot-Written ing (raise e, ing.repo) (no_row refl refl refl))
        | inr (a, read) ↦
            rw (read, handle_boot)
              (after_boot-Written ing
                (Database.record_boot con a.device_id a.boot_id a.firmware a.reset_reason ing.repo)
                (record_boot-Written con topic received_at ing.repo a.device_id a.boot_id a.firmware
                  a.reset_reason))
      ]

  -- A message adds at most one row to the tables of measurements, and then a row of the device
  -- that the topic names, received at the message's arrival, of an identity that its table did not
  -- have; it changes and removes none, whatever the payload and whether or not an exception
  -- escapes.
  pub handle-Written :
      (ing : Ingestor (Database F))
      → Written topic received_at ing.repo
          ((handle fl loads conv (repository con) topic payload received_at ing).1.repo)
  unfolding handle
  handle-Written ing = elim (Bool-cases (ends_with topic "/boot")) [
    | inl boot ↦ rw boot (handle_boot-Written ing)
    | inr a ↦ elim (Bool-cases (is_topic "psychron/v2/" "/sample" topic)) [
      | inl sample ↦
          rw (a, sample)
            (handle_sample-Written fl loads conv con topic payload received_at ing sample)
      | inr b ↦ elim (Bool-cases (is_topic "psychron/v2/" "/event" topic)) [
        | inl event ↦
            rw (a, b, event)
              (handle_event-Written fl loads conv con topic payload received_at ing event)
        | inr c ↦ elim (Bool-cases (is_topic "psychron/v1/" "/reading" topic)) [
          | inl reading ↦
              rw (a, b, c, reading)
                (handle_reading-Written fl loads conv con topic payload received_at ing reading)
          | inr d ↦ rw (a, b, c, d) (no_row refl refl refl)
        ]
      ]
    ]
  ]

  -- `handle` keeps the identities unique: if no two readings, no two samples and no two events of
  -- the database share a (device, boot, seq), the same holds after any message.
  pub handle-HasIdentities :
      (ing : Ingestor (Database F))
      → HasIdentities ing.repo
      → HasIdentities ((handle fl loads conv (repository con) topic payload received_at ing).1.repo)
  handle-HasIdentities ing h = Written-HasIdentities (handle-Written ing) h
