-- ===== src/Ingest/Writes.antt =====
-- backend/src/psychron/ingest.py. What one message does to the tables of the database.
use psychron.Base.{
  Bool, Bool-cases, Option-cases, String, ap, eq_iff, false, inl, inr, none, some, str_eq, true,
  ◌∙◌, ◌∷◌, ◌≡◌,
}
use psychron.Clock.{BootAnchors}
use psychron.Database.{
  Constraints, Database, event_identity, is_stored, reading_identity, repository, sample_identity,
  store_rejected,
}
use psychron.Events.{ResolvedEvent}
use psychron.Ingest.{
  Conversions, IngestStats, Ingestor, conclude, mismatch, receive, reject, after_reject,
  resolve_and_store,
}
use psychron.Instant.{Instant}
use psychron.Json.{Bytes, Loads}
use psychron.Ports.{Outcome}
use psychron.PyFloat.{Float}
use psychron.Raise.{Reason, Result, Result-cases, invalid, ok, raise}
use psychron.Samples.{ResolvedSample}
use psychron.Telemetry.{ResolvedReading}
use psychron.Topics.{device_from_topic}
use psychron.Database.Rows.{}

-- `db'` is `db` with at most one row more in one of the three tables of measurements: a row of an
-- identity that its table did not have, of the device that the topic names, received at the
-- arrival. The other tables are not compared.
pub data Written {F : Type 0} (topic : String) (received_at : Instant) (db db' : Database F)
    : Type 0 where
  no_row :
      db'.readings ≡ db.readings
      → db'.samples ≡ db.samples
      → db'.events ≡ db.events
      → Written topic received_at db db'
  reading_row :
      (r : ResolvedReading F)
      → device_from_topic topic ≡ some r.device_id
      → r.received_at ≡ received_at
      → is_stored reading_identity (λ x. x.time) (reading_identity r) db.readings ≡ false
      → db'.readings ≡ r ∷ db.readings
      → db'.samples ≡ db.samples
      → db'.events ≡ db.events
      → Written topic received_at db db'
  sample_row :
      (r : ResolvedSample F)
      → device_from_topic topic ≡ some r.device_id
      → r.received_at ≡ received_at
      → is_stored sample_identity (λ x. x.time) (sample_identity r) db.samples ≡ false
      → db'.readings ≡ db.readings
      → db'.samples ≡ r ∷ db.samples
      → db'.events ≡ db.events
      → Written topic received_at db db'
  event_row :
      (r : ResolvedEvent F)
      → device_from_topic topic ≡ some r.message.device_id
      → r.received_at ≡ received_at
      → is_stored event_identity (λ x. x.time) (event_identity r) db.events ≡ false
      → db'.readings ≡ db.readings
      → db'.samples ≡ db.samples
      → db'.events ≡ r ∷ db.events
      → Written topic received_at db db'

pub mismatch-same :
    (topic w device_id : String)
    → device_from_topic topic ≡ some w
    → mismatch (device_from_topic topic) device_id ≡ none
    → device_from_topic topic ≡ some device_id
mismatch-same topic w device_id names same = elim (Bool-cases (str_eq w device_id)) [
  | inl eq ↦ names ∙ ap some ((eq_iff w device_id).0 eq)
  | inr differ ↦ cc (rw (names, differ) at same)
]

module _ {F : Type 0} (fl : Float F) (loads : Loads F) (conv : Conversions F)
    (con : Constraints F) where
  -- Whatever holds of the database as it is, after a rejection and after the store of a message
  -- of the topic's device, holds when `receive` ends.
  module _ {M V : Type 0} (device_of : M → String)
      (resolve : M → BootAnchors → Result (V × BootAnchors))
      (store : V → Database F → Outcome Bool (Database F)) (counted : IngestStats → IngestStats)
      (P : Database F → Type 0) (topic : String) (payload : Bytes) (ing : Ingestor (Database F))
      (same : P ing.repo)
      (rejected : (reason : Reason)
        → P ((store_rejected con topic payload reason (device_from_topic topic) ing.repo).1))
      (stored : (m : M) (v : V) (anchors : BootAnchors)
        → mismatch (device_from_topic topic) (device_of m) ≡ none
        → resolve m ing.anchors ≡ ok (v, anchors)
        → P ((store v ing.repo).1)) where
    after_reject-repo :
        (out : Outcome Unit (Database F))
        → P (out.1)
        → P ((after_reject fl loads conv (repository con) ing out).1.repo)
    after_reject-repo (ok u, repo) h = h
    after_reject-repo (raise e, repo) h = h

    reject-repo :
        (reason : Reason)
        → P ((reject fl loads conv (repository con) topic payload reason ing).1.repo)
    unfolding reject
    reject-repo reason =
        after_reject-repo
          (store_rejected con topic payload reason (device_from_topic topic) ing.repo)
          (rejected reason)

    conclude-repo :
        (ing' : Ingestor (Database F)) (out : Outcome Bool (Database F))
        → P (out.1)
        → P ((conclude fl loads conv (repository con) counted ing' out).1.repo)
    unfolding conclude
    conclude-repo ing' (ok true, repo) h = h
    conclude-repo ing' (ok false, repo) h = h
    conclude-repo ing' (raise e, repo) h = h

    pub receive-repo :
        (parsed : Result M)
        → P (
            (receive fl loads conv
              (repository con)
              device_of
              resolve
              store
              counted
              parsed
              topic
              payload
              ing).1.repo)
    unfolding receive resolve_and_store
    receive-repo (raise (invalid reason)) = reject-repo reason
    receive-repo (raise e) = same
    receive-repo (ok m) = elim (Option-cases (mismatch (device_from_topic topic) (device_of m))) [
      | inl none_found ↦ elim (Result-cases (resolve m ing.anchors)) [
        | inl (e, raised) ↦ rw (none_found, receive, raised, resolve_and_store) same
        | inr ((v, anchors), resolved) ↦
            rw (none_found, receive, resolved, resolve_and_store)
              (conclude-repo (record ing { anchors = anchors }) (store v ing.repo)
                (stored m v anchors none_found resolved))
      ]
      | inr (reason, differ) ↦ rw (differ, receive) (reject-repo reason)
    ]
