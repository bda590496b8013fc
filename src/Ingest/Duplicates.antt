-- ===== src/Ingest/Duplicates.antt =====
-- backend/src/psychron/ingest.py. The second delivery of each kind of message, and of any message.
use psychron.Telemetry
use psychron.Samples
use psychron.Events
use psychron.Database
use mathlib.Core.Path.{subst}
use psychron.Ingest.Writes.{no_row, reading_row, sample_row, event_row, Written}
use psychron.Base.{Bool, List, String, [], ap, false, sym, true, ◌∷◌, ◌≡◌}
use psychron.Clock.{BootAnchors}
use psychron.Database.{
  Constraints, Database, event_identity, is_stored, reading_identity, repository, sample_identity,
}
use psychron.Database.Rows.{is_stored-cons, store_row-is_stored, store_row-passes}
use psychron.Events.{EventMessage, ResolvedEvent}
use psychron.Ingest.{
  Conversions, Ingestor, count_event, count_sample, count_stored, handle, handle_event,
  handle_reading, handle_sample,
}
use psychron.Ingest.Handled.{handle-Written}
use psychron.Ingest.Redelivery.{SameTables, receive-redelivered}
use psychron.Ingest.Rows.{resolve-event_device, resolve-reading_device, resolve-sample_device}
use psychron.Instant.{Instant}
use psychron.Json.{Bytes, Loads}
use psychron.PyFloat.{Float}
use psychron.Raise.{ok}
use psychron.Samples.{ResolvedSample, SampleMessage}
use psychron.Telemetry.{ResolvedReading, TelemetryMessage}

module _ {F : Type 0} where
  -- the identity of the message is stored
  abbrev pub has_reading : TelemetryMessage F → Database F → Bool
  has_reading m db =
      is_stored reading_identity (λ x. x.time)
        (record { device_id = m.device_id; boot_id = m.boot_id; seq = m.seq }) db.readings

module _ {F : Type 0} (con : Constraints F) (received_at : Instant) (m : TelemetryMessage F)
    (v : ResolvedReading F) (anchors anchors' : BootAnchors) (db : Database F)
    (resolved : Telemetry.resolve m received_at anchors ≡ ok (v, anchors')) where
  reading-stores :
      (db' : Database F) (b : Bool)
      → Database.store con v db ≡ (ok b, db')
      → has_reading m db' ≡ true
  unfolding Database.store
  reading-stores db' b h =
      let (_, _, key) = resolve-reading_device m received_at anchors v anchors' resolved in
      subst (λ key. is_stored reading_identity (λ x. x.time) key db'.readings ≡ true) key
        (store_row-is_stored reading_identity (λ x. x.time) (con.refuses_reading db.devices) v
          db.readings db'.readings b (ap (λ p. (p.0, p.1.readings)) h))

  reading-passes : has_reading m db ≡ true → Database.store con v db ≡ (ok false, db)
  unfolding Database.store
  reading-passes h =
      let (_, _, key) = resolve-reading_device m received_at anchors v anchors' resolved in
      ap (λ p. (p.0, record db { readings = p.1 }))
        (store_row-passes reading_identity (λ x. x.time) (con.refuses_reading db.devices) v
          db.readings
          (subst (λ key. is_stored reading_identity (λ x. x.time) key db.readings ≡ true) (sym key)
            h))

module _ {F : Type 0} where
  -- the identity of the message is stored
  abbrev pub has_sample : SampleMessage F → Database F → Bool
  has_sample m db =
      is_stored sample_identity (λ x. x.time)
        (record { device_id = m.device_id; boot_id = m.boot_id; seq = m.seq }) db.samples

module _ {F : Type 0} (con : Constraints F) (received_at : Instant) (m : SampleMessage F)
    (v : ResolvedSample F) (anchors anchors' : BootAnchors) (db : Database F)
    (resolved : Samples.resolve m received_at anchors ≡ ok (v, anchors')) where
  sample-stores :
      (db' : Database F) (b : Bool)
      → Database.store_sample con v db ≡ (ok b, db')
      → has_sample m db' ≡ true
  unfolding Database.store_sample
  sample-stores db' b h =
      let (_, _, key) = resolve-sample_device m received_at anchors v anchors' resolved in
      subst (λ key. is_stored sample_identity (λ x. x.time) key db'.samples ≡ true) key
        (store_row-is_stored sample_identity (λ x. x.time) (con.refuses_sample db.devices) v
          db.samples db'.samples b (ap (λ p. (p.0, p.1.samples)) h))

  sample-passes : has_sample m db ≡ true → Database.store_sample con v db ≡ (ok false, db)
  unfolding Database.store_sample
  sample-passes h =
      let (_, _, key) = resolve-sample_device m received_at anchors v anchors' resolved in
      ap (λ p. (p.0, record db { samples = p.1 }))
        (store_row-passes sample_identity (λ x. x.time) (con.refuses_sample db.devices) v db.samples
          (subst (λ key. is_stored sample_identity (λ x. x.time) key db.samples ≡ true) (sym key)
            h))

module _ {F : Type 0} where
  -- the identity of the message is stored
  abbrev pub has_event : EventMessage F → Database F → Bool
  has_event m db =
      is_stored event_identity (λ x. x.time)
        (record { device_id = m.device_id; boot_id = m.boot_id; seq = m.seq }) db.events

module _ {F : Type 0} (con : Constraints F) (received_at : Instant) (m : EventMessage F)
    (v : ResolvedEvent F) (anchors anchors' : BootAnchors) (db : Database F)
    (resolved : Events.resolve m received_at anchors ≡ ok (v, anchors')) where
  event-stores :
      (db' : Database F) (b : Bool)
      → Database.store_event con v db ≡ (ok b, db')
      → has_event m db' ≡ true
  unfolding Database.store_event
  event-stores db' b h =
      let (_, _, key) = resolve-event_device m received_at anchors v anchors' resolved in
      subst (λ key. is_stored event_identity (λ x. x.time) key db'.events ≡ true) key
        (store_row-is_stored event_identity (λ x. x.time) (con.refuses_event db.devices) v db.events
          db'.events b (ap (λ p. (p.0, p.1.events)) h))

  event-passes : has_event m db ≡ true → Database.store_event con v db ≡ (ok false, db)
  unfolding Database.store_event
  event-passes h =
      let (_, _, key) = resolve-event_device m received_at anchors v anchors' resolved in
      ap (λ p. (p.0, record db { events = p.1 }))
        (store_row-passes event_identity (λ x. x.time) (con.refuses_event db.devices) v db.events
          (subst (λ key. is_stored event_identity (λ x. x.time) key db.events ≡ true) (sym key) h))

reading-stays :
    {F : Type 0} {topic : String} {received_at : Instant} {db db' : Database F}
    (m : TelemetryMessage F)
    → Written topic received_at db db'
    → has_reading m db ≡ true
    → has_reading m db' ≡ true
reading-stays m (no_row a b c) h = rw a h
reading-stays {db} m (reading_row r n t new a b c) h = rw a (
    is_stored-cons reading_identity (λ x. x.time)
      (record { device_id = m.device_id; boot_id = m.boot_id; seq = m.seq }) r db.readings h)
reading-stays m (sample_row r n t new a b c) h = rw a h
reading-stays m (event_row r n t new a b c) h = rw a h

sample-stays :
    {F : Type 0} {topic : String} {received_at : Instant} {db db' : Database F}
    (m : SampleMessage F)
    → Written topic received_at db db'
    → has_sample m db ≡ true
    → has_sample m db' ≡ true
sample-stays m (no_row a b c) h = rw b h
sample-stays m (reading_row r n t new a b c) h = rw b h
sample-stays {db} m (sample_row r n t new a b c) h = rw b (
    is_stored-cons sample_identity (λ x. x.time)
      (record { device_id = m.device_id; boot_id = m.boot_id; seq = m.seq }) r db.samples h)
sample-stays m (event_row r n t new a b c) h = rw b h

event-stays :
    {F : Type 0} {topic : String} {received_at : Instant} {db db' : Database F} (m : EventMessage F)
    → Written topic received_at db db'
    → has_event m db ≡ true
    → has_event m db' ≡ true
event-stays m (no_row a b c) h = rw c h
event-stays m (reading_row r n t new a b c) h = rw c h
event-stays m (sample_row r n t new a b c) h = rw c h
event-stays {db} m (event_row r n t new a b c) h = rw c (
    is_stored-cons event_identity (λ x. x.time)
      (record { device_id = m.device_id; boot_id = m.boot_id; seq = m.seq }) r db.events h)

module _ {F : Type 0} (fl : Float F) (loads : Loads F) (conv : Conversions F)
    (con : Constraints F) where
  -- the messages that arrive, one after the other: the topic, the payload and the arrival
  abbrev pub handle_all :
      List (String × Bytes × Instant) → Ingestor (Database F) → Ingestor (Database F)
  handle_all [] ing = ing
  handle_all ((topic, payload, received_at) ∷ messages) ing =
      handle_all messages ((handle fl loads conv (repository con) topic payload received_at ing).1)

  reading-survives :
      (m : TelemetryMessage F) (messages : List (String × Bytes × Instant))
      (ing : Ingestor (Database F))
      → has_reading m ing.repo ≡ true
      → has_reading m ((handle_all messages ing).repo) ≡ true
  reading-survives m [] ing h = h
  reading-survives m ((topic, payload, received_at) ∷ messages) ing h =
      reading-survives m messages
        ((handle fl loads conv (repository con) topic payload received_at ing).1)
        (reading-stays m (handle-Written fl loads conv con topic payload received_at ing) h)

  sample-survives :
      (m : SampleMessage F) (messages : List (String × Bytes × Instant))
      (ing : Ingestor (Database F))
      → has_sample m ing.repo ≡ true
      → has_sample m ((handle_all messages ing).repo) ≡ true
  sample-survives m [] ing h = h
  sample-survives m ((topic, payload, received_at) ∷ messages) ing h =
      sample-survives m messages
        ((handle fl loads conv (repository con) topic payload received_at ing).1)
        (sample-stays m (handle-Written fl loads conv con topic payload received_at ing) h)

  event-survives :
      (m : EventMessage F) (messages : List (String × Bytes × Instant))
      (ing : Ingestor (Database F))
      → has_event m ing.repo ≡ true
      → has_event m ((handle_all messages ing).repo) ≡ true
  event-survives m [] ing h = h
  event-survives m ((topic, payload, received_at) ∷ messages) ing h =
      event-survives m messages
        ((handle fl loads conv (repository con) topic payload received_at ing).1)
        (event-stays m (handle-Written fl loads conv con topic payload received_at ing) h)

  module _ (topic : String) (payload : Bytes) (received_at received_at' : Instant)
      (ing ing1 : Ingestor (Database F)) (messages : List (String × Bytes × Instant)) where
    pub handle_reading-redelivered :
        handle_reading fl loads conv (repository con) topic payload received_at ing ≡ (ok tt, ing1)
        → SameTables ((handle_all messages ing1).repo) (
            (handle_reading fl loads conv
              (repository con)
              topic
              payload
              received_at'
              (handle_all messages ing1)).1.repo)
    unfolding handle_reading
    handle_reading-redelivered h =
        receive-redelivered fl loads conv con (λ m. m.device_id)
          (λ m. Telemetry.resolve m received_at) (λ m. Telemetry.resolve m received_at')
          (Database.store con) count_stored has_reading
          (λ m v anchors anchors' db db' b resolved.
            reading-stores con received_at m v anchors anchors' db resolved db' b)
          (λ m v anchors anchors' db resolved.
            reading-passes con received_at' m v anchors anchors' db resolved)
          (Telemetry.parse fl loads payload) topic payload ing ing1 (handle_all messages ing1) h
          (λ m. reading-survives m messages ing1)

    pub handle_sample-redelivered :
        handle_sample fl loads conv (repository con) topic payload received_at ing ≡ (ok tt, ing1)
        → SameTables ((handle_all messages ing1).repo) (
            (handle_sample fl loads conv
              (repository con)
              topic
              payload
              received_at'
              (handle_all messages ing1)).1.repo)
    unfolding handle_sample
    handle_sample-redelivered h =
        receive-redelivered fl loads conv con (λ m. m.device_id)
          (λ m. Samples.resolve m received_at) (λ m. Samples.resolve m received_at')
          (Database.store_sample con) count_sample has_sample
          (λ m v anchors anchors' db db' b resolved.
            sample-stores con received_at m v anchors anchors' db resolved db' b)
          (λ m v anchors anchors' db resolved.
            sample-passes con received_at' m v anchors anchors' db resolved)
          (Samples.parse fl loads payload) topic payload ing ing1 (handle_all messages ing1) h
          (λ m. sample-survives m messages ing1)

    pub handle_event-redelivered :
        handle_event fl loads conv (repository con) topic payload received_at ing ≡ (ok tt, ing1)
        → SameTables ((handle_all messages ing1).repo) (
            (handle_event fl loads conv
              (repository con)
              topic
              payload
              received_at'
              (handle_all messages ing1)).1.repo)
    unfolding handle_event
    handle_event-redelivered h =
        receive-redelivered fl loads conv con (λ m. m.device_id) (λ m. Events.resolve m received_at)
          (λ m. Events.resolve m received_at') (Database.store_event con) count_event has_event
          (λ m v anchors anchors' db db' b resolved.
            event-stores con received_at m v anchors anchors' db resolved db' b)
          (λ m v anchors anchors' db resolved.
            event-passes con received_at' m v anchors anchors' db resolved)
          (Events.parse fl loads payload) topic payload ing ing1 (handle_all messages ing1) h
          (λ m. event-survives m messages ing1)
