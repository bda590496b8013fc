-- ===== src/Ingest/Rows.antt =====
-- backend/src/psychron/ingest.py. What `handle` writes, for each kind of message.
use psychron.Telemetry
use psychron.Samples
use psychron.Events
use psychron.Database
use psychron.Base.{
  Option-cases, String, ap, arith, inl, inr, refl, some, starts_with, sym, true, ◌∙◌, ◌≡◌,
}
use psychron.Clock.{BootAnchors, resolve_instant}
use psychron.Database.{
  Constraints, Database, event_identity, reading_identity, repository, sample_identity,
  rejected_row,
}
use psychron.Database.Rows.{store_row_cases}
use psychron.Events.{EventMessage, ResolvedEvent, resolved_event}
use psychron.Ingest.{
  Conversions, Ingestor, count_event, count_sample, count_stored, handle_event, handle_reading,
  handle_sample,
}
use psychron.Ingest.Writes.{
  no_row, reading_row, sample_row, event_row, Written, mismatch-same, receive-repo,
}
use psychron.Instant.{Instant}
use psychron.Json.{Bytes, Loads}
use psychron.PyFloat.{Float}
use psychron.Raise.{Reason, >>=-eq-ok, ok, ok-injective}
use psychron.Samples.{ResolvedSample, SampleMessage, resolved_sample}
use psychron.Telemetry.{ResolvedReading, TelemetryMessage, resolved_reading}
use psychron.Topics.{device_from_topic, is_topic}
use psychron.Topics.Laws.{device_of_prefix}

pub resolve-reading_device :
    {F : Type 0} (m : Telemetry.TelemetryMessage F) (received_at : Instant) (anchors : BootAnchors)
    (r : ResolvedReading F) (anchors' : BootAnchors)
    → Telemetry.resolve m received_at anchors ≡ ok (r, anchors')
    → (r.device_id ≡ m.device_id)
      × (r.received_at ≡ received_at)
      × (reading_identity r ≡ record { device_id = m.device_id; boot_id = m.boot_id; seq = m.seq })
unfolding Telemetry.resolve
resolve-reading_device m received_at anchors r anchors' h =
    let (res, _, eq) = >>=-eq-ok (resolve_instant (Telemetry.envelope m) received_at anchors) _ h in
    let same : Telemetry.resolved_reading m received_at res ≡ r = ap (λ p. p.0) (ok-injective eq) in
    rw (← same) (refl, refl, refl)

pub resolve-sample_device :
    {F : Type 0} (m : Samples.SampleMessage F) (received_at : Instant) (anchors : BootAnchors)
    (r : ResolvedSample F) (anchors' : BootAnchors)
    → Samples.resolve m received_at anchors ≡ ok (r, anchors')
    → (r.device_id ≡ m.device_id)
      × (r.received_at ≡ received_at)
      × (sample_identity r ≡ record { device_id = m.device_id; boot_id = m.boot_id; seq = m.seq })
unfolding Samples.resolve
resolve-sample_device m received_at anchors r anchors' h =
    let (res, _, eq) = >>=-eq-ok (resolve_instant (Samples.envelope m) received_at anchors) _ h in
    let same : Samples.resolved_sample m received_at res ≡ r = ap (λ p. p.0) (ok-injective eq) in
    rw (← same) (refl, refl, refl)

pub resolve-event_device :
    {F : Type 0} (m : Events.EventMessage F) (received_at : Instant) (anchors : BootAnchors)
    (r : ResolvedEvent F) (anchors' : BootAnchors)
    → Events.resolve m received_at anchors ≡ ok (r, anchors')
    → (r.message.device_id ≡ m.device_id)
      × (r.received_at ≡ received_at)
      × (event_identity r ≡ record { device_id = m.device_id; boot_id = m.boot_id; seq = m.seq })
unfolding Events.resolve
resolve-event_device m received_at anchors r anchors' h =
    let (res, _, eq) = >>=-eq-ok (resolve_instant (Events.envelope m) received_at anchors) _ h in
    let same : Events.resolved_event m received_at res ≡ r = ap (λ p. p.0) (ok-injective eq) in
    rw (← same) (refl, refl, refl)

module _ {F : Type 0} (con : Constraints F) (topic : String) (received_at : Instant)
    (db : Database F) where
  store-Written :
      (r : ResolvedReading F)
      → device_from_topic topic ≡ some r.device_id
      → r.received_at ≡ received_at
      → Written topic received_at db ((Database.store con r db).1)
  unfolding Database.store
  store-Written r names arrived =
      elim (store_row_cases reading_identity (λ x. x.time) (con.refuses_reading db.devices) r
        db.readings) [
          | inl (stored, e) ↦ no_row (ap (λ p. p.1) e) refl refl
          | inr (new, inl (x, e)) ↦ no_row (ap (λ p. p.1) e) refl refl
          | inr (new, inr e) ↦ reading_row r names arrived new (ap (λ p. p.1) e) refl refl
        ]

  store_sample-Written :
      (r : ResolvedSample F)
      → device_from_topic topic ≡ some r.device_id
      → r.received_at ≡ received_at
      → Written topic received_at db ((Database.store_sample con r db).1)
  unfolding Database.store_sample
  store_sample-Written r names arrived =
      elim (store_row_cases sample_identity (λ x. x.time) (con.refuses_sample db.devices) r
        db.samples) [
          | inl (stored, e) ↦ no_row refl (ap (λ p. p.1) e) refl
          | inr (new, inl (x, e)) ↦ no_row refl (ap (λ p. p.1) e) refl
          | inr (new, inr e) ↦ sample_row r names arrived new refl (ap (λ p. p.1) e) refl
        ]

  store_event-Written :
      (r : ResolvedEvent F)
      → device_from_topic topic ≡ some r.message.device_id
      → r.received_at ≡ received_at
      → Written topic received_at db ((Database.store_event con r db).1)
  unfolding Database.store_event
  store_event-Written r names arrived =
      elim (store_row_cases event_identity (λ x. x.time) (con.refuses_event db.devices) r
        db.events) [
          | inl (stored, e) ↦ no_row refl refl (ap (λ p. p.1) e)
          | inr (new, inl (x, e)) ↦ no_row refl refl (ap (λ p. p.1) e)
          | inr (new, inr e) ↦ event_row r names arrived new refl refl (ap (λ p. p.1) e)
        ]

store_rejected-Written :
    {F : Type 0} (con : Constraints F) (topic : String) (payload : Bytes) (received_at : Instant)
    (db : Database F) (reason : Reason)
    → Written topic received_at db
        ((Database.store_rejected con topic payload reason (device_from_topic topic) db).1)
unfolding Database.store_rejected
store_rejected-Written con topic payload received_at db reason =
    elim (Option-cases
      (con.refuses_rejected (rejected_row topic payload reason (device_from_topic topic)))) [
        | inl admitted ↦ rw (admitted, Database.store_rejected) (no_row refl refl refl)
        | inr (e, refused) ↦ rw (refused, Database.store_rejected) (no_row refl refl refl)
      ]

routed_prefix :
    (prefix suffix topic : String)
    → is_topic prefix suffix topic ≡ true
    → starts_with topic prefix ≡ true
unfolding is_topic
routed_prefix prefix suffix topic h = ground arith

module _ {F : Type 0} (fl : Float F) (loads : Loads F) (conv : Conversions F) (con : Constraints F)
    (topic : String) (payload : Bytes) (received_at : Instant) (ing : Ingestor (Database F)) where
  pub handle_reading-Written :
      is_topic "psychron/v1/" "/reading" topic ≡ true
      → Written topic received_at ing.repo
          ((handle_reading fl loads conv (repository con) topic payload received_at ing).1.repo)
  unfolding handle_reading is_topic
  handle_reading-Written routed =
      let (w, names) =
        device_of_prefix "psychron/v1/" topic (inl refl)
          (routed_prefix "psychron/v1/" "/reading" topic routed) in
      receive-repo fl loads conv con (λ m. m.device_id) (λ m. Telemetry.resolve m received_at)
        (Database.store con) count_stored (Written topic received_at ing.repo) topic payload ing
        (no_row refl refl refl)
        (λ reason. store_rejected-Written con topic payload received_at ing.repo reason)
        (λ m v anchors same resolved.
          let (of_message, arrived, _) =
            resolve-reading_device m received_at ing.anchors v anchors resolved in
          store-Written con topic received_at ing.repo v
            (mismatch-same topic w m.device_id names same ∙ ap some (sym of_message)) arrived)
        (Telemetry.parse fl loads payload)

  pub handle_sample-Written :
      is_topic "psychron/v2/" "/sample" topic ≡ true
      → Written topic received_at ing.repo
          ((handle_sample fl loads conv (repository con) topic payload received_at ing).1.repo)
  unfolding handle_sample is_topic
  handle_sample-Written routed =
      let (w, names) =
        device_of_prefix "psychron/v2/" topic (inr refl)
          (routed_prefix "psychron/v2/" "/sample" topic routed) in
      receive-repo fl loads conv con (λ m. m.device_id) (λ m. Samples.resolve m received_at)
        (Database.store_sample con) count_sample (Written topic received_at ing.repo) topic payload
        ing (no_row refl refl refl)
        (λ reason. store_rejected-Written con topic payload received_at ing.repo reason)
        (λ m v anchors same resolved.
          let (of_message, arrived, _) =
            resolve-sample_device m received_at ing.anchors v anchors resolved in
          store_sample-Written con topic received_at ing.repo v
            (mismatch-same topic w m.device_id names same ∙ ap some (sym of_message)) arrived)
        (Samples.parse fl loads payload)

  pub handle_event-Written :
      is_topic "psychron/v2/" "/event" topic ≡ true
      → Written topic received_at ing.repo
          ((handle_event fl loads conv (repository con) topic payload received_at ing).1.repo)
  unfolding handle_event is_topic
  handle_event-Written routed =
      let (w, names) =
        device_of_prefix "psychron/v2/" topic (inr refl)
          (routed_prefix "psychron/v2/" "/event" topic routed) in
      receive-repo fl loads conv con (λ m. m.device_id) (λ m. Events.resolve m received_at)
        (Database.store_event con) count_event (Written topic received_at ing.repo) topic payload
        ing (no_row refl refl refl)
        (λ reason. store_rejected-Written con topic payload received_at ing.repo reason)
        (λ m v anchors same resolved.
          let (of_message, arrived, _) =
            resolve-event_device m received_at ing.anchors v anchors resolved in
          store_event-Written con topic received_at ing.repo v
            (mismatch-same topic w m.device_id names same ∙ ap some (sym of_message)) arrived)
        (Events.parse fl loads payload)
