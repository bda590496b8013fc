-- ===== src/Ingest/Redelivery.antt =====
-- backend/src/psychron/ingest.py. A message that the broker delivers again.
use psychron.Database
use psychron.Base.{Bool, Option-cases, String, ap, false, inl, inr, refl, true, ◌≡◌}
use psychron.Clock.{BootAnchors}
use psychron.Database.{Constraints, Database, repository, rejected_row}
use psychron.Ingest.{
  Conversions, IngestStats, Ingestor, conclude, mismatch, receive, reject, resolve_and_store,
}
use psychron.Json.{Bytes, Loads}
use psychron.Ports.{Outcome}
use psychron.PyFloat.{Float}
use psychron.Raise.{Reason, Result, Result-cases, invalid, ok, raise}
use psychron.Topics.{device_from_topic}

-- the tables of measurements are the same
abbrev pub SameTables : {F : Type 0} → Database F → Database F → Type 0
SameTables db db' =
    (db'.readings ≡ db.readings) × (db'.samples ≡ db.samples) × (db'.events ≡ db.events)

module _ {F : Type 0} (fl : Float F) (loads : Loads F) (conv : Conversions F)
    (con : Constraints F) where
  -- A message is stored by a first delivery (`resolve`) and met by a second one (`resolve'`).
  module _ {M V : Type 0} (device_of : M → String)
      (resolve resolve' : M → BootAnchors → Result (V × BootAnchors))
      (store : V → Database F → Outcome Bool (Database F)) (counted : IngestStats → IngestStats)
      (has : M → Database F → Bool)
      (stores : (m : M) (v : V) (anchors anchors' : BootAnchors) (db db' : Database F) (b : Bool)
        → resolve m anchors ≡ ok (v, anchors')
        → store v db ≡ (ok b, db')
        → has m db' ≡ true)
      (passes : (m : M) (v : V) (anchors anchors' : BootAnchors) (db : Database F)
        → resolve' m anchors ≡ ok (v, anchors')
        → has m db ≡ true
        → store v db ≡ (ok false, db)) where
    conclude-has :
        (m : M) (v : V) (anchors anchors' : BootAnchors) (ing : Ingestor (Database F))
        (out : Outcome Bool (Database F)) (ing1 : Ingestor (Database F))
        → resolve m anchors ≡ ok (v, anchors')
        → store v ing.repo ≡ out
        → conclude fl loads conv (repository con) counted (record ing { anchors = anchors' }) out
          ≡ (ok tt, ing1)
        → has m ing1.repo ≡ true
    unfolding conclude
    conclude-has m v anchors anchors' ing (ok true, repo) ing1 resolved e h =
        let same : repo ≡ ing1.repo = ap (λ p. p.1.repo) h in
        rw (← same) (stores m v anchors anchors' ing.repo repo true resolved e)
    conclude-has m v anchors anchors' ing (ok false, repo) ing1 resolved e h =
        let same : repo ≡ ing1.repo = ap (λ p. p.1.repo) h in
        rw (← same) (stores m v anchors anchors' ing.repo repo false resolved e)
    conclude-has m v anchors anchors' ing (raise x, repo) ing1 resolved e h =
        absurd (cc (ap (λ p. p.0) h))

    second_delivery :
        (m : M) (ing : Ingestor (Database F))
        → has m ing.repo ≡ true
        → SameTables ing.repo (
            (resolve_and_store fl loads conv
              (repository con)
              device_of
              resolve'
              store
              counted
              m
              ing).1.repo)
    unfolding resolve_and_store conclude
    second_delivery m ing known = elim (Result-cases (resolve' m ing.anchors)) [
      | inl (e, raised) ↦ rw (raised, resolve_and_store) (refl, refl, refl)
      | inr ((v, anchors), resolved) ↦
          rw (resolved, resolve_and_store, passes m v ing.anchors anchors ing.repo resolved known)
            (refl, refl, refl)
    ]

    first_delivery :
        (m : M) (ing ing1 : Ingestor (Database F))
        → resolve_and_store fl loads conv (repository con) device_of resolve store counted m ing
          ≡ (ok tt, ing1)
        → has m ing1.repo ≡ true
    unfolding resolve_and_store
    first_delivery m ing ing1 h = elim (Result-cases (resolve m ing.anchors)) [
      | inl (e, raised) ↦ absurd (cc (ap (λ p. p.0) (rw (raised, resolve_and_store) at h)))
      | inr ((v, anchors), resolved) ↦
          conclude-has m v ing.anchors anchors ing (store v ing.repo) ing1 resolved refl
            (rw (resolved, resolve_and_store) at h)
    ]

    rejected_again :
        (topic : String) (payload : Bytes) (reason : Reason) (ing : Ingestor (Database F))
        → SameTables ing.repo
            ((reject fl loads conv (repository con) topic payload reason ing).1.repo)
    unfolding reject Database.store_rejected
    rejected_again topic payload reason ing =
        elim (Option-cases
          (con.refuses_rejected (rejected_row topic payload reason (device_from_topic topic)))) [
            | inl admitted ↦ rw (reject, Database.store_rejected, admitted) (refl, refl, refl)
            | inr (e, refused) ↦ rw (reject, Database.store_rejected, refused) (refl, refl, refl)
          ]

    pub receive-redelivered :
        (parsed : Result M) (topic : String) (payload : Bytes)
        (ing ing1 ing2 : Ingestor (Database F))
        → receive fl loads conv
            (repository con)
            device_of
            resolve
            store
            counted
            parsed
            topic
            payload
            ing
          ≡ (ok tt, ing1)
        → ((m : M) → has m ing1.repo ≡ true → has m ing2.repo ≡ true)
        → SameTables ing2.repo (
            (receive fl loads conv
              (repository con)
              device_of
              resolve'
              store
              counted
              parsed
              topic
              payload
              ing2).1.repo)
    unfolding receive
    receive-redelivered (raise (invalid reason)) topic payload ing ing1 ing2 h keeps =
        rejected_again topic payload reason ing2
    receive-redelivered (raise e) topic payload ing ing1 ing2 h keeps = (refl, refl, refl)
    receive-redelivered (ok m) topic payload ing ing1 ing2 h keeps =
        elim (Option-cases (mismatch (device_from_topic topic) (device_of m))) [
          | inl same ↦
              rw (same, receive)
                (second_delivery m ing2
                  (keeps m (first_delivery m ing ing1 (rw (same, receive) at h))))
          | inr (reason, differ) ↦ rw (differ, receive) (rejected_again topic payload reason ing2)
        ]
