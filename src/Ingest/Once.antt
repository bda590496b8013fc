-- ===== src/Ingest/Once.antt =====
-- backend/src/psychron/ingest.py. At-least-once delivery, exactly-once storage.
use psychron.Base.{Bool-cases, List, String, false, inl, inr, refl, ◌≡◌}
use psychron.Database.{Constraints, Database, repository}
use psychron.Ingest.{Conversions, Ingestor, handle}
use psychron.Ingest.Duplicates.{
  handle_all, handle_event-redelivered, handle_reading-redelivered, handle_sample-redelivered,
}
use psychron.Ingest.Redelivery.{SameTables}
use psychron.Instant.{Instant}
use psychron.Json.{Bytes, Loads}
use psychron.PyFloat.{Float}
use psychron.Raise.{ok}
use psychron.Topics.{ends_with, is_topic}

-- A message that was handled without an exception leaves nothing more to store: delivered again,
-- at any time and after any other messages, whatever anchors they have left, it changes none of
-- the tables of measurements. Boot announcements, which write to another table, are not covered.
pub handle_redelivered :
    {F : Type 0} (fl : Float F) (loads : Loads F) (conv : Conversions F) (con : Constraints F)
    (topic : String) (payload : Bytes) (received_at received_at' : Instant)
    (ing ing1 : Ingestor (Database F)) (messages : List (String × Bytes × Instant))
    → ends_with topic "/boot" ≡ false
    → handle fl loads conv (repository con) topic payload received_at ing ≡ (ok tt, ing1)
    → SameTables ((handle_all fl loads conv con messages ing1).repo) (
        (handle fl loads conv
          (repository con)
          topic
          payload
          received_at'
          (handle_all fl loads conv con messages ing1)).1.repo)
unfolding handle
handle_redelivered fl loads conv con topic payload received_at received_at' ing ing1 messages a h =
    elim (Bool-cases (is_topic "psychron/v2/" "/sample" topic)) [
      | inl sample ↦
          rw (a, sample)
            (handle_sample-redelivered fl loads conv con topic payload received_at received_at' ing
              ing1 messages (rw (a, sample) at h))
      | inr b ↦ elim (Bool-cases (is_topic "psychron/v2/" "/event" topic)) [
        | inl event ↦
            rw (a, b, event)
              (handle_event-redelivered fl loads conv con topic payload received_at received_at' ing
                ing1 messages (rw (a, b, event) at h))
        | inr c ↦ elim (Bool-cases (is_topic "psychron/v1/" "/reading" topic)) [
          | inl reading ↦
              rw (a, b, c, reading)
                (handle_reading-redelivered fl loads conv con topic payload received_at received_at'
                  ing ing1 messages (rw (a, b, c, reading) at h))
          | inr d ↦ rw (a, b, c, d) (refl, refl, refl)
        ]
      ]
    ]
