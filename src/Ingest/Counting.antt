-- ===== src/Ingest/Counting.antt =====
-- backend/src/psychron/ingest.py. What one message does to the counters.
use psychron.Telemetry
use psychron.Samples
use psychron.Events
use psychron.Base.{Bool, String, false, if◌then◌else◌, true, ℕ, ◌+◌, ◌||◌, ◌≡◌}
use psychron.Ingest.{IngestStats, Ingestor}
use psychron.Ports.{Outcome}
use psychron.Raise.{Result, ok, raise}
use psychron.Topics.{ends_with, is_topic}
use psychron.Instant.{Instant}

abbrev pub total : IngestStats → ℕ
total s = s.stored + s.samples + s.events + s.duplicates + s.rejected + s.boots

-- the topics that `handle` does not pass over
abbrev pub is_routed : String → Bool
is_routed topic =
    ends_with topic "/boot"
    || is_topic "psychron/v2/" "/sample" topic
    || is_topic "psychron/v2/" "/event" topic
    || is_topic "psychron/v1/" "/reading" topic

abbrev pub is_ok {ℓ} : {A : Type ℓ} → Result A → Bool
is_ok (ok a) = true
is_ok (raise e) = false

-- what a call adds to the counters: one, unless an exception escapes
abbrev pub CountedOnce : {R : Type 0} → IngestStats → Outcome Unit (Ingestor R) → Type 0
CountedOnce before out = total out.1.stats ≡ total before + (if is_ok out.0 then 1 else 0)
