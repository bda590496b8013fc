-- ===== src/Ingest/Tests.antt =====
-- backend/src/psychron/ingest.py. Ingestion at concrete messages.
use psychron.Database
use psychron.Samples
use psychron.Base.{String, [], refl, ℤ, ◌+◌, ◌∷◌, ◌≡◌, ap}
use psychron.Database.{
  Database, repository, conflicts, insert_row, is_stored, store_row, store_sample,
}
use psychron.Fixture.{
  autumn, constraints, conversions, decode, empty_database, started, tenth_float,
}
use psychron.Ingest.{Ingestor, handle, handle_sample, conclude, receive, resolve_and_store}
use psychron.Ingest.Duplicates.{handle_all}
use psychron.Ingest.Handled.{HasIdentities, handle-HasIdentities, handle-Written}
use psychron.Ingest.Once.{handle_redelivered}
use psychron.Ingest.Redelivery.{SameTables}
use psychron.Ingest.Writes.{Written}
use psychron.Ports.{Outcome}
use psychron.Raise.{ok}
use psychron.Samples.{parse_measurements, check_groups, envelope_int}
use psychron.Topics.{ends_with, is_topic, device_from_topic, split_slash}
use psychron.Clock.{
  anchor_of, believed_clock, clock_survives_arrival, observe, resolve_instant, seed,
}
use psychron.Fields.{clock_ms, device_clock, parse_device_clock, short_text, to_float}
use psychron.Instant.{minus_ms}
use psychron.Quantities.{to_measurements, update}
use psychron.Schema.{check_dict, check_group, check_kind, check_members, check_range, check_value}

abbrev sample_topic : String
sample_topic = "psychron/v2/node-1/sample"

abbrev after_sample : Outcome Unit (Ingestor (Database ℤ))
after_sample =
    handle tenth_float decode conversions (repository constraints) sample_topic (2 ∷ []) autumn
      started

sample_handled : after_sample.0 ≡ ok tt
unfolding handle handle_sample receive resolve_and_store conclude ends_with is_topic split_slash
    device_from_topic short_text parse_device_clock device_clock clock_ms Samples.parse
    Samples.parse_loaded Samples.parse_members Samples.parse_measurements Samples.check_groups
    Samples.envelope_int Samples.resolve check_group check_dict check_members check_value check_kind
    check_range to_float update to_measurements resolve_instant believed_clock
    clock_survives_arrival observe anchor_of seed minus_ms Database.store_sample store_row is_stored
    insert_row conflicts
sample_handled = refl

sample_counted : after_sample.1.stats.samples ≡ 1
unfolding handle handle_sample receive resolve_and_store conclude ends_with is_topic split_slash
    device_from_topic short_text parse_device_clock device_clock clock_ms Samples.parse
    Samples.parse_loaded Samples.parse_members Samples.parse_measurements Samples.check_groups
    Samples.envelope_int Samples.resolve check_group check_dict check_members check_value check_kind
    check_range to_float update to_measurements resolve_instant believed_clock
    clock_survives_arrival observe anchor_of seed minus_ms Database.store_sample store_row is_stored
    insert_row conflicts
sample_counted = refl

handle_redelivered_example :
    SameTables ((handle_all tenth_float decode conversions constraints [] after_sample.1).repo) (
      (handle tenth_float decode conversions
        (repository constraints)
        sample_topic
        (2 ∷ [])
        (autumn + 5000000)
        (handle_all tenth_float decode conversions constraints [] after_sample.1)).1.repo)
handle_redelivered_example =
    handle_redelivered tenth_float decode conversions constraints sample_topic (2 ∷ []) autumn
      (autumn + 5000000) started (after_sample.1) [] (unfold ends_with in refl)
      (ap (λ r. (r, after_sample.1)) sample_handled)

handle-Written_example : Written sample_topic autumn empty_database (after_sample.1.repo)
handle-Written_example =
    handle-Written tenth_float decode conversions constraints sample_topic (2 ∷ []) autumn started

handle-HasIdentities_example : HasIdentities (after_sample.1.repo)
handle-HasIdentities_example =
    handle-HasIdentities tenth_float decode conversions constraints sample_topic (2 ∷ []) autumn
      started (tt, tt, tt)
