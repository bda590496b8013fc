-- ===== src/Database/Tests.antt =====
-- backend/src/psychron/adapters/postgres.py. Boot anchors restored from the tables.
use psychron.Base.{[], refl, select, some, ◌-◌, ◌∷◌, ◌≡◌, All, List, none, ℤ}
use psychron.Database.{
  known_boot_anchors, Observed, anchor_row, distinct_boots, fetch_anchors, is_trusted,
  keep_earliest, Database,
}
use psychron.Fixture.{autumn, empty_database}
use psychron.Raise.{ok}
use psychron.Clock.{Anchor}
use psychron.Database.Anchored.{AllAnchored, ByEarliest, known_boot_anchors_complete}
use psychron.Telemetry.{ResolvedReading}

abbrev trusted : Observed
trusted = record {
  device_id = "node-1";
  boot_id = 3;
  time = autumn;
  uptime_ms = 60000;
  device_time = some autumn;
  quality = 0;
}

-- placed by the anchor: no basis for anchoring the boot
abbrev inferred : Observed
inferred = record trusted { time = autumn - 1000; quality = 256 }

anchors_restored :
    fetch_anchors (distinct_boots (select is_trusted (trusted ∷ inferred ∷ [])))
    ≡ ok (record { device_id = "node-1"; boot_id = 3; boot_epoch = autumn - 60000000 } ∷ [])
unfolding fetch_anchors anchor_row distinct_boots keep_earliest is_trusted
anchors_restored = refl

abbrev placed : ResolvedReading ℤ
placed = record {
  time = autumn;
  device_id = "node-1";
  boot_id = 3;
  seq = 7;
  device_time = some autumn;
  received_at = autumn;
  uptime_ms = 60000;
  temperature_c = none;
  humidity_pct = none;
  quality = 0;
  firmware = "1.2.0";
}

abbrev one_reading : Database ℤ
one_reading = record empty_database { readings = placed ∷ [] }

abbrev found : List Anchor
found = record { device_id = "node-1"; boot_id = 3; boot_epoch = autumn - 60000000 } ∷ []

anchors_read : known_boot_anchors one_reading ≡ ok found
unfolding known_boot_anchors fetch_anchors anchor_row distinct_boots keep_earliest is_trusted
anchors_read = refl

known_boot_anchors_complete_example :
    AllAnchored one_reading found × All (ByEarliest one_reading) found
known_boot_anchors_complete_example = known_boot_anchors_complete one_reading found anchors_read
