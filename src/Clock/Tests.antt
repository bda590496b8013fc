-- ===== src/Clock/Tests.antt =====
-- backend/src/psychron/domain/telemetry.py. The timestamp rule at concrete messages.
use psychron.Base.{[], arith, inr, none, refl, some, ◌*◌, ◌+◌, ◌-◌, ◌^◌, ◌∷◌, ◌≡◌, ◌⊎◌}
use psychron.Clock.{
  Envelope, Resolution, anchor_of, believed_clock, clock_survives_arrival, observe,
  q_time_from_anchor, resolve_instant, seed, set_bit,
}
use psychron.Clock.History.{at_start, clockless_placed_exactly}
use psychron.Clock.Provenance.{ByArrival, ByBootAnchor, ByDeviceClock, resolve_instant_provenance}
use psychron.Clock.Totality.{IsNear, resolve_instant_overflows, resolve_instant_total}
use psychron.Fixture.{autumn}
use psychron.Instant.{minus_ms}
use psychron.Raise.{ok, overflow_error, raise}

abbrev live : Envelope
live = record {
  device_id = "node-1";
  boot_id = 3;
  device_time = some autumn;
  uptime_ms = 60000;
  quality = 0;
}

abbrev clockless : Envelope
clockless = record {
  device_id = "node-1";
  boot_id = 3;
  device_time = none;
  uptime_ms = 90000;
  quality = 1;
}

abbrev after_live : Resolution
after_live = record {
  instant = autumn;
  quality = 0;
  anchors = record { device_id = "node-1"; boot_id = 3; boot_epoch = autumn - 60000000 } ∷ [];
}

live_resolved : resolve_instant live autumn [] ≡ ok after_live
unfolding resolve_instant believed_clock clock_survives_arrival observe anchor_of seed minus_ms
live_resolved = refl

-- thirty seconds of uptime later
clockless_placed_exactly_example :
    resolve_instant clockless (autumn + 500000000) after_live.anchors
    ≡ ok (record {
      instant = autumn + 90000 * 1000 - 60000 * 1000;
      quality = set_bit 1 q_time_from_anchor;
      anchors = after_live.anchors;
    })
clockless_placed_exactly_example =
    clockless_placed_exactly live clockless autumn (autumn + 500000000) autumn [] after_live.anchors
      after_live (unfold anchor_of in refl) refl (refl, omega arith, inr (omega arith))
      live_resolved at_start refl refl refl (omega arith)

resolve_instant_provenance_example :
    ByDeviceClock live autumn after_live
    ⊎ ByBootAnchor live autumn [] after_live
    ⊎ ByArrival live autumn [] after_live
resolve_instant_provenance_example =
    resolve_instant_provenance live autumn [] after_live (omega arith) live_resolved

resolve_instant_total_example :
    (r : Resolution) × (resolve_instant live autumn [] ≡ ok r) × IsNear r.anchors
resolve_instant_total_example =
    resolve_instant_total live autumn []
      (record { uptime = omega arith; clock = (omega arith, omega arith) }) tt

-- a phone whose uptime is 2 ^ 53 - 1 ms
abbrev ancient : Envelope
ancient = record live { uptime_ms = 2 ^ 53 - 1 }

resolve_instant_overflows_example : resolve_instant ancient autumn [] ≡ raise overflow_error
resolve_instant_overflows_example =
    resolve_instant_overflows ancient autumn autumn [] (unfold anchor_of in refl) refl
      (refl, omega arith, inr (omega arith)) (omega arith)
