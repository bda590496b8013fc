-- ===== src/Clock/History.antt =====
-- backend/src/psychron/domain/telemetry.py. Anchors over a whole history of messages, and the
-- readings that are placed by them.
use psychron.Base.{Option-cases, String, arith, inl, inr, none, some, ℕ, ◌+◌, ◌-◌, ◌<◌, ◌≡◌, ◌≤◌}
use psychron.Clock.{
  BootAnchors, Envelope, Resolution, anchor_of, believed_clock, instant_for, q_time_from_anchor,
  resolve_instant, same_boot, set_bit, observe,
}
use psychron.Clock.Anchoring.{observe_keeps, observe_sets}
use psychron.Clock.Provenance.{Believable, believed_of_Believable, unclaimed_of_none}
use psychron.Instant.{Instant, end_of_time, micros_of_ms, plus_ms}
use psychron.Raise.{ok}

-- A message placed by its own clock has been observed.
pub observed_of_believed :
    (msg : Envelope) (received_at t : Instant) (anchors : BootAnchors) {r : Resolution}
    → believed_clock msg received_at ≡ some t
    → resolve_instant msg received_at anchors ≡ ok r
    → (observe msg t anchors ≡ ok r.anchors) × (r.instant ≡ t) × (r.quality ≡ msg.quality)
unfolding resolve_instant
observed_of_believed msg received_at t anchors believed h = ground arith

-- One resolution does not move an anchor that is already there.
pub resolve_instant_keeps :
    (msg : Envelope) (received_at : Instant) (anchors : BootAnchors) {r : Resolution} (e : String)
    (c : ℕ) {x : Instant}
    → resolve_instant msg received_at anchors ≡ ok r
    → anchor_of e c anchors ≡ some x
    → anchor_of e c r.anchors ≡ some x
unfolding resolve_instant instant_for
resolve_instant_keeps msg received_at anchors e c h found =
    elim (Option-cases (believed_clock msg received_at)) [
      | inl refused ↦ ground arith
      | inr (t, believed) ↦
          observe_keeps msg t anchors e c
            (observed_of_believed msg received_at t anchors believed h).0 found
    ]

-- The anchors after any number of messages, of any device, each resolved in turn.
pub data Resolves (first : BootAnchors) : BootAnchors → Type 0 where
  at_start : Resolves first first
  one_more :
      {before after : BootAnchors} (msg : Envelope) (received_at : Instant) (r : Resolution)
      → Resolves first before
      → resolve_instant msg received_at before ≡ ok r
      → r.anchors ≡ after
      → Resolves first after

pub Resolves-keeps :
    {first last : BootAnchors} (e : String) (c : ℕ) {x : Instant}
    → Resolves first last
    → anchor_of e c first ≡ some x
    → anchor_of e c last ≡ some x
Resolves-keeps e c at_start found = found
Resolves-keeps e c (one_more {before} msg received_at r earlier h same) found =
    rw (← same)
      (resolve_instant_keeps msg received_at before e c h (Resolves-keeps e c earlier found))

-- The boot's first believed message sets its anchor to that message's instant less its uptime.
pub resolve_instant_anchors :
    (live : Envelope) (received_at t : Instant) (anchors : BootAnchors) {r : Resolution}
    → believed_clock live received_at ≡ some t
    → anchor_of live.device_id live.boot_id anchors ≡ none
    → resolve_instant live received_at anchors ≡ ok r
    → (anchor_of live.device_id live.boot_id r.anchors ≡ some (t - micros_of_ms live.uptime_ms))
      × (micros_of_ms live.uptime_ms ≤ t)
resolve_instant_anchors live received_at t anchors believed fresh h =
    observe_sets live t anchors (observed_of_believed live received_at t anchors believed h).0 fresh

-- Once a message of a boot that had no anchor has been placed by its own clock at t, without an
-- exception, a message of the same boot with no clock is placed at t plus the difference of the two
-- uptimes, however many messages of whatever devices come between that are resolved without an
-- exception, and is marked as placed by the anchor. The instant is taken to lie before the end of
-- the calendar.
pub clockless_placed_exactly :
    (live clockless : Envelope) (received_at later t : Instant) (anchors last : BootAnchors)
    (r : Resolution)
    → anchor_of live.device_id live.boot_id anchors ≡ none
    → live.device_time ≡ some t
    → Believable (some t) live.quality received_at
    → resolve_instant live received_at anchors ≡ ok r
    → Resolves r.anchors last
    → clockless.device_id ≡ live.device_id
    → clockless.boot_id ≡ live.boot_id
    → clockless.device_time ≡ none
    → t + micros_of_ms clockless.uptime_ms < end_of_time + micros_of_ms live.uptime_ms
    → resolve_instant clockless later last
      ≡ ok (record {
        instant = t + micros_of_ms clockless.uptime_ms - micros_of_ms live.uptime_ms;
        quality = set_bit clockless.quality q_time_from_anchor;
        anchors = last;
      })
clockless_placed_exactly live clockless received_at later t anchors last r fresh claimed believable
      h between same_device same_boot no_clock room =
    let believed : believed_clock live received_at ≡ some t =
      believed_of_Believable live received_at claimed believable in
    let (set, room_below) = resolve_instant_anchors live received_at t anchors believed fresh h in
    let kept = Resolves-keeps live.device_id live.boot_id between set in
    let unclaimed : believed_clock clockless later ≡ none =
      unclaimed_of_none clockless later no_clock in
    unfold resolve_instant instant_for plus_ms in ground arith
