-- ===== src/Clock/Provenance.antt =====
-- Where a resolved instant comes from, and what the quality bits say of it.
use psychron.Base.{
  ℕ, ◌+◌, ◌/◌, ◌%◌, ◌≤◌, ◌<◌, ◌≡◌, ◌⊎◌, Option, none, some, arith, Option-cases, inl, inr, ◌-◌,
}
use psychron.Instant.{Instant, micros_of_ms, plus_ms}
use psychron.Clock.{
  Envelope, believed_clock, BootAnchors, Resolution, anchor_of, instant_for, resolve_instant,
}
use psychron.Raise.{ok}

-- five minutes
abbrev pub tolerance : ℕ
tolerance = 300000000

-- The device clock is claimed and survives arrival: bit 0 is clear, and the instant is at most five
-- minutes after arrival and, unless bit 1 marks a replay, at most five minutes before it.
abbrev pub Believable : Option Instant → ℕ → Instant → Type 0
Believable none quality received_at = ⊥
Believable (some t) quality received_at =
    (quality % 2 ≡ 0)
    × (t ≤ received_at + tolerance)
    × (((quality / 2) % 2 ≡ 1) ⊎ (received_at ≤ t + tolerance))

-- The opposite, one case for each way to be refused.
abbrev pub Refused : Option Instant → ℕ → Instant → Type 0
Refused none quality received_at = Unit
Refused (some t) quality received_at =
    (quality % 2 ≡ 1)
    ⊎ (received_at + tolerance < t)
    ⊎ (((quality / 2) % 2 ≡ 0) × (t + tolerance < received_at))

module _ (msg : Envelope) (received_at : Instant) where
  pub believed_sound :
      {t : Instant}
      → believed_clock msg received_at ≡ some t
      → (msg.device_time ≡ some t) × Believable (some t) msg.quality received_at
  unfolding believed_clock
  believed_sound h = ground arith

  Refused-sound :
      believed_clock msg received_at ≡ none → Refused msg.device_time msg.quality received_at
  unfolding believed_clock
  Refused-sound h = elim (Option-cases msg.device_time) [
    | inl e ↦ rw e tt
    | inr (t, e) ↦ rw e (ground arith)
  ]

module _ (msg : Envelope) (received_at : Instant) where
  pub believed_of_Believable :
      {t : Instant}
      → msg.device_time ≡ some t
      → Believable (some t) msg.quality received_at
      → believed_clock msg received_at ≡ some t
  unfolding believed_clock
  believed_of_Believable claimed b = ground arith

  pub unclaimed_of_none : msg.device_time ≡ none → believed_clock msg received_at ≡ none
  unfolding believed_clock
  unclaimed_of_none h = ground arith

-- The three ways to place a message, each with what it requires and what it records.
abbrev pub ByDeviceClock : Envelope → Instant → Resolution → Type 0
ByDeviceClock msg received_at r =
    (msg.device_time ≡ some r.instant)
    × Believable (some r.instant) msg.quality received_at
    × (r.quality ≡ msg.quality)

abbrev pub ByBootAnchor : Envelope → Instant → BootAnchors → Resolution → Type 0
ByBootAnchor msg received_at anchors r =
    Refused msg.device_time msg.quality received_at
    × (anchor_of msg.device_id msg.boot_id anchors ≡ some (r.instant - micros_of_ms msg.uptime_ms))
    × (micros_of_ms msg.uptime_ms ≤ r.instant)
    × (r.quality ≡ msg.quality + 256)
    × (r.anchors ≡ anchors)

abbrev pub ByArrival : Envelope → Instant → BootAnchors → Resolution → Type 0
ByArrival msg received_at anchors r =
    Refused msg.device_time msg.quality received_at
    × (anchor_of msg.device_id msg.boot_id anchors ≡ none)
    × (r.instant ≡ received_at)
    × (r.quality ≡ msg.quality + 512)
    × (r.anchors ≡ anchors)

-- When `resolve_instant` returns, a message whose quality uses only the firmware's bits is placed by
-- its own clock exactly when that clock is believable, and its quality is then unchanged; otherwise
-- by its boot's anchor plus the uptime, and bit 0x100 is added; otherwise on arrival, and bit 0x200
-- is added. Nothing is said of a call that raises OverflowError.
pub resolve_instant_provenance :
    (msg : Envelope) (received_at : Instant) (anchors : BootAnchors) (r : Resolution)
    → msg.quality < 256
    → resolve_instant msg received_at anchors ≡ ok r
    → ByDeviceClock msg received_at r
      ⊎ ByBootAnchor msg received_at anchors r
      ⊎ ByArrival msg received_at anchors r
unfolding resolve_instant
resolve_instant_provenance msg received_at anchors r small h =
    elim (Option-cases (believed_clock msg received_at)) [
      | inl refused ↦ inr (
          unfold instant_for plus_ms in
          (elim (Option-cases (anchor_of msg.device_id msg.boot_id anchors)) [
            | inl e ↦
                inr (
                  Refused-sound msg received_at refused,
                  e,
                  ground arith,
                  ground arith,
                  ground arith,
                )
            | inr (a, e) ↦ inl (
              Refused-sound msg received_at refused,
              ground arith,
              ground arith,
              ground arith,
              ground arith,
            )
          ]))
      | inr (t, believed) ↦
          let s = believed_sound msg received_at believed in
          inl (ground arith, ground arith, ground arith)
    ]
