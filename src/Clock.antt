-- ===== src/Clock.antt =====
-- backend/src/psychron/domain/telemetry.py, the timestamp rule: the quality bits, the boot anchors
-- and `resolve_instant`, which every contract version shares. Only the envelope of a message is
-- read, so the functions take an `Envelope`.
pub mod Bits
pub mod Anchoring
pub mod Provenance
pub mod History
pub mod Totality
mod Tests
use psychron.Base.{
  ℕ, ◌+◌, ◌*◌, ◌/◌, ◌%◌, ℤ, pos, String, Bool, not, ◌&&◌, Option, none, some, List, [], ◌∷◌, ◌==◌,
  str_eq, leb_ℤ, abs, if◌then◌else◌, is_none,
}
use psychron.Raise.{Result, ok, ◌>>=◌}
use psychron.Instant.{Instant, plus_ms, minus_ms, minus}

abbrev pub q_clock_unsynced : ℕ
q_clock_unsynced = 0x01

abbrev pub q_replayed : ℕ
q_replayed = 0x02

abbrev pub q_time_from_anchor : ℕ
q_time_from_anchor = 0x0100

abbrev pub q_time_from_arrival : ℕ
q_time_from_arrival = 0x0200

-- `timedelta(minutes=5)`
abbrev pub clock_tolerance : ℤ
clock_tolerance = pos 300000000

-- `quality & mask` as a test, for a mask of one bit
abbrev pub test_bit : ℕ → ℕ → Bool
test_bit quality mask = (quality / mask) % 2 == 1

-- `quality | mask`, for a mask of one bit
abbrev pub set_bit : ℕ → ℕ → ℕ
set_bit quality mask = if test_bit quality mask then quality else quality + mask

pub record Envelope : Type 0 where
  pub device_id : String
  pub boot_id : ℕ
  pub device_time : Option Instant
  pub uptime_ms : ℕ
  pub quality : ℕ

-- `BootAnchors._anchors`, a dict from (device_id, boot_id)
pub record Anchor : Type 0 where
  pub device_id : String
  pub boot_id : ℕ
  pub boot_epoch : Instant

abbrev pub BootAnchors : Type 0
BootAnchors = List Anchor

abbrev pub same_boot : String → ℕ → Anchor → Bool
same_boot device_id boot_id a = str_eq a.device_id device_id && a.boot_id == boot_id

unfoldable pub anchor_of : String → ℕ → BootAnchors → Option Instant
anchor_of device_id boot_id [] = none
anchor_of device_id boot_id (a ∷ anchors) =
    if same_boot device_id boot_id a then some a.boot_epoch else anchor_of device_id boot_id anchors

-- `BootAnchors.seed`: an assignment, which overwrites
unfoldable pub seed : String → ℕ → Instant → BootAnchors → BootAnchors
seed device_id boot_id boot_epoch [] =
    record { device_id = device_id; boot_id = boot_id; boot_epoch = boot_epoch } ∷ []
seed device_id boot_id boot_epoch (a ∷ anchors) =
    if same_boot device_id boot_id a
    then record a { boot_epoch = boot_epoch } ∷ anchors
    else a ∷ seed device_id boot_id boot_epoch anchors

-- `BootAnchors.observe`
unfoldable pub observe : Envelope → Instant → BootAnchors → Result BootAnchors
observe msg trusted_time anchors = elim (anchor_of msg.device_id msg.boot_id anchors) [
  | some boot_epoch ↦ ok anchors
  | none ↦ do
    boot_epoch ← minus_ms trusted_time msg.uptime_ms
    ok (seed msg.device_id msg.boot_id boot_epoch anchors)
]

-- `BootAnchors.instant_for`
unfoldable pub instant_for : Envelope → BootAnchors → Result (Option Instant)
instant_for msg anchors = elim (anchor_of msg.device_id msg.boot_id anchors) [
  | none ↦ ok none
  | some anchor ↦ do instant ← plus_ms anchor msg.uptime_ms; ok (some instant)
]

unfoldable pub clock_survives_arrival : Instant → ℕ → Instant → Bool
clock_survives_arrival device_time quality received_at =
    let drift = minus device_time received_at in
    if test_bit quality q_replayed
    then leb_ℤ drift clock_tolerance
    else leb_ℤ (abs drift) clock_tolerance

-- the device's clock, if it is claimed and survives: the test of the `if`
unfoldable pub believed_clock : Envelope → Instant → Option Instant
unfolding clock_survives_arrival
believed_clock msg received_at = elim msg.device_time [
  | none ↦ none
  | some device_time ↦
      if not (test_bit msg.quality q_clock_unsynced)
        && clock_survives_arrival device_time msg.quality received_at
      then some device_time
      else none
]

-- the instant, the quality, and the anchors as the call leaves them
pub record Resolution : Type 0 where
  pub instant : Instant
  pub quality : ℕ
  pub anchors : BootAnchors

-- the two fallbacks of `resolve_instant`
abbrev pub fall_back : Option Instant → ℕ → Instant → BootAnchors → Resolution
fall_back (some from_anchor) quality received_at anchors = record {
  instant = from_anchor;
  quality = set_bit quality q_time_from_anchor;
  anchors = anchors;
}
fall_back none quality received_at anchors = record {
  instant = received_at;
  quality = set_bit quality q_time_from_arrival;
  anchors = anchors;
}

unfoldable pub resolve_instant : Envelope → Instant → BootAnchors → Result Resolution
resolve_instant msg received_at anchors = elim (believed_clock msg received_at) [
  | some instant ↦ do
    anchors' ← observe msg instant anchors
    ok (record { instant = instant; quality = msg.quality; anchors = anchors' })
  | none ↦ do
    from_anchor ← instant_for msg anchors
    ok (fall_back from_anchor msg.quality received_at anchors)
]
