-- ===== src/Clock/Totality.antt =====
-- backend/src/psychron/domain/telemetry.py. When the timestamp rule returns, and when it raises
-- OverflowError.
use psychron.Base.{
  All, AllSome, Bool-cases, String, [], arith, inl, inr, none, some, ℕ, ◌<◌, ◌∷◌, ◌≡◌, ◌≤◌,
  Option-cases, ◌+◌, ◌-◌,
}
use psychron.Clock.{
  BootAnchors, Envelope, Resolution, anchor_of, believed_clock, observe, resolve_instant, same_boot,
  seed, fall_back, instant_for,
}
use psychron.Clock.Provenance.{Believable, believed_of_Believable, believed_sound}
use psychron.Instant.{Instant, epoch, micros_of_ms, minus_ms, plus_ms, year_2100}
use psychron.Raise.{ok, overflow_error, raise}

-- Every anchor is an instant before 2100.
abbrev pub IsNear : BootAnchors → Type 0
IsNear = All (λ a. a.boot_epoch ≤ year_2100)

IsNear-anchor_of :
    (d : String) (b : ℕ) (anchors : BootAnchors) {t : Instant}
    → IsNear anchors
    → anchor_of d b anchors ≡ some t
    → t ≤ year_2100
unfolding anchor_of
IsNear-anchor_of d b [] near h = cc
IsNear-anchor_of d b (a ∷ anchors) {t} near h = elim (Bool-cases (same_boot d b a)) [
  | inl same ↦ let e : t ≡ a.boot_epoch = ground arith in rw e near.0
  | inr other ↦ IsNear-anchor_of d b anchors near.1 (rw other at h)
]

pub seed-IsNear :
    (d : String) (b : ℕ) (t : Instant) (anchors : BootAnchors)
    → t ≤ year_2100
    → IsNear anchors
    → IsNear (seed d b t anchors)
unfolding seed
seed-IsNear d b t [] h near = (h, tt)
seed-IsNear d b t (a ∷ anchors) h near = elim (Bool-cases (same_boot d b a)) [
  | inl same ↦ rw same (h, near.1)
  | inr other ↦ rw other (near.0, seed-IsNear d b t anchors h near.1)
]

-- What the v1 parser guarantees of an envelope: a 32-bit uptime, and a clock between 1970 and 2100.
pub record IsShort (msg : Envelope) : Type 0 where
  pub uptime : msg.uptime_ms ≤ 0xFFFFFFFF
  pub clock : AllSome (λ t. (epoch ≤ t) × (t ≤ year_2100)) msg.device_time

module _ (msg : Envelope) (received_at t : Instant) (anchors : BootAnchors) where
  observe_total :
      IsShort msg
      → IsNear anchors
      → msg.device_time ≡ some t
      → (anchors' : BootAnchors) × (observe msg t anchors ≡ ok anchors') × IsNear anchors'
  unfolding observe minus_ms
  observe_total short near claimed =
      elim (Option-cases (anchor_of msg.device_id msg.boot_id anchors)) [
        | inl fresh ↦ (
          seed msg.device_id msg.boot_id (t - micros_of_ms msg.uptime_ms) anchors,
          ground arith,
          seed-IsNear msg.device_id msg.boot_id (t - micros_of_ms msg.uptime_ms) anchors
              (ground arith) near,
        )
        | inr (a, found) ↦ (anchors, ground arith, near)
      ]

  by_clock_total :
      IsShort msg
      → IsNear anchors
      → believed_clock msg received_at ≡ some t
      → (r : Resolution) × (resolve_instant msg received_at anchors ≡ ok r) × IsNear r.anchors
  unfolding resolve_instant
  by_clock_total short near believed =
      let (anchors', observed, near') =
        observe_total short near (believed_sound msg received_at believed).0 in
      (record { instant = t; quality = msg.quality; anchors = anchors' }, ground arith, near')

module _ (msg : Envelope) (received_at : Instant) (anchors : BootAnchors) where
  fall_back_total :
      IsShort msg
      → IsNear anchors
      → believed_clock msg received_at ≡ none
      → (r : Resolution) × (resolve_instant msg received_at anchors ≡ ok r) × IsNear r.anchors
  unfolding resolve_instant instant_for plus_ms
  fall_back_total short near refused =
      elim (Option-cases (anchor_of msg.device_id msg.boot_id anchors)) [
        | inl fresh ↦ (fall_back none msg.quality received_at anchors, ground arith, near)
        | inr (a, found) ↦
            let low : a ≤ year_2100 =
              IsNear-anchor_of msg.device_id msg.boot_id anchors near found in
            (
              fall_back (some (a + micros_of_ms msg.uptime_ms)) msg.quality received_at anchors,
              ground arith,
              near,
            )
      ]

-- Resolving such a message never raises, whatever its arrival, and the anchors stay near.
pub resolve_instant_total :
    (msg : Envelope) (received_at : Instant) (anchors : BootAnchors)
    → IsShort msg
    → IsNear anchors
    → (r : Resolution) × (resolve_instant msg received_at anchors ≡ ok r) × IsNear r.anchors
resolve_instant_total msg received_at anchors short near =
    elim (Option-cases (believed_clock msg received_at)) [
      | inl refused ↦ fall_back_total msg received_at anchors short near refused
      | inr (t, believed) ↦ by_clock_total msg received_at t anchors short near believed
    ]

-- A believed clock of a boot that has no anchor yet, and would have begun before year 1, raises
-- OverflowError.
pub resolve_instant_overflows :
    (msg : Envelope) (received_at t : Instant) (anchors : BootAnchors)
    → anchor_of msg.device_id msg.boot_id anchors ≡ none
    → msg.device_time ≡ some t
    → Believable (some t) msg.quality received_at
    → t < micros_of_ms msg.uptime_ms
    → resolve_instant msg received_at anchors ≡ raise overflow_error
resolve_instant_overflows msg received_at t anchors fresh claimed believable long =
    let believed : believed_clock msg received_at ≡ some t =
      believed_of_Believable msg received_at claimed believable in
    unfold resolve_instant observe minus_ms in ground arith
