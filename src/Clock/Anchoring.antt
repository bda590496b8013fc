-- ===== src/Clock/Anchoring.antt =====
-- What the dict of boot anchors keeps.
use psychron.Base.{
  ℕ, ◌-◌, ◌≤◌, ◌≡◌, refl, String, ◌&&◌, none, some, [], ◌∷◌, arith, eq_iff, str_eq, ◌==◌,
  if◌then◌else◌,
}
use psychron.Raise.{ok}
use psychron.Instant.{Instant, minus_ms, micros_of_ms}
use psychron.Clock.{Envelope, BootAnchors, anchor_of, seed, observe}

-- Writing the anchor of one boot leaves the anchor of every other as it was.
pub anchor_of-seed :
    (d e : String) (b c : ℕ) (t : Instant) (anchors : BootAnchors)
    → anchor_of e c (seed d b t anchors)
      ≡ (if str_eq d e && b == c then some t else anchor_of e c anchors)
unfolding anchor_of seed
anchor_of-seed d e b c t [] = refl
anchor_of-seed d e b c t (a ∷ anchors) = ground (
  arith,
  eq_iff d e,
  eq_iff a.device_id d,
  eq_iff a.device_id e,
  anchor_of-seed d e b c t anchors,
)

module _ (msg : Envelope) (t : Instant) (anchors : BootAnchors) {anchors' : BootAnchors} where
  -- The first observation of a boot stands: no anchor is ever moved.
  pub observe_keeps :
      (e : String) (c : ℕ) {x : Instant}
      → observe msg t anchors ≡ ok anchors'
      → anchor_of e c anchors ≡ some x
      → anchor_of e c anchors' ≡ some x
  unfolding observe minus_ms
  observe_keeps e c h found = ground (
    arith,
    eq_iff msg.device_id e,
    anchor_of-seed msg.device_id e msg.boot_id c (t - micros_of_ms msg.uptime_ms) anchors,
  )

  pub observe_sets :
      observe msg t anchors ≡ ok anchors'
      → anchor_of msg.device_id msg.boot_id anchors ≡ none
      → (anchor_of msg.device_id msg.boot_id anchors' ≡ some (t - micros_of_ms msg.uptime_ms))
        × (micros_of_ms msg.uptime_ms ≤ t)
  unfolding observe minus_ms
  observe_sets h fresh = ground (
    arith,
    eq_iff msg.device_id msg.device_id,
    anchor_of-seed msg.device_id msg.device_id msg.boot_id msg.boot_id
        (t - micros_of_ms msg.uptime_ms) anchors,
  )
