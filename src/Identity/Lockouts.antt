-- ===== src/Identity/Lockouts.antt =====
-- backend/src/psychron/domain/identity.py. When an identifier is locked out, and when it is let in
-- again.
use psychron.Base.{
  ltb, if◌then◌else◌, ◌*◌, ◌<◌, Bool-cases, List, [], arith, false, inl, inr, leb, length, none,
  refl, some, true, ◌+◌, ◌-◌, ◌∷◌, ◌≡◌, ◌≤◌, ◌⊎◌, ℕ, sym, ◌∙◌,
}
use psychron.Identity.{
  Lockout, is_recent, latest, lockout_ms, lockout_state, max_attempts, recent_failures,
}
use psychron.Instant.{Instant, micros_of_ms, plus_ms}
use psychron.Raise.{>>=-eq-ok, ok, ok-injective}

module _ (failures : List Instant) (now : Instant) (state : Lockout)
    (returned : lockout_state failures now ≡ ok state) where
  locked_out :
      leb max_attempts (length (recent_failures failures now)) ≡ true
      → (state.locked ≡ true)
        × (state.attempts_remaining ≡ 0)
        × (state.until ≡ some (latest (recent_failures failures now) + micros_of_ms lockout_ms))
  unfolding lockout_state plus_ms
  locked_out many =
      let (u, ends, eq) =
        >>=-eq-ok (plus_ms (latest (recent_failures failures now)) lockout_ms) _
          (rw (many, lockout_state) at returned) in
      let same = ok-injective eq in rw (← same) (refl, refl, ground arith)

  let_in :
      leb max_attempts (length (recent_failures failures now)) ≡ false
      → (state.locked ≡ false)
        × (state.attempts_remaining ≡ 3 - length (recent_failures failures now))
        × (state.until ≡ none)
  unfolding lockout_state
  let_in few =
      let same = ok-injective (rw (few, lockout_state) at returned) in
      rw (← same) (refl, refl, refl)

-- how many failures were made less than fifteen minutes ago
abbrev pub young : List Instant → Instant → ℕ
young [] now = 0
young (f ∷ failures) now = (if ltb now (f + 15 * 60 * 1000000) then 1 else 0) + young failures now

length-recent_failures :
    (failures : List Instant) (now : Instant)
    → length (recent_failures failures now) ≡ young failures now
length-recent_failures [] now = refl
length-recent_failures (f ∷ failures) now = ground (arith, length-recent_failures failures now)

-- When `lockout_state` returns, an identifier is locked out exactly while three of its failures are
-- younger than fifteen minutes, and then it has no attempt left; otherwise it has as many attempts
-- left as failures younger than that are missing to three, and no end is announced.
pub lockout_state_lem :
    (failures : List Instant) (now : Instant) (state : Lockout)
    → lockout_state failures now ≡ ok state
    → ((state.locked ≡ true) × (3 ≤ young failures now) × (state.attempts_remaining ≡ 0))
      ⊎ ((state.locked ≡ false)
          × (young failures now < 3)
          × (state.attempts_remaining + young failures now ≡ 3)
          × (state.until ≡ none))
lockout_state_lem failures now state h =
    let count = length-recent_failures failures now in
    elim (Bool-cases (leb max_attempts (length (recent_failures failures now)))) [
      | inl many ↦
          let (a, b, _) = locked_out failures now state h many in
          inl (a, ground (arith, many, count), b)
      | inr few ↦
          let (a, b, c) = let_in failures now state h few in
          inr (a, ground (arith, few, count), ground (arith, b, few, count), c)
    ]

latest_bound :
    (failures : List Instant) (now later : Instant)
    → now ≤ later
    → latest (recent_failures failures now) + micros_of_ms lockout_ms ≤ later
    → recent_failures failures later ≡ []
unfolding latest
latest_bound [] now later after h = refl
latest_bound (f ∷ failures) now later after h = elim (Bool-cases (is_recent now f)) [
  | inl recent ↦
      let h' = rw recent at h in
      let rest = latest_bound failures now later after (ground arith) in
      let gone : is_recent later f ≡ false = ground arith in rw (gone, rest) refl
  | inr old ↦
      let rest = latest_bound failures now later after (rw old at h) in
      let gone : is_recent later f ≡ false = ground arith in rw (gone, rest) refl
]

some_same : {a b : ℕ} → some a ≡ some b → a ≡ b
some_same h = ground arith

-- A lockout is over at the instant it announces: from `until` on, with no failure added, the
-- identifier has its three attempts again.
pub lockout_forgiven :
    (failures : List Instant) (now later u : Instant) (state : Lockout)
    → lockout_state failures now ≡ ok state
    → state.until ≡ some u
    → u ≤ later
    → now ≤ later
    → lockout_state failures later
      ≡ ok (record { locked = false; attempts_remaining = 3; until = none })
unfolding lockout_state
lockout_forgiven failures now later u state h announced after passes =
    let bound : latest (recent_failures failures now) + micros_of_ms lockout_ms ≤ later =
      elim (Bool-cases (leb max_attempts (length (recent_failures failures now)))) [
        | inl many ↦
            let (_, _, ends) = locked_out failures now state h many in
            let e : u ≡ latest (recent_failures failures now) + micros_of_ms lockout_ms =
              some_same (sym announced ∙ ends) in
            omega (arith, e, after)
        | inr few ↦
            let (_, _, none_set) = let_in failures now state h few in
            absurd (cc (none_set, announced))
      ] in
    let gone = latest_bound failures now later passes bound in
    rw (lockout_state, gone) (rw gone refl)
