-- ===== src/Identity/Tests.antt =====
-- backend/src/psychron/domain/identity.py. Lockouts at concrete times.
use psychron.Base.{
  List, [], arith, false, none, refl, some, true, ℕ, ◌*◌, ◌+◌, ◌∷◌, ◌≡◌, ◌≤◌, ◌<◌, ◌⊎◌, All, Option,
  String, elem,
}
use psychron.Fixture.{autumn}
use psychron.Identity.{Lockout, latest, lockout_state}
use psychron.Identity.Lockouts.{lockout_forgiven, lockout_state_lem, young}
use psychron.Instant.{Instant, plus_ms}
use psychron.Raise.{ok}
use psychron.Identity.Attempts.{describe_attempt, known_ips, most_frequent, occurrences}
use psychron.Identity.Attempts.Usual.{usual_location_most}

abbrev minute : ℕ
minute = 60000000

-- three mistakes, at noon, seven minutes later and fourteen minutes later
abbrev mistakes : List Instant
mistakes = (autumn + 14 * minute) ∷ (autumn + 7 * minute) ∷ autumn ∷ []

abbrev locked_until_29 : Lockout
locked_until_29 = record {
  locked = true;
  attempts_remaining = 0;
  until = some (autumn + 29 * minute);
}

locked_at_14 : lockout_state mistakes (autumn + 14 * minute) ≡ ok locked_until_29
unfolding lockout_state latest plus_ms
locked_at_14 = refl

-- the announced end is not the end: the first mistake is forgiven after fifteen minutes
free_at_15 :
    lockout_state mistakes (autumn + 15 * minute)
    ≡ ok (record { locked = false; attempts_remaining = 1; until = none })
unfolding lockout_state
free_at_15 = refl

lockout_state_lem_example :
    ((locked_until_29.locked ≡ true)
      × (3 ≤ young mistakes (autumn + 14 * minute))
      × (locked_until_29.attempts_remaining ≡ 0))
    ⊎ ((locked_until_29.locked ≡ false)
        × (young mistakes (autumn + 14 * minute) < 3)
        × (locked_until_29.attempts_remaining + young mistakes (autumn + 14 * minute) ≡ 3)
        × (locked_until_29.until ≡ none))
lockout_state_lem_example =
    lockout_state_lem mistakes (autumn + 14 * minute) locked_until_29 locked_at_14

lockout_forgiven_example :
    lockout_state mistakes (autumn + 29 * minute)
    ≡ ok (record { locked = false; attempts_remaining = 3; until = none })
lockout_forgiven_example =
    lockout_forgiven mistakes (autumn + 14 * minute) (autumn + 29 * minute) (autumn + 29 * minute)
      locked_until_29 locked_at_14 refl (omega arith) (omega arith)

-- twice at home, once away
abbrev visits : List (Option String × Instant)
visits =
    (some "10.0.0.2", autumn)
    ∷ (none, autumn)
    ∷ (some "192.0.2.7", autumn)
    ∷ (some "10.0.0.2", autumn)
    ∷ []

abbrev addresses : List String → List String
addresses ips = "192.0.2.7" ∷ "10.0.0.2" ∷ []

home_is_usual : (describe_attempt addresses none visits none []).usual_location ≡ some "10.0.0.2"
unfolding describe_attempt most_frequent
home_is_usual = refl

usual_location_most_test :
    let usual = (describe_attempt addresses none visits none []).usual_location in
    ((known_ips visits ≡ []) × (usual ≡ none))
    ⊎ ((best : String) × (usual ≡ some best)
        × (elem best (known_ips visits) ≡ true)
        × All
            (λ c. occurrences c (known_ips visits) ≤ occurrences best (known_ips visits))
            (known_ips visits))
usual_location_most_test =
    usual_location_most addresses none visits none [] (refl, (refl, tt)) (refl, (refl, (refl, tt)))
