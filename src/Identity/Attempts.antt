-- ===== src/Identity/Attempts.antt =====
-- backend/src/psychron/domain/identity.py, `describe_attempt`: what the second-factor screen shows.
pub mod Usual
use psychron.Base.{
  Bool, List, Option, String, [], elem, false, if◌then◌else◌, leb, length, none, not, some, str_eq,
  ℕ, ◌&&◌, ◌+◌, ◌∷◌,
}
use psychron.Instant.{Instant}

pub record AttemptContext : Type 0 where
  pub ip : Option String
  pub location_is_new : Bool
  pub usual_location : Option String
  pub previous_successes : ℕ
  pub browser_seen_before : Bool

-- `[h[0] for h in history if h[0]]`
abbrev pub known_ips : List (Option String × Instant) → List String
known_ips [] = []
known_ips ((none, at) ∷ history) = known_ips history
known_ips ((some ip, at) ∷ history) =
    let rest = known_ips history in if str_eq ip "" then rest else ip ∷ rest

-- `ips.count(ip)`
abbrev pub occurrences : String → List String → ℕ
occurrences ip [] = 0
occurrences ip (x ∷ ips) = (if str_eq x ip then 1 else 0) + occurrences ip ips

-- `max(candidates, key=ips.count)`: the first of those that occur most often
unfoldable pub most_frequent : List String → List String → Option String
most_frequent ips [] = none
most_frequent ips (c ∷ candidates) = elim (most_frequent ips candidates) [
  | none ↦ some c
  | some best ↦ if leb (occurrences best ips) (occurrences c ips) then some c else some best
]

-- `bool(s) and s in known`, and the negated test
abbrev pub is_seen : Option String → List String → Bool
is_seen none known = false
is_seen (some s) known = not (str_eq s "") && elem s known

abbrev pub is_new : Option String → List String → Bool
is_new none known = false
is_new (some s) known = not (str_eq s "") && not (elem s known)

-- `set_of` is the order in which CPython goes through `set(ips)`
unfoldable pub describe_attempt :
    (set_of : List String → List String)
    → Option String
    → List (Option String × Instant)
    → Option String
    → List String
    → AttemptContext
unfolding most_frequent
describe_attempt set_of ip history user_agent known_agents = record {
  ip = ip;
  location_is_new = is_new ip (known_ips history);
  usual_location = most_frequent (known_ips history) (set_of (known_ips history));
  previous_successes = length history;
  browser_seen_before = is_seen user_agent known_agents;
}
