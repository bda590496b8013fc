-- ===== src/Identity/Attempts/Usual.antt =====
use mathlib.Core.Path.{subst}
use psychron.Base.{
  All, Bool-cases, List, Option, String, [], arith, elem, eq_iff, inl, inr, leb, none, refl, some,
  str_eq, true, ◌∷◌, ◌≡◌, ◌≤◌, ◌⊎◌,
}
use psychron.Identity.Attempts.{describe_attempt, known_ips, most_frequent, occurrences}
use psychron.Instant.{Instant}

-- backend/src/psychron/domain/identity.py. The usual location is the most frequent one.

All-weaken :
    (ips : List String) (a b : String) (cs : List String)
    → occurrences a ips ≤ occurrences b ips
    → All (λ c. occurrences c ips ≤ occurrences a ips) cs
    → All (λ c. occurrences c ips ≤ occurrences b ips) cs
All-weaken ips a b [] h k = tt
All-weaken ips a b (c ∷ cs) h (k, ks) = (omega arith, All-weaken ips a b cs h ks)

elem-All : (P : String → Type 0) (x : String) (xs : List String) → elem x xs ≡ true → All P xs → P x
elem-All P x [] h k = cc
elem-All P x (y ∷ xs) h (p, ps) = elim (Bool-cases (str_eq y x)) [
  | inl same ↦ subst P ((eq_iff y x).0 same) p
  | inr differ ↦ elem-All P x xs (rw differ at h) ps
]

All-elem :
    (P : String → Type 0) (xs ys : List String)
    → All P xs
    → All (λ y. elem y xs ≡ true) ys
    → All P ys
All-elem P xs [] h k = tt
All-elem P xs (y ∷ ys) h (k, ks) = (elem-All P y xs k h, All-elem P xs ys h ks)

none_known :
    (ips candidates : List String)
    → candidates ≡ []
    → All (λ c. elem c candidates ≡ true) ips
    → ips ≡ []
none_known [] candidates e h = refl
none_known (x ∷ ips) candidates e (h, hs) = cc (rw e at h)

most_frequent_lem :
    (ips candidates : List String)
    → ((candidates ≡ []) × (most_frequent ips candidates ≡ none))
      ⊎ ((best : String) × (most_frequent ips candidates ≡ some best)
          × (elem best candidates ≡ true)
          × All (λ c. occurrences c ips ≤ occurrences best ips) candidates)
unfolding most_frequent
most_frequent_lem ips [] = inl (refl, refl)
most_frequent_lem ips (c ∷ candidates) = elim (most_frequent_lem ips candidates) [
  | inl (e, missing) ↦ inr (c, rw missing refl, ground (arith, eq_iff c c), (omega arith, rw e tt))
  | inr (best, found, listed, most) ↦
      elim (Bool-cases (leb (occurrences best ips) (occurrences c ips))) [
        | inl more ↦ inr (
          c,
          rw (found, more) refl,
          ground (arith, eq_iff c c),
          (omega arith, All-weaken ips best c candidates (ground (arith, more)) most),
        )
        | inr less ↦ inr (best, rw (found, less) refl, ground arith, (ground (arith, less), most))
      ]
]

-- `usual_location` is an address of the history, and none of the history occurs more often; it is
-- missing only when no sign-in has an address. The set that Python builds of the addresses is
-- taken to hold them all and nothing else.
pub usual_location_most :
    (set_of : List String → List String) (ip : Option String)
    (history : List (Option String × Instant)) (user_agent : Option String) (agents : List String)
    → All (λ c. elem c (known_ips history) ≡ true) (set_of (known_ips history))
    → All (λ c. elem c (set_of (known_ips history)) ≡ true) (known_ips history)
    → let usual = (describe_attempt set_of ip history user_agent agents).usual_location in
      ((known_ips history ≡ []) × (usual ≡ none))
      ⊎ ((best : String) × (usual ≡ some best)
          × (elem best (known_ips history) ≡ true)
          × All
              (λ c. occurrences c (known_ips history) ≤ occurrences best (known_ips history))
              (known_ips history))
unfolding describe_attempt
usual_location_most set_of ip history user_agent agents sound complete =
    let ips = known_ips history in
    elim (most_frequent_lem ips (set_of ips)) [
      | inl (nothing, missing) ↦ inl (none_known ips (set_of ips) nothing complete, missing)
      | inr (best, found, listed, most) ↦ inr (
        best,
        found,
        elem-All (λ c. elem c ips ≡ true) best (set_of ips) listed sound,
        All-elem (λ c. occurrences c ips ≤ occurrences best ips) (set_of ips) ips most complete,
      )
    ]
