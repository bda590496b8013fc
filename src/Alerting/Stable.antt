-- ===== src/Alerting/Stable.antt =====
-- backend/src/psychron/alerting.py. Once the alerts have been brought to where an observation
-- wants them, it wants nothing more.
use mathlib.Core.Path.{subst}
use psychron.Alerting.{
  open_alerts, Alert, Alerter, alert_store, also_applied, announce, apply_each, apply_transition,
  go_on, transition_key, tick,
}
use psychron.Alerting.Settled.{apply_transition_open}
use psychron.Alerts.{
  AlertKey, Observation, Rule, Transition, evaluate, in_set, rule_key, same_alert, step,
}
use psychron.Alerts.Hysteresis.{IsSeparated, is_raised, step_settled}
use psychron.Base.{
  All, Bool, Bool-cases, List, Option, Option-cases, [], ap, false, inl, inr, none, not, refl, some,
  sym, true, ◌&&◌, ◌++◌, ◌∷◌, ◌≡◌, All-zip, arith, eq_iff, if◌then◌else◌, ◌∙◌,
}
use psychron.Json.{Bytes}
use psychron.Ports.{Outcome}
use psychron.Raise.{Error, ok, raise}
use psychron.Clock.{observe}

-- no two rules speak of the same alert
abbrev pub DistinctRules : {F : Type 0} → List (Rule F) → Type 0
DistinctRules [] = Unit
DistinctRules (rule ∷ rules) =
    All (λ other. same_alert (rule_key other) (rule_key rule) ≡ false) rules × DistinctRules rules

step-key :
    {F : Type 0} (o : Observation F) (b : Bool) (rule : Rule F) (t : Transition F)
    → step o b rule ≡ some t
    → transition_key t ≡ rule_key rule
unfolding step
step-key o b rule t h = elim (Option-cases (rule.value o)) [
  | inl unknown ↦ absurd (cc (rw (unknown, step) at h))
  | inr (v, known) ↦
      let h' = rw (known, step) at h in
      elim (Bool-cases (not b && rule.raises v)) [
        | inl raise_it ↦
            ap (λ x. elim x [ none ↦ rule_key rule | some y ↦ transition_key y ])
              (sym (rw raise_it at h'))
        | inr calm ↦ elim (Bool-cases (b && rule.clears v)) [
          | inl clear_it ↦
              ap (λ x. elim x [ none ↦ rule_key rule | some y ↦ transition_key y ])
                (sym (rw (calm, clear_it) at h'))
          | inr still ↦ absurd (cc (rw (calm, still) at h'))
        ]
      ]
]

same_alert_refl : (k : AlertKey) → same_alert k k ≡ true
same_alert_refl k = ground (arith, eq_iff k.0 k.0, eq_iff k.1 k.1)

same_alert_sym : (k j : AlertKey) → same_alert k j ≡ same_alert j k
same_alert_sym k j = ground (arith, eq_iff k.0 j.0, eq_iff j.0 k.0, eq_iff k.1 j.1, eq_iff j.1 k.1)

module _ {F : Type 0} (refuses : Transition F → List (Alert F) → Option Error)
    (observe : List (Alert F) → Observation F) (payload_for : Transition F → Bytes)
    (o : Observation F) (were_open : List AlertKey) where
  abbrev Tables : Type 0
  Tables = Alerter (List (Alert F))

  -- whether the alert of a rule is open
  abbrev opened : AlertKey → Tables → Bool
  opened k alerter = in_set k (open_alerts alerter.store)

  also_applied-ok :
      (t : Transition F) (out : Outcome (List (Transition F)) Tables)
      (applied : List (Transition F)) (alerter' : Tables)
      → also_applied (alert_store refuses observe) payload_for t out ≡ (ok applied, alerter')
      → (rest_applied : List (Transition F)) × (out ≡ (ok rest_applied, alerter'))
  also_applied-ok t (ok rest_applied, a) applied alerter' h =
      let same : a ≡ alerter' = ap (λ p. p.1) h in (rest_applied, rw same refl)
  also_applied-ok t (raise e, a) applied alerter' h = absurd (cc (ap (λ p. p.0) h))

  go_on-ok :
      (t : Transition F) (rest : Tables → Outcome (List (Transition F)) Tables)
      (alerter alerter' : Tables) (out : Outcome Bool (List (Alert F)))
      (applied : List (Transition F))
      → go_on (alert_store refuses observe) payload_for t rest alerter out ≡ (ok applied, alerter')
      → (b : Bool) × (between : Tables) × (rest_applied : List (Transition F)) × (out
          ≡ (ok b, between.store))
        × (rest between ≡ (ok rest_applied, alerter'))
  unfolding go_on
  go_on-ok t rest alerter alerter' (ok false, s) applied h =
      (false, record alerter { store = s }, applied, refl, h)
  go_on-ok t rest alerter alerter' (ok true, s) applied h =
      let between : Tables = record {
        store = s;
        published =
            alerter.published ++ (announce (alert_store refuses observe) payload_for t ∷ []);
      } in
      let (rest_applied, eq) = also_applied-ok t (rest between) applied alerter' h in
      (true, between, rest_applied, refl, eq)
  go_on-ok t rest alerter alerter' (raise e, s) applied h = absurd (cc (ap (λ p. p.0) h))

  -- what one transition has done to the alerts
  acted :
      (rule : Rule F) (t : Transition F) (alerter between : Tables) (b : Bool)
      → transition_key t ≡ rule_key rule
      → apply_transition refuses t alerter.store ≡ (ok b, between.store)
      → (k : AlertKey)
      → opened k between
        ≡ (if same_alert k (rule_key rule) then is_raised t.state else opened k alerter)
  acted rule t alerter between b names applied_t k =
      subst
        (λ key.
          opened k between ≡ (if same_alert k key then is_raised t.state else opened k alerter))
        names (apply_transition_open refuses t k alerter.store between.store b applied_t)

  acted_here :
      (rule : Rule F) (t : Transition F) (alerter between : Tables) (b : Bool)
      → transition_key t ≡ rule_key rule
      → apply_transition refuses t alerter.store ≡ (ok b, between.store)
      → opened (rule_key rule) between ≡ is_raised t.state
  acted_here rule t alerter between b names applied_t =
      acted rule t alerter between b names applied_t (rule_key rule)
      ∙ ap (λ c. if c then is_raised t.state else opened (rule_key rule) alerter)
          (same_alert_refl (rule_key rule))

  acted_elsewhere :
      (rule : Rule F) (t : Transition F) (alerter between : Tables) (b : Bool)
      → transition_key t ≡ rule_key rule
      → apply_transition refuses t alerter.store ≡ (ok b, between.store)
      → (k : AlertKey) → same_alert k (rule_key rule) ≡ false
      → opened k between ≡ opened k alerter
  acted_elsewhere rule t alerter between b names applied_t k differ =
      acted rule t alerter between b names applied_t k
      ∙ ap (λ c. if c then is_raised t.state else opened k alerter) differ

  settle :
      (rules : List (Rule F)) (alerter alerter' : Tables) (applied : List (Transition F))
      → DistinctRules rules
      → All IsSeparated rules
      → All (λ rule. in_set (rule_key rule) were_open ≡ opened (rule_key rule) alerter) rules
      → apply_each (alert_store refuses observe) payload_for (evaluate o were_open rules) alerter
        ≡ (ok applied, alerter')
      → All (λ rule. step o (opened (rule_key rule) alerter') rule ≡ none) rules
        × ((k : AlertKey)
            → All (λ rule. same_alert (rule_key rule) k ≡ false) rules
            → opened k alerter' ≡ opened k alerter)
  unfolding evaluate apply_each
  settle [] alerter alerter' applied d s agree h = (tt, λ k _. ap (λ p. opened k (p.1)) (sym h))
  settle (rule ∷ rules) alerter alerter' applied (others, d) (apart, s) (here, agree) h =
      elim (Option-cases (step o (in_set (rule_key rule) were_open) rule)) [
        | inl idle ↦
            let (settled, elsewhere) =
              settle rules alerter alerter' applied d s agree (rw idle at h) in
            let still = elsewhere (rule_key rule) others in
            ((rw (still, ← here) idle, settled), λ k (_, rest). elsewhere k rest)
        | inr (t, acts) ↦
            let names = step-key o (in_set (rule_key rule) were_open) rule t acts in
            let (b, between, rest_applied, applied_t, looped) =
              go_on-ok t
                (apply_each (alert_store refuses observe) payload_for (evaluate o were_open rules))
                alerter alerter' (apply_transition refuses t alerter.store) applied
                (rw acts at h) in
            let elsewhere_too : (k : AlertKey)
                → same_alert k (rule_key rule) ≡ false
                → opened k between ≡ opened k alerter =
              acted_elsewhere rule t alerter between b names applied_t in
            let (settled, elsewhere) =
              settle rules between alerter' rest_applied d s
                (All-zip rules
                  (λ other differ same. same ∙ sym (elsewhere_too (rule_key other) differ)) others
                  agree)
                looped in
            let still : opened (rule_key rule) alerter' ≡ is_raised t.state =
              elsewhere (rule_key rule) others
              ∙ acted_here rule t alerter between b names applied_t in
            let done = step_settled o rule (in_set (rule_key rule) were_open) apart in
            (
              (rw still (rw acts at done), settled),
              λ k (differ, rest).
                  elsewhere k rest ∙ elsewhere_too k (same_alert_sym k (rule_key rule) ∙ differ),
            )
      ]

nothing_to_do :
    {F : Type 0} (o : Observation F) (were_open : List AlertKey) (rules : List (Rule F))
    → All (λ rule. step o (in_set (rule_key rule) were_open) rule ≡ none) rules
    → evaluate o were_open rules ≡ []
unfolding evaluate
nothing_to_do o were_open [] idle = refl
nothing_to_do o were_open (rule ∷ rules) (idle, rest) =
    rw (idle, nothing_to_do o were_open rules rest)

All-refl :
    {F : Type 0} (f : Rule F → Bool) (rules : List (Rule F)) → All (λ rule. f rule ≡ f rule) rules
All-refl f [] = tt
All-refl f (rule ∷ rules) = (refl, All-refl f rules)

-- A tick that no exception ends leaves nothing to do: with rules that speak of different alerts
-- and of which none both raises and clears at a value, the same observation asks for no further
-- transition of the alerts as the tick has stored them.
pub tick_settles :
    {F : Type 0} (refuses : Transition F → List (Alert F) → Option Error)
    (observe : List (Alert F) → Observation F) (payload_for : Transition F → Bytes)
    (rules : List (Rule F)) (alerter alerter' : Alerter (List (Alert F)))
    (applied : List (Transition F))
    → DistinctRules rules
    → All IsSeparated rules
    → tick (alert_store refuses observe) payload_for rules alerter ≡ (ok applied, alerter')
    → evaluate (observe alerter.store) (open_alerts alerter'.store) rules ≡ []
unfolding tick
tick_settles refuses observe payload_for rules alerter alerter' applied d s h =
    let o = observe alerter.store in
    let were_open = open_alerts alerter.store in
    let (settled, _) =
      settle refuses observe payload_for o were_open rules alerter alerter' applied d s
        (All-refl (λ rule. in_set (rule_key rule) were_open) rules) h in
    nothing_to_do o (open_alerts alerter'.store) rules settled
