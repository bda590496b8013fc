-- ===== src/Alerting/Settled.antt =====
-- backend/src/psychron/alerting.py. A tick brings the stored alerts to where the observation wants
-- them.
use psychron.Alerting.{
  open_alerts, Alert, clear_row, is_episode, transition_key, alert_row, apply_transition, execute,
}
use psychron.Alerts.{AlertKey, AlertState, Transition, cleared, in_set, raised, same_alert}
use psychron.Base.{
  Bool, Bool-cases, List, [], any, arith, eq_iff, false, if◌then◌else◌, inl, inr, is_none, map,
  refl, some, true, ◌&&◌, ◌||◌, ◌∷◌, ◌≡◌, Option, Option-cases, ap,
}
use psychron.Raise.{Error, ok}
use psychron.Schema.{keys}
use psychron.Alerts.Hysteresis.{is_raised}

in_set-same :
    (k j : AlertKey) (keys : List AlertKey) → same_alert k j ≡ true → in_set k keys ≡ in_set j keys
in_set-same k j keys h =
    let e0 : k.0 ≡ j.0 = (eq_iff k.0 j.0).0 (ground arith) in
    let e1 : k.1 ≡ j.1 = (eq_iff k.1 j.1).0 (ground arith) in
    let e : k ≡ j = cc (e0, e1) in ap (λ x. in_set x keys) e

module _ {F : Type 0} where
  open_alerts-cons :
      (k : AlertKey) (a : Alert F) (alerts : List (Alert F))
      → in_set k (open_alerts (a ∷ alerts)) ≡ (
          (same_alert k (a.kind, a.device_id) && is_none a.cleared_at)
          || in_set k (open_alerts alerts))
  unfolding open_alerts
  open_alerts-cons k a alerts = elim (Bool-cases (is_none a.cleared_at)) [
    | inl running ↦ rw running (ground arith)
    | inr closed ↦ rw closed (ground arith)
  ]

  any_open :
      (k : AlertKey) (alerts : List (Alert F))
      → any (is_episode k) alerts ≡ in_set k (open_alerts alerts)
  any_open k [] = unfold open_alerts in refl
  any_open k (a ∷ alerts) = ground (
    arith,
    open_alerts-cons k a alerts,
    any_open k alerts,
    eq_iff a.kind k.0,
    eq_iff k.0 a.kind,
    eq_iff a.device_id k.1,
    eq_iff k.1 a.device_id,
  )

  cleared_open :
      (t : Transition F) (k : AlertKey) (alerts : List (Alert F))
      → in_set k (open_alerts (map (clear_row t) alerts))
        ≡ (if same_alert k (transition_key t) then false else in_set k (open_alerts alerts))
  cleared_open t k [] = unfold open_alerts in ground arith
  cleared_open t k (a ∷ alerts) =
      let rest = cleared_open t k alerts in
      let here = open_alerts-cons k a alerts in
      elim (Bool-cases (is_episode (transition_key t) a)) [
        | inl hit ↦ rw hit (
            ground (
              arith,
              rest,
              here,
              open_alerts-cons k (record a { cleared_at = some t.at }) (map (clear_row t) alerts),
              hit,
              eq_iff a.kind t.kind,
              eq_iff a.device_id t.device_id,
            ))
        | inr miss ↦ rw miss (
            ground (
              arith,
              rest,
              here,
              open_alerts-cons k a (map (clear_row t) alerts),
              miss,
              eq_iff a.kind t.kind,
              eq_iff a.device_id t.device_id,
              eq_iff k.0 a.kind,
              eq_iff k.1 a.device_id,
              eq_iff k.0 t.kind,
              eq_iff k.1 t.device_id,
            ))
      ]

module _ {F : Type 0} (refuses : Transition F → List (Alert F) → Option Error) where
  execute_open :
      (t : Transition F) (state : AlertState) (k : AlertKey) (alerts : List (Alert F))
      → in_set k (open_alerts ((execute refuses t state alerts).1)) ≡ (
          if same_alert k (transition_key t)
          then is_raised state
          else in_set k (open_alerts alerts))
  execute_open t cleared k alerts = cleared_open t k alerts
  execute_open t raised k alerts = elim (Bool-cases (any (is_episode (transition_key t)) alerts)) [
    | inl known ↦ rw known (
        ground (
          arith,
          any_open (transition_key t) alerts,
          in_set-same k (transition_key t) (open_alerts alerts),
        ))
    | inr new ↦ rw new (ground (arith, open_alerts-cons k (alert_row t) alerts))
  ]

  pub apply_transition_open :
      (t : Transition F) (k : AlertKey) (alerts alerts' : List (Alert F)) (b : Bool)
      → apply_transition refuses t alerts ≡ (ok b, alerts')
      → in_set k (open_alerts alerts') ≡ (
          if same_alert k (transition_key t)
          then is_raised t.state
          else in_set k (open_alerts alerts))
  unfolding apply_transition
  apply_transition_open t k alerts alerts' b h = elim (Option-cases (refuses t alerts)) [
    | inl admitted ↦
        let h' = rw (admitted, apply_transition) at h in
        let same : (execute refuses t t.state alerts).1 ≡ alerts' = ap (λ p. p.1) h' in
        rw (← same) (execute_open t t.state k alerts)
    | inr (e, refused) ↦ absurd (cc (ap (λ p. p.0) (rw (refused, apply_transition) at h)))
  ]
