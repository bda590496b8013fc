-- ===== src/Alerting/Tests.antt =====
-- backend/src/psychron/alerting.py. A tick at a concrete observation.
use psychron.Alerting.{
  open_alerts, Alert, Alerter, alert_store, apply_each, apply_transition, go_on, tick,
}
use psychron.Alerting.Episodes.{Accounted, OneOpen, tick-Accounted, tick-OneOpen}
use psychron.Alerting.Stable.{tick_settles}
use psychron.Alerts.{
  Observation, Rule, Transition, battery_hot, default_rules, evaluate, raised, step, transition_to,
}
use psychron.Alerts.Hysteresis.{default_rules-IsSeparated}
use psychron.Base.{List, Option, [], ap, none, pos, refl, some, ℤ, ◌∷◌, ◌≡◌}
use psychron.Fixture.{autumn, tenth_float, tenth_order, wording}
use psychron.Json.{Bytes}
use psychron.Ports.{Outcome}
use psychron.Raise.{Error, ok}

-- the battery is at 45 degrees, and everything else is unknown
abbrev hot : Observation ℤ
hot = record {
  now = autumn;
  silent_s = [];
  pressure_change_3h_hpa = none;
  battery_temp_c = some (pos 450);
}

abbrev never_refuses : Transition ℤ → List (Alert ℤ) → Option Error
never_refuses t alerts = none

abbrev encode : Transition ℤ → Bytes
encode t = []

abbrev rules : List (Rule ℤ)
rules = default_rules tenth_float wording "esp32-01" "phone-01"

abbrev quiet : Alerter (List (Alert ℤ))
quiet = record { store = []; published = [] }

abbrev ticked : Outcome (List (Transition ℤ)) (Alerter (List (Alert ℤ)))
ticked = tick (alert_store never_refuses (λ alerts. hot)) encode rules quiet

abbrev hot_raised : Transition ℤ
hot_raised = transition_to raised hot (battery_hot tenth_float wording "phone-01") (pos 450)

battery_alert_raised : ticked.0 ≡ ok (hot_raised ∷ [])
unfolding tick apply_each go_on evaluate step open_alerts apply_transition
battery_alert_raised = refl

tick_settles_example : evaluate hot (open_alerts (ticked.1.store)) rules ≡ []
tick_settles_example =
    tick_settles never_refuses (λ alerts. hot) encode rules quiet (ticked.1) (hot_raised ∷ [])
      ((refl, (refl, tt)), ((refl, tt), (tt, tt)))
      (default_rules-IsSeparated tenth_float tenth_order wording "esp32-01" "phone-01" refl refl
        refl)
      (ap (λ r. (r, ticked.1)) battery_alert_raised)

tick-OneOpen_example : OneOpen (ticked.1.store)
tick-OneOpen_example = tick-OneOpen never_refuses (λ alerts. hot) encode rules quiet tt

tick-Accounted_example :
    Accounted
      (alert_store never_refuses (λ alerts. hot))
      encode
      []
      (evaluate hot (open_alerts (quiet.store)) rules)
      []
      ticked
tick-Accounted_example =
    tick-Accounted (alert_store never_refuses (λ alerts. hot)) encode rules quiet
