-- ===== src/Alerting.antt =====
-- backend/src/psychron/alerting.py, over any store and sink, and the store of
-- backend/src/psychron/adapters/alerts_pg.py. The sink is the list of what was published.
use Prim.Native.String.{◌++◌ as text_append}
pub mod Episodes
pub mod Observed
pub mod Settled
pub mod Stable
mod Tests
use psychron.Alerts.{
  AlertKey, Observation, Rule, Transition, evaluate, AlertState, cleared, raised, same_alert,
}
use psychron.Base.{
  Bool, List, String, [], false, true, ◌++◌, ◌∷◌, Option, any, if◌then◌else◌, is_none, map, none,
  select, some, ◌&&◌,
}
use psychron.Clock.{observe}
use psychron.Database.{store}
use psychron.Json.{Bytes}
use psychron.Ports.{Outcome}
use psychron.Raise.{ok, raise, Error}
use psychron.Instant.{Instant}

pub record AlertStore (F S : Type 0) : Type 0 where
  pub observe : S → Observation F
  pub open_alerts : S → List AlertKey
  pub apply : Transition F → S → Outcome Bool S

pub record Message : Type 0 where
  pub topic : String
  pub payload : Bytes
  pub retain : Bool

abbrev pub topic_for : {F : Type 0} → Transition F → String
topic_for t = text_append "psychron/alerts/" (text_append t.kind (text_append "/" t.device_id))

-- an alerter's store and what its sink has been given
pub record Alerter (S : Type 0) : Type 0 where
  pub store : S
  pub published : List Message

-- `payload_for` encodes by the json module of CPython
module _ {F S : Type 0} (port : AlertStore F S) (payload_for : Transition F → Bytes) where
  abbrev pub announce : Transition F → Message
  announce t = record { topic = topic_for t; payload = payload_for t; retain = true }

  abbrev pub also_applied :
      Transition F
      → Outcome (List (Transition F)) (Alerter S)
      → Outcome (List (Transition F)) (Alerter S)
  also_applied t (ok applied, alerter) = (ok (t ∷ applied), alerter)
  also_applied t (raise e, alerter) = (raise e, alerter)

  -- the rest of the loop's body, given what the store has made of the transition
  unfoldable pub go_on :
      Transition F
      → (Alerter S → Outcome (List (Transition F)) (Alerter S))
      → Alerter S
      → Outcome Bool S
      → Outcome (List (Transition F)) (Alerter S)
  go_on t rest alerter (raise e, s) = (raise e, record alerter { store = s })
  go_on t rest alerter (ok false, s) = rest (record alerter { store = s })
  go_on t rest alerter (ok true, s) =
      also_applied t
        (rest (record { store = s; published = alerter.published ++ (announce t ∷ []) }))

  -- the loop of `tick`
  unfoldable pub apply_each :
      List (Transition F) → Alerter S → Outcome (List (Transition F)) (Alerter S)
  unfolding go_on
  apply_each [] alerter = (ok [], alerter)
  apply_each (t ∷ transitions) alerter =
      go_on t (apply_each transitions) alerter (port.apply t alerter.store)

  unfoldable pub tick : List (Rule F) → Alerter S → Outcome (List (Transition F)) (Alerter S)
  unfolding apply_each
  tick rules alerter =
      apply_each (evaluate (port.observe alerter.store) (port.open_alerts alerter.store) rules)
        alerter

-- The table `alert`, newest first.
pub record Alert (F : Type 0) : Type 0 where
  pub kind : String
  pub device_id : String
  pub raised_at : Instant
  pub cleared_at : Option Instant
  pub value : F
  pub threshold : F
  pub message : String

module _ {F : Type 0} where
  abbrev pub transition_key : Transition F → AlertKey
  transition_key t = (t.kind, t.device_id)

  -- `kind = ... AND device_id = ... AND cleared_at IS NULL`
  abbrev pub is_episode : AlertKey → Alert F → Bool
  is_episode key a = same_alert (a.kind, a.device_id) key && is_none a.cleared_at

  abbrev pub alert_row : Transition F → Alert F
  alert_row t = record {
    kind = t.kind;
    device_id = t.device_id;
    raised_at = t.at;
    cleared_at = none;
    value = t.value;
    threshold = t.threshold;
    message = t.message;
  }

  abbrev pub clear_row : Transition F → Alert F → Alert F
  clear_row t a = if is_episode (transition_key t) a then record a { cleared_at = some t.at } else a

  -- `PostgresAlertStore.open_alerts`
  unfoldable pub open_alerts : List (Alert F) → List AlertKey
  open_alerts alerts = map (λ a. (a.kind, a.device_id)) (select (λ a. is_none a.cleared_at) alerts)

-- What PostgreSQL refuses of a statement, by the constraints of the table, is a parameter.
module _ {F : Type 0} (refuses : Transition F → List (Alert F) → Option Error) where
  -- the statement, and `rowcount > 0`
  abbrev pub execute : Transition F → AlertState → List (Alert F) → Bool × List (Alert F)
  execute t raised alerts =
      if any (is_episode (transition_key t)) alerts
      then (false, alerts)
      else (true, alert_row t ∷ alerts)
  execute t cleared alerts = (any (is_episode (transition_key t)) alerts, map (clear_row t) alerts)

  -- `PostgresAlertStore.apply`
  unfoldable pub apply_transition : Transition F → List (Alert F) → Outcome Bool (List (Alert F))
  apply_transition t alerts = elim (refuses t alerts) [
    | some e ↦ (raise e, alerts)
    | none ↦ let (changed, alerts') = execute t t.state alerts in (ok changed, alerts')
  ]

  abbrev pub alert_store : (List (Alert F) → Observation F) → AlertStore F (List (Alert F))
  alert_store observe = record {
    observe = observe;
    open_alerts = open_alerts;
    apply = apply_transition;
  }
