-- ===== src/Alerting/Episodes.antt =====
-- backend/src/psychron/alerting.py. What a tick keeps of the alerts and tells the nodes.
use psychron.Alerting.{
  open_alerts, AlertStore, Alerter, also_applied, announce, apply_each, go_on, Alert, Message,
  alert_store, apply_transition, clear_row, execute, is_episode, tick, transition_key,
}
use psychron.Alerts.{Transition, AlertKey, AlertState, Observation, Rule, cleared, evaluate, raised}
use psychron.Base.{
  none, some, Bool, List, [], false, map, true, ◌++◌, ◌∷◌, ◌≡◌, Bool-cases, Option, Option-cases,
  any, append-nil, append-one, arith, inl, inr, is_none, refl, sym, ◌∙◌,
}
use psychron.Json.{Bytes}
use psychron.Ports.{Outcome}
use psychron.Raise.{ok, raise, Error}
use psychron.Clock.{observe}

module _ {F S : Type 0} (port : AlertStore F S) (payload_for : Transition F → Bytes) where
  also_keeps :
      (P : S → Type 0) (t : Transition F) (out : Outcome (List (Transition F)) (Alerter S))
      → P (out.1.store)
      → P ((also_applied port payload_for t out).1.store)
  also_keeps P t (ok applied, a) h = h
  also_keeps P t (raise e, a) h = h

  after_one :
      (P : S → Type 0) (t : Transition F)
      (rest : Alerter S → Outcome (List (Transition F)) (Alerter S)) (alerter : Alerter S)
      (out : Outcome Bool S)
      → ((a : Alerter S) → P a.store → P ((rest a).1.store))
      → P (out.1)
      → P ((go_on port payload_for t rest alerter out).1.store)
  unfolding go_on
  after_one P t rest alerter (raise e, s) keeps h = h
  after_one P t rest alerter (ok false, s) keeps h = keeps (record alerter { store = s }) h
  after_one P t rest alerter (ok true, s) keeps h =
      also_keeps P t
        (rest (record {
          store = s;
          published = alerter.published ++ (announce port payload_for t ∷ []);
        }))
        (keeps
          (record {
            store = s;
            published = alerter.published ++ (announce port payload_for t ∷ []);
          })
          h)

  -- What the store answers to the transitions that it is asked to apply, one after the other: which
  -- of them it has applied, with what exception it stops, if it does, and the store as it is left.
  pub data Answers : List (Transition F) → S → List (Transition F) → Option Error → S → Type 0 where
    all_asked : {s : S} → Answers [] s [] none s
    was_raised :
        {t : Transition F} {asked : List (Transition F)} {s s' : S} {e : Error}
        → port.apply t s ≡ (raise e, s')
        → Answers (t ∷ asked) s [] (some e) s'
    not_applied :
        {t : Transition F} {asked applied : List (Transition F)} {s s' last : S}
        {stop : Option Error}
        → port.apply t s ≡ (ok false, s')
        → Answers asked s' applied stop last
        → Answers (t ∷ asked) s applied stop last
    was_applied :
        {t : Transition F} {asked applied : List (Transition F)} {s s' last : S}
        {stop : Option Error}
        → port.apply t s ≡ (ok true, s')
        → Answers asked s' applied stop last
        → Answers (t ∷ asked) s (t ∷ applied) stop last

  -- a tick that has asked for `asked` returns what the store said it has applied, and has published
  -- since `before` the announcements of these and of no others, in their order; so it has when the
  -- store's exception ends it
  abbrev pub Accounted :
      List Message → List (Transition F) → S → Outcome (List (Transition F)) (Alerter S) → Type 0
  Accounted before asked s (ok applied, a) =
      Answers asked s applied none a.store
      × (a.published ≡ before ++ map (announce port payload_for) applied)
  Accounted before asked s (raise e, a) =
      (applied : List (Transition F)) × Answers asked s applied (some e) a.store
      × (a.published ≡ before ++ map (announce port payload_for) applied)

  passed-Accounted :
      (before : List Message) (t : Transition F) (asked : List (Transition F)) (s s' : S)
      (out : Outcome (List (Transition F)) (Alerter S))
      → port.apply t s ≡ (ok false, s')
      → Accounted before asked s' out
      → Accounted before (t ∷ asked) s out
  passed-Accounted before t asked s s' (ok applied, a) said (answers, h) =
      (not_applied said answers, h)
  passed-Accounted before t asked s s' (raise e, a) said (applied, answers, h) =
      (applied, not_applied said answers, h)

  also-Accounted :
      (before : List Message) (t : Transition F) (asked : List (Transition F)) (s s' : S)
      (out : Outcome (List (Transition F)) (Alerter S))
      → port.apply t s ≡ (ok true, s')
      → Accounted (before ++ (announce port payload_for t ∷ [])) asked s' out
      → Accounted before (t ∷ asked) s (also_applied port payload_for t out)
  also-Accounted before t asked s s' (ok applied, a) said (answers, h) = (
    was_applied said answers,
    h ∙ append-one before (announce port payload_for t) (map (announce port payload_for) applied),
  )
  also-Accounted before t asked s s' (raise e, a) said (applied, answers, h) = (
    t ∷ applied,
    was_applied said answers,
    h ∙ append-one before (announce port payload_for t) (map (announce port payload_for) applied),
  )

  go_on-Accounted :
      (t : Transition F) (asked : List (Transition F))
      (rest : Alerter S → Outcome (List (Transition F)) (Alerter S)) (alerter : Alerter S)
      (out : Outcome Bool S)
      → port.apply t alerter.store ≡ out
      → ((a : Alerter S) → Accounted a.published asked a.store (rest a))
      → Accounted alerter.published
          (t ∷ asked)
          alerter.store
          (go_on port payload_for t rest alerter out)
  unfolding go_on
  go_on-Accounted t asked rest alerter (raise e, s) said keeps =
      ([], was_raised said, sym (append-nil alerter.published))
  go_on-Accounted t asked rest alerter (ok false, s) said keeps =
      passed-Accounted alerter.published t asked alerter.store s
        (rest (record alerter { store = s })) said (keeps (record alerter { store = s }))
  go_on-Accounted t asked rest alerter (ok true, s) said keeps =
      let told : Alerter S = record {
        store = s;
        published = alerter.published ++ (announce port payload_for t ∷ []);
      } in
      also-Accounted alerter.published t asked alerter.store s (rest told) said (keeps told)

  apply_each-Accounted :
      (transitions : List (Transition F)) (alerter : Alerter S)
      → Accounted alerter.published transitions alerter.store
          (apply_each port payload_for transitions alerter)
  unfolding apply_each
  apply_each-Accounted [] alerter = (all_asked, sym (append-nil alerter.published))
  apply_each-Accounted (t ∷ ts) alerter =
      go_on-Accounted t ts (apply_each port payload_for ts) alerter (port.apply t alerter.store)
        refl (apply_each-Accounted ts)

  -- A tick asks the store to apply what `evaluate` asks for, each in turn, until the store raises,
  -- over any store and sink. It announces exactly the transitions that the store answers it has
  -- applied, each once and in their order, whether or not the store raises at last; and it returns
  -- these, unless the store raises, when that exception escapes.
  pub tick-Accounted :
      (rules : List (Rule F)) (alerter : Alerter S)
      → Accounted alerter.published
          (evaluate (port.observe alerter.store) (port.open_alerts alerter.store) rules)
          alerter.store
          (tick port payload_for rules alerter)
  unfolding tick
  tick-Accounted rules alerter =
      apply_each-Accounted
        (evaluate (port.observe alerter.store) (port.open_alerts alerter.store) rules) alerter

  -- An invariant of the store under `apply` is one under a tick, exceptions included.
  apply_each-keeps :
      (P : S → Type 0)
      → ((t : Transition F) (s : S) → P s → P ((port.apply t s).1))
      → (transitions : List (Transition F)) (alerter : Alerter S) → P alerter.store
      → P ((apply_each port payload_for transitions alerter).1.store)
  unfolding apply_each
  apply_each-keeps P keeps [] alerter h = h
  apply_each-keeps P keeps (t ∷ ts) alerter h =
      after_one P t (apply_each port payload_for ts) alerter (port.apply t alerter.store)
        (λ a. apply_each-keeps P keeps ts a) (keeps t alerter.store h)

module _ {F : Type 0} where
  -- no two rows of the table are open alerts of one kind and device
  abbrev pub OneOpen : List (Alert F) → Type 0
  OneOpen [] = Unit
  OneOpen (a ∷ alerts) =
      (is_none a.cleared_at ≡ true → any (is_episode (a.kind, a.device_id)) alerts ≡ false)
      × OneOpen alerts

  cleared_any :
      (t : Transition F) (k : AlertKey) (alerts : List (Alert F))
      → any (is_episode k) alerts ≡ false
      → any (is_episode k) (map (clear_row t) alerts) ≡ false
  cleared_any t k [] h = refl
  cleared_any t k (a ∷ alerts) h = let rest = cleared_any t k alerts (ground arith) in ground arith

  cleared-OneOpen :
      (t : Transition F) (alerts : List (Alert F))
      → OneOpen alerts
      → OneOpen (map (clear_row t) alerts)
  cleared-OneOpen t [] h = tt
  cleared-OneOpen t (a ∷ alerts) (alone, h) = elim (Bool-cases (is_episode (transition_key t) a)) [
    | inl hit ↦ rw hit ((λ e. cc e), cleared-OneOpen t alerts h)
    | inr miss ↦
        rw miss
          ((λ e. cleared_any t (a.kind, a.device_id) alerts (alone e)), cleared-OneOpen t alerts h)
  ]

  execute-OneOpen :
      (refuses : Transition F → List (Alert F) → Option Error) (t : Transition F)
      (state : AlertState) (alerts : List (Alert F))
      → OneOpen alerts
      → OneOpen ((execute refuses t state alerts).1)
  execute-OneOpen refuses t cleared alerts h = cleared-OneOpen t alerts h
  execute-OneOpen refuses t raised alerts h =
      elim (Bool-cases (any (is_episode (transition_key t)) alerts)) [
        | inl known ↦ rw known h
        | inr new ↦ rw new ((λ _. new), h)
      ]

  apply_transition-OneOpen :
      (refuses : Transition F → List (Alert F) → Option Error) (t : Transition F)
      (alerts : List (Alert F))
      → OneOpen alerts
      → OneOpen ((apply_transition refuses t alerts).1)
  unfolding apply_transition
  apply_transition-OneOpen refuses t alerts h = elim (Option-cases (refuses t alerts)) [
    | inr (e, refused) ↦ rw (refused, apply_transition) h
    | inl admitted ↦ rw (admitted, apply_transition) (execute-OneOpen refuses t t.state alerts h)
  ]

  -- At most one episode of an alert is open at a time: if no two open rows of the table share
  -- kind and device, the same holds after a tick, whatever the rules and the observation, and
  -- whether or not an exception ends it.
  pub tick-OneOpen :
      (refuses : Transition F → List (Alert F) → Option Error)
      (observe : List (Alert F) → Observation F) (payload_for : Transition F → Bytes)
      (rules : List (Rule F)) (alerter : Alerter (List (Alert F)))
      → OneOpen alerter.store
      → OneOpen ((tick (alert_store refuses observe) payload_for rules alerter).1.store)
  unfolding tick
  tick-OneOpen refuses observe payload_for rules alerter h =
      apply_each-keeps (alert_store refuses observe) payload_for OneOpen
        (apply_transition-OneOpen refuses)
        (evaluate (observe alerter.store) (open_alerts alerter.store) rules) alerter h
