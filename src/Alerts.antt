-- ===== src/Alerts.antt =====
-- backend/src/psychron/domain/alerts.py: the rules and the evaluator. The texts that `describe`
-- formats are a parameter, since CPython formats a float.
pub mod Hysteresis
mod Tests
use psychron.Base.{
  Bool, List, Option, String, [], any, if◌then◌else◌, negsuc, none, not, pos, some, str_eq, ◌&&◌,
  ◌∷◌,
}
use psychron.Instant.{Instant}
use psychron.PyFloat.{Float}
use psychron.Schema.{keys}

pub data AlertState : Type 0 where
  raised cleared : AlertState

-- `(kind, device_id)`
abbrev pub AlertKey : Type 0
AlertKey = String × String

pub record Observation (F : Type 0) : Type 0 where
  pub now : Instant
  pub silent_s : List (String × Option F)
  pub pressure_change_3h_hpa : Option F
  pub battery_temp_c : Option F

pub record Rule (F : Type 0) : Type 0 where
  pub kind : String
  pub device_id : String
  pub value : Observation F → Option F
  pub raises : F → Bool
  pub clears : F → Bool
  pub threshold : F
  pub describe : F → String

pub record Transition (F : Type 0) : Type 0 where
  pub kind : String
  pub device_id : String
  pub state : AlertState
  pub at : Instant
  pub value : F
  pub threshold : F
  pub message : String

-- the three f-strings of `default_rules`
pub record Wording (F : Type 0) : Type 0 where
  pub falling : F → String
  pub silent : F → String
  pub hot : F → String

-- `d.get(k)` of a dict that may hold None
abbrev pub get_optional : {F : Type 0} → String → List (String × Option F) → Option F
get_optional k [] = none
get_optional k ((j, v) ∷ d) = if str_eq j k then v else get_optional k d

module _ {F : Type 0} (fl : Float F) (wording : Wording F) where
  abbrev pub pressure_falling : String → Rule F
  pressure_falling phone = record {
    kind = "pressure_falling";
    device_id = phone;
    value = λ o. o.pressure_change_3h_hpa;
    raises = λ v. fl.lt v (fl.tenths (negsuc 34));
    clears = λ v. fl.lt (fl.tenths (negsuc 19)) v;
    threshold = fl.tenths (negsuc 34);
    describe = wording.falling;
  }

  abbrev pub device_offline : String → Rule F
  device_offline esp32 = record {
    kind = "device_offline";
    device_id = esp32;
    value = λ o. get_optional esp32 o.silent_s;
    raises = λ v. fl.lt (fl.whole (pos 120)) v;
    clears = λ v. fl.lt v (fl.whole (pos 30));
    threshold = fl.whole (pos 120);
    describe = wording.silent;
  }

  abbrev pub battery_hot : String → Rule F
  battery_hot phone = record {
    kind = "battery_hot";
    device_id = phone;
    value = λ o. o.battery_temp_c;
    raises = λ v. fl.le (fl.tenths (pos 420)) v;
    clears = λ v. fl.le v (fl.tenths (pos 390));
    threshold = fl.tenths (pos 420);
    describe = wording.hot;
  }

  abbrev pub default_rules : String → String → List (Rule F)
  default_rules esp32 phone = pressure_falling phone ∷ device_offline esp32 ∷ battery_hot phone ∷ []

abbrev pub same_alert : AlertKey → AlertKey → Bool
same_alert a b = str_eq a.0 b.0 && str_eq a.1 b.1

-- `key in open_alerts`
abbrev pub in_set : AlertKey → List AlertKey → Bool
in_set key keys = any (same_alert key) keys

abbrev pub append_some {ℓ} : {A : Type ℓ} → Option A → List A → List A
append_some none xs = xs
append_some (some x) xs = x ∷ xs

module _ {F : Type 0} where
  abbrev pub rule_key : Rule F → AlertKey
  rule_key rule = (rule.kind, rule.device_id)

  abbrev pub transition_to : AlertState → Observation F → Rule F → F → Transition F
  transition_to state observation rule value = record {
    kind = rule.kind;
    device_id = rule.device_id;
    state = state;
    at = observation.now;
    value = value;
    threshold = rule.threshold;
    message = rule.describe value;
  }

  -- the body of the loop, given whether the rule's alert is open
  unfoldable pub step : Observation F → Bool → Rule F → Option (Transition F)
  step observation is_open rule = elim (rule.value observation) [
    | none ↦ none
    | some value ↦
        if not is_open && rule.raises value
        then some (transition_to raised observation rule value)
        else if is_open && rule.clears value
        then some (transition_to cleared observation rule value)
        else none
  ]

  unfoldable pub evaluate : Observation F → List AlertKey → List (Rule F) → List (Transition F)
  unfolding step
  evaluate observation open_alerts [] = []
  evaluate observation open_alerts (rule ∷ rules) =
      append_some (step observation (in_set (rule_key rule) open_alerts) rule)
        (evaluate observation open_alerts rules)
