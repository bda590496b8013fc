-- ===== src/Alerts/Hysteresis.antt =====
-- backend/src/psychron/domain/alerts.py. The level that raises an alert and the level that clears
-- it.
use psychron.Alerts.{
  Observation, Rule, Transition, Wording, cleared, default_rules, raised, step, AlertState,
}
use psychron.Base.{
  All, Bool, Bool-cases, Option, Option-cases, String, arith, false, inl, inr, negsuc, none, pos,
  refl, some, true, ◌≡◌,
}
use psychron.PyFloat.{Float, FloatOrder}

-- no value both raises and clears
abbrev pub IsSeparated : {F : Type 0} → Rule F → Type 0
IsSeparated {F} rule = (v : F) → rule.raises v ≡ true → rule.clears v ≡ false

module _ {F : Type 0} (fl : Float F) (order : FloatOrder fl) (a b : F)
    (apart : fl.lt a b ≡ true) where
  below_above : (v : F) → fl.lt v a ≡ true → fl.lt b v ≡ false
  below_above v low = elim (Bool-cases (fl.lt b v)) [
    | inl high ↦
        let e = order.lt_trans a b a apart (order.lt_trans b v a high low) in
        cc (e, order.lt_irrefl a)
    | inr done ↦ done
  ]

  above_below : (v : F) → fl.lt b v ≡ true → fl.lt v a ≡ false
  above_below v high = elim (Bool-cases (fl.lt v a)) [
    | inl low ↦ cc (below_above v low, high)
    | inr done ↦ done
  ]

  at_least_at_most : (v : F) → fl.le b v ≡ true → fl.le v a ≡ false
  at_least_at_most v high = elim (Bool-cases (fl.le v a)) [
    | inl low ↦
        let e = order.lt_le_trans a v a (order.lt_le_trans a b v apart high) low in
        cc (e, order.lt_irrefl a)
    | inr done ↦ done
  ]

pub default_rules-IsSeparated :
    {F : Type 0} (fl : Float F) (order : FloatOrder fl) (wording : Wording F) (esp32 phone : String)
    → fl.lt (fl.tenths (negsuc 34)) (fl.tenths (negsuc 19)) ≡ true
    → fl.lt (fl.whole (pos 30)) (fl.whole (pos 120)) ≡ true
    → fl.lt (fl.tenths (pos 390)) (fl.tenths (pos 420)) ≡ true
    → All IsSeparated (default_rules fl wording esp32 phone)
default_rules-IsSeparated fl order wording esp32 phone pressure silence battery =
    let falling = below_above fl order (fl.tenths (negsuc 34)) (fl.tenths (negsuc 19)) pressure in
    let silent = above_below fl order (fl.whole (pos 30)) (fl.whole (pos 120)) silence in
    let hot = at_least_at_most fl order (fl.tenths (pos 390)) (fl.tenths (pos 420)) battery in
    (falling, (silent, (hot, tt)))

abbrev pub is_raised : AlertState → Bool
is_raised raised = true
is_raised cleared = false

module _ {F : Type 0} (observation : Observation F) (rule : Rule F) where
  -- the state that `step` has left the alert in
  abbrev pub open_after : Bool → Option (Transition F) → Bool
  open_after is_open none = is_open
  open_after is_open (some t) = is_raised t.state

  -- A separated rule that has acted on an observation has nothing more to do with it.
  pub step_settled :
      (is_open : Bool)
      → IsSeparated rule
      → step observation (open_after is_open (step observation is_open rule)) rule ≡ none
  unfolding step
  step_settled is_open apart = elim (Option-cases (rule.value observation)) [
    | inl unknown ↦ rw (unknown, step) refl
    | inr (v, known) ↦ elim (Bool-cases (rule.raises v)) [
      | inl high ↦ rw (known, step) (ground (arith, apart v high))
      | inr low ↦ rw (known, step) (ground arith)
    ]
  ]
