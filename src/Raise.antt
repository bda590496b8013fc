-- ===== src/Raise.antt =====
-- Exceptions as values. An InvalidMessage (domain/telemetry.py) carries which check failed and the
-- names it mentions; the wording of the message is left out.
use psychron.Base.{
  String, Bool, true, false, Option, none, some, List, ◌≡◌, refl, arith, ap, inl, inr, ◌⊎◌,
}

pub data Reason : Type 0 where
  not_json not_object unsupported_version dev_not_short fw_not_short : Reason
  ms_without_ts ts_not_integer ts_implausible ms_not_integer ms_out_of_range : Reason
  not_integer out_of_range not_number not_finite : String → Reason
  unknown_fields : List String → Reason
  group_not_object : String → Reason
  unknown_in_group missing_in_group : String → List String → Reason
  null_field bad_choice bad_flag bad_integer bad_number infinite_field outside :
      String → String → Reason
  alt_acc_without_alt no_groups bad_kind : Reason
  identity_mismatch : String → String → Reason
  malformed_boot : Reason

pub data Error : Type 0 where
  invalid : Reason → Error
  -- OverflowError: an int beyond the doubles, an instant beyond year 9999 or before year 1
  overflow_error : Error
  -- RecursionError of json.loads
  recursion_error : Error
  -- a constraint of db/migrations that a statement breaks (psycopg's IntegrityError)
  check_violation foreign_key_violation unique_violation data_error : Error
  -- argon2's VerificationError, of which VerifyMismatchError is a kind
  verification_error : Error
  value_error key_error type_error zero_division_error : Error

-- `except ValueError`
abbrev pub is_value_error : Error → Bool
is_value_error value_error = true
is_value_error _ = false

pub data Result {ℓ} (A : Type ℓ) : Type ℓ where
  ok : A → Result A
  raise : Error → Result A

-- the statements that follow a call run on its value, and an exception passes them over
infixl 5 ◌>>=◌ ◌>>◌
abbrev pub ◌>>=◌ {ℓ κ} : {X : Type ℓ} {Y : Type κ} (call : Result X) → (X → Result Y) → Result Y
ok value >>= next = next value
raise e >>= next = raise e

abbrev pub ◌>>◌ {ℓ} : {Y : Type ℓ} (call : Result (Unit {0})) → Result Y → Result Y
call >> next = call >>= λ nothing. next

-- `_require(cond, reason)`
abbrev pub require : Bool → Reason → Result (Unit {0})
require true reason = ok tt
require false reason = raise (invalid reason)

-- a test of a type that also names the value it has found
abbrev pub expect {ℓ} : {A : Type ℓ} → Option A → Reason → Result A
expect (some a) reason = ok a
expect none reason = raise (invalid reason)

-- a `do` block that returns has had each of its steps return
pub >>=-eq-ok {ℓ κ} :
    {X : Type ℓ} {Y : Type κ} {y : Y} (call : Result X) (next : X → Result Y)
    → call >>= next ≡ ok y
    → (x : X) × (call ≡ ok x) × (next x ≡ ok y)
>>=-eq-ok (raise e) next h = cc
>>=-eq-ok (ok x) next h = (x, refl, h)

pub require-eq-ok : (b : Bool) (reason : Reason) {u : Unit {0}} → require b reason ≡ ok u → b ≡ true
require-eq-ok true reason h = refl
require-eq-ok false reason h = cc

pub expect-eq-ok {ℓ} :
    {A : Type ℓ} (o : Option A) (reason : Reason) {a : A} → expect o reason ≡ ok a → o ≡ some a
expect-eq-ok none reason h = cc
expect-eq-ok (some x) reason h = ground arith

pub ok-injective {ℓ} : {A : Type ℓ} {a b : A} → ok a ≡ ok b → a ≡ b
ok-injective {a} h = ap (λ r. elim r [ ok x ↦ x | raise e ↦ a ]) h

pub Result-cases {ℓ} :
    {A : Type ℓ} (r : Result A) → ((e : Error) × (r ≡ raise e)) ⊎ ((a : A) × (r ≡ ok a))
Result-cases (ok a) = inr (a, refl)
Result-cases (raise e) = inl (e, refl)
