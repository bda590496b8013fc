-- ===== src/Psychrometrics/Tests.antt =====
use psychron.Base.{if◌then◌else◌, leb, ltb, refl, some, ℕ, ◌*◌, ◌+◌, ◌-◌, ◌/◌, ◌==◌, ◌≡◌}
use psychron.Psychrometrics.{Arithmetic, derive, heat_index, nothing_derived}
use psychron.Raise.{ok, raise, zero_division_error}

-- backend/src/psychron/domain/psychrometrics.py. The formulas over a coarse arithmetic.

-- whole numbers, with exponentials and logarithms that are one
abbrev coarse : Arithmetic ℕ
coarse = record {
  literal = λ mantissa places. mantissa;
  add = λ a b. a + b;
  sub = λ a b. a - b;
  mul = λ a b. a * b;
  neg = λ a. 0;
  magnitude = λ a. a;
  div = λ a b. if b == 0 then raise zero_division_error else ok (a / b);
  exp = λ a. ok 1;
  log = λ a. ok 1;
  sqrt = λ a. ok 1;
  le = leb;
  lt = ltb;
}

dry_air : derive coarse (some 20) (some 0) ≡ ok (nothing_derived coarse)
unfolding derive
dry_air = refl

cool_air : heat_index coarse 20 50 ≡ ok 20
unfolding heat_index
cool_air = refl
