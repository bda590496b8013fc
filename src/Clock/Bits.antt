-- ===== src/Clock/Bits.antt =====
-- The arithmetic of the quality bits against Python's `&` and `|` on the values the wire allows.
use Prim.Native.Nat.{bit_or}
use psychron.Base.{ℕ, zero, suc, ◌≡◌, refl, Bool, true, ◌&&◌, ◌==◌}
use psychron.Clock.{set_bit, q_time_from_anchor, q_time_from_arrival}

all_below : ℕ → (ℕ → Bool) → Bool
all_below zero p = true
all_below (suc n) p = p n && all_below n p

set_bit_table :
    all_below 2048 (λ q.
      (set_bit q q_time_from_anchor == bit_or q q_time_from_anchor)
      && (set_bit q q_time_from_arrival == bit_or q q_time_from_arrival))
    ≡ true
unfolding all_below
set_bit_table = refl
