-- ===== src/Base/Order.antt =====
-- `<` on the native numbers is well founded, and laws of division by a variable.
use mathlib.Core.WellFounded.{Acc, WellFounded}
use Prim.Native.Nat.{ℕ, zero, suc, ◌+◌, ◌*◌, ◌/◌, ◌-◌, ◌<◌, ◌≤◌, max}
use mathlib.Core.Path.{◌≡◌}
use native.Mathlib.Omega.{arith}

Acc-below : (k n : ℕ) → n < k → Acc ◌<◌ n
Acc-below zero n h = elim h [ ]
Acc-below (suc k) n h = Acc.intro n (λ m hm. Acc-below k m (omega arith))

unfoldable pub lt_wf : WellFounded ◌<◌
unfolding Acc-below
lt_wf = record { apply = λ n. Acc-below (suc n) n (omega arith) }

-- The quotient rounded up covers the number.
pub le-ceil_div : (a d : ℕ) → 0 < d → a ≤ (a + d - 1) / d * d
le-ceil_div a d h = grind arith

-- The quotient rounded up is the least that does.
pub ceil_div-least : (a d k : ℕ) → 0 < d → a ≤ k * d → (a + d - 1) / d ≤ k
ceil_div-least a d k h le = grind arith

div_mul_le : (a d n : ℕ) → n ≤ a / d → n * d ≤ a
div_mul_le a d n h = grind arith

-- A call planned for one item, or for as many as fit in the room left, stays within its limit.
pub fit-max :
    (base per most n : ℕ)
    → base + per ≤ most
    → n ≤ (most - base) / per
    → base + max 1 n * per ≤ most
fit-max base per most zero h k = omega arith
fit-max base per most (suc n) h k =
    let big : max 1 (suc n) ≡ suc n = omega arith in
    rw big (omega (arith, div_mul_le (most - base) per (suc n) k))
