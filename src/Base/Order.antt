-- ===== src/Base/Order.antt =====
-- `<` on the native numbers is well founded.
use Prim.Native.Nat.{ℕ, zero, suc, ◌<◌}
use mathlib.Core.Path.{◌≡◌}
use mathlib.Core.WellFounded.{Acc, WellFounded}
use native.Mathlib.Omega.{arith}

Acc-below : (k n : ℕ) → n < k → Acc ◌<◌ n
Acc-below zero n h = elim h [ ]
Acc-below (suc k) n h = Acc.intro n (λ m hm. Acc-below k m (omega arith))

unfoldable pub lt_wf : WellFounded ◌<◌
unfolding Acc-below
lt_wf = record { apply = λ n. Acc-below (suc n) n (omega arith) }

-- A proof that a number is accessible carries no information.
pub Acc-irrelevant : (n : ℕ) (v w : Acc ◌<◌ n) → v ≡ w
Acc-irrelevant n (Acc.intro _ f) (Acc.intro _ g) =
    λ i. Acc.intro n (λ m h. Acc-irrelevant m (f m h) (g m h) i)
