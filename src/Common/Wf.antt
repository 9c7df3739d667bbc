-- ===== src/Common/Wf.antt =====
-- The order of the native numbers is well-founded.
use Prim.Native.Nat.{ℕ, zero, suc, ◌<◌}
use mathlib.Core.Path.{◌≡◌}
use mathlib.Core.Logic.{dite}
use mathlib.Core.WellFounded.{Acc, WellFounded}
use native.Mathlib.Omega.{arith}

Acc-below : (k n : ℕ) → n < k → Acc ◌<◌ n
Acc-below zero n h = absurd (omega arith)
Acc-below (suc k) n h = Acc.intro n (λ m hm. Acc-below k m (omega arith))

unfoldable pub lt_wf : WellFounded ◌<◌
unfolding Acc-below
lt_wf = record { apply = λ n. Acc-below (suc n) n (omega arith) }

-- Two branches on one decision are equal if they agree on either side.
pub dite_ext {ℓ κ} :
    {P : Type ℓ} {C : Type κ} (d : Dec P) {f f' : P → C} {g g' : ¬ P → C}
    → ((h : P) → f h ≡ f' h)
    → ((h : ¬ P) → g h ≡ g' h)
    → dite d f g ≡ dite d f' g'
dite_ext d p q = λ i. dite d (λ h. p h i) (λ h. q h i)
