-- ===== src/Common/Order.antt =====
-- Lists that are in descending order by a number of each element.
use Prim.Native.Nat.{ℕ, ◌≤◌}
use mathlib.Core.List.{List, [], ◌∷◌}
use zenlive.Common.Lists.{All}

-- Each element has at least the number of every later one.
abbrev pub Descending {ℓ} : {A : Type ℓ} → (A → ℕ) → List A → Type 0
Descending key [] = Unit {0}
Descending key (x ∷ xs) = All (λ y. key y ≤ key x) xs × Descending key xs
