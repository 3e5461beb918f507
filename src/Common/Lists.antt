-- ===== src/Common/Lists.antt =====
-- Lists: a property of every element, and the two cases.
use mathlib.Core.Path.{◌≡◌, refl}
use mathlib.Core.Logic.{◌⊎◌, inl, inr}
use mathlib.Core.List.{List, [], ◌∷◌}

pub data Every {A : Type 0} (P : A → Type 0) : List A → Type 0 where
  every_nil : Every P []
  every_cons : {x : A} {xs : List A} → P x → Every P xs → Every P (x ∷ xs)

pub List-cases :
    {A : Type 0} (xs : List A) → (xs ≡ []) ⊎ ((x : A) × (rest : List A) × (xs ≡ x ∷ rest))
List-cases [] = inl refl
List-cases (x ∷ xs) = inr (x, xs, refl)
