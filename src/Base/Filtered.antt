-- ===== src/Base/Filtered.antt =====
-- What a filter keeps, said without a test that computes it.
use mathlib.Core.Path.{◌≡◌, refl}
use mathlib.Core.Logic.{◌⊎◌, inl, inr}
use mathlib.Core.List.{List, [], ◌∷◌}
use mathlib.Core.Bool.{Bool, true, false}
use e2e_console_messenger.Base.Tests.{Bool-cases}
use e2e_console_messenger.Base.Lists.{retain}

module _ {A : Type 0} (P : A → Type 0) where
  -- The second list holds exactly the elements of the first with the property, in their order.
  abbrev pub Filtered : List A → List A → Type 0
  Filtered [] ys = ys ≡ []
  Filtered (x ∷ xs) ys =
      (P x × ((rest : List A) × (ys ≡ x ∷ rest) × Filtered xs rest)) ⊎ ((¬ P x) × Filtered xs ys)

  module _ (p : A → Bool) (yes_of : (x : A) → p x ≡ true → P x)
      (no_of : (x : A) → p x ≡ false → ¬ P x) where
    pub retain-Filtered : (xs : List A) → Filtered xs (retain p xs)
    retain-Filtered [] = refl
    retain-Filtered (x ∷ xs) = elim (Bool-cases (p x)) [
      | inl e ↦ rw e (inl (yes_of x e, (retain p xs, refl, retain-Filtered xs)))
      | inr e ↦ rw e (inr (no_of x e, retain-Filtered xs))
    ]
