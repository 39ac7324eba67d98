-- ===== src/Base/Sort.antt =====
-- `sort_by` with the greatest key first. Equal keys keep their order, as Rust's sort is stable.
use Prim.Native.Nat.{ℕ, ◌≤◌}
use mathlib.Core.Path.{◌≡◌, ◌∙◌, refl, ap}
use mathlib.Core.Logic.{inl, inr}
use mathlib.Core.List.{List, [], ◌∷◌}
use native.Mathlib.Omega.{arith}
use e2e_console_messenger.Base.Tests.{◌==◌, ==_iff, ltb, ltb→lt, ltb→le, if◌then◌else◌, Bool-cases}
use e2e_console_messenger.Base.Lists.{All, retain}

module _ {A : Type 0} (key : A → ℕ) where
  unfoldable pub insert_by : A → List A → List A
  insert_by x [] = x ∷ []
  insert_by x (y ∷ ys) =
      let rest = insert_by x ys in if ltb (key x) (key y) then y ∷ rest else x ∷ y ∷ ys

  unfoldable pub sort_by : List A → List A
  unfolding insert_by
  sort_by [] = []
  sort_by (x ∷ xs) = insert_by x (sort_by xs)

  -- No key is greater than one before it.
  abbrev pub Descending : List A → Type 0
  Descending [] = Unit
  Descending (x ∷ xs) = All (λ y. key y ≤ key x) xs × Descending xs

  -- For each key the elements with it are those of another list, in the same order.
  abbrev pub SameByKey : List A → List A → Type 0
  SameByKey xs ys = (k : ℕ) → retain (λ x. key x == k) xs ≡ retain (λ x. key x == k) ys

  pub All-insert_by :
      (P : A → Type 0) (x : A) (ys : List A) → P x → All P ys → All P (insert_by x ys)
  unfolding insert_by
  All-insert_by P x [] h k = (h, tt)
  All-insert_by P x (y ∷ ys) h k = elim (Bool-cases (ltb (key x) (key y))) [
    | inl e ↦ rw e (k.0, All-insert_by P x ys h k.1)
    | inr e ↦ rw e (h, k)
  ]

  pub All-sort_by : (P : A → Type 0) (xs : List A) → All P xs → All P (sort_by xs)
  unfolding sort_by
  All-sort_by P [] h = tt
  All-sort_by P (x ∷ xs) h = All-insert_by P x (sort_by xs) h.0 (All-sort_by P xs h.1)

  All-below : (n m : ℕ) (ys : List A) → n ≤ m → All (λ y. key y ≤ n) ys → All (λ y. key y ≤ m) ys
  All-below n m [] h k = tt
  All-below n m (y ∷ ys) h k = (omega (arith, h, k.0), All-below n m ys h k.1)

  insert_by-Descending : (x : A) (ys : List A) → Descending ys → Descending (insert_by x ys)
  unfolding insert_by
  insert_by-Descending x [] h = (tt, tt)
  insert_by-Descending x (y ∷ ys) h = elim (Bool-cases (ltb (key x) (key y))) [
    | inl e ↦ rw e (
      All-insert_by (λ z. key z ≤ key y) x ys (omega (arith, ltb→lt (key x) (key y) e)) h.0,
      insert_by-Descending x ys h.1,
    )
    | inr e ↦
        let below : key y ≤ key x = ltb→le (key x) (key y) e in
        rw e ((below, All-below (key y) (key x) ys below h.0), h)
  ]

  pub sort_by-Descending : (xs : List A) → Descending (sort_by xs)
  unfolding sort_by
  sort_by-Descending [] = tt
  sort_by-Descending (x ∷ xs) = insert_by-Descending x (sort_by xs) (sort_by-Descending xs)

  insert_by-SameByKey : (x : A) (ys : List A) → SameByKey (insert_by x ys) (x ∷ ys)
  unfolding insert_by
  insert_by-SameByKey x [] k = refl
  insert_by-SameByKey x (y ∷ ys) k =
      ground (arith, insert_by-SameByKey x ys k, ==_iff (key x) k, ==_iff (key y) k)

  pub sort_by-SameByKey : (xs : List A) → SameByKey (sort_by xs) xs
  unfolding sort_by
  sort_by-SameByKey [] k = refl
  sort_by-SameByKey (x ∷ xs) k =
      insert_by-SameByKey x (sort_by xs) k
      ∙ ap (λ l. if key x == k then x ∷ l else l) (sort_by-SameByKey xs k)
