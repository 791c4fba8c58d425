-- ===== src/Base/Predicates.antt =====
-- Predicates on the elements of a list, by recursion, so that the tactics read them.
use Prim.Native.Nat.{ℕ, zero, suc}
use mathlib.Core.Path.{◌≡◌}
use mathlib.Core.Logic.{◌⊎◌, inl, inr}
use mathlib.Core.List.{List, [], ◌∷◌, ◌++◌}
use super_mem.Base.Lists.{take}

module _ {ℓ κ} {A : Type ℓ} where
  -- Every element has the property.
  abbrev pub All : (A → Type κ) → List A → Type κ
  All P [] = Unit
  All P (x ∷ xs) = P x × All P xs

  -- Every element is related to all that follow it.
  abbrev pub Pairwise : (A → A → Type κ) → List A → Type κ
  Pairwise R [] = Unit
  Pairwise R (x ∷ xs) = All (R x) xs × Pairwise R xs

-- The element occurs in the list.
abbrev pub In : {A : Type 0} → A → List A → Type 0
In a [] = ⊥
In a (x ∷ xs) = (a ≡ x) ⊎ In a xs

module _ {ℓ κ} {A : Type ℓ} (P : A → Type κ) where
  pub All-append : (xs ys : List A) → All P xs → All P ys → All P (xs ++ ys)
  All-append [] ys hx hy = hy
  All-append (x ∷ xs) ys hx hy = (hx.0, All-append xs ys hx.1 hy)

  pub All-take : (n : ℕ) (xs : List A) → All P xs → All P (take n xs)
  All-take zero xs h = tt
  All-take (suc n) [] h = tt
  All-take (suc n) (x ∷ xs) h = (h.0, All-take n xs h.1)

module _ {A : Type 0} where
  pub All-weaken : (P Q : A → Type 0) (xs : List A) → ((a : A) → P a → Q a) → All P xs → All Q xs
  All-weaken P Q [] f h = tt
  All-weaken P Q (x ∷ xs) f h = (f x h.0, All-weaken P Q xs f h.1)

  pub Pairwise-weaken :
      (R S : A → A → Type 0) (xs : List A)
      → ((a b : A) → R a b → S a b)
      → Pairwise R xs
      → Pairwise S xs
  Pairwise-weaken R S [] f h = tt
  Pairwise-weaken R S (x ∷ xs) f h =
      (All-weaken (R x) (S x) xs (f x) h.0, Pairwise-weaken R S xs f h.1)

pub All-In : {A : Type 0} (P : A → Type 0) (a : A) (xs : List A) → All P xs → In a xs → P a
All-In P a [] h i = elim i [ ]
All-In P a (x ∷ xs) h (inl e) = rw e h.0
All-In P a (x ∷ xs) h (inr i) = All-In P a xs h.1 i
