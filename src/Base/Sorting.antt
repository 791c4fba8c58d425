-- ===== src/Base/Sorting.antt =====
-- The stable sort of a vector, `sort_by`, for a test that its first argument may stand first.
use mathlib.Core.List.Perm
use mathlib.Core.Path.{◌≡◌, refl, subst, sym, ap}
use mathlib.Core.Logic.{inl, inr}
use mathlib.Core.List.{List, [], ◌∷◌, ◌++◌, Perm}
use mathlib.Core.Bool.{Bool, true, false}
use Prim.Native.Nat.{ℕ, zero, suc}
use super_mem.Base.Tests.{if◌then◌else◌, Bool-cases}
use super_mem.Base.Lists.{take, drop}
use super_mem.Base.Predicates.{All, In, Pairwise, All-weaken}

module _ {A : Type 0} (first : A → A → Bool) where
  unfoldable pub insert_by : A → List A → List A
  insert_by a [] = a ∷ []
  insert_by a (b ∷ rest) =
      let later = insert_by a rest in if first a b then a ∷ b ∷ rest else b ∷ later

  unfoldable pub sort_by : List A → List A
  unfolding insert_by
  sort_by [] = []
  sort_by (a ∷ rest) = insert_by a (sort_by rest)

  insert_by-perm : (a : A) (xs : List A) → Perm (insert_by a xs) (a ∷ xs)
  unfolding insert_by
  insert_by-perm a [] = Perm.refl (a ∷ [])
  insert_by-perm a (b ∷ rest) = elim (Bool-cases (first a b)) [
    | inl e ↦ rw e (Perm.refl (a ∷ b ∷ rest))
    | inr e ↦ rw e (Perm.trans (Perm.cons b (insert_by-perm a rest)) (Perm.swap a b rest))
  ]

  pub sort_by-perm : (xs : List A) → Perm (sort_by xs) xs
  unfolding sort_by
  sort_by-perm [] = Perm.refl []
  sort_by-perm (a ∷ rest) =
      Perm.trans (insert_by-perm a (sort_by rest)) (Perm.cons a (sort_by-perm rest))

  -- Every element may stand before all that follow it.
  abbrev pub Sorted : List A → Type 0
  Sorted = Pairwise (λ x y. first x y ≡ true)

  All-insert_by : (P : A → Type 0) (a : A) (xs : List A) → P a → All P xs → All P (insert_by a xs)
  unfolding insert_by
  All-insert_by P a [] p h = (p, tt)
  All-insert_by P a (b ∷ rest) p h = elim (Bool-cases (first a b)) [
    | inl e ↦ rw e (p, h)
    | inr e ↦ rw e (h.0, All-insert_by P a rest p h.1)
  ]

  In-insert_by : (x a : A) (xs : List A) → In x (a ∷ xs) → In x (insert_by a xs)
  unfolding insert_by
  In-insert_by x a [] i = i
  In-insert_by x a (b ∷ rest) i = elim (Bool-cases (first a b)) [
    | inl e ↦ rw e i
    | inr e ↦ rw e (elim i [
      | inl same ↦ inr (In-insert_by x a rest (inl same))
      | inr (inl same) ↦ inl same
      | inr (inr j) ↦ inr (In-insert_by x a rest (inr j))
    ])
  ]

  pub In-sort_by : (x : A) (xs : List A) → In x xs → In x (sort_by xs)
  unfolding sort_by
  In-sort_by x [] i = i
  In-sort_by x (a ∷ rest) (inl same) = In-insert_by x a (sort_by rest) (inl same)
  In-sort_by x (a ∷ rest) (inr i) = In-insert_by x a (sort_by rest) (inr (In-sort_by x rest i))

  All-sort_by : (P : A → Type 0) (xs : List A) → All P xs → All P (sort_by xs)
  unfolding sort_by
  All-sort_by P [] h = tt
  All-sort_by P (a ∷ rest) h = All-insert_by P a (sort_by rest) h.0 (All-sort_by P rest h.1)

  module _ (R : A → A → Type 0) (symmetric : (a b : A) → R a b → R b a) where
    Pairwise-insert_by :
        (a : A) (xs : List A) → All (R a) xs → Pairwise R xs → Pairwise R (insert_by a xs)
    unfolding insert_by
    Pairwise-insert_by a [] h p = (tt, tt)
    Pairwise-insert_by a (b ∷ rest) h p = elim (Bool-cases (first a b)) [
      | inl e ↦ rw e (h, p)
      | inr e ↦
          rw e
            (All-insert_by (R b) a rest (symmetric a b h.0) p.0, Pairwise-insert_by a rest h.1 p.1)
    ]

    -- A symmetric relation between all elements does not depend on their order.
    pub Pairwise-sort_by : (xs : List A) → Pairwise R xs → Pairwise R (sort_by xs)
    unfolding sort_by
    Pairwise-sort_by [] p = tt
    Pairwise-sort_by (a ∷ rest) p =
        Pairwise-insert_by a (sort_by rest) (All-sort_by (R a) rest p.0) (Pairwise-sort_by rest p.1)

  module _ (total : (a b : A) → first a b ≡ false → first b a ≡ true)
      (transitive : (a b c : A) → first a b ≡ true → first b c ≡ true → first a c ≡ true) where
    insert_by-Sorted : (a : A) (xs : List A) → Sorted xs → Sorted (insert_by a xs)
    unfolding insert_by
    insert_by-Sorted a [] h = (tt, tt)
    insert_by-Sorted a (b ∷ rest) h = elim (Bool-cases (first a b)) [
      | inl e ↦ rw e (
        (
          e,
          All-weaken (λ y. first b y ≡ true) (λ y. first a y ≡ true) rest
              (λ y later. transitive a b y e later) h.0,
        ),
        h,
      )
      | inr e ↦ rw e (
        All-insert_by (λ y. first b y ≡ true) a rest (total a b e) h.0,
        insert_by-Sorted a rest h.1,
      )
    ]

    pub sort_by-Sorted : (xs : List A) → Sorted (sort_by xs)
    unfolding sort_by
    sort_by-Sorted [] = tt
    sort_by-Sorted (a ∷ rest) = insert_by-Sorted a (sort_by rest) (sort_by-Sorted rest)

  -- What is cut off a sorted list does not stand before what is kept.
  pub Sorted-cut :
      (n : ℕ) (xs : List A)
      → Sorted xs
      → All (λ kept. All (λ cut. first kept cut ≡ true) (drop n xs)) (take n xs)
  Sorted-cut zero xs h = tt
  Sorted-cut (suc n) [] h = tt
  Sorted-cut (suc n) (x ∷ xs) h =
      (All-drop (λ cut. first x cut ≡ true) n xs h.0, Sorted-cut n xs h.1)
    where
      All-drop : (P : A → Type 0) (n : ℕ) (xs : List A) → All P xs → All P (drop n xs)
      All-drop P zero xs h = h
      All-drop P (suc n) [] h = tt
      All-drop P (suc n) (x ∷ xs) h = All-drop P n xs h.1

module _ {A : Type 0} where
  pub take-append-drop : (n : ℕ) (xs : List A) → take n xs ++ drop n xs ≡ xs
  take-append-drop zero xs = refl
  take-append-drop (suc n) [] = refl
  take-append-drop (suc n) (x ∷ xs) = ap (◌∷◌ x) (take-append-drop n xs)

  pub take-drop-perm : (n : ℕ) (xs : List A) → Perm (take n xs ++ drop n xs) xs
  take-drop-perm n xs = subst (λ u. Perm u xs) (sym (take-append-drop n xs)) (Perm.refl xs)
