-- ===== src/Store/Rows.antt =====
-- Tables of memories compared row by row, and the uniqueness of their identifiers.
use super_mem.Base.{
  ℕ, Bool, true, false, Option, some, none, List, [], ◌∷◌, ◌++◌, ◌≡◌, ◌∙◌, refl, ap, sym, any,
  filter, ◌==◌, if◌then◌else◌, All, In, inl, inr, arith, Bool-cases,
}
use mathlib.Core.Option.{some-injective}
use mathlib.Core.Path.{subst}
use super_mem.Store.Tables.{HeadRow}
use super_mem.Store.Validate.{find_head}
use super_mem.Store.Heads.{update_heads, newest, newer}

-- Every row of the first table has a successor at its place in the second.
abbrev pub Evolves : (HeadRow → HeadRow → Type 0) → List HeadRow → List HeadRow → Type 0
Evolves R [] ys = Unit
Evolves R (x ∷ xs) [] = ⊥
Evolves R (x ∷ xs) (y ∷ ys) = R x y × Evolves R xs ys

-- No two rows have the same identifier.
abbrev pub Distinct : List HeadRow → Type 0
Distinct [] = Unit
Distinct (h ∷ rest) = (any (λ g. g.memory_id == h.memory_id) rest ≡ false) × Distinct rest

-- The rows with this identifier have the property.
abbrev pub Holds : (HeadRow → Type 0) → ℕ → List HeadRow → Type 0
Holds Q id heads = All (λ h. h.memory_id ≡ id → Q h) heads

pub Evolves-map :
    (R S : HeadRow → HeadRow → Type 0) (f : (x y : HeadRow) → R x y → S x y) (xs ys : List HeadRow)
    → Evolves R xs ys
    → Evolves S xs ys
Evolves-map R S f [] ys e = tt
Evolves-map R S f (x ∷ xs) [] e = e
Evolves-map R S f (x ∷ xs) (y ∷ ys) e = (f x y e.0, Evolves-map R S f xs ys e.1)

module _ (R : HeadRow → HeadRow → Type 0) where
  pub Evolves-refl : ((x : HeadRow) → R x x) → (xs : List HeadRow) → Evolves R xs xs
  Evolves-refl r [] = tt
  Evolves-refl r (x ∷ xs) = (r x, Evolves-refl r xs)

  pub Evolves-trans :
      ((x y z : HeadRow) → R x y → R y z → R x z)
      → (xs ys zs : List HeadRow) → Evolves R xs ys
      → Evolves R ys zs
      → Evolves R xs zs
  Evolves-trans t [] ys zs e f = tt
  Evolves-trans t (x ∷ xs) (y ∷ ys) (z ∷ zs) e f =
      (t x y z e.0 f.0, Evolves-trans t xs ys zs e.1 f.1)
  Evolves-trans t (x ∷ xs) (y ∷ ys) [] e f = f
  Evolves-trans t (x ∷ xs) [] zs e f = elim e [ ]

  pub Evolves-append : ((x : HeadRow) → R x x) → (xs ys : List HeadRow) → Evolves R xs (xs ++ ys)
  Evolves-append r [] ys = tt
  Evolves-append r (x ∷ xs) ys = (r x, Evolves-append r xs ys)

  -- An UPDATE evolves a table when each row that it chooses may become what it is changed to.
  pub Evolves-update_heads :
      ((x : HeadRow) → R x x)
      → (chosen : HeadRow → Bool) (change : HeadRow → HeadRow) (xs : List HeadRow)
      → All (λ h. chosen h ≡ true → R h (change h)) xs
      → Evolves R xs (update_heads chosen change xs)
  unfolding update_heads
  Evolves-update_heads r chosen change [] a = tt
  Evolves-update_heads r chosen change (x ∷ xs) a = (
    elim (Bool-cases (chosen x)) [ inl e ↦ rw e (a.0 e) | inr e ↦ rw e (r x) ],
    Evolves-update_heads r chosen change xs a.1,
  )

pub any-update_heads :
    (id : ℕ) (chosen : HeadRow → Bool) (change : HeadRow → HeadRow)
    → ((h : HeadRow) → (change h).memory_id ≡ h.memory_id)
    → (xs : List HeadRow)
    → any (λ g. g.memory_id == id) (update_heads chosen change xs) ≡ any (λ g. g.memory_id == id) xs
unfolding update_heads
any-update_heads id chosen change same [] = refl
any-update_heads id chosen change same (x ∷ xs) =
    ground (arith, same x, any-update_heads id chosen change same xs)

pub Distinct-update_heads :
    (chosen : HeadRow → Bool) (change : HeadRow → HeadRow)
    → ((h : HeadRow) → (change h).memory_id ≡ h.memory_id)
    → (xs : List HeadRow) → Distinct xs
    → Distinct (update_heads chosen change xs)
unfolding update_heads
Distinct-update_heads chosen change same [] d = tt
Distinct-update_heads chosen change same (x ∷ xs) d = (
  elim (Bool-cases (chosen x)) [
    | inl e ↦ rw (e, same x, any-update_heads x.memory_id chosen change same xs) d.0
    | inr e ↦ rw (e, any-update_heads x.memory_id chosen change same xs) d.0
  ],
  Distinct-update_heads chosen change same xs d.1,
)

any-append :
    (p : HeadRow → Bool) (xs : List HeadRow) (h : HeadRow)
    → any p xs ≡ false
    → p h ≡ false
    → any p (xs ++ (h ∷ [])) ≡ false
any-append p [] h e f = ground arith
any-append p (x ∷ xs) h e f = ground (arith, any-append p xs h)

pub Distinct-append :
    (xs : List HeadRow) (h : HeadRow)
    → Distinct xs
    → any (λ g. g.memory_id == h.memory_id) xs ≡ false
    → Distinct (xs ++ (h ∷ []))
Distinct-append [] h d n = (refl, tt)
Distinct-append (x ∷ xs) h d n =
    let apart : (x.memory_id == h.memory_id) ≡ false = ground arith in
    (any-append _ xs h d.0 (ground arith), Distinct-append xs h d.1 (ground arith))

-- A row that an identifier does not occur in.
pub Holds-absent :
    (Q : HeadRow → Type 0) (id : ℕ) (xs : List HeadRow)
    → any (λ g. g.memory_id == id) xs ≡ false
    → Holds Q id xs
Holds-absent Q id [] n = tt
Holds-absent Q id (x ∷ xs) n = (λ e. ground arith, Holds-absent Q id xs (ground arith))

In-any :
    (h : HeadRow) (xs : List HeadRow) → In h xs → any (λ g. g.memory_id == h.memory_id) xs ≡ true
In-any h [] i = elim i [ ]
In-any h (x ∷ xs) (inl e) = ground arith
In-any h (x ∷ xs) (inr i) = ground (arith, In-any h xs i)

same_id : (g h : HeadRow) → g ≡ h → g.memory_id ≡ h.memory_id
same_id g h e = ap (λ r. r.memory_id) e

-- Under distinct identifiers, what holds of one row holds of all rows with its identifier.
pub Holds-In :
    (Q : HeadRow → Type 0) (h : HeadRow) (xs : List HeadRow)
    → Distinct xs
    → In h xs
    → Q h
    → Holds Q h.memory_id xs
Holds-In Q h (x ∷ xs) d (inl e) q = (
  λ e'. rw (sym e) q,
  subst (λ id. Holds Q id xs) (sym (same_id h x e)) (Holds-absent Q x.memory_id xs d.0),
)
Holds-In Q h (x ∷ xs) d (inr i) q = (λ e. ground (arith, In-any h xs i), Holds-In Q h xs d.1 i q)
Holds-In Q h [] d i q = tt

pub find_head-In :
    (id : ℕ) (heads : List HeadRow) (h : HeadRow)
    → find_head id heads ≡ some h
    → In h heads × (h.memory_id ≡ id)
unfolding find_head
find_head-In id [] h e = ground arith
find_head-In id (x ∷ xs) h e = ground (arith, find_head-In id xs h)

-- What one round of `newest` chooses.
choose-In :
    (x : HeadRow) (xs : List HeadRow) (h : HeadRow) (o : Option HeadRow)
    → ((g : HeadRow) → o ≡ some g → In g xs)
    → elim o [ none ↦ some x | some g ↦ if newer g x then some g else some x ] ≡ some h
    → In h (x ∷ xs)
choose-In x xs h none f e = inl (sym (some-injective _ _ e))
choose-In x xs h (some g) f e = elim (Bool-cases (newer g x)) [
  | inl n ↦ inr (f h (sym (ap (λ b. if b then some g else some x) n) ∙ e))
  | inr n ↦ inl (sym (some-injective _ _ (sym (ap (λ b. if b then some g else some x) n) ∙ e)))
]

pub newest-In : (heads : List HeadRow) (h : HeadRow) → newest heads ≡ some h → In h heads
unfolding newest
newest-In [] h e = ground arith
newest-In (x ∷ xs) h e = choose-In x xs h (newest xs) (newest-In xs) e

pub filter-In :
    (p : HeadRow → Bool) (heads : List HeadRow) (h : HeadRow)
    → In h (filter p heads)
    → In h heads × (p h ≡ true)
filter-In p [] h i = elim i [ ]
filter-In p (x ∷ xs) h i = ground (arith, filter-In p xs h)
