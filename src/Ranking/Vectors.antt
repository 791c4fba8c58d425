-- ===== src/Ranking/Vectors.antt =====
-- Writes into vectors, and `swap_remove` as a permutation.
use mathlib.Core.List.Perm
use mathlib.Core.List.{Perm, append-nil, perm_middle}
use mathlib.Core.Path.{subst}
use super_mem.Base.{
  ℕ, zero, suc, ◌+◌, ◌-◌, ◌<◌, ◌≡◌, ◌≢◌, refl, sym, ap, List, [], ◌∷◌, ◌++◌, length, get_or, set,
  take, length-append, length-take, arith, inl, inr, Bool-cases, ◌==◌,
}
use super_mem.Ranking.Mmr.{swap_remove}

pub length-set : (xs : List ℕ) (i v : ℕ) → length (set xs i v) ≡ length xs
length-set [] i v = refl
length-set (x ∷ xs) zero v = refl
length-set (x ∷ xs) (suc i) v = ap suc (length-set xs i v)

pub get_or-set_self : (xs : List ℕ) (i v d : ℕ) → i < length xs → get_or (set xs i v) i d ≡ v
get_or-set_self [] i v d h = omega arith
get_or-set_self (x ∷ xs) zero v d h = refl
get_or-set_self (x ∷ xs) (suc i) v d h = get_or-set_self xs i v d (omega arith)

pub get_or-set_ne : (xs : List ℕ) (i j v d : ℕ) → i ≢ j → get_or (set xs i v) j d ≡ get_or xs j d
get_or-set_ne [] i j v d h = refl
get_or-set_ne (x ∷ xs) zero zero v d h = elim (h refl) [ ]
get_or-set_ne (x ∷ xs) zero (suc j) v d h = refl
get_or-set_ne (x ∷ xs) (suc i) zero v d h = refl
get_or-set_ne (x ∷ xs) (suc i) (suc j) v d h = get_or-set_ne xs i j v d (λ e. h (ap suc e))

-- What is written changes places with what is read.
set-perm : (xs : List ℕ) (i v : ℕ) → i < length xs → Perm (get_or xs i 0 ∷ set xs i v) (v ∷ xs)
set-perm [] i v h = absurd (omega arith)
set-perm (x ∷ xs) zero v h = Perm.swap v x xs
set-perm (x ∷ xs) (suc i) v h =
    Perm.trans (Perm.swap x (get_or xs i 0) (set xs i v))
      (Perm.trans (Perm.cons x (set-perm xs i v (omega arith))) (Perm.swap v x xs))

set-append : (ys zs : List ℕ) (i v : ℕ) → i < length ys → set (ys ++ zs) i v ≡ set ys i v ++ zs
set-append [] zs i v h = absurd (omega arith)
set-append (y ∷ ys) zs zero v h = refl
set-append (y ∷ ys) zs (suc i) v h = ap (◌∷◌ y) (set-append ys zs i v (omega arith))

set_end : (ys : List ℕ) (l v : ℕ) → set (ys ++ (l ∷ [])) (length ys) v ≡ ys ++ (v ∷ [])
set_end [] l v = refl
set_end (y ∷ ys) l v = ap (◌∷◌ y) (set_end ys l v)

get_or-append : (ys zs : List ℕ) (i d : ℕ) → i < length ys → get_or (ys ++ zs) i d ≡ get_or ys i d
get_or-append [] zs i d h = absurd (omega arith)
get_or-append (y ∷ ys) zs zero d h = refl
get_or-append (y ∷ ys) zs (suc i) d h = get_or-append ys zs i d (omega arith)

get_or_end : (ys : List ℕ) (l d : ℕ) → get_or (ys ++ (l ∷ [])) (length ys) d ≡ l
get_or_end [] l d = refl
get_or_end (y ∷ ys) l d = get_or_end ys l d

take-append : (ys zs : List ℕ) → take (length ys) (ys ++ zs) ≡ ys
take-append [] zs = refl
take-append (y ∷ ys) zs = ap (◌∷◌ y) (take-append ys zs)

-- A list that is not empty is its first part and its last element.
split_end : (x : ℕ) (xs : List ℕ) → (ys : List ℕ) × (l : ℕ) × (x ∷ xs ≡ ys ++ (l ∷ []))
split_end x [] = ([], x, refl)
split_end x (y ∷ xs) = let (ys, l, e) = split_end y xs in (x ∷ ys, l, ap (◌∷◌ x) e)

-- Two names for the first part are the same, seen by a position.
swap_remove_end :
    (ys : List ℕ) (l i : ℕ)
    → i < length ys + 1
    → Perm (get_or (ys ++ (l ∷ [])) i 0 ∷ swap_remove i (ys ++ (l ∷ []))) (ys ++ (l ∷ []))
unfolding swap_remove
swap_remove_end ys l i h =
    let size : length (ys ++ (l ∷ [])) - 1 ≡ length ys =
      omega (arith, length-append {0} ys (l ∷ [])) in
    let last : Perm (l ∷ ys) (ys ++ (l ∷ [])) =
      Perm.symm (subst (λ u. Perm (ys ++ (l ∷ [])) (l ∷ u)) (append-nil ys) (perm_middle ys [])) in
    elim (Bool-cases (i == length ys)) [
      | inl e ↦
          let here : i ≡ length ys = ground arith in
          rw (here, size, get_or_end ys l 0, set_end ys l l, take-append ys (l ∷ [])) last
      | inr e ↦
          let below : i < length ys = ground arith in
          rw
            (
              size,
              get_or_end ys l 0,
              get_or-append ys (l ∷ []) i 0 below,
              set-append ys (l ∷ []) i l below,
            )
            (subst (λ n. Perm (get_or ys i 0 ∷ take n (set ys i l ++ (l ∷ []))) (ys ++ (l ∷ [])))
              (length-set ys i l)
              (rw (take-append (set ys i l) (l ∷ [])) (Perm.trans (set-perm ys i l below) last)))
    ]

-- What is removed, and what is left, are the elements of the list.
pub swap_remove-perm :
    (x : ℕ) (xs : List ℕ) (i : ℕ)
    → i < length (x ∷ xs)
    → Perm (get_or (x ∷ xs) i 0 ∷ swap_remove i (x ∷ xs)) (x ∷ xs)
swap_remove-perm x xs i h =
    let (ys, l, e) = split_end x xs in
    subst (λ u. Perm (get_or u i 0 ∷ swap_remove i u) u) (sym e)
      (swap_remove_end ys l i (omega (arith, ap length e, length-append {0} ys (l ∷ []))))

pub length-swap_remove : (x : ℕ) (xs : List ℕ) (i : ℕ) → length (swap_remove i (x ∷ xs)) ≡ length xs
unfolding swap_remove
length-swap_remove x xs i = omega (
  arith,
  length-take {0} (length (x ∷ xs) - 1) (set (x ∷ xs) i (get_or (x ∷ xs) (length (x ∷ xs) - 1) 0)),
  length-set (x ∷ xs) i (get_or (x ∷ xs) (length (x ∷ xs) - 1) 0),
)
