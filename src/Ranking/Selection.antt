-- ===== src/Ranking/Selection.antt =====
-- What `select_mmr` returns: distinct hits of the input, as many as the limit allows.
use mathlib.Core.List.Perm
use mathlib.Core.List.{Perm, filter_map, append_assoc, append-nil}
use mathlib.Core.Path.{subst}
use mathlib.Core.Nat
use mathlib.Core.List
use super_mem.Base.{
  ℕ, zero, suc, ◌+◌, ◌≤◌, ◌≡◌, ◌∙◌, min, refl, sym, ap, some, Option-cases, List, [], ◌∷◌, ◌++◌,
  length, length-append, length-take, take-drop-perm, sort_by-perm, get_elem?, get_or, drop, arith,
  inl, inr, Bool-cases, ◌==◌, leb, ◌||◌, map,
}
use super_mem.Types.{RecallHit}
use super_mem.Ranking.Floats.{Floats, Unicode}
use super_mem.Ranking.Order.{not_after, sort_hits}
use super_mem.Ranking.Mmr.{
  Pool, choose, raise, swap_remove, mmr_loop, indices, pool_of, hits_at, select_mmr,
}
use super_mem.Ranking.Vectors.{swap_remove-perm, length-swap_remove}
use super_mem.Ranking.Equivalence.{choose_lt, zero_of}

sort_hits-perm : (hits : List RecallHit) → Perm (sort_hits hits) hits
unfolding sort_hits
sort_hits-perm hits = sort_by-perm not_after hits

-- `hits_at` is the library's `filter_map`.
hits_at-eq :
    (hits : List RecallHit) (is : List ℕ) → hits_at hits is ≡ filter_map (get_elem? hits) is
unfolding hits_at filter_map
hits_at-eq hits [] = refl
hits_at-eq hits (i ∷ is) = elim (Option-cases (get_elem? hits i)) [
  | inl e ↦ rw (e, hits_at) (hits_at-eq hits is)
  | inr (h, e) ↦ rw (e, hits_at) (ap (◌∷◌ h) (hits_at-eq hits is))
]

hits_at-append :
    (hits : List RecallHit) (is js : List ℕ)
    → hits_at hits (is ++ js) ≡ hits_at hits is ++ hits_at hits js
unfolding hits_at
hits_at-append hits [] js = refl
hits_at-append hits (i ∷ is) js = ground (arith, hits_at-append hits is js)

get_elem?_at :
    (before rest : List RecallHit) (h : RecallHit)
    → get_elem? (before ++ (h ∷ rest)) (length before) ≡ some h
get_elem?_at [] rest h = refl
get_elem?_at (b ∷ before) rest h = get_elem?_at before rest h

-- The positions from `start` on give the rest of the list.
hits_at-indices :
    (before rest : List RecallHit)
    → hits_at (before ++ rest) (indices (length before) (length rest)) ≡ rest
unfolding hits_at indices
hits_at-indices before [] = refl
hits_at-indices before (h ∷ rest) =
    rw (get_elem?_at before rest h, hits_at)
      (ap (◌∷◌ h) (
        subst (λ u. hits_at u (indices (suc (length before)) (length rest)) ≡ rest)
          (append_assoc before (h ∷ []) rest)
          (subst (λ n. hits_at ((before ++ (h ∷ [])) ++ rest) (indices n (length rest)) ≡ rest) size
            (hits_at-indices (before ++ (h ∷ [])) rest))))
  where
    size : length (before ++ (h ∷ [])) ≡ suc (length before)
    size = omega (arith, length-append {0} before (h ∷ []))

module _ (F : Floats) (p : Pool) where
  -- The selected and the available indices are always the ones of the beginning, and each round selects one.
  mmr_loop-perm :
      (limit : ℕ) (selected available redundancy : List ℕ)
      → (left : List ℕ) × Perm
          (mmr_loop F p limit selected available redundancy ++ left)
          (selected ++ available)
        × (length (mmr_loop F p limit selected available redundancy)
            ≡ length selected + min limit (length available))
  unfolding mmr_loop
  mmr_loop-perm zero selected available redundancy =
      (available, Perm.refl (selected ++ available), omega arith)
  mmr_loop-perm (suc limit) selected [] redundancy = ([], Perm.refl (selected ++ []), omega arith)
  mmr_loop-perm (suc limit) selected (a ∷ rest) redundancy =
      let i = choose F p (λ c. get_or redundancy c 0) (a ∷ rest) in
      let s = get_or (a ∷ rest) i 0 in
      let others = swap_remove i (a ∷ rest) in
      let (left, perm, size) =
        mmr_loop-perm limit (selected ++ (s ∷ [])) others (raise F p s others redundancy) in
      (
        left,
        Perm.trans perm (
            subst (λ u. Perm u (selected ++ (a ∷ rest)))
              (sym (append_assoc selected (s ∷ []) others))
              (Perm.append_left selected (swap_remove-perm a rest i (choose_lt F p _ a rest)))),
        omega (arith, size, length-append {0} selected (s ∷ []), length-swap_remove a rest i),
      )

-- The hits at a permutation of all positions are a permutation of the hits.
hits_at-perm :
    (hits : List RecallHit) (is : List ℕ)
    → Perm is (indices 0 (length hits))
    → Perm (hits_at hits is) hits
hits_at-perm hits is perm =
    subst (λ u. Perm u hits) (sym (hits_at-eq hits is))
      (Perm.trans (Perm.filter_map (get_elem? hits) perm) (
        subst (λ u. Perm u hits) (hits_at-eq hits (indices 0 (length hits)))
          (subst (λ u. Perm u hits) (sym (hits_at-indices [] hits)) (Perm.refl hits))))

length-hits_at-le : (hits : List RecallHit) (is : List ℕ) → length (hits_at hits is) ≤ length is
unfolding hits_at
length-hits_at-le hits [] = omega arith
length-hits_at-le hits (i ∷ is) = ground (arith, length-hits_at-le hits is)

length-indices : (start count : ℕ) → length (indices start count) ≡ count
unfolding indices
length-indices start zero = refl
length-indices start (suc count) = ap suc (length-indices (suc start) count)

-- The library's length, as a native number.
native : Nat.ℕ → ℕ
native Nat.zero = zero
native (Nat.suc n) = suc (native n)

length-eq-native : {A : Type 0} (xs : List A) → length xs ≡ native (List.length xs)
unfolding native
length-eq-native [] = refl
length-eq-native (x ∷ xs) = ap suc (length-eq-native xs)

pub length-perm : {A : Type 0} {xs ys : List A} → Perm xs ys → length xs ≡ length ys
length-perm {xs} {ys} perm =
    length-eq-native xs ∙ ap native (Perm.length-eq perm) ∙ sym (length-eq-native ys)

-- For every arithmetic of floats: the selected hits, with those that are left over, are exactly the hits of
-- the input, each as often; and there are as many of them as the limit and the input allow. So the
-- loop ends, and no hit is returned more often than it was given.
pub select_mmr-perm :
    (F : Floats) (U : Unicode) (hits : List RecallHit) (limit lambda : ℕ)
    → (left : List RecallHit) × Perm (select_mmr F U hits limit lambda ++ left) hits
      × (length (select_mmr F U hits limit lambda) ≡ min limit (length hits))
unfolding select_mmr
select_mmr-perm F U hits limit lambda = elim (Bool-cases (leb (length hits) 1 || limit == 0)) [
  | inl e ↦ rw e (drop limit hits, take-drop-perm limit hits, length-take limit hits)
  | inr e ↦
      let sorted = sort_hits hits in
      let n = length sorted in
      let result =
        mmr_loop F (pool_of F U sorted lambda) limit [] (indices 0 n) (map zero_of sorted) in
      let (left, perm, size) =
        mmr_loop-perm F (pool_of F U sorted lambda) limit [] (indices 0 n) (map zero_of sorted) in
      let all : Perm (hits_at sorted result ++ hits_at sorted left) sorted =
        subst (λ u. Perm u sorted) (hits_at-append sorted result left)
          (hits_at-perm sorted (result ++ left) perm) in
      rw e (
        hits_at sorted left,
        Perm.trans all (sort_hits-perm hits),
        omega (
          arith,
          size,
          length-indices 0 n,
          length-perm all,
          length-perm (sort_hits-perm hits),
          length-perm perm,
          length-hits_at-le sorted result,
          length-hits_at-le sorted left,
          length-append {0} (hits_at sorted result) (hits_at sorted left),
          length-append {0} result left,
        ),
      )
]
