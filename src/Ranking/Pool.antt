-- ===== src/Ranking/Pool.antt =====
-- What the bounds on the candidates and on the hits keep: the best ones.
use mathlib.Core.List.Perm
use mathlib.Core.List.{Perm, append-nil}
use mathlib.Core.Path.{subst}
use super_mem.Base.{
  ℕ, ◌*◌, ◌≡◌, Bool, true, List, [], ◌∷◌, sym, ◌++◌, length, length-take, take, drop, min, max, All,
  All-weaken, arith, leb, inl, inr, Bool-cases, sort_by, sort_by-perm, sort_by-Sorted, Sorted-cut,
  take-drop-perm, Falls, by_key-Falls, by_key-total, by_key-transitive,
}
use super_mem.Types.{RecallHit}
use super_mem.Ranking.Floats.{Floats, total_key}
use super_mem.Ranking.Candidates.{Candidate, preliminary_score}
use super_mem.Ranking.Order.{
  not_after, sort_hits, mmr_pool_limit, bound_mmr_pool, candidate_not_after, prune_candidates,
}
use super_mem.Ranking.Selection.{length-perm}

-- The key and the identifier that the order of hits reads.
abbrev pub hit_key : RecallHit → ℕ × ℕ
hit_key h = (total_key h.score, h.memory.memory_id)

-- Four times the limit, but at least 256 and at most 512.
pool_bound : (limit : ℕ) → mmr_pool_limit limit ≡ max 256 (min 512 (limit * 4))
unfolding mmr_pool_limit
pool_bound limit = omega arith

-- The test of one list against another, as the order of their keys.
weaken_cut :
    {A : Type 0} (first : A → A → Bool) (key : A → ℕ × ℕ)
    → ((a b : A) → first a b ≡ true → Falls (key a) (key b))
    → (kept cut : List A) → All (λ k. All (λ c. first k c ≡ true) cut) kept
    → All (λ k. All (λ c. Falls (key k) (key c)) cut) kept
weaken_cut first key falls kept cut h =
    All-weaken (λ k. All (λ c. first k c ≡ true) cut) (λ k. All (λ c. Falls (key k) (key c)) cut)
      kept (λ k. All-weaken (λ c. first k c ≡ true) (λ c. Falls (key k) (key c)) cut (falls k)) h

-- The pool and the hits that are cut are together the hits that were given; every hit of the pool has a
-- score above that of every hit that is cut, in the total order of floats, or the same score and an
-- identifier that is not above; and the pool has four times the number of hits asked for, but at least
-- 256 and at most 512, or all the hits where there are fewer.
pub bound_mmr_pool-best :
    (hits : List RecallHit) (limit : ℕ)
    → (cut : List RecallHit) × Perm (bound_mmr_pool hits limit ++ cut) hits
      × All (λ kept. All (λ c. Falls (hit_key kept) (hit_key c)) cut) (bound_mmr_pool hits limit)
      × (length (bound_mmr_pool hits limit) ≡ min (max 256 (min 512 (limit * 4))) (length hits))
unfolding bound_mmr_pool sort_hits not_after
bound_mmr_pool-best hits limit =
    let n = mmr_pool_limit limit in
    let sorted = sort_by not_after hits in
    (
      drop n sorted,
      Perm.trans (take-drop-perm n sorted) (sort_by-perm not_after hits),
      weaken_cut not_after hit_key (λ a b. by_key-Falls (hit_key a) (hit_key b)) (take n sorted)
          (drop n sorted)
          (Sorted-cut not_after n sorted (
            sort_by-Sorted not_after (λ a b. by_key-total (hit_key a) (hit_key b))
              (λ a b c. by_key-transitive (hit_key a) (hit_key b) (hit_key c)) hits)),
      omega (
        arith,
        length-take n sorted,
        length-perm (sort_by-perm not_after hits),
        pool_bound limit,
      ),
    )

All-nothing : {A : Type 0} (P : A → A → Type 0) (xs : List A) → All (λ x. All (P x) []) xs
All-nothing P [] = tt
All-nothing P (x ∷ xs) = (tt, All-nothing P xs)

-- The same for candidates.
abbrev pub candidate_key : Floats → ℕ × Candidate → ℕ × ℕ
candidate_key F (id, c) = (total_key (preliminary_score F c), id)

-- The candidates that `prune_candidates` keeps and those that it cuts are together all that were given; every
-- candidate that is kept has a preliminary score above that of every one that is cut, in the total
-- order of floats, or the same score and an identifier that is not above, for every arithmetic of
-- floats; and `maximum` are kept, or all where there are fewer.
pub prune_candidates-best :
    (F : Floats) (candidates : List (ℕ × Candidate)) (maximum : ℕ)
    → (cut : List (ℕ × Candidate)) × Perm (prune_candidates F candidates maximum ++ cut) candidates
      × All
          (λ kept. All (λ c. Falls (candidate_key F kept) (candidate_key F c)) cut)
          (prune_candidates F candidates maximum)
      × (length (prune_candidates F candidates maximum) ≡ min maximum (length candidates))
unfolding prune_candidates candidate_not_after
prune_candidates-best F candidates maximum = elim (Bool-cases (leb (length candidates) maximum)) [
  | inl e ↦ rw e (
    [],
    subst (λ u. Perm u candidates) (sym (append-nil candidates)) (Perm.refl candidates),
    All-nothing (λ kept c. Falls (candidate_key F kept) (candidate_key F c)) candidates,
    ground arith,
  )
  | inr e ↦
      let order = candidate_not_after F in
      let key = candidate_key F in
      let sorted = sort_by order candidates in
      rw e (
        drop maximum sorted,
        Perm.trans (take-drop-perm maximum sorted) (sort_by-perm order candidates),
        weaken_cut order key (λ a b. by_key-Falls (key a) (key b)) (take maximum sorted)
            (drop maximum sorted)
            (Sorted-cut order maximum sorted (
              sort_by-Sorted order (λ a b. by_key-total (key a) (key b))
                (λ a b c. by_key-transitive (key a) (key b) (key c)) candidates)),
        omega (arith, length-take maximum sorted, length-perm (sort_by-perm order candidates)),
      )
]
