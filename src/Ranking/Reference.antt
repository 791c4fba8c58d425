-- ===== src/Ranking/Reference.antt =====
-- `reference_select_mmr` of the tests of crates/super-mem-core/src/ranking.rs: the redundancy of a
-- candidate is computed anew from all that was selected.
use super_mem.Base.{
  ℕ, zero, suc, ◌||◌, List, [], ◌∷◌, ◌++◌, leb, ◌==◌, length, get_or, take, if◌then◌else◌,
}
use super_mem.Types.{RecallHit}
use super_mem.Ranking.Floats.{Floats, Unicode}
use super_mem.Ranking.Order.{sort_hits}
use super_mem.Ranking.Mmr.{Pool, similarity, choose, swap_remove, indices, pool_of, hits_at}

module _ (F : Floats) where
  -- `.map(...).fold(0.0, f64::max)`, from `highest` on.
  unfoldable pub redundancy_of : Pool → ℕ → ℕ → List ℕ → ℕ
  unfolding similarity
  redundancy_of p highest candidate [] = highest
  redundancy_of p highest candidate (s ∷ selected) =
      redundancy_of p (F.f64_max highest (similarity F p candidate s)) candidate selected

  unfoldable pub reference_loop : Pool → ℕ → List ℕ → List ℕ → List ℕ
  unfolding redundancy_of choose swap_remove
  reference_loop p zero selected available = selected
  reference_loop p (suc limit) selected [] = selected
  reference_loop p (suc limit) selected (a ∷ rest) =
      let position = choose F p (λ c. redundancy_of p 0 c selected) (a ∷ rest) in
      reference_loop p limit (selected ++ (get_or (a ∷ rest) position 0 ∷ []))
        (swap_remove position (a ∷ rest))

unfoldable pub reference_select_mmr : Floats → Unicode → List RecallHit → ℕ → ℕ → List RecallHit
unfolding sort_hits indices pool_of reference_loop hits_at
reference_select_mmr F U hits limit lambda =
    if leb (length hits) 1 || limit == 0
    then take limit hits
    else let sorted = sort_hits hits in
      hits_at sorted
        (reference_loop F (pool_of F U sorted lambda) limit [] (indices 0 (length sorted)))
