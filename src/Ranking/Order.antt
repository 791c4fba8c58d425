-- ===== src/Ranking/Order.antt =====
-- The order of hits by falling score, then by identifier, and the stable `sort_by`.
use super_mem.Base.{
  ℕ, Bool, ◌&&◌, ◌||◌, List, ltb, leb, ◌==◌, max, min, take, length, if◌then◌else◌, saturating_mul,
  sort_by,
}
use super_mem.Types.{RecallHit}
use super_mem.Ranking.Floats.{Floats, total_key}
use super_mem.Ranking.Candidates.{Candidate, preliminary_score}

-- The closure of `sort_by` does not give `Greater`.
unfoldable pub not_after : RecallHit → RecallHit → Bool
not_after a b =
    ltb (total_key b.score) (total_key a.score)
    || (total_key a.score == total_key b.score && leb a.memory.memory_id b.memory.memory_id)

unfoldable pub sort_hits : List RecallHit → List RecallHit
unfolding not_after sort_by
sort_hits hits = sort_by not_after hits

-- `MMR_MIN_POOL` and `MMR_MAX_POOL`.
abbrev pub mmr_min_pool : ℕ
mmr_min_pool = 256

abbrev pub mmr_max_pool : ℕ
mmr_max_pool = 512

-- `mmr_pool_limit`.
unfoldable pub mmr_pool_limit : ℕ → ℕ
mmr_pool_limit limit = min (max (saturating_mul limit 4) mmr_min_pool) mmr_max_pool

-- `bound_mmr_pool`.
unfoldable pub bound_mmr_pool : List RecallHit → ℕ → List RecallHit
unfolding sort_hits mmr_pool_limit
bound_mmr_pool hits limit = take (mmr_pool_limit limit) (sort_hits hits)

-- The order in `prune_candidates`, and the function. The map is the list of its entries; `drain` gives
-- them in some order.
unfoldable pub candidate_not_after : Floats → ℕ × Candidate → ℕ × Candidate → Bool
unfolding preliminary_score
candidate_not_after F (a_id, a) (b_id, b) =
    let a_key = total_key (preliminary_score F a) in
    let b_key = total_key (preliminary_score F b) in
    ltb b_key a_key || (a_key == b_key && leb a_id b_id)

unfoldable pub prune_candidates : Floats → List (ℕ × Candidate) → ℕ → List (ℕ × Candidate)
unfolding candidate_not_after sort_by
prune_candidates F candidates maximum =
    if leb (length candidates) maximum
    then candidates
    else take maximum (sort_by (candidate_not_after F) candidates)
