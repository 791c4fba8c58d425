-- ===== src/Ranking/Mmr.antt =====
-- `select_mmr`: maximal marginal relevance, with the redundancy of every candidate kept up to date.
use super_mem.Base.{
  ℕ, zero, suc, ◌-◌, Text, ◌&&◌, ◌||◌, none, some, List, [], ◌∷◌, ◌++◌, map, ltb, leb, ◌==◌, length,
  get_elem?, get_or, set, take, if◌then◌else◌,
}
use super_mem.Types.{RecallHit}
use super_mem.Ranking.Floats.{Floats, Unicode, total_key, neg_infinity, epsilon, one}
use super_mem.Ranking.Tokens.{token_set, jaccard}
use super_mem.Ranking.Order.{sort_hits}

-- `(start..start + count)`.
unfoldable pub indices : ℕ → ℕ → List ℕ
indices start zero = []
indices start (suc count) = start ∷ indices (suc start) count

-- `Vec::swap_remove`, without the element: the last element takes the place of the removed one.
unfoldable pub swap_remove : ℕ → List ℕ → List ℕ
swap_remove i xs = take (length xs - 1) (set xs i (get_or xs (length xs - 1) 0))

-- What the loops read of a hit. The indices are always in range.
unfoldable pub score_at : List RecallHit → ℕ → ℕ
score_at hits i = elim (get_elem? hits i) [ none ↦ 0 | some h ↦ h.score ]

unfoldable pub id_at : List RecallHit → ℕ → ℕ
id_at hits i = elim (get_elem? hits i) [ none ↦ 0 | some h ↦ h.memory.memory_id ]

-- What one selection reads: the sorted hits and the sets of their tokens.
pub record Pool : Type 0 where
  pub hits : List RecallHit
  pub token_sets : List (List Text)
  pub max_score : ℕ
  pub lambda : ℕ

module _ (F : Floats) where
  -- `max_score`.
  unfoldable pub highest : List RecallHit → ℕ
  highest [] = one
  highest (h ∷ rest) = F.f64_max h.score epsilon

  unfoldable pub pool_of : Unicode → List RecallHit → ℕ → Pool
  unfolding highest token_set
  pool_of U hits lambda = record {
    hits = hits;
    token_sets =
        map (λ (h : RecallHit). token_set U (h.memory.title ++ (0x20 ∷ h.memory.body))) hits;
    max_score = highest hits;
    lambda = lambda;
  }

  unfoldable pub similarity : Pool → ℕ → ℕ → ℕ
  unfolding jaccard
  similarity p i j = jaccard F (get_or p.token_sets i []) (get_or p.token_sets j [])

  -- The score of one candidate, by its redundancy.
  unfoldable pub mmr_score : Pool → ℕ → ℕ → ℕ
  unfolding score_at
  mmr_score p candidate redundancy =
      F.sub (F.mul p.lambda (F.div (score_at p.hits candidate) p.max_score))
        (F.mul (F.sub one p.lambda) redundancy)

  -- The inner loop, from `position` on, over what is left of `available`.
  unfoldable pub best_position : Pool → (ℕ → ℕ) → List ℕ → ℕ → List ℕ → ℕ → ℕ → ℕ
  unfolding mmr_score id_at
  best_position p redundancy available position [] best best_score = best
  best_position p redundancy available position (c ∷ rest) best best_score =
      let mmr = mmr_score p c (redundancy c) in
      let better =
        ltb (total_key best_score) (total_key mmr)
        || (total_key mmr == total_key best_score
            && ltb (id_at p.hits c) (id_at p.hits (get_or available best 0))) in
      best_position p redundancy available (suc position) rest (if better then position else best)
        (if better then mmr else best_score)

  unfoldable pub choose : Pool → (ℕ → ℕ) → List ℕ → ℕ
  unfolding best_position
  choose p redundancy available = best_position p redundancy available 0 available 0 neg_infinity

  -- The loop that raises the redundancies after a selection.
  unfoldable pub raise : Pool → ℕ → List ℕ → List ℕ → List ℕ
  unfolding similarity
  raise p selected [] redundancy = redundancy
  raise p selected (c ∷ rest) redundancy =
      raise p selected rest
        (set redundancy c (F.f64_max (get_or redundancy c 0) (similarity p c selected)))

  -- The outer loop: it selects until `limit` more are selected or none is available.
  unfoldable pub mmr_loop : Pool → ℕ → List ℕ → List ℕ → List ℕ → List ℕ
  unfolding choose swap_remove raise
  mmr_loop p zero selected available redundancy = selected
  mmr_loop p (suc limit) selected [] redundancy = selected
  mmr_loop p (suc limit) selected (a ∷ rest) redundancy =
      let position = choose p (λ c. get_or redundancy c 0) (a ∷ rest) in
      let chosen = get_or (a ∷ rest) position 0 in
      let left = swap_remove position (a ∷ rest) in
      mmr_loop p limit (selected ++ (chosen ∷ [])) left (raise p chosen left redundancy)

-- `hits[index].clone()` for each index.
unfoldable pub hits_at : List RecallHit → List ℕ → List RecallHit
hits_at hits [] = []
hits_at hits (i ∷ rest) = elim (get_elem? hits i) [
  | none ↦ hits_at hits rest
  | some h ↦ h ∷ hits_at hits rest
]

unfoldable pub select_mmr : Floats → Unicode → List RecallHit → ℕ → ℕ → List RecallHit
unfolding sort_hits indices pool_of mmr_loop hits_at
select_mmr F U hits limit lambda =
    if leb (length hits) 1 || limit == 0
    then take limit hits
    else let sorted = sort_hits hits in
      hits_at sorted (
        mmr_loop F (pool_of F U sorted lambda) limit [] (indices 0 (length sorted))
          (map (λ (h : RecallHit). 0) sorted))
