-- ===== src/Ranking/Candidates.antt =====
-- `Candidate`: for every signal the best rank at which it was recorded.
use super_mem.Base.{ℕ, min, List, [], ◌∷◌, map, ◌==◌, get_or, set, usize_max, if◌then◌else◌}
use super_mem.Types.{RetrievalSignal}
use super_mem.Ranking.Floats.{Floats}

-- `SIGNALS`.
abbrev pub all_signals : List RetrievalSignal
all_signals =
    RetrievalSignal.exact ∷ RetrievalSignal.error_fingerprint ∷ RetrievalSignal.artifact_verified
    ∷ RetrievalSignal.dense_vector ∷ RetrievalSignal.lexical_strict ∷ RetrievalSignal.lexical
    ∷ RetrievalSignal.code_alias_strict ∷ RetrievalSignal.code_alias
    ∷ RetrievalSignal.semantic_expansion ∷ RetrievalSignal.sparse ∷ RetrievalSignal.entity
    ∷ RetrievalSignal.recency ∷ []

unfoldable pub signal_order : RetrievalSignal → ℕ
signal_order RetrievalSignal.exact = 0
signal_order RetrievalSignal.error_fingerprint = 1
signal_order RetrievalSignal.artifact_verified = 2
signal_order RetrievalSignal.dense_vector = 3
signal_order RetrievalSignal.lexical_strict = 4
signal_order RetrievalSignal.lexical = 5
signal_order RetrievalSignal.code_alias_strict = 6
signal_order RetrievalSignal.code_alias = 7
signal_order RetrievalSignal.semantic_expansion = 8
signal_order RetrievalSignal.sparse = 9
signal_order RetrievalSignal.entity = 10
signal_order RetrievalSignal.recency = 11

-- The twelve ranks, in the order of `SIGNALS`.
pub record Candidate : Type 0 where
  pub ranks : List ℕ

-- `Candidate::default`.
abbrev pub no_ranks : Candidate
no_ranks = record { ranks = map (λ (s : RetrievalSignal). usize_max) all_signals }

-- `Candidate::record`.
unfoldable pub record_rank : Candidate → RetrievalSignal → ℕ → Candidate
unfolding signal_order
record_rank candidate signal rank = record {
  ranks =
      set candidate.ranks (signal_order signal)
        (min (get_or candidate.ranks (signal_order signal) 0) rank);
}

-- The zipped and filtered iterator of `Candidate::ranked_signals`.
unfoldable pub ranked : List RetrievalSignal → List ℕ → List (RetrievalSignal × ℕ)
ranked [] ranks = []
ranked (s ∷ signals) [] = []
ranked (s ∷ signals) (r ∷ ranks) =
    let rest = ranked signals ranks in if r == usize_max then rest else (s, r) ∷ rest

unfoldable pub ranked_signals : Candidate → List (RetrievalSignal × ℕ)
unfolding ranked
ranked_signals candidate = ranked all_signals candidate.ranks

-- `source_weight`: the bits of 1.35, 1.00, 1.12, ...
unfoldable pub source_weight : RetrievalSignal → ℕ
source_weight RetrievalSignal.exact = 0x3ff599999999999a
source_weight RetrievalSignal.lexical = 0x3ff0000000000000
source_weight RetrievalSignal.dense_vector = 0x3ff0000000000000
source_weight RetrievalSignal.lexical_strict = 0x3ff1eb851eb851ec
source_weight RetrievalSignal.code_alias = 0x3feb851eb851eb85
source_weight RetrievalSignal.code_alias_strict = 0x3fef5c28f5c28f5c
source_weight RetrievalSignal.semantic_expansion = 0x3fe8f5c28f5c28f6
source_weight RetrievalSignal.sparse = 0x3fea3d70a3d70a3d
source_weight RetrievalSignal.entity = 0x3fe70a3d70a3d70a
source_weight RetrievalSignal.recency = 0x3fc999999999999a
source_weight RetrievalSignal.artifact_verified = 0x3ff199999999999a
source_weight RetrievalSignal.error_fingerprint = 0x3ff4000000000000

-- `RRF_K` is 60.
abbrev pub rrf_k : ℕ
rrf_k = 0x404e000000000000

unfoldable pub preliminary_score : Floats → Candidate → ℕ
unfolding ranked_signals source_weight
preliminary_score F candidate = F.sum (
    map (λ (p : RetrievalSignal × ℕ). F.div (source_weight (p.0)) (F.add rrf_k (F.of_usize (p.1))))
      (ranked_signals candidate))
