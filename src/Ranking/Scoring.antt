-- ===== src/Ranking/Scoring.antt =====
-- `score_candidate` and the factors of a score. A constant is the bits of its f64.
use super_mem.Base.{ℕ, ◌-◌, ◌/◌, ◌^◌, Text, codes, Option, none, some, [], ◌∷◌, ◌++◌, map}
use super_mem.Types.{
  Memory, RecallHit, MemoryKind, MemoryState, TrustLevel, Applicability, RetrievalSignal,
}
use super_mem.Ranking.Floats.{Floats, one}
use super_mem.Ranking.Candidates.{Candidate, ranked_signals, preliminary_score}

-- `TrustLevel::factor`: 0.60, 0.80, 0.95, 1.00.
unfoldable pub factor : TrustLevel → ℕ
factor TrustLevel.external = 0x3fe3333333333333
factor TrustLevel.agent = 0x3fe999999999999a
factor TrustLevel.tool_verified = 0x3fee666666666666
factor TrustLevel.user_confirmed = one

-- `Applicability::ranking_weight`: 1.00, 0.90, 0.75, 0.45, 0.35, 0.0.
unfoldable pub ranking_weight : Applicability → ℕ
ranking_weight Applicability.exact = one
ranking_weight Applicability.compatible = 0x3feccccccccccccd
ranking_weight Applicability.unversioned = 0x3fe8000000000000
ranking_weight Applicability.divergent = 0x3fdccccccccccccd
ranking_weight Applicability.stale = 0x3fd6666666666666
ranking_weight Applicability.inapplicable = 0

-- The factor `state`: 1.0, 0.78, 0.42, 0.0.
unfoldable pub state_factor : MemoryState → ℕ
state_factor MemoryState.active = one
state_factor MemoryState.contested = 0x3fe8f5c28f5c28f6
state_factor MemoryState.superseded = 0x3fdae147ae147ae1
state_factor MemoryState.retracted = 0

-- `half_life_days`: 365.0, 180.0, 120.0, 90.0, 45.0, 30.0, 14.0.
unfoldable pub half_life_days : MemoryKind → Option ℕ
half_life_days MemoryKind.constraint = none
half_life_days MemoryKind.decision = none
half_life_days MemoryKind.preference = some 0x4076d00000000000
half_life_days MemoryKind.procedure = some 0x4066800000000000
half_life_days MemoryKind.fact = some 0x405e000000000000
half_life_days MemoryKind.outcome = some 0x4056800000000000
half_life_days MemoryKind.episode = some 0x4046800000000000
half_life_days MemoryKind.task = some 0x403e000000000000
half_life_days MemoryKind.observation = some 0x402c000000000000

-- `temporal_factor`; the literals are 86_400.0, 0.25, 0.75 and 2.0.
unfoldable pub temporal_factor : Floats → MemoryKind → ℕ → ℕ → ℕ
unfolding half_life_days
temporal_factor F kind updated now = elim (half_life_days kind) [
  | none ↦ one
  | some days ↦
      let age_days = F.div (F.of_usize ((now - updated) / 10 ^ 9)) 0x40f5180000000000 in
      F.add 0x3fd0000000000000
        (F.mul 0x3fe8000000000000 (F.powf 0x4000000000000000 (F.div (F.neg age_days) days)))
]

unfoldable pub signal_reason : RetrievalSignal → Text
signal_reason RetrievalSignal.exact = codes "exact_text"
signal_reason RetrievalSignal.lexical = codes "lexical_match"
signal_reason RetrievalSignal.lexical_strict = codes "all_lexical_terms"
signal_reason RetrievalSignal.code_alias = codes "code_alias_match"
signal_reason RetrievalSignal.code_alias_strict = codes "all_code_alias_terms"
signal_reason RetrievalSignal.semantic_expansion = codes "semantic_expansion"
signal_reason RetrievalSignal.dense_vector = codes "dense_vector"
signal_reason RetrievalSignal.sparse = codes "identifier_or_artifact"
signal_reason RetrievalSignal.entity = codes "entity_match"
signal_reason RetrievalSignal.recency = codes "recent_in_scope"
signal_reason RetrievalSignal.artifact_verified = codes "artifact_hash_verified"
signal_reason RetrievalSignal.error_fingerprint = codes "same_error_fingerprint"

unfoldable pub applicability_reason : Applicability → Text
applicability_reason Applicability.exact = codes "exact_repository_state"
applicability_reason Applicability.compatible = codes "compatible_repository_history"
applicability_reason Applicability.stale = codes "artifact_or_worktree_changed"
applicability_reason Applicability.divergent = codes "divergent_repository_history"
applicability_reason Applicability.unversioned = codes "unversioned_scope"
applicability_reason Applicability.inapplicable = codes "inapplicable_scope"

-- `score_candidate`; the literals are 0.75, 0.15, 0.10, -0.10 and 0.5.
unfoldable pub score_candidate : Floats → Memory → Candidate → Applicability → ℕ → ℕ → RecallHit
unfolding ranked_signals preliminary_score state_factor temporal_factor factor ranking_weight
    signal_reason applicability_reason
score_candidate F memory candidate applicability feedback_utility now =
    let signals = map (λ (p : RetrievalSignal × ℕ). p.0) (ranked_signals candidate) in
    let base = preliminary_score F candidate in
    let quality =
      F.add (F.add 0x3fe8000000000000 (F.mul memory.importance 0x3fc3333333333333))
        (F.mul memory.confidence 0x3fb999999999999a) in
    let temporal = temporal_factor F memory.kind memory.updated_at now in
    let utility =
      F.f64_max (F.add one (F.clamp feedback_utility 0xbfb999999999999a 0x3fb999999999999a))
        0x3fe0000000000000 in
    let aged = F.mul (F.mul (F.mul base quality) (state_factor memory.state)) temporal in
    let weighed = F.mul (F.mul aged (factor memory.trust)) (ranking_weight applicability) in
    record {
      memory = memory;
      score = F.mul weighed utility;
      applicability = applicability;
      signals = signals;
      reasons = map signal_reason signals ++ applicability_reason applicability ∷ [];
    }
