-- ===== src/Ranking/Tests.antt =====
-- Runs of the ranking on three memories and on queries, and its theorems there.
use mathlib.Core.List.{Perm}
use super_mem.Base.{
  ℕ, ◌+◌, ◌-◌, ◌*◌, ◌/◌, ◌≤◌, ◌≡◌, ◌≢◌, ◌↔◌, min, max, refl, Text, codes, none, some, List, [], ◌∷◌,
  ◌++◌, length, map, All, Falls, In, leb, ◌&&◌, ◌||◌, ltb, if◌then◌else◌, usize_max, text_eq,
}
use super_mem.Utf8.{byte_length, utf8_len}
use super_mem.Types.{
  MemoryKind, MemoryState, TrustLevel, Applicability, RetrievalSignal, Scope, Memory, RecallHit,
}
use super_mem.Ranking.Floats.{Floats, Unicode}
use super_mem.Ranking.Candidates.{Candidate, no_ranks, record_rank, ranked_signals}
use super_mem.Ranking.Scoring.{score_candidate}
use super_mem.Ranking.Query.{safe_fts_query, safe_fts_strict_query, bare_terms, or_word, and_word}
use super_mem.Ranking.Order.{bound_mmr_pool, prune_candidates}
use super_mem.Ranking.Mmr.{select_mmr}
use super_mem.Ranking.Reference.{reference_select_mmr}
use super_mem.Ranking.Equivalence.{select_mmr-reference_select_mmr}
use super_mem.Ranking.Selection.{select_mmr-perm}
use super_mem.Ranking.Signals.{record_all, best, ranked_signals-best}
use super_mem.Ranking.Bounds.{IsTerm, Different}
use super_mem.Ranking.Reader.{read_query, safe_fts_query-read, safe_fts_strict_query-read}
use super_mem.Ranking.Pool.{hit_key, candidate_key, bound_mmr_pool-best, prune_candidates-best}

abbrev total : List ℕ → ℕ
total [] = 0
total (x ∷ xs) = x + total xs

-- Small whole numbers in place of floats; a left factor counts as 0 or 1.
abbrev whole : Floats
whole = record {
  add = λ a b. a + b;
  sub = λ a b. a + 1000 - b;
  mul = λ a b. min a 1 * b;
  div = λ a b. a * 100 / b;
  powf = λ a b. a;
  neg = λ a. a;
  f64_max = λ a b. if ltb b 1000000 then max a b else a;
  clamp = λ a l h. a;
  of_usize = λ a. a;
  sum = total;
}

abbrev ascii : Unicode
ascii = record {
  is_alphanumeric = λ c. leb 48 c && leb c 57 || (leb 65 c && leb c 90 || leb 97 c && leb c 122);
  to_lowercase = λ c. (if leb 65 c && leb c 90 then c + 32 else c) ∷ [];
}

abbrev scope : Scope
scope = record {
  namespace = codes "default";
  workspace_id = none;
  repository = none;
  session_id = none;
}

abbrev note : ℕ → Text → Memory
note id text = record {
  memory_id = id;
  revision = 1;
  kind = MemoryKind.decision;
  state = MemoryState.active;
  scope = scope;
  canonical_key = none;
  title = codes "note";
  body = text;
  importance = 0;
  confidence = 0;
  trust = TrustLevel.agent;
  valid_from = none;
  valid_until = none;
  expires_at = none;
  created_at = 0;
  updated_at = 0;
  attributes = [];
  tags = [];
  entities = [];
  artifacts = [];
  evidence = [];
}

abbrev hit : ℕ → Text → ℕ → RecallHit
hit id text score = record {
  memory = note id text;
  score = score;
  applicability = Applicability.unversioned;
  signals = [];
  reasons = [];
}

abbrev two_alike : List RecallHit
two_alike =
    hit 1 (codes "the build is slow") 90
    ∷ hit 2 (codes "the build is slow") 100
    ∷ hit 3 (codes "tests use a port") 80
    ∷ []

-- The copy of the best hit comes last, though it has the second score.
spread :
    map (λ h. h.memory.memory_id) (reference_select_mmr whole ascii two_alike 3 1) ≡ 2 ∷ 3 ∷ 1 ∷ []
unfolding reference_select_mmr byte_length utf8_len text_eq
spread = refl

select_mmr-reference_select_mmr_example :
    select_mmr whole ascii two_alike 2 1 ≡ reference_select_mmr whole ascii two_alike 2 1
select_mmr-reference_select_mmr_example = select_mmr-reference_select_mmr whole ascii two_alike 2 1

select_mmr-perm_example :
    (left : List RecallHit) × Perm (select_mmr whole ascii two_alike 2 1 ++ left) two_alike
    × (length (select_mmr whole ascii two_alike 2 1) ≡ min 2 (length two_alike))
select_mmr-perm_example = select_mmr-perm whole ascii two_alike 2 1

abbrev recorded : List (RetrievalSignal × ℕ)
recorded =
    (RetrievalSignal.lexical, 4)
    ∷ (RetrievalSignal.exact, 2)
    ∷ (RetrievalSignal.lexical, 1)
    ∷ (RetrievalSignal.lexical, 9)
    ∷ []

ranked_run :
    ranked_signals (record_all no_ranks recorded)
    ≡ (RetrievalSignal.exact, 2) ∷ (RetrievalSignal.lexical, 1) ∷ []
unfolding ranked_signals record_rank
ranked_run = refl

ranked_signals-best_example :
    In (RetrievalSignal.lexical, 1) (ranked_signals (record_all no_ranks recorded))
    ↔ ((best recorded RetrievalSignal.lexical ≡ 1) × (1 ≢ usize_max))
ranked_signals-best_example = ranked_signals-best recorded RetrievalSignal.lexical 1

bound_mmr_pool-best_example :
    (cut : List RecallHit) × Perm (bound_mmr_pool two_alike 2 ++ cut) two_alike
    × All (λ kept. All (λ c. Falls (hit_key kept) (hit_key c)) cut) (bound_mmr_pool two_alike 2)
    × (length (bound_mmr_pool two_alike 2) ≡ min (max 256 (min 512 (2 * 4))) (length two_alike))
bound_mmr_pool-best_example = bound_mmr_pool-best two_alike 2

abbrev found : List (ℕ × Candidate)
found =
    (1, record_all no_ranks ((RetrievalSignal.recency, 1) ∷ []))
    ∷ (2, record_all no_ranks recorded)
    ∷ []

prune_candidates-best_example :
    (cut : List (ℕ × Candidate)) × Perm (prune_candidates whole found 1 ++ cut) found
    × All
        (λ kept. All (λ c. Falls (candidate_key whole kept) (candidate_key whole c)) cut)
        (prune_candidates whole found 1)
    × (length (prune_candidates whole found 1) ≡ min 1 (length found))
prune_candidates-best_example = prune_candidates-best whole found 1

abbrev question : Text
question = codes "Why NOT \"drop\" the WAL, or the wal?"

asked : safe_fts_query ascii question ≡ some (codes "\"why\" OR \"drop\" OR \"the\" OR \"wal\"")
unfolding safe_fts_query byte_length utf8_len text_eq
asked = refl

asked_strictly :
    safe_fts_strict_query ascii (codes "a WAL mode") ≡ some (codes "\"wal\" AND \"mode\"")
unfolding safe_fts_strict_query byte_length utf8_len text_eq
asked_strictly = refl

safe_fts_query-read_example :
    let terms = bare_terms ascii question 24 in
    (read_query (length terms) or_word (codes "\"why\" OR \"drop\" OR \"the\" OR \"wal\"")
      ≡ some terms)
    × All IsTerm terms
    × Different terms
    × (1 ≤ length terms)
    × (length terms ≤ 24)
safe_fts_query-read_example =
    safe_fts_query-read ascii question (codes "\"why\" OR \"drop\" OR \"the\" OR \"wal\"") asked

safe_fts_strict_query-read_example :
    let terms = bare_terms ascii (codes "a WAL mode") 8 in
    (read_query (length terms) and_word (codes "\"wal\" AND \"mode\"") ≡ some terms)
    × All IsTerm terms
    × Different terms
    × (1 ≤ length terms)
    × (length terms ≤ 8)
safe_fts_strict_query-read_example =
    safe_fts_strict_query-read ascii (codes "a WAL mode") (codes "\"wal\" AND \"mode\"")
      asked_strictly

scored :
    (score_candidate whole
      (note 1 (codes "x"))
      (record_all no_ranks recorded)
      Applicability.stale
      0
      5).reasons
    ≡ codes "exact_text" ∷ codes "lexical_match" ∷ codes "artifact_or_worktree_changed" ∷ []
unfolding score_candidate record_rank
scored = refl
