-- ===== src/Context/Tests.antt =====
-- Runs of the context assembly, and its theorems at a concrete pack.
use mathlib.Core.List.{Perm}
use super_mem.Base.{ℕ, ◌≤◌, ◌≡◌, refl, Text, codes, none, [], ◌∷◌, map, All, arith}
use super_mem.Types.{MemoryKind, MemoryState, TrustLevel, Applicability, Scope, Memory, RecallHit}
use super_mem.Utf8.{is_ascii, byte_length, utf8_len, rfind, byte_prefix}
use super_mem.Context.Tokens.{
  cut_at_clause, estimate_tokens, truncate_to_tokens, truncate_to_tokens-fits,
}
use super_mem.Context.Render.{context_envelope}
use super_mem.Context.Assemble.{compile_context, select_body}
use super_mem.Context.Search.{IsEdge, select_body-IsEdge}
use super_mem.Context.Budget.{compile_context-bounded}
use super_mem.Context.Plain.{IsPlain}
use super_mem.Context.Safety.{compile_context-IsPlain}
use super_mem.Context.Caveats.{all_caveats}
use super_mem.Context.Contents.{Kept, section_entries, hit_entry, compile_context-contents}

abbrev scope : Scope
scope = record {
  namespace = codes "default";
  workspace_id = none;
  repository = none;
  session_id = none;
}

abbrev memory : Memory
memory = record {
  memory_id = 7;
  revision = 2;
  kind = MemoryKind.decision;
  state = MemoryState.contested;
  scope = scope;
  canonical_key = none;
  title = codes "Use <WAL> mode";
  body = codes "Readers do not block the writer; checkpoints run in the background.";
  importance = 0;
  confidence = 0;
  trust = TrustLevel.agent;
  valid_from = none;
  valid_until = none;
  expires_at = none;
  created_at = 0;
  updated_at = 0;
  attributes = [];
  tags = [];
  entities = [];
  artifacts = [];
  evidence = [];
}

abbrev hit : RecallHit
hit = record {
  memory = memory;
  score = 1;
  applicability = Applicability.stale;
  signals = [];
  reasons = [];
}

abbrev show : ℕ → Text
show id = codes "id"

show-IsPlain : (id : ℕ) → All IsPlain (show id)
show-IsPlain id = omega arith

truncate_to_tokens-fits_example :
    estimate_tokens (truncate_to_tokens (codes "one. two; three") 3) ≤ 3
truncate_to_tokens-fits_example = truncate_to_tokens-fits (codes "one. two; three") 3 (omega arith)

select_body-IsEdge_example : IsEdge show hit 30 30 (select_body show hit 30)
select_body-IsEdge_example = select_body-IsEdge show hit 30 (omega arith)

compile_context-bounded_example :
    let p = compile_context show 1 5 160 (hit ∷ []) in
    (p.estimated_tokens ≤ 160) × (estimate_tokens (context_envelope p.rendered) ≤ 160)
compile_context-bounded_example =
    compile_context-bounded show 1 5 160 (hit ∷ []) (omega arith) (omega arith)

compile_context-IsPlain_example : All IsPlain (compile_context show 1 5 160 (hit ∷ [])).rendered
compile_context-IsPlain_example = compile_context-IsPlain show show-IsPlain 1 5 160 (hit ∷ [])

compile_context-contents_example :
    let p = compile_context show 1 5 160 (hit ∷ []) in
    Perm (section_entries p.sections) (map hit_entry p.hits)
    × (p.warnings ≡ all_caveats show p.hits)
    × Kept (hit ∷ []) p.hits
compile_context-contents_example = compile_context-contents show 1 5 160 (hit ∷ []) (omega arith)

cut : truncate_to_tokens (codes "one. two; three") 4 ≡ codes "one. two;…"
unfolding truncate_to_tokens is_ascii byte_length utf8_len cut_at_clause rfind byte_prefix
cut = refl
