-- ===== src/Context/Assemble.antt =====
-- `compile_context` of crates/super-mem-core/src/engine.rs: the selection of hits within a token
-- budget, in the order given, and their grouping into sections.
use super_mem.Base.{
  ℕ, zero, suc, ◌+◌, ◌-◌, ◌/◌, Text, codes, Bool, true, false, ◌&&◌, not, Option, none, some, List,
  [], ◌∷◌, ◌++◌, map, min, max, ltb, leb, ◌==◌, is_empty, checked_sub, saturating_add,
  if◌then◌else◌,
}
use super_mem.Types.{
  MemoryKind, MemoryState, Applicability, RecallHit, ContextItem, ContextSection, ContextPack,
  EvidenceRef, applicability_as_str,
}
use super_mem.Context.Tokens.{estimate_tokens, truncate_to_tokens}
use super_mem.Context.Render.{
  section_header, warnings_header, render_warning, render_context_item, render_context,
}

-- `section_for`: the place of a kind in the pack, and the name of its section.
unfoldable pub section_for : MemoryKind → ℕ × Text
section_for MemoryKind.constraint = (0, codes "constraints_and_preferences")
section_for MemoryKind.preference = (0, codes "constraints_and_preferences")
section_for MemoryKind.decision = (1, codes "decisions")
section_for MemoryKind.outcome = (2, codes "attempts_and_outcomes")
section_for MemoryKind.procedure = (3, codes "procedures")
section_for MemoryKind.task = (4, codes "open_tasks")
section_for MemoryKind.fact = (5, codes "relevant_history")
section_for MemoryKind.episode = (5, codes "relevant_history")
section_for MemoryKind.observation = (5, codes "relevant_history")

-- One entry of `grouped : BTreeMap<u8, (String, Vec<ContextItem>)>`.
pub record Group : Type 0 where
  pub priority : ℕ
  pub name : Text
  pub items : List ContextItem

-- `grouped.contains_key(&priority)`: the keys are in ascending order.
unfoldable pub contains_key : ℕ → List Group → Bool
contains_key p [] = false
contains_key p (g ∷ gs) =
    if p == g.priority then true else if ltb p g.priority then false else contains_key p gs

-- `grouped.entry(priority).or_insert_with(|| (section, Vec::new())).1.push(item)`.
unfoldable pub push_item : ℕ → Text → ContextItem → List Group → List Group
push_item p section item [] = record { priority = p; name = section; items = item ∷ [] } ∷ []
push_item p section item (g ∷ gs) =
    if p == g.priority
    then record g { items = g.items ++ item ∷ [] } ∷ gs
    else if ltb p g.priority
    then record { priority = p; name = section; items = item ∷ [] } ∷ g ∷ gs
    else g ∷ push_item p section item gs

-- `grouped.into_values()` as sections.
unfoldable pub into_sections : List Group → List ContextSection
into_sections [] = []
into_sections (g ∷ gs) = record { name = g.name; items = g.items } ∷ into_sections gs

abbrev pub needs_verification : Applicability → Bool
needs_verification Applicability.stale = true
needs_verification Applicability.divergent = true
needs_verification _ = false

abbrev pub is_contested : MemoryState → Bool
is_contested MemoryState.contested = true
is_contested _ = false

-- The estimate of the warnings of one hit: at most two of them, so the sum stays in a `usize`.
unfoldable pub sum_warning_tokens : List Text → ℕ
sum_warning_tokens [] = 0
sum_warning_tokens (w ∷ ws) = estimate_tokens (render_warning w) + sum_warning_tokens ws

-- The variables of the loop over the hits.
pub record Assembly : Type 0 where
  pub grouped : List Group
  pub rendered_tokens : ℕ
  pub warnings : List Text
  pub accepted_hits : List RecallHit

abbrev pub nothing_yet : Assembly
nothing_yet = record { grouped = []; rendered_tokens = 0; warnings = []; accepted_hits = [] }

unfoldable pub envelope_reserve : ℕ → ℕ
envelope_reserve token_budget = min 37 token_budget

unfoldable pub section_tokens : Assembly → ℕ → Text → ℕ
section_tokens a priority section =
    if contains_key priority a.grouped then 0 else estimate_tokens (section_header section)

unfoldable pub warning_header_tokens : Assembly → List Text → ℕ
warning_header_tokens a hit_warnings =
    if not (is_empty hit_warnings) && is_empty a.warnings
    then estimate_tokens warnings_header
    else 0

unfoldable pub fixed_tokens : Assembly → ℕ → Text → List Text → ℕ
unfolding section_tokens warning_header_tokens sum_warning_tokens
fixed_tokens a priority section hit_warnings =
    saturating_add
      (saturating_add (section_tokens a priority section) (warning_header_tokens a hit_warnings))
      (sum_warning_tokens hit_warnings)

-- The hit with its body replaced by what was selected.
unfoldable pub with_body : RecallHit → Text → RecallHit
with_body hit body = record hit { memory = record hit.memory { body = body } }

unfoldable pub to_item : RecallHit → Text → ℕ → ContextItem
to_item hit body estimated_tokens = record {
  memory_id = hit.memory.memory_id;
  revision = hit.memory.revision;
  title = hit.memory.title;
  body = body;
  score = hit.score;
  applicability = hit.applicability;
  reasons = hit.reasons;
  estimated_tokens = estimated_tokens;
  citations = map (λ (e : EvidenceRef). e.event_id) hit.memory.evidence;
}

module _ (show_id : ℕ → Text) where
  unfoldable pub hit_warnings : RecallHit → List Text
  hit_warnings hit =
      (if needs_verification hit.applicability
        then (codes "Memory "
            ++ (show_id hit.memory.memory_id
                ++ (codes " is "
                    ++ (applicability_as_str hit.applicability
                        ++ codes "; verify it against the current repository before acting."))))
          ∷ []
        else [])
      ++ (if is_contested hit.memory.state
          then (codes "Memory "
              ++ (show_id hit.memory.memory_id ++ codes " is contested by other evidence."))
            ∷ []
          else [])

  unfoldable pub fragment : RecallHit → Text → Text
  fragment hit body =
      render_context_item show_id hit.memory.title body hit.memory.memory_id hit.memory.revision
        hit.applicability

  -- The binary search for the longest body that fits. The fuel bounds the rounds; each round
  -- shrinks `high + 1 - low`.
  unfoldable pub search_body : ℕ → RecallHit → ℕ → ℕ → ℕ → Option (Text × ℕ) → Option (Text × ℕ)
  search_body zero hit item_budget low high selected = selected
  search_body (suc fuel) hit item_budget low high selected =
      let middle = low + (high - low) / 2 in
      let body = truncate_to_tokens hit.memory.body middle in
      let fragment_tokens = estimate_tokens (fragment hit body) in
      let longer =
        search_body fuel hit item_budget (saturating_add middle 1) high
          (some (body, fragment_tokens)) in
      let shorter = search_body fuel hit item_budget low (middle - 1) selected in
      if leb low high
      then (if not (is_empty body) && leb fragment_tokens item_budget
          then longer
          else if middle == 0
          then selected
          else shorter)
      else selected

  unfoldable pub select_body : RecallHit → ℕ → Option (Text × ℕ)
  unfolding search_body
  select_body hit item_budget =
      search_body (max item_budget 1) hit item_budget 1 (max item_budget 1) none

  -- The end of the loop's body, once a body is selected.
  unfoldable pub accept : RecallHit → Assembly → Option (Text × ℕ) → Assembly
  accept hit a none = a
  accept hit a (some (body, estimated_tokens)) =
      let (priority, section) = section_for hit.memory.kind in
      record {
        grouped = push_item priority section (to_item hit body estimated_tokens) a.grouped;
        rendered_tokens =
            saturating_add
              (saturating_add a.rendered_tokens
                (fixed_tokens a priority section (hit_warnings hit)))
              estimated_tokens;
        warnings = a.warnings ++ hit_warnings hit;
        accepted_hits = a.accepted_hits ++ with_body hit body ∷ [];
      }

  -- `render_budget.checked_sub(rendered_tokens).and_then(|r| r.checked_sub(fixed_tokens))`.
  unfoldable pub item_budget : ℕ → Assembly → RecallHit → Option ℕ
  item_budget render_budget a hit =
      let (priority, section) = section_for hit.memory.kind in
      elim (checked_sub render_budget a.rendered_tokens) [
        | none ↦ none
        | some remaining ↦
            checked_sub remaining (fixed_tokens a priority section (hit_warnings hit))
      ]

  -- One round of the loop; `none` is a `continue`.
  unfoldable pub consider : ℕ → Assembly → RecallHit → Assembly
  unfolding item_budget
  consider render_budget a hit = elim (item_budget render_budget a hit) [
    | none ↦ a
    | some budget ↦ accept hit a (select_body hit budget)
  ]

  unfoldable pub assemble : ℕ → Assembly → List RecallHit → Assembly
  assemble render_budget a [] = a
  assemble render_budget a (hit ∷ hits) = assemble render_budget (consider render_budget a hit) hits

  unfoldable pub pack : ℕ → ℕ → ℕ → Assembly → ContextPack
  pack query_id database_seq token_budget a =
      let sections = into_sections a.grouped in
      let rendered = render_context show_id sections a.warnings in
      if is_empty sections && is_empty a.warnings
      then record {
        query_id = query_id;
        database_seq = database_seq;
        token_budget = token_budget;
        estimated_tokens = 0;
        sections = sections;
        warnings = a.warnings;
        rendered = [];
        hits = a.accepted_hits;
      }
      else record {
        query_id = query_id;
        database_seq = database_seq;
        token_budget = token_budget;
        estimated_tokens =
            saturating_add (estimate_tokens rendered) (envelope_reserve token_budget);
        sections = sections;
        warnings = a.warnings;
        rendered = rendered;
        hits = a.accepted_hits;
      }

  unfoldable pub compile_context : ℕ → ℕ → ℕ → List RecallHit → ContextPack
  unfolding pack assemble
  compile_context query_id database_seq token_budget hits =
      pack query_id database_seq token_budget
        (assemble (token_budget - envelope_reserve token_budget) nothing_yet hits)
