-- ===== src/Requests/Prepare.antt =====
-- `prepare_memory`: the checks of a request in their order, its redaction, and the order of its tags
-- and entities.
use super_mem.Base.{
  ℕ, ◌+◌, ◌^◌, Text, Bool, true, false, not, ◌&&◌, ◌||◌, Option, none, some, List, [], ◌∷◌, leb,
  ltb, ◌==◌, length, text_eq, text_ltb, sort_by, if◌then◌else◌,
}
use super_mem.Types.{Scope, EntityRef, EvidenceRef, LinkInput}
use super_mem.Ranking.Floats.{one}
use super_mem.Store.Outcome.{Outcome, ok, invalid_input, ◌>>=◌, ◌>>◌, guard}
use super_mem.Store.Words.{trim, to_ascii_lowercase}
use super_mem.Store.Validate.{validate_bounded_text, validate_idempotency}
use super_mem.Store.Tables.{RememberRequest, PreparedMemory}
use super_mem.Requests.Paths.{validate_optional, normalize_artifact_for_scope}
use super_mem.Requests.Scoped.{
  Settings, normalize_repository, validate_scope, validate_text, validate_attributes,
  validate_relation, redact_text, hide_attributes,
}
use super_mem.Requests.Hidden.{each, if_present, hide_entity, hide_artifact}

unfoldable pub validate_collection : ℕ → ℕ → Outcome (Unit {0})
validate_collection count maximum = guard (leb count maximum) invalid_input

-- The bits of a finite f64 between 0.0 and 1.0; the second test is -0.0, which is not below 0.0.
unfoldable pub validate_score : ℕ → Outcome (Unit {0})
validate_score bits = guard (leb bits one || bits == 2 ^ 63) invalid_input

-- A `for` loop of checks.
abbrev pub check_all : {A : Type 0} → (A → Outcome (Unit {0})) → List A → Outcome (Unit {0})
check_all check [] = ok tt
check_all check (a ∷ rest) = check a >> check_all check rest

-- A `for` loop that replaces the elements.
abbrev pub replace_all : {A : Type 0} → (A → Outcome A) → List A → Outcome (List A)
replace_all change [] = ok []
replace_all change (a ∷ rest) = change a >>= (λ b. replace_all change rest >>= (λ bs. ok (b ∷ bs)))

unfoldable pub validate_entity : EntityRef → Outcome (Unit {0})
unfolding validate_bounded_text
validate_entity entity = do
  validate_bounded_text entity.kind false 128
  validate_bounded_text entity.canonical false 512
  validate_bounded_text entity.display false 4096

-- `dedup_by`: an element goes where it is the same as the last that was kept.
abbrev pub dedup_after : {A : Type 0} → (A → A → Bool) → A → List A → List A
dedup_after same last [] = []
dedup_after same last (a ∷ rest) =
    let gone = dedup_after same last rest in
    let kept = dedup_after same a rest in if same a last then gone else a ∷ kept

abbrev pub dedup_by : {A : Type 0} → (A → A → Bool) → List A → List A
dedup_by same [] = []
dedup_by same (a ∷ rest) = a ∷ dedup_after same a rest

-- `sort_by_key` and `eq_ignore_ascii_case` in `deduplicate_strings`.
unfoldable pub tag_not_after : Text → Text → Bool
unfolding to_ascii_lowercase
tag_not_after a b = not (text_ltb (to_ascii_lowercase b) (to_ascii_lowercase a))

unfoldable pub same_tag : Text → Text → Bool
unfolding to_ascii_lowercase
same_tag a b = text_eq (to_ascii_lowercase a) (to_ascii_lowercase b)

unfoldable pub deduplicate_strings : List Text → List Text
unfolding tag_not_after same_tag sort_by
deduplicate_strings values = dedup_by same_tag (sort_by tag_not_after values)

unfoldable pub entity_not_after : EntityRef → EntityRef → Bool
entity_not_after a b =
    text_ltb a.kind b.kind || (text_eq a.kind b.kind && not (text_ltb b.canonical a.canonical))

unfoldable pub same_entity : EntityRef → EntityRef → Bool
same_entity a b = text_eq a.kind b.kind && text_eq a.canonical b.canonical

unfoldable pub order_entities : List EntityRef → List EntityRef
unfolding entity_not_after same_entity sort_by
order_entities entities = dedup_by same_entity (sort_by entity_not_after entities)

-- `valid_until.zip(valid_from).is_some_and(|(until, from)| until <= from)` does not hold.
unfoldable pub valid_interval : Option ℕ → Option ℕ → Bool
valid_interval none until = true
valid_interval (some from) none = true
valid_interval (some from) (some until) = ltb from until

module _ (S : Settings) where
  unfoldable pub validate_source_relation : EvidenceRef → Outcome EvidenceRef
  unfolding validate_relation trim
  validate_source_relation evidence = do
    validate_relation S evidence.relation
    ok (record evidence { relation = trim evidence.relation })

  unfoldable pub validate_link_relation : LinkInput → Outcome LinkInput
  unfolding validate_relation trim
  validate_link_relation link = do
    validate_relation S link.relation
    ok (record link { relation = trim link.relation })

  -- The checks up to the loop over the artifacts.
  unfoldable pub check_fields : Scope → RememberRequest → Outcome (Unit {0})
  unfolding validate_scope validate_bounded_text validate_text validate_attributes
      validate_collection validate_optional validate_entity
  check_fields scope request = do
    validate_scope S scope
    validate_bounded_text request.title false 4096
    validate_text S request.body false
    validate_attributes S request.attributes
    validate_collection (length request.tags) 64
    validate_collection (length request.entities) 128
    validate_collection (length request.artifacts) 128
    validate_collection (length request.evidence) 256
    validate_collection (length request.links) 128
    validate_optional request.canonical_key 512
    check_all (λ tag. validate_bounded_text tag false 256) request.tags
    check_all validate_entity request.entities

  -- The checks after the loop over the links.
  unfoldable pub check_values : RememberRequest → Outcome (Unit {0})
  unfolding validate_score validate_idempotency valid_interval
  check_values request = do
    validate_score request.importance
    validate_score request.confidence
    validate_idempotency request.idempotency_key
    guard (valid_interval request.valid_from request.valid_until) invalid_input

  -- The part of the function before the redaction.
  unfoldable pub check_request : RememberRequest → Outcome RememberRequest
  unfolding normalize_repository check_fields normalize_artifact_for_scope validate_source_relation
      validate_link_relation check_values
  check_request request = do
    let scope : Scope = record (request.scope) {
      repository = normalize_repository request.scope.repository;
    }
    check_fields scope request
    artifacts ← replace_all (λ a. normalize_artifact_for_scope a scope) request.artifacts
    evidence ← replace_all validate_source_relation request.evidence
    links ← replace_all validate_link_relation request.links
    check_values request
    ok (record request { scope = scope; artifacts = artifacts; evidence = evidence; links = links })

  -- The redaction, and the order of the tags and entities.
  unfoldable pub hide_request : RememberRequest → PreparedMemory
  unfolding redact_text hide_attributes hide_entity hide_artifact deduplicate_strings order_entities
  hide_request request =
      let title = redact_text S request.title in
      let body = redact_text S request.body in
      let attributes = hide_attributes S request.attributes in
      let canonical_key = if_present (redact_text S) request.canonical_key in
      let tags = each (redact_text S) request.tags in
      let entities = each (hide_entity S) request.entities in
      let artifacts = each (hide_artifact S) request.artifacts in
      record {
        request = record request {
          title = title.0;
          body = body.0;
          attributes = attributes.0;
          canonical_key = canonical_key.0;
          tags = deduplicate_strings (tags.0);
          entities = order_entities (entities.0);
          artifacts = artifacts.0;
        };
        redaction_count =
            title.1 + body.1 + attributes.1 + canonical_key.1 + tags.1 + entities.1 + artifacts.1;
      }

  unfoldable pub prepare_memory : RememberRequest → Outcome PreparedMemory
  unfolding check_request hide_request
  prepare_memory request = check_request request >>= (λ checked. ok (hide_request checked))
