-- ===== src/Requests/Accepted.antt =====
-- What holds of every request that is accepted.
use mathlib.Core.Path.{subst}
use super_mem.Base.{
  ℕ, ◌≡◌, ◌≤◌, refl, sym, ap, Text, Bool, true, false, not, ◌&&◌, List, [], ◌∷◌, arith, leb, length,
  sort_by, sort_by-perm, is_empty, suc, Pairwise, ◌∷◌,
}
use super_mem.Types.{Scope, ArtifactRef, EvidenceRef, LinkInput}
use super_mem.Store.Outcome.{
  Outcome, ok, ok_steps, ok-injective, check_steps, ◌>>=◌, ◌>>◌, guard, guard_steps, guard_passed,
  invalid_input,
}
use super_mem.Store.Words.{trim}
use super_mem.Store.Tables.{RememberRequest, PreparedMemory}
use super_mem.Requests.Scoped.{
  Settings, normalize_repository, is_clean, scope_metadata, validate_scope, validate_own_repository,
  validate_text, validate_attributes, redact_text,
}
use super_mem.Utf8.{byte_length}
use super_mem.Store.Validate.{validate_idempotency, validate_bounded_text}
use super_mem.Requests.Hidden.{each, hide_entity}
use super_mem.Ranking.Selection.{length-perm}
use super_mem.Requests.Paths.{validate_optional, normalize_artifact_for_scope}
use super_mem.Requests.Prepared.{
  TagBelow, EntityBelow, deduplicate_strings-rising, order_entities-rising,
}
use super_mem.Requests.Prepare.{
  dedup_after, dedup_by, tag_not_after, same_tag, deduplicate_strings, valid_interval,
  validate_score, validate_collection, check_fields, check_values, check_request, replace_all,
  validate_link_relation, validate_source_relation, hide_request, prepare_memory,
}
use super_mem.Requests.Clean.{
  IsInterval, ScopeUnfound, is_clean-ScopeUnfound, valid_interval-IsInterval,
}

abbrev Accepted : Settings → PreparedMemory → Type 0
Accepted S prepared =
    Pairwise TagBelow prepared.request.tags
    × (length prepared.request.tags ≤ 64)
    × Pairwise EntityBelow prepared.request.entities
    × ScopeUnfound S prepared.request.scope
    × IsInterval prepared.request.valid_from prepared.request.valid_until

-- What a request that is accepted has passed.
record Checked (S : Settings) (request checked : RememberRequest) : Type 0 where
  fields : check_fields S checked.scope request ≡ ok tt
  values : check_values S request ≡ ok tt
  kept : (checked.valid_from ≡ request.valid_from) × (checked.valid_until ≡ request.valid_until)
  tags : checked.tags ≡ request.tags
  links : replace_all (validate_link_relation S) request.links ≡ ok checked.links
  artifacts :
      replace_all (λ a. normalize_artifact_for_scope a checked.scope) request.artifacts
      ≡ ok checked.artifacts

check_request-Checked :
    (S : Settings) (request checked : RememberRequest)
    → check_request S request ≡ ok checked
    → Checked S request checked
unfolding check_request
check_request-Checked S request checked h =
    let (fields, s1) = check_steps (check_fields S scope request) _ h in
    let (artifacts, s2, made) =
      ok_steps with_artifacts
        (replace_all (λ a. normalize_artifact_for_scope a scope) request.artifacts) s1 in
    let (evidence, s3, sources) =
      ok_steps (with_evidence artifacts) (replace_all (validate_source_relation S) request.evidence)
        s2 in
    let (links, s4, targets) =
      ok_steps (with_links artifacts evidence)
        (replace_all (validate_link_relation S) request.links) s3 in
    let (values, same) = check_steps (check_values S request) _ s4 in
    build fields artifacts evidence links made targets values (ok-injective same)
  where
    scope : Scope
    scope = record (request.scope) { repository = normalize_repository request.scope.repository }

    finished : List ArtifactRef → List EvidenceRef → List LinkInput → RememberRequest
    finished artifacts evidence links = record request {
      scope = scope;
      artifacts = artifacts;
      evidence = evidence;
      links = links;
    }

    with_links : List ArtifactRef → List EvidenceRef → List LinkInput → Outcome RememberRequest
    with_links artifacts evidence links =
        check_values S request >> ok (finished artifacts evidence links)

    with_evidence : List ArtifactRef → List EvidenceRef → Outcome RememberRequest
    with_evidence artifacts evidence =
        replace_all (validate_link_relation S) request.links >>= with_links artifacts evidence

    with_artifacts : List ArtifactRef → Outcome RememberRequest
    with_artifacts artifacts =
        replace_all (validate_source_relation S) request.evidence >>= with_evidence artifacts

    build :
        check_fields S scope request ≡ ok tt
        → (artifacts : List ArtifactRef) (evidence : List EvidenceRef) (links : List LinkInput)
        → replace_all (λ a. normalize_artifact_for_scope a scope) request.artifacts ≡ ok artifacts
        → replace_all (validate_link_relation S) request.links ≡ ok links
        → check_values S request ≡ ok tt
        → finished artifacts evidence links ≡ checked
        → Checked S request checked
    build fields artifacts evidence links made targets values same =
        subst (Checked S request) same (record {
          fields = fields;
          values = values;
          kept = (refl, refl);
          tags = refl;
          links = targets;
          artifacts = made;
        })

validate_scope-clean :
    (S : Settings) (scope : Scope)
    → validate_scope S scope ≡ ok tt
    → is_clean S (scope_metadata scope) ≡ true
unfolding validate_scope
validate_scope-clean S scope h =
    let (name, s1) =
      check_steps
        (guard (not (is_empty (trim scope.namespace)) && leb (byte_length scope.namespace) 128)
          invalid_input)
        _ h in
    let (repository, s2) = check_steps (validate_own_repository scope.repository) _ s1 in
    let (workspace, s3) = check_steps (validate_optional scope.workspace_id 512) _ s2 in
    let (session, s4) = check_steps (validate_optional scope.session_id 512) _ s3 in
    guard_passed (is_clean S (scope_metadata scope)) invalid_input s4

check_values-interval :
    (S : Settings) (request : RememberRequest)
    → check_values S request ≡ ok tt
    → valid_interval request.valid_from request.valid_until ≡ true
unfolding check_values
check_values-interval S request h =
    let (importance, s1) = check_steps (validate_score request.importance) _ h in
    let (confidence, s2) = check_steps (validate_score request.confidence) _ s1 in
    let (key, s3) = check_steps (validate_idempotency request.idempotency_key) _ s2 in
    guard_passed (valid_interval request.valid_from request.valid_until) invalid_input s3

length-dedup_after :
    {A : Type 0} (same : A → A → Bool) (last : A) (xs : List A)
    → length (dedup_after same last xs) ≤ length xs
length-dedup_after same last [] = omega arith
length-dedup_after same last (x ∷ xs) =
    ground (arith, length-dedup_after same last xs, length-dedup_after same x xs)

length-dedup_by :
    {A : Type 0} (same : A → A → Bool) (xs : List A) → length (dedup_by same xs) ≤ length xs
length-dedup_by same [] = omega arith
length-dedup_by same (x ∷ xs) = omega (arith, length-dedup_after same x xs)

length-each : {A : Type 0} (f : A → A × ℕ) (xs : List A) → length (each f xs).0 ≡ length xs
length-each f [] = refl
length-each f (x ∷ xs) = ap suc (length-each f xs)

length-deduplicate_strings : (tags : List Text) → length (deduplicate_strings tags) ≤ length tags
unfolding deduplicate_strings
length-deduplicate_strings tags = omega (
  arith,
  length-dedup_by same_tag (sort_by tag_not_after tags),
  length-perm (sort_by-perm tag_not_after tags),
)

check_fields-checks :
    (S : Settings) (scope : Scope) (request : RememberRequest)
    → check_fields S scope request ≡ ok tt
    → (is_clean S (scope_metadata scope) ≡ true) × (length request.tags ≤ 64)
unfolding check_fields validate_collection
check_fields-checks S scope request h =
    let (scoped, s1) = check_steps (validate_scope S scope) _ h in
    let (title, s2) = check_steps (validate_bounded_text request.title false 4096) _ s1 in
    let (body, s3) = check_steps (validate_text S request.body false) _ s2 in
    let (attributes, s4) = check_steps (validate_attributes S request.attributes) _ s3 in
    let (tags, s5) = guard_steps (leb (length request.tags) 64) invalid_input _ s4 in
    (validate_scope-clean S scope scoped, ground arith)

-- The redaction leaves the scope and the interval, and orders the tags and entities.
hide_request-Accepted :
    (S : Settings) (checked : RememberRequest)
    → length checked.tags ≤ 64
    → is_clean S (scope_metadata checked.scope) ≡ true
    → valid_interval checked.valid_from checked.valid_until ≡ true
    → Accepted S (hide_request S checked)
unfolding hide_request
hide_request-Accepted S checked few clean interval =
    let tags = (each (redact_text S) checked.tags).0 in
    (
      deduplicate_strings-rising tags,
      omega (arith, few, length-deduplicate_strings tags, length-each (redact_text S) checked.tags),
      order_entities-rising ((each (hide_entity S) checked.entities).0),
      is_clean-ScopeUnfound S checked.scope clean,
      valid_interval-IsInterval checked.valid_from checked.valid_until interval,
    )

-- A request that is accepted has at most 64 tags, which differ in more than their case; its entities differ in their kind
-- or their canonical name; both are in order; the redactor finds nothing in the namespace, the
-- workspace, the session or any text of the repository in its scope; and where it has both times of
-- validity, the first is below the second.
pub prepare_memory-Accepted :
    (S : Settings) (request : RememberRequest) (prepared : PreparedMemory)
    → prepare_memory S request ≡ ok prepared
    → Pairwise TagBelow prepared.request.tags
      × (length prepared.request.tags ≤ 64)
      × Pairwise EntityBelow prepared.request.entities
      × ScopeUnfound S prepared.request.scope
      × IsInterval prepared.request.valid_from prepared.request.valid_until
unfolding prepare_memory
prepare_memory-Accepted S request prepared h =
    let (checked, last, first) =
      ok_steps (λ checked. ok (hide_request S checked)) (check_request S request) h in
    let c = check_request-Checked S request checked first in
    let (clean, most) = check_fields-checks S checked.scope request c.fields in
    let (from, until) = c.kept in
    subst (Accepted S) (ok-injective last) (
      hide_request-Accepted S checked (subst (λ t. length t ≤ 64) (sym c.tags) most) clean
        (rw (from, until) (check_values-interval S request c.values)))
