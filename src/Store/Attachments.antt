-- ===== src/Store/Attachments.antt =====
-- What `upsert_memory` attaches to a revision: evidence, tags, entities and artifacts.
use super_mem.Base.{
  ℕ, ◌+◌, Text, codes, Bool, ◌&&◌, Option, none, some, List, [], ◌∷◌, ◌++◌, ◌==◌, text_eq, any,
  find, is_empty, if◌then◌else◌,
}
use super_mem.Types.{EvidenceRef, EntityRef, ArtifactRef, Scope}
use super_mem.Applicability.Artifacts.{ArtifactFingerprint}
use super_mem.Applicability.Digests.{artifact_fingerprint}
use super_mem.Store.Words.{to_ascii_lowercase}
use super_mem.Store.Tables.{
  Platform, EvidenceRow, TagRow, EntityRow, ArtifactRow, FingerprintRow, AttachmentRow,
  EntityTables, ArtifactTables,
}
use super_mem.Store.Scoping.{attachment_namespace}

-- `INSERT OR IGNORE`: the test says which rows have the key of the new one.
unfoldable pub insert_or_ignore : {A : Type 0} → (A → Bool) → A → List A → List A
insert_or_ignore same row rows = if any same rows then rows else rows ++ (row ∷ [])

unfoldable pub insert_evidence : EvidenceRow → List EvidenceRow → List EvidenceRow
unfolding insert_or_ignore
insert_evidence row rows =
    insert_or_ignore
      (λ r.
        r.memory_id == row.memory_id
        && (r.revision == row.revision
            && (r.event_id == row.event_id && text_eq r.relation row.relation)))
      row rows

-- The loop over `request.evidence`.
unfoldable pub attach_evidence : ℕ → ℕ → List EvidenceRef → List EvidenceRow → List EvidenceRow
unfolding insert_evidence
attach_evidence memory_id revision [] rows = rows
attach_evidence memory_id revision (e ∷ rest) rows = attach_evidence memory_id revision rest (
    insert_evidence
      (record {
        memory_id = memory_id;
        revision = revision;
        event_id = e.event_id;
        span_start = e.span_start;
        span_end = e.span_end;
        relation = e.relation;
      })
      rows)

-- The loop over `request.tags`.
unfoldable pub attach_tags : ℕ → ℕ → List Text → List TagRow → List TagRow
unfolding insert_or_ignore to_ascii_lowercase
attach_tags memory_id revision [] rows = rows
attach_tags memory_id revision (t ∷ rest) rows = attach_tags memory_id revision rest (
    insert_or_ignore
      (λ r.
        r.memory_id == memory_id
        && (r.revision == revision && text_eq r.normalized (to_ascii_lowercase t)))
      (record {
        memory_id = memory_id;
        revision = revision;
        tag = t;
        normalized = to_ascii_lowercase t;
      })
      rows)

unfoldable pub attach : ℕ → ℕ → ℕ → List AttachmentRow → List AttachmentRow
unfolding insert_or_ignore
attach memory_id revision attached_id rows =
    insert_or_ignore
      (λ r. r.memory_id == memory_id && (r.revision == revision && r.attached_id == attached_id))
      (record { memory_id = memory_id; revision = revision; attached_id = attached_id }) rows

-- `unwrap_or("")`.
unfoldable pub or_empty : Option Text → Text
or_empty none = []
or_empty (some t) = t

-- The row of `entities` with the same namespace, kind and canonical name.
unfoldable pub find_entity : Text → Text → Text → List EntityRow → Option EntityRow
find_entity namespace kind canonical rows =
    find
      (λ r. text_eq r.namespace namespace && (text_eq r.kind kind && text_eq r.canonical canonical))
      rows

unfoldable pub find_artifact : ArtifactRow → List ArtifactRow → Option ArtifactRow
find_artifact a rows =
    find
      (λ r.
        text_eq r.namespace a.namespace
        && (text_eq r.repo_id a.repo_id
            && (text_eq r.path a.path
                && (text_eq r.symbol a.symbol
                    && (text_eq r.content_hash a.content_hash && text_eq r.git_oid a.git_oid)))))
      rows

-- `ON CONFLICT(artifact_id) DO UPDATE SET identity=excluded.identity,content=excluded.content`.
unfoldable pub put_fingerprint :
    ℕ → Option ArtifactFingerprint → List FingerprintRow → List FingerprintRow
put_fingerprint id digests [] = record { artifact_id = id; digests = digests } ∷ []
put_fingerprint id digests (r ∷ rest) =
    let later = put_fingerprint id digests rest in
    if r.artifact_id == id then record { artifact_id = id; digests = digests } ∷ rest else r ∷ later

-- `trim_start_matches("./")`: the prefix goes as often as it stands there. Then `replace('\\', "/")`.
unfoldable pub trim_dot_slash : Text → Text
trim_dot_slash [] = []
trim_dot_slash (c ∷ []) = c ∷ []
trim_dot_slash (c ∷ d ∷ rest) =
    let shorter = trim_dot_slash rest in if c == 0x2e && d == 0x2f then shorter else c ∷ d ∷ rest

unfoldable pub forward_slashes : Text → Text
forward_slashes [] = []
forward_slashes (c ∷ s) = (if c == 0x5c then 0x2f else c) ∷ forward_slashes s

unfoldable pub normalize_artifact_path : Text → Text
unfolding trim_dot_slash forward_slashes
normalize_artifact_path path = forward_slashes (trim_dot_slash path)

module _ (P : Platform) (scope : Scope) (memory_id revision : ℕ) where
  -- One round of the loop over `request.entities`. An existing row keeps its identifier.
  unfoldable pub attach_entity : EntityRef → EntityTables → EntityTables
  unfolding attachment_namespace find_entity attach to_ascii_lowercase
  attach_entity e t =
      let namespace = attachment_namespace P scope (codes "entity") e.display in
      let canonical = to_ascii_lowercase e.canonical in
      elim (find_entity namespace e.kind canonical t.entities) [
        | some row ↦ record t {
          memory_entities = attach memory_id revision row.entity_id t.memory_entities;
        }
        | none ↦ record {
          last_entity = t.last_entity + 1;
          entities =
              t.entities
              ++ (record {
                entity_id = t.last_entity + 1;
                namespace = namespace;
                kind = e.kind;
                canonical = canonical;
                display = e.display;
              }
                  ∷ []);
          memory_entities = attach memory_id revision (t.last_entity + 1) t.memory_entities;
        }
      ]

  unfoldable pub attach_entities : List EntityRef → EntityTables → EntityTables
  unfolding attach_entity
  attach_entities [] t = t
  attach_entities (e ∷ rest) t = attach_entities rest (attach_entity e t)

  -- The row that an artifact asks for, under a new identifier.
  unfoldable pub artifact_row : ArtifactRef → ℕ → ArtifactRow
  unfolding attachment_namespace normalize_artifact_path or_empty
  artifact_row a id = record {
    artifact_id = id;
    namespace = attachment_namespace P scope (codes "artifact") (or_empty a.language);
    repo_id = a.repo_id;
    path = normalize_artifact_path a.path;
    symbol = or_empty a.symbol;
    content_hash = or_empty a.content_hash;
    git_oid = or_empty a.git_oid;
    language = or_empty a.language;
  }

  -- `(!symbol.is_empty()).then_some(symbol)`.
  unfoldable pub named_symbol : Text → Option Text
  named_symbol symbol = if is_empty symbol then none else some symbol

  unfoldable pub artifact_digests : ArtifactRef → Option ArtifactFingerprint
  unfolding artifact_fingerprint named_symbol normalize_artifact_path or_empty
  artifact_digests a = elim a.content_hash [
    | none ↦ none
    | some content_hash ↦ some (
        artifact_fingerprint P.digest a.repo_id (normalize_artifact_path a.path)
          (named_symbol (or_empty a.symbol)) content_hash)
  ]

  unfoldable pub link_artifact : ℕ → Option ArtifactFingerprint → ArtifactTables → ArtifactTables
  unfolding put_fingerprint attach
  link_artifact id digests t = record t {
    artifact_fingerprints = put_fingerprint id digests t.artifact_fingerprints;
    memory_artifacts = attach memory_id revision id t.memory_artifacts;
  }

  -- One round of the loop over `request.artifacts`.
  unfoldable pub attach_artifact : ArtifactRef → ArtifactTables → ArtifactTables
  unfolding artifact_row find_artifact artifact_digests link_artifact
  attach_artifact a t =
      let row = artifact_row a (t.last_artifact + 1) in
      elim (find_artifact row t.artifacts) [
        | some old ↦ link_artifact old.artifact_id (artifact_digests a) t
        | none ↦
            link_artifact row.artifact_id (artifact_digests a)
              (record t { last_artifact = row.artifact_id; artifacts = t.artifacts ++ (row ∷ []) })
      ]

  unfoldable pub attach_artifacts : List ArtifactRef → ArtifactTables → ArtifactTables
  unfolding attach_artifact
  attach_artifacts [] t = t
  attach_artifacts (a ∷ rest) t = attach_artifacts rest (attach_artifact a t)
