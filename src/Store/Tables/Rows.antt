-- ===== src/Store/Tables/Rows.antt =====
-- The rows of the tables.
use super_mem.Base.{ℕ, Text, Option, List}
use super_mem.Types.{EventKind, MemoryKind, MemoryState, Scope, TrustLevel, Value}
use super_mem.Applicability.Artifacts.{ArtifactFingerprint}

pub record EventRow : Type 0 where
  pub seq : ℕ
  pub event_id : ℕ
  pub namespace : Text
  pub kind : EventKind
  pub scope : Scope
  pub content : Text
  pub attributes : List (Text × Value)
  pub trust : TrustLevel
  pub occurred_at_ms : ℕ
  pub ingested_at_ms : ℕ
  pub content_hash : Text
  pub redaction_count : ℕ

pub record HeadRow : Type 0 where
  pub docid : ℕ
  pub memory_id : ℕ
  pub namespace : Text
  pub scope_key : Text
  pub workspace_id : Option Text
  pub repo_id : Option Text
  pub branch : Option Text
  pub session_id : Option Text
  pub kind : MemoryKind
  pub state : MemoryState
  pub canonical_key : Option Text
  pub head_revision : ℕ
  pub importance : ℕ
  pub confidence : ℕ
  pub trust : TrustLevel
  pub valid_from_ms : Option ℕ
  pub valid_until_ms : Option ℕ
  pub expires_at_ms : Option ℕ
  pub created_at_ms : ℕ
  pub updated_at_ms : ℕ
  pub created_seq : ℕ
  pub updated_seq : ℕ

pub record RevisionRow : Type 0 where
  pub memory_id : ℕ
  pub revision : ℕ
  pub title : Text
  pub body : Text
  pub attributes : List (Text × Value)
  pub scope : Scope
  pub content_hash : Text
  pub recorded_at_ms : ℕ
  pub retired_at_ms : Option ℕ
  pub recorded_seq : ℕ

pub record MetadataRow : Type 0 where
  pub memory_id : ℕ
  pub revision : ℕ
  pub kind : MemoryKind
  pub state : MemoryState
  pub canonical_key : Option Text
  pub importance : ℕ
  pub confidence : ℕ
  pub trust : TrustLevel
  pub valid_from_ms : Option ℕ
  pub valid_until_ms : Option ℕ
  pub expires_at_ms : Option ℕ

pub record EvidenceRow : Type 0 where
  pub memory_id : ℕ
  pub revision : ℕ
  pub event_id : ℕ
  pub span_start : Option ℕ
  pub span_end : Option ℕ
  pub relation : Text

pub record TagRow : Type 0 where
  pub memory_id : ℕ
  pub revision : ℕ
  pub tag : Text
  pub normalized : Text

pub record EntityRow : Type 0 where
  pub entity_id : ℕ
  pub namespace : Text
  pub kind : Text
  pub canonical : Text
  pub display : Text

pub record ArtifactRow : Type 0 where
  pub artifact_id : ℕ
  pub namespace : Text
  pub repo_id : Text
  pub path : Text
  pub symbol : Text
  pub content_hash : Text
  pub git_oid : Text
  pub language : Text

-- A row of `artifact_fingerprints`: the two digests are NULL together.
pub record FingerprintRow : Type 0 where
  pub artifact_id : ℕ
  pub digests : Option ArtifactFingerprint

-- A row of `memory_entities` or of `memory_artifacts`.
pub record AttachmentRow : Type 0 where
  pub memory_id : ℕ
  pub revision : ℕ
  pub attached_id : ℕ

pub record LinkRow : Type 0 where
  pub link_id : ℕ
  pub source_memory_id : ℕ
  pub target_memory_id : ℕ
  pub relation : Text
  pub weight : ℕ
  pub created_event_id : ℕ
  pub created_at_ms : ℕ

pub record LinkRevisionRow : Type 0 where
  pub link_id : ℕ
  pub source_memory_id : ℕ
  pub source_revision : ℕ
  pub target_memory_id : ℕ
  pub relation : Text
  pub weight : ℕ
  pub created_event_id : ℕ
  pub created_at_ms : ℕ

pub record EventMemoryRow : Type 0 where
  pub event_id : ℕ
  pub memory_id : ℕ

pub record FtsRow : Type 0 where
  pub rowid : ℕ
  pub title : Text
  pub body : Text
  pub tags : Text
  pub entities : Text
  pub paths : Text
  pub aliases : Text
  pub expansions : Text

pub record AliasStateRow : Type 0 where
  pub memory_id : ℕ
  pub revision : ℕ
  pub algorithm_version : ℕ

-- The columns of `search_projections` that say whose projection it is.
pub record ProjectionRow : Type 0 where
  pub profile_id : Text
  pub memory_id : ℕ
  pub revision : ℕ
