-- ===== src/Store/Tables.antt =====
-- The tables of crates/super-mem-core/src/schema.rs that writing a memory reads or changes.
--
-- A table is the list of its rows, the oldest first. A column that holds JSON, or the label of an
-- enumeration, holds here the value itself; a column of times holds the number of `to_ms`.
mod Rows
pub use Rows.*
use super_mem.Base.{ℕ, ◌/◌, ◌^◌, Bool, Text, Option, List}
use super_mem.Types.{
  EventKind, EvidenceRef, EntityRef, ArtifactRef, LinkInput, MemoryKind, MemoryState, Scope,
  TrustLevel, Value,
}
use super_mem.Applicability.Artifacts.{ArtifactFingerprint}

pub data Durability : Type 0 where
  balanced durable : Durability

pub record WriteReceipt : Type 0 where
  pub event_id : ℕ
  pub memory_ids : List ℕ
  pub database_seq : ℕ
  pub lexical_index_seq : ℕ
  pub deduplicated : Bool
  pub durability : Durability
  pub redaction_count : ℕ

pub record IdempotencyRow : Type 0 where
  pub namespace : Text
  pub operation : Text
  pub idempotency_key : Text
  pub request_hash : Text
  pub receipt : WriteReceipt
  pub created_at_ms : ℕ

-- The entities and what is attached to the revisions; `last_entity` is the largest row identifier
-- that `AUTOINCREMENT` has given out.
pub record EntityTables : Type 0 where
  pub last_entity : ℕ
  pub entities : List EntityRow
  pub memory_entities : List AttachmentRow

pub record ArtifactTables : Type 0 where
  pub last_artifact : ℕ
  pub artifacts : List ArtifactRow
  pub artifact_fingerprints : List FingerprintRow
  pub memory_artifacts : List AttachmentRow

pub record LinkTables : Type 0 where
  pub memory_links : List LinkRow
  pub memory_link_revisions : List LinkRevisionRow
  pub event_memories : List EventMemoryRow

pub record Database : Type 0 where
  pub last_seq : ℕ
  pub events : List EventRow
  pub last_docid : ℕ
  pub memory_heads : List HeadRow
  pub memory_revisions : List RevisionRow
  pub memory_revision_metadata : List MetadataRow
  pub memory_evidence : List EvidenceRow
  pub memory_tags : List TagRow
  pub entity_tables : EntityTables
  pub artifact_tables : ArtifactTables
  pub link_tables : LinkTables
  pub memory_fts : List FtsRow
  pub search_alias_state : List AliasStateRow
  pub search_projections : List ProjectionRow
  pub idempotency : List IdempotencyRow

pub record RememberRequest : Type 0 where
  pub memory_id : Option ℕ
  pub idempotency_key : Option Text
  pub kind : MemoryKind
  pub scope : Scope
  pub canonical_key : Option Text
  pub title : Text
  pub body : Text
  pub importance : ℕ
  pub confidence : ℕ
  pub trust : TrustLevel
  pub valid_from : Option ℕ
  pub valid_until : Option ℕ
  pub expires_at : Option ℕ
  pub attributes : List (Text × Value)
  pub tags : List Text
  pub entities : List EntityRef
  pub artifacts : List ArtifactRef
  pub evidence : List EvidenceRef
  pub links : List LinkInput

pub record PreparedMemory : Type 0 where
  pub request : RememberRequest
  pub redaction_count : ℕ

pub record RetractRequest : Type 0 where
  pub memory_id : ℕ
  pub reason : Text
  pub idempotency_key : Option Text

-- What one write takes from the clock and from the generators of identifiers.
pub record Moment : Type 0 where
  pub now : ℕ
  pub event_id : ℕ
  pub fresh_memory : ℕ
  pub fresh_link : ℕ → ℕ

-- `timestamp_millis`, counted from the earliest time; the smallest step of the clock is 1 ns.
unfoldable pub to_ms : ℕ → ℕ
to_ms time = time / 10 ^ 6

-- What the engine calls for. The BLAKE3 digest of bytes as 64 hexadecimal digits and as 32 raw
-- bytes; `serde_json` on the parts of a scope and on a whole request; the printed identifier.
-- `code_aliases`, `redact_text` and the fingerprints are arguments, so that what is proved
-- holds of all functions in their place.
pub record Platform : Type 0 where
  pub hex_digest : List ℕ → Text
  pub raw_digest : List ℕ → List ℕ
  pub digest : List ℕ → ℕ
  pub encode_repository : Text → Text → Text → Option Text → List ℕ
  pub encode_workspace : Text → Text → Option Text → List ℕ
  pub request_fingerprint : RememberRequest → Text
  pub retract_fingerprint : ℕ → Text → Text
  pub memory_id_value : ℕ → Value
  pub show_id : ℕ → Text
  pub code_aliases : Text → Text → List Text → List EntityRef → List ArtifactRef → Text
  pub redact_text : Text → Text × ℕ
