-- ===== src/Types/Records.antt =====
-- The records that the engine stores, ranks and returns.
use super_mem.Base.{ℕ, Text, Option, List}
use super_mem.Types.Json.{Value}
use super_mem.Types.Labels.{MemoryKind, MemoryState, TrustLevel, Applicability, RetrievalSignal}
use super_mem.Types.Scopes.{Scope, ArtifactRef}

pub record EntityRef : Type 0 where
  pub kind : Text
  pub canonical : Text
  pub display : Text

pub record EvidenceRef : Type 0 where
  pub event_id : ℕ
  pub span_start : Option ℕ
  pub span_end : Option ℕ
  pub relation : Text

pub record LinkInput : Type 0 where
  pub target : ℕ
  pub relation : Text
  pub weight : ℕ

pub record Memory : Type 0 where
  pub memory_id : ℕ
  pub revision : ℕ
  pub kind : MemoryKind
  pub state : MemoryState
  pub scope : Scope
  pub canonical_key : Option Text
  pub title : Text
  pub body : Text
  pub importance : ℕ
  pub confidence : ℕ
  pub trust : TrustLevel
  pub valid_from : Option ℕ
  pub valid_until : Option ℕ
  pub expires_at : Option ℕ
  pub created_at : ℕ
  pub updated_at : ℕ
  pub attributes : List (Text × Value)
  pub tags : List Text
  pub entities : List EntityRef
  pub artifacts : List ArtifactRef
  pub evidence : List EvidenceRef

pub record RecallHit : Type 0 where
  pub memory : Memory
  pub score : ℕ
  pub applicability : Applicability
  pub signals : List RetrievalSignal
  pub reasons : List Text

pub record ContextItem : Type 0 where
  pub memory_id : ℕ
  pub revision : ℕ
  pub title : Text
  pub body : Text
  pub score : ℕ
  pub applicability : Applicability
  pub reasons : List Text
  pub estimated_tokens : ℕ
  pub citations : List ℕ

pub record ContextSection : Type 0 where
  pub name : Text
  pub items : List ContextItem

pub record ContextPack : Type 0 where
  pub query_id : ℕ
  pub database_seq : ℕ
  pub token_budget : ℕ
  pub estimated_tokens : ℕ
  pub sections : List ContextSection
  pub warnings : List Text
  pub rendered : Text
  pub hits : List RecallHit
