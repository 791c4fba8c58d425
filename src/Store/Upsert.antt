-- ===== src/Store/Upsert.antt =====
-- `upsert_memory`: a memory is created or revised, with all that is attached to the revision.
use super_mem.Base.{
  ℕ, ◌+◌, ◌-◌, ◌^◌, min, Text, codes, Bool, ◌&&◌, not, Option, none, some, List, [], ◌∷◌, ◌++◌, map,
  ◌==◌, any, filter, if◌then◌else◌, is_some,
}
use super_mem.Types.{EntityRef, ArtifactRef, MemoryState}
use super_mem.Store.Outcome.{Outcome, ok, database, ◌>>=◌, ◌>>◌, guard}
use super_mem.Store.Words.{join_words}
use super_mem.Store.Tables.{
  Platform, Moment, Database, HeadRow, RevisionRow, MetadataRow, FtsRow, AliasStateRow,
  RememberRequest, PreparedMemory, to_ms,
}
use super_mem.Store.Scoping.{memory_content_hash}
use super_mem.Store.Validate.{validate_evidence, validate_links, find_head, or_not_found}
use super_mem.Store.Heads.{Claim, find_existing, new_head, revise_heads, map_ms}
use super_mem.Store.Lifecycle.{apply_link_lifecycle}
use super_mem.Store.Attachments.{
  insert_evidence, attach_evidence, attach_tags, attach_entities, attach_artifacts, or_empty,
}
use super_mem.Store.Links.{insert_links, note_event_memory}

-- `saturating_add(1)` of a `u32`.
unfoldable pub next_revision : ℕ → ℕ
next_revision revision = min (revision + 1) (2 ^ 32 - 1)

unfoldable pub is_revision : ℕ → ℕ → RevisionRow → Bool
is_revision memory_id revision row = row.memory_id == memory_id && row.revision == revision

-- `UPDATE memory_revisions SET retired_at_ms=... WHERE ... AND retired_at_ms IS NULL`.
unfoldable pub retire : ℕ → ℕ → ℕ → List RevisionRow → List RevisionRow
unfolding is_revision
retire memory_id revision time [] = []
retire memory_id revision time (r ∷ rest) =
    (if is_revision memory_id revision r && not (is_some r.retired_at_ms)
      then record r { retired_at_ms = some time }
      else r)
    ∷ retire memory_id revision time rest

-- `format!` of an entity and of an artifact.
unfoldable pub entity_words : EntityRef → Text
entity_words e = e.canonical ++ (32 ∷ e.display)

unfoldable pub artifact_words : ArtifactRef → Text
unfolding or_empty
artifact_words a = a.path ++ (32 ∷ or_empty a.symbol)

-- `ON CONFLICT(memory_id) DO UPDATE SET revision=...,algorithm_version=...`.
unfoldable pub put_alias_state : AliasStateRow → List AliasStateRow → List AliasStateRow
put_alias_state row [] = row ∷ []
put_alias_state row (r ∷ rest) =
    let later = put_alias_state row rest in
    if r.memory_id == row.memory_id then row ∷ rest else r ∷ later

module _ (P : Platform) where
  -- The match on `existing`: the old revision is retired, or a row of `memory_heads` is inserted.
  unfoldable pub claim_head :
      RememberRequest → Option HeadRow → Moment → ℕ → Database → Outcome (Database × Claim)
  unfolding retire next_revision new_head to_ms
  claim_head request (some head) moment sequence db = ok (
    record db {
      memory_revisions =
          retire head.memory_id head.head_revision (to_ms moment.now) db.memory_revisions;
    },
    record {
      memory_id = head.memory_id;
      docid = head.docid;
      revision = next_revision head.head_revision;
      created_at_ms = head.created_at_ms;
      created_seq = head.created_seq;
    },
  )
  claim_head request none moment sequence db = do
    let id : ℕ = elim request.memory_id [ some id ↦ id | none ↦ moment.fresh_memory ]
    guard (not (any (λ h. h.memory_id == id) db.memory_heads)) database
    let docid = db.last_docid + 1
    ok (
      record db {
        last_docid = docid;
        memory_heads = db.memory_heads ++ (new_head P request docid id sequence moment.now ∷ []);
      },
      record {
        memory_id = id;
        docid = docid;
        revision = 1;
        created_at_ms = to_ms moment.now;
        created_seq = sequence;
      },
    )

  unfoldable pub new_revision : RememberRequest → Claim → ℕ → ℕ → RevisionRow
  unfolding memory_content_hash to_ms
  new_revision request claim sequence now = record {
    memory_id = claim.memory_id;
    revision = claim.revision;
    title = request.title;
    body = request.body;
    attributes = request.attributes;
    scope = request.scope;
    content_hash = memory_content_hash P request.title request.body;
    recorded_at_ms = to_ms now;
    retired_at_ms = none;
    recorded_seq = sequence;
  }

  unfoldable pub new_metadata : RememberRequest → Claim → MemoryState → MetadataRow
  unfolding map_ms
  new_metadata request claim state = record {
    memory_id = claim.memory_id;
    revision = claim.revision;
    kind = request.kind;
    state = state;
    canonical_key = request.canonical_key;
    importance = request.importance;
    confidence = request.confidence;
    trust = request.trust;
    valid_from_ms = map_ms request.valid_from;
    valid_until_ms = map_ms request.valid_until;
    expires_at_ms = map_ms request.expires_at;
  }

  unfoldable pub fts_row : RememberRequest → ℕ → FtsRow
  unfolding join_words entity_words artifact_words
  fts_row request docid = record {
    rowid = docid;
    title = request.title;
    body = request.body;
    tags = join_words request.tags;
    entities = join_words (map entity_words request.entities);
    paths = join_words (map artifact_words request.artifacts);
    aliases =
        P.code_aliases request.title request.body request.tags request.entities request.artifacts;
    expansions = [];
  }

  -- The new row replaces the row of the same `rowid`; `CODE_ALIAS_VERSION` is 1.
  unfoldable pub rebuild_fts : RememberRequest → Claim → Database → Database
  unfolding fts_row put_alias_state
  rebuild_fts request claim db = record db {
    memory_fts =
        filter (λ r. not (r.rowid == claim.docid)) db.memory_fts
        ++ (fts_row request claim.docid ∷ []);
    search_alias_state =
        put_alias_state
          (record { memory_id = claim.memory_id; revision = claim.revision; algorithm_version = 1 })
          db.search_alias_state;
  }

  -- From the evidence to the artifacts.
  unfoldable pub attach_all : RememberRequest → Claim → ℕ → Database → Database
  unfolding insert_evidence attach_evidence attach_tags attach_entities attach_artifacts
  attach_all request claim event_id db = record db {
    memory_evidence = attach_evidence claim.memory_id claim.revision request.evidence (
        insert_evidence
          (record {
            memory_id = claim.memory_id;
            revision = claim.revision;
            event_id = event_id;
            span_start = none;
            span_end = none;
            relation = codes "derived_from";
          })
          db.memory_evidence);
    memory_tags = attach_tags claim.memory_id claim.revision request.tags db.memory_tags;
    entity_tables =
        attach_entities P request.scope claim.memory_id claim.revision request.entities
          db.entity_tables;
    artifact_tables =
        attach_artifacts P request.scope claim.memory_id claim.revision request.artifacts
          db.artifact_tables;
  }

  -- The new revision and the head that points at it.
  unfoldable pub record_revision : RememberRequest → Claim → ℕ → ℕ → Database → Outcome Database
  unfolding new_revision revise_heads is_revision
  record_revision request claim sequence now db = do
    guard (not (any (is_revision claim.memory_id claim.revision) db.memory_revisions)) database
    ok (record db {
      memory_revisions = db.memory_revisions ++ (new_revision request claim sequence now ∷ []);
      memory_heads = revise_heads P request claim sequence now db.memory_heads;
    })

  -- The row of `memory_revision_metadata`, whose key is the memory and the revision.
  unfoldable pub record_metadata : RememberRequest → Claim → Database → Outcome Database
  unfolding new_metadata find_head
  record_metadata request claim db = do
    head ← or_not_found (find_head claim.memory_id db.memory_heads)
    guard
        (not (
          any (λ m. m.memory_id == claim.memory_id && m.revision == claim.revision)
            db.memory_revision_metadata))
        database
    ok (record db {
      memory_revision_metadata =
          db.memory_revision_metadata ++ (new_metadata request claim head.state ∷ []);
    })

  unfoldable pub upsert_memory : PreparedMemory → Moment → ℕ → Database → Outcome (Database × ℕ)
  unfolding validate_evidence validate_links find_existing claim_head record_revision attach_all
      insert_links apply_link_lifecycle record_metadata note_event_memory rebuild_fts
  upsert_memory prepared moment sequence db = do
    let request = prepared.request
    validate_evidence P db.events request.scope request.evidence
    validate_links P db.memory_heads request.scope request.links
    existing ← find_existing P request db.memory_heads
    claimed ← claim_head request existing moment sequence db
    let claim = claimed.1
    revised ← record_revision request claim sequence moment.now claimed.0
    let attached = attach_all request claim moment.event_id revised
    links ← insert_links moment claim.memory_id claim.revision 0 request.links attached.link_tables
    let linked : Database = record attached {
      link_tables = links;
      memory_heads =
          apply_link_lifecycle claim.memory_id request.links sequence moment.now
            attached.memory_heads;
    }
    described ← record_metadata request claim linked
    let noted : Database = record described {
      link_tables = record links {
        event_memories = note_event_memory moment.event_id claim.memory_id links.event_memories;
      };
    }
    ok (rebuild_fts request claim noted, claim.memory_id)
