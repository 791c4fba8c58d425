-- ===== src/Store/Operations.antt =====
-- `remember`, after `prepare_memory`, and `retract`. An error leaves the database as it was: the
-- transaction is dropped before it is committed.
use super_mem.Base.{
  ℕ, Text, codes, Bool, true, false, not, Option, none, some, [], ◌∷◌, ◌++◌, ◌==◌, filter, find,
}
use super_mem.Types.{EventKind, MemoryState, TrustLevel, Scope}
use super_mem.Utf8.{as_bytes}
use super_mem.Store.Outcome.{Outcome, ok, conflict, ◌>>=◌, ◌>>◌, guard}
use super_mem.Store.Tables.{
  Platform, Moment, Database, HeadRow, Durability, WriteReceipt, RememberRequest, PreparedMemory,
  RetractRequest,
}
use super_mem.Store.Scoping.{scoped_idempotency_key, stabilize_scope}
use super_mem.Store.Validate.{
  validate_evidence, validate_links, validate_idempotency, validate_bounded_text, find_head,
  or_not_found,
}
use super_mem.Store.Heads.{update_heads, with_state}
use super_mem.Store.Links.{note_event_memory}
use super_mem.Store.Events.{insert_event, get_idempotent, put_idempotent}
use super_mem.Store.Upsert.{upsert_memory, is_revision}

unfoldable pub deduplicated : WriteReceipt → WriteReceipt
deduplicated receipt = record receipt { deduplicated = true }

unfoldable pub receipt_of : ℕ → ℕ → ℕ → Durability → ℕ → WriteReceipt
receipt_of event_id memory_id sequence durability redaction_count = record {
  event_id = event_id;
  memory_ids = memory_id ∷ [];
  database_seq = sequence;
  lexical_index_seq = sequence;
  deduplicated = false;
  durability = durability;
  redaction_count = redaction_count;
}

-- `load_memory`: the scope of the revision that the head points at, and the state of the head.
unfoldable pub load_memory : ℕ → Database → Outcome (Scope × MemoryState)
unfolding find_head is_revision
load_memory id db = do
  head ← or_not_found (find_head id db.memory_heads)
  revision ← or_not_found (find (is_revision id head.head_revision) db.memory_revisions)
  ok (revision.scope, head.state)

abbrev pub is_retracted : MemoryState → Bool
is_retracted MemoryState.retracted = true
is_retracted MemoryState.active = false
is_retracted MemoryState.contested = false
is_retracted MemoryState.superseded = false

module _ (P : Platform) (durability : Durability) where
  unfoldable pub request_hash : RememberRequest → Text
  unfolding stabilize_scope
  request_hash request =
      P.request_fingerprint
        (record request { scope = stabilize_scope request.scope; idempotency_key = none })

  -- The write itself, for a request that was not answered before.
  unfoldable pub remember_new :
      PreparedMemory → Moment → Database → Outcome (Database × WriteReceipt)
  unfolding validate_evidence validate_links insert_event upsert_memory put_idempotent receipt_of
      scoped_idempotency_key request_hash
  remember_new prepared moment db = do
    let request = prepared.request
    validate_evidence P db.events request.scope request.evidence
    validate_links P db.memory_heads request.scope request.links
    inserted ←
        insert_event P moment.event_id EventKind.explicit_memory request.scope request.body
          request.attributes request.trust moment.now moment.now prepared.redaction_count db
    written ← upsert_memory P prepared moment inserted.1 inserted.0
    let receipt =
        receipt_of moment.event_id written.1 inserted.1 durability prepared.redaction_count
    keys ←
        put_idempotent request.scope.namespace (codes "remember")
          (scoped_idempotency_key P request.scope request.idempotency_key) (request_hash request)
          receipt moment.now written.0.idempotency
    ok (record (written.0) { idempotency = keys }, receipt)

  unfoldable pub remember : PreparedMemory → Moment → Database → Outcome (Database × WriteReceipt)
  unfolding validate_idempotency get_idempotent remember_new deduplicated scoped_idempotency_key
      request_hash
  remember prepared moment db = do
    let request = prepared.request
    validate_idempotency request.idempotency_key
    answered ←
        get_idempotent db.idempotency request.scope.namespace (codes "remember")
          (scoped_idempotency_key P request.scope request.idempotency_key) (request_hash request)
    elim answered [
      | some receipt ↦ ok (db, deduplicated receipt)
      | none ↦ remember_new prepared moment db
    ]

  -- `format!("{}\0{key}", request.memory_id)`, hashed.
  unfoldable pub target_idempotency : ℕ → Option Text → Option Text
  target_idempotency memory_id none = none
  target_idempotency memory_id (some key) =
      some (P.hex_digest (as_bytes (P.show_id memory_id ++ (0 ∷ key))))

  -- What the transaction of `retract` does to the tables, beside the event and the receipt.
  unfoldable pub mark_retracted : ℕ → Moment → ℕ → ℕ → Database → Database
  unfolding update_heads with_state note_event_memory
  mark_retracted memory_id moment docid sequence db = record db {
    memory_heads =
        update_heads (λ h. h.memory_id == memory_id)
          (with_state MemoryState.retracted sequence moment.now) db.memory_heads;
    link_tables = record (db.link_tables) {
      event_memories = note_event_memory moment.event_id memory_id db.link_tables.event_memories;
    };
    memory_fts = filter (λ r. not (r.rowid == docid)) db.memory_fts;
    search_alias_state = filter (λ r. not (r.memory_id == memory_id)) db.search_alias_state;
    search_projections = filter (λ r. not (r.memory_id == memory_id)) db.search_projections;
  }

  unfoldable pub retract_new :
      RetractRequest → Text → ℕ → HeadRow → Moment → Database → Outcome (Database × WriteReceipt)
  unfolding load_memory insert_event mark_retracted put_idempotent receipt_of target_idempotency
  retract_new request reason redaction_count head moment db = do
    memory ← load_memory request.memory_id db
    guard (not (is_retracted memory.1)) conflict
    inserted ←
        insert_event P moment.event_id EventKind.lifecycle memory.0 reason
          ((codes "memory_id", P.memory_id_value request.memory_id) ∷ []) TrustLevel.user_confirmed
          moment.now moment.now redaction_count db
    let marked = mark_retracted request.memory_id moment head.docid inserted.1 inserted.0
    let receipt = receipt_of moment.event_id request.memory_id inserted.1 durability redaction_count
    keys ←
        put_idempotent head.namespace (codes "retract")
          (target_idempotency request.memory_id request.idempotency_key)
          (P.retract_fingerprint request.memory_id reason) receipt moment.now marked.idempotency
    ok (record marked { idempotency = keys }, receipt)

  -- The argument `max_text_bytes` is that of the options of the engine.
  unfoldable pub retract :
      ℕ → RetractRequest → Moment → Database → Outcome (Database × WriteReceipt)
  unfolding validate_bounded_text validate_idempotency find_head get_idempotent retract_new
      deduplicated target_idempotency
  retract max_text_bytes request moment db = do
    validate_bounded_text request.reason false max_text_bytes
    validate_idempotency request.idempotency_key
    let redacted = P.redact_text request.reason
    head ← or_not_found (find_head request.memory_id db.memory_heads)
    answered ←
        get_idempotent db.idempotency head.namespace (codes "retract")
          (target_idempotency request.memory_id request.idempotency_key)
          (P.retract_fingerprint request.memory_id redacted.0)
    elim answered [
      | some receipt ↦ ok (db, deduplicated receipt)
      | none ↦ retract_new request redacted.0 redacted.1 head moment db
    ]
