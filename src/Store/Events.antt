-- ===== src/Store/Events.antt =====
-- `insert_event`, `get_idempotent` and `put_idempotent`.
use super_mem.Base.{
  ℕ, ◌+◌, Text, Bool, ◌&&◌, not, Option, none, some, List, [], ◌∷◌, ◌++◌, ◌==◌, text_eq, any, find,
  if◌then◌else◌,
}
use super_mem.Types.{EventKind, Scope, TrustLevel, Value}
use super_mem.Utf8.{as_bytes}
use super_mem.Store.Outcome.{Outcome, ok, err, conflict, database, ◌>>◌, guard}
use super_mem.Store.Tables.{Platform, EventRow, IdempotencyRow, WriteReceipt, Database, to_ms}

module _ (P : Platform) where
  -- The sequence number is the row identifier that `AUTOINCREMENT` gives; `event_id` is UNIQUE.
  unfoldable pub insert_event :
      ℕ
      → EventKind
      → Scope
      → Text
      → List (Text × Value)
      → TrustLevel
      → ℕ
      → ℕ
      → ℕ
      → Database
      → Outcome (Database × ℕ)
  unfolding to_ms
  insert_event event_id kind scope content attributes trust occurred_at ingested_at redaction_count
        db =
      do
        guard (not (any (λ e. e.event_id == event_id) db.events)) database
        let seq = db.last_seq + 1
        let row : EventRow = record {
          seq = seq;
          event_id = event_id;
          namespace = scope.namespace;
          kind = kind;
          scope = scope;
          content = content;
          attributes = attributes;
          trust = trust;
          occurred_at_ms = to_ms occurred_at;
          ingested_at_ms = to_ms ingested_at;
          content_hash = P.hex_digest (as_bytes content);
          redaction_count = redaction_count;
        }
        ok (record db { last_seq = seq; events = db.events ++ (row ∷ []) }, seq)

unfoldable pub has_idempotency_key : Text → Text → Text → IdempotencyRow → Bool
has_idempotency_key namespace operation key row =
    text_eq row.namespace namespace
    && (text_eq row.operation operation && text_eq row.idempotency_key key)

unfoldable pub get_idempotent :
    List IdempotencyRow → Text → Text → Option Text → Text → Outcome (Option WriteReceipt)
unfolding has_idempotency_key
get_idempotent rows namespace operation none request_hash = ok none
get_idempotent rows namespace operation (some key) request_hash =
    elim (find (has_idempotency_key namespace operation key) rows) [
      | none ↦ ok none
      | some row ↦
          if text_eq row.request_hash request_hash then ok (some (row.receipt)) else err conflict
    ]

-- The three columns are the primary key.
unfoldable pub put_idempotent :
    Text
    → Text
    → Option Text
    → Text
    → WriteReceipt
    → ℕ
    → List IdempotencyRow
    → Outcome (List IdempotencyRow)
unfolding has_idempotency_key to_ms
put_idempotent namespace operation none request_hash receipt now rows = ok rows
put_idempotent namespace operation (some key) request_hash receipt now rows =
    if any (has_idempotency_key namespace operation key) rows
    then err database
    else ok (
        rows
        ++ (record {
          namespace = namespace;
          operation = operation;
          idempotency_key = key;
          request_hash = request_hash;
          receipt = receipt;
          created_at_ms = to_ms now;
        }
            ∷ []))
