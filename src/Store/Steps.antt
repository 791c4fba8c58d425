-- ===== src/Store/Steps.antt =====
-- What a successful write has passed, taken apart.
use super_mem.Base.{ℕ, Option, List, Text, codes, ◌≡◌, arith}
use super_mem.Store.Outcome.{ok}
use super_mem.Store.Tables.{
  Platform, Moment, Database, HeadRow, PreparedMemory, Durability, WriteReceipt,
}
use super_mem.Store.Validate.{validate_links}
use super_mem.Store.Heads.{Claim, find_existing}
use super_mem.Store.Lifecycle.{apply_link_lifecycle}
use super_mem.Store.Upsert.{
  claim_head, record_revision, record_metadata, attach_all, rebuild_fts, upsert_memory,
}
use super_mem.Types.{EventKind, Scope, TrustLevel, Value}
use super_mem.Store.Scoping.{scoped_idempotency_key}
use super_mem.Store.Events.{insert_event, put_idempotent}
use super_mem.Store.Operations.{receipt_of, request_hash, remember_new}

module _ (P : Platform) where
  -- What the stages of `upsert_memory` leave in the tables of the memories.
  pub record Written (prepared : PreparedMemory) (moment : Moment) (sequence : ℕ)
      (db db' : Database) (id : ℕ) : Type 0 where
    pub existing : Option HeadRow
    pub claimed : Database × Claim
    pub revised : Database
    pub linked :
        validate_links P db.memory_heads prepared.request.scope prepared.request.links ≡ ok tt
    pub found : find_existing P prepared.request db.memory_heads ≡ ok existing
    pub claims : claim_head P prepared.request existing moment sequence db ≡ ok claimed
    pub records :
        record_revision P prepared.request claimed.1 sequence moment.now claimed.0 ≡ ok revised
    pub same_id : id ≡ claimed.1.memory_id
    pub revisions : db'.memory_revisions ≡ revised.memory_revisions
    pub heads :
        db'.memory_heads
        ≡ apply_link_lifecycle claimed.1.memory_id prepared.request.links sequence moment.now
            revised.memory_heads
    pub keys : db'.idempotency ≡ revised.idempotency

  pub upsert_memory-Written :
      (prepared : PreparedMemory) (moment : Moment) (sequence : ℕ) (db db' : Database) (id : ℕ)
      → upsert_memory P prepared moment sequence db ≡ ok (db', id)
      → Written prepared moment sequence db db' id
  unfolding upsert_memory record_metadata rebuild_fts attach_all
  upsert_memory-Written prepared moment sequence db db' id h = ground arith

-- What `insert_event` leaves alone.
pub insert_event-heads :
    (P : Platform) (event_id : ℕ) (kind : EventKind) (scope : Scope) (content : Text)
    (attributes : List (Text × Value)) (trust : TrustLevel) (occurred_at ingested_at count : ℕ)
    (db db' : Database) (seq : ℕ)
    → insert_event P event_id kind scope content attributes trust occurred_at ingested_at count db
      ≡ ok (db', seq)
    → (db'.memory_heads ≡ db.memory_heads)
      × (db'.memory_revisions ≡ db.memory_revisions)
      × (db'.idempotency ≡ db.idempotency)
unfolding insert_event
insert_event-heads P event_id kind scope content attributes trust o i count db db' seq h =
    ground arith

module _ (P : Platform) (durability : Durability) where
  -- What `remember_new` does, beside the event.
  pub record Remembered (prepared : PreparedMemory) (moment : Moment) (db db' : Database)
      (receipt : WriteReceipt) : Type 0 where
    pub before : Database
    pub after : Database
    pub sequence : ℕ
    pub id : ℕ
    pub written : Written P prepared moment sequence before after id
    pub before_heads : before.memory_heads ≡ db.memory_heads
    pub before_revisions : before.memory_revisions ≡ db.memory_revisions
    pub before_keys : before.idempotency ≡ db.idempotency
    pub after_heads : db'.memory_heads ≡ after.memory_heads
    pub after_revisions : db'.memory_revisions ≡ after.memory_revisions
    pub same_receipt :
        receipt ≡ receipt_of moment.event_id id sequence durability prepared.redaction_count
    pub keys :
        put_idempotent prepared.request.scope.namespace
          (codes "remember")
          (scoped_idempotency_key P prepared.request.scope prepared.request.idempotency_key)
          (request_hash P durability prepared.request)
          receipt
          moment.now
          after.idempotency
        ≡ ok (db'.idempotency)

  remember_new-stages :
      (prepared : PreparedMemory) (moment : Moment) (db db' : Database) (receipt : WriteReceipt)
      → remember_new P durability prepared moment db ≡ ok (db', receipt)
      → (inserted : Database × ℕ) × (insert_event P moment.event_id EventKind.explicit_memory
            prepared.request.scope prepared.request.body prepared.request.attributes
            prepared.request.trust moment.now moment.now prepared.redaction_count db
          ≡ ok inserted)
        × (written : Database × ℕ) × (upsert_memory P prepared moment inserted.1 inserted.0
            ≡ ok written)
        × (receipt
            ≡ receipt_of moment.event_id written.1 inserted.1 durability prepared.redaction_count)
        × (put_idempotent prepared.request.scope.namespace
              (codes "remember")
              (scoped_idempotency_key P prepared.request.scope prepared.request.idempotency_key)
              (request_hash P durability prepared.request)
              receipt
              moment.now
              written.0.idempotency
            ≡ ok (db'.idempotency))
        × (db'.memory_heads ≡ written.0.memory_heads)
        × (db'.memory_revisions ≡ written.0.memory_revisions)
  unfolding remember_new
  remember_new-stages prepared moment db db' receipt h = ground arith

  pub remember_new-Remembered :
      (prepared : PreparedMemory) (moment : Moment) (db db' : Database) (receipt : WriteReceipt)
      → remember_new P durability prepared moment db ≡ ok (db', receipt)
      → Remembered prepared moment db db' receipt
  remember_new-Remembered prepared moment db db' receipt h =
      let (inserted, hi, written, hw, hr, hk, hh, hv) =
        remember_new-stages prepared moment db db' receipt h in
      let (bh, br, bk) = insert_event-heads P _ _ _ _ _ _ _ _ _ _ _ _ hi in
      record {
        before = inserted.0;
        after = written.0;
        sequence = inserted.1;
        id = written.1;
        written = upsert_memory-Written P prepared moment inserted.1 inserted.0 _ _ hw;
        before_heads = bh;
        before_revisions = br;
        before_keys = bk;
        after_heads = hh;
        after_revisions = hv;
        same_receipt = hr;
        keys = hk;
      }
