-- ===== src/Store/Retraction.antt =====
-- What a successful `retract` leaves behind, and what a second one meets.
use super_mem.Base.{
  ℕ, ◌+◌, false, not, some, none, List, [], ◌∷◌, Text, ◌≡◌, ◌≢◌, ◌∙◌, ◌==◌, ap, refl, sym, arith,
  Bool-cases, inl, inr, if◌then◌else◌, find, filter, All,
}
use mathlib.Core.Path.{subst}
use super_mem.Types.{MemoryState, Scope}
use super_mem.Store.Outcome.{ok, err, conflict, ok_steps}
use super_mem.Store.Tables.{
  Platform, Moment, Database, HeadRow, RevisionRow, FtsRow, AliasStateRow, ProjectionRow,
  RetractRequest, Durability, WriteReceipt, to_ms,
}
use super_mem.Store.Validate.{find_head, validate_bounded_text, validate_idempotency}
use super_mem.Store.Heads.{update_heads, with_state}
use super_mem.Store.Events.{insert_event, get_idempotent}
use super_mem.Store.Upsert.{is_revision}
use super_mem.Store.Operations.{
  retract, retract_new, load_memory, mark_retracted, deduplicated, target_idempotency,
}

find_head-update_heads :
    (id sequence now : ℕ) (state : MemoryState) (heads : List HeadRow) (head : HeadRow)
    → find_head id heads ≡ some head
    → find_head id (update_heads (λ h. h.memory_id == id) (with_state state sequence now) heads)
      ≡ some (with_state state sequence now head)
unfolding find_head update_heads with_state
find_head-update_heads id sequence now state [] head f = ground arith
find_head-update_heads id sequence now state (x ∷ xs) head f =
    elim (Bool-cases (x.memory_id == id)) [
      | inl e ↦
          rw (e, e)
            (ap (λ o. elim o [ none ↦ none | some h ↦ some (with_state state sequence now h) ])
              (sym (ap (λ b. if b then some x else find_head id xs) e) ∙ f))
      | inr e ↦
          rw (e, e)
            (find_head-update_heads id sequence now state xs head
              (sym (ap (λ b. if b then some x else find_head id xs) e) ∙ f))
    ]

without :
    {A : Type 0} (key : A → ℕ) (id : ℕ) (rows : List A)
    → All (λ r. key r ≢ id) (filter (λ r. not (key r == id)) rows)
without key id [] = tt
without key id (r ∷ rest) = elim (Bool-cases (key r == id)) [
  | inl e ↦ rw e (without key id rest)
  | inr e ↦ rw e (λ same. ground arith, without key id rest)
]

-- The row of a memory after its retraction, written out.
abbrev pub withdrawn : ℕ → ℕ → HeadRow → HeadRow
withdrawn sequence now head = record {
  docid = head.docid;
  memory_id = head.memory_id;
  namespace = head.namespace;
  scope_key = head.scope_key;
  workspace_id = head.workspace_id;
  repo_id = head.repo_id;
  branch = head.branch;
  session_id = head.session_id;
  kind = head.kind;
  state = MemoryState.retracted;
  canonical_key = head.canonical_key;
  head_revision = head.head_revision;
  importance = head.importance;
  confidence = head.confidence;
  trust = head.trust;
  valid_from_ms = head.valid_from_ms;
  valid_until_ms = head.valid_until_ms;
  expires_at_ms = head.expires_at_ms;
  created_at_ms = head.created_at_ms;
  updated_at_ms = to_ms now;
  created_seq = head.created_seq;
  updated_seq = sequence;
}

with_state-withdrawn :
    (sequence now : ℕ) (head : HeadRow)
    → with_state MemoryState.retracted sequence now head ≡ withdrawn sequence now head
unfolding with_state to_ms
with_state-withdrawn sequence now head = refl

module _ (P : Platform) (durability : Durability) where
  -- What the transaction of a retraction does.
  pub record Retracted (request : RetractRequest) (moment : Moment) (db db' : Database)
      : Type 0 where
    pub head : HeadRow
    pub revision : RevisionRow
    pub found : find_head request.memory_id db.memory_heads ≡ some head
    pub loaded :
        find (is_revision request.memory_id head.head_revision) db.memory_revisions ≡ some revision
    pub heads :
        db'.memory_heads
        ≡ update_heads
            (λ h. h.memory_id == request.memory_id)
            (with_state MemoryState.retracted (db.last_seq + 1) moment.now)
            db.memory_heads
    pub revisions : db'.memory_revisions ≡ db.memory_revisions
    pub fts : db'.memory_fts ≡ filter (λ r. not (r.rowid == head.docid)) db.memory_fts
    pub alias_state :
        db'.search_alias_state
        ≡ filter (λ r. not (r.memory_id == request.memory_id)) db.search_alias_state
    pub projections :
        db'.search_projections
        ≡ filter (λ r. not (r.memory_id == request.memory_id)) db.search_projections

  loads :
      (id : ℕ) (db : Database) (head : HeadRow) (found : Scope × MemoryState)
      → find_head id db.memory_heads ≡ some head
      → load_memory id db ≡ ok found
      → (revision : RevisionRow) × (find (is_revision id head.head_revision) db.memory_revisions
          ≡ some revision)
  unfolding load_memory
  loads id db head found f h = ground arith

  retract_fresh :
      (max : ℕ) (request : RetractRequest) (moment : Moment) (db db' : Database)
      (receipt : WriteReceipt)
      → retract P durability max request moment db ≡ ok (db', receipt)
      → receipt.deduplicated ≡ false
      → (head : HeadRow) × (find_head request.memory_id db.memory_heads ≡ some head)
        × (retract_new P durability request
              (P.redact_text request.reason).0
              (P.redact_text request.reason).1
              head
              moment
              db
            ≡ ok (db', receipt))
  unfolding retract deduplicated
  retract_fresh max request moment db db' receipt h fresh = ground arith

  retract_new-Retracted :
      (request : RetractRequest) (reason : Text) (count : ℕ) (head : HeadRow) (moment : Moment)
      (db db' : Database) (receipt : WriteReceipt)
      → find_head request.memory_id db.memory_heads ≡ some head
      → retract_new P durability request reason count head moment db ≡ ok (db', receipt)
      → Retracted request moment db db'
  unfolding retract_new mark_retracted insert_event
  retract_new-Retracted request reason count head moment db db' receipt f h =
      let (found, rest, l) = ok_steps _ (load_memory request.memory_id db) h in
      let (revision, loaded) = loads request.memory_id db head found f l in
      record {
        head = head;
        revision = revision;
        found = f;
        loaded = loaded;
        heads = ground arith;
        revisions = ground arith;
        fts = ground arith;
        alias_state = ground arith;
        projections = ground arith;
      }

  -- After a retraction that was not the replay of an earlier one, the head of the memory is
  -- retracted, and its row has changed in nothing but the state, the time of the update, which is the time
  -- of the call, and the sequence of the update, which is the next one of the events; the rows of all
  -- revisions are as they were; and nothing of it is left in the full-text index, in the
  -- state of the aliases or in the projections.
  pub retract-withdraws :
      (max : ℕ) (request : RetractRequest) (moment : Moment) (db db' : Database)
      (receipt : WriteReceipt)
      → retract P durability max request moment db ≡ ok (db', receipt)
      → receipt.deduplicated ≡ false
      → (head : HeadRow) × (find_head request.memory_id db.memory_heads ≡ some head)
        × (find_head request.memory_id db'.memory_heads
            ≡ some (withdrawn (db.last_seq + 1) moment.now head))
        × (db'.memory_revisions ≡ db.memory_revisions)
        × All (λ r. r.rowid ≢ head.docid) db'.memory_fts
        × All (λ r. r.memory_id ≢ request.memory_id) db'.search_alias_state
        × All (λ r. r.memory_id ≢ request.memory_id) db'.search_projections
  retract-withdraws max request moment db db' receipt h fresh =
      let (head, f, new) = retract_fresh max request moment db db' receipt h fresh in
      let r = retract_new-Retracted request _ _ head moment db db' receipt f new in
      (
        r.head,
        r.found,
        ap (find_head request.memory_id) r.heads
            ∙ find_head-update_heads request.memory_id (db.last_seq + 1) moment.now
                MemoryState.retracted db.memory_heads r.head r.found
            ∙ ap some (with_state-withdrawn (db.last_seq + 1) moment.now r.head),
        r.revisions,
        subst (All (λ x. x.rowid ≢ r.head.docid)) (sym r.fts)
            (without (λ (x : FtsRow). x.rowid) r.head.docid db.memory_fts),
        subst (All (λ x. x.memory_id ≢ request.memory_id)) (sym r.alias_state)
            (without (λ (x : AliasStateRow). x.memory_id) request.memory_id db.search_alias_state),
        subst (All (λ x. x.memory_id ≢ request.memory_id)) (sym r.projections)
            (without (λ (x : ProjectionRow). x.memory_id) request.memory_id db.search_projections),
      )

  load_again :
      (id : ℕ) (db : Database) (head : HeadRow) (revision : RevisionRow)
      → find_head id db.memory_heads ≡ some head
      → find (is_revision id head.head_revision) db.memory_revisions ≡ some revision
      → load_memory id db ≡ ok (revision.scope, head.state)
  unfolding load_memory
  load_again id db head revision f l = ground arith

  refused :
      (request : RetractRequest) (reason : Text) (count : ℕ) (head : HeadRow) (moment : Moment)
      (db : Database) (scope : Scope)
      → load_memory request.memory_id db ≡ ok (scope, MemoryState.retracted)
      → retract_new P durability request reason count head moment db ≡ err conflict
  unfolding retract_new
  refused request reason count head moment db scope l = ground arith

  goes_on :
      (max : ℕ) (request : RetractRequest) (moment : Moment) (db : Database) (head : HeadRow)
      → request.idempotency_key ≡ none
      → validate_bounded_text request.reason false max ≡ ok tt
      → find_head request.memory_id db.memory_heads ≡ some head
      → retract_new P durability request
          (P.redact_text request.reason).0
          (P.redact_text request.reason).1
          head
          moment
          db
        ≡ err conflict
      → retract P durability max request moment db ≡ err conflict
  unfolding retract validate_idempotency get_idempotent target_idempotency
  goes_on max request moment db head k v f n = ground arith

  -- After a retraction that was not the replay of an earlier one, a second retraction of the same
  -- memory, with a valid reason and without an idempotency key, is refused as a conflict.
  pub retract-again :
      (max : ℕ) (request request' : RetractRequest) (moment moment' : Moment) (db db' : Database)
      (receipt : WriteReceipt)
      → retract P durability max request moment db ≡ ok (db', receipt)
      → receipt.deduplicated ≡ false
      → request'.memory_id ≡ request.memory_id
      → request'.idempotency_key ≡ none
      → validate_bounded_text request'.reason false max ≡ ok tt
      → retract P durability max request' moment' db' ≡ err conflict
  unfolding with_state
  retract-again max request request' moment moment' db db' receipt h fresh same k v =
      let (head, f, new) = retract_fresh max request moment db db' receipt h fresh in
      let r = retract_new-Retracted request _ _ head moment db db' receipt f new in
      let head' = with_state MemoryState.retracted (db.last_seq + 1) moment.now r.head in
      let f' : find_head request'.memory_id db'.memory_heads ≡ some head' =
        ap (λ id. find_head id db'.memory_heads) same
        ∙ ap (find_head request.memory_id) r.heads
        ∙ find_head-update_heads request.memory_id (db.last_seq + 1) moment.now
            MemoryState.retracted db.memory_heads r.head r.found in
      let l' : find (is_revision request'.memory_id head'.head_revision) db'.memory_revisions
          ≡ some (r.revision) =
        ap (λ id. find (is_revision id r.head.head_revision) db'.memory_revisions) same
        ∙ ap (find (is_revision request.memory_id r.head.head_revision)) r.revisions
        ∙ r.loaded in
      goes_on max request' moment' db' head' k v f' (
        refused request' _ _ head' moment' db' r.revision.scope
          (load_again request'.memory_id db' head' r.revision f' l'))
