-- ===== src/Store/Keys.antt =====
-- The rows of `idempotency_keys` under any sequence of `remember` and `retract`: none is changed
-- or lost, so that a key is answered as before.
use mathlib.Core.Path.{subst}
use mathlib.Core.List.{append_assoc, append-nil}
use super_mem.Base.{
  ℕ, Bool, Option, none, some, List, [], ◌∷◌, ◌++◌, Text, codes, any, ◌≡◌, ◌∙◌, ap, refl, sym,
  arith, inl, inr, Bool-cases, find, text_eq, if◌then◌else◌,
}
use super_mem.Store.Outcome.{ok, err, conflict}
use super_mem.Store.Tables.{
  Platform, Moment, Database, HeadRow, IdempotencyRow, RememberRequest, PreparedMemory,
  RetractRequest, Durability, WriteReceipt, to_ms,
}
use super_mem.Store.Heads.{Claim}
use super_mem.Store.Events.{get_idempotent, put_idempotent, has_idempotency_key, insert_event}
use super_mem.Store.Upsert.{claim_head, record_revision}
use super_mem.Store.Operations.{
  remember_new, retract_new, mark_retracted, load_memory, target_idempotency,
}
use super_mem.Store.Steps.{remember_new-Remembered}
use super_mem.Store.Lasting.{
  Call, Calls, remembers, retracts, call, done, remember_either, retract_either,
}

-- The second list is the first with rows added at its end.
abbrev pub Grows : List IdempotencyRow → List IdempotencyRow → Type 0
Grows rows rows' = (more : List IdempotencyRow) × (rows' ≡ rows ++ more)

Grows-same : (rows rows' : List IdempotencyRow) → rows' ≡ rows → Grows rows rows'
Grows-same rows rows' e = ([], e ∙ sym (append-nil rows))

Grows-trans : (a b c : List IdempotencyRow) → Grows a b → Grows b c → Grows a c
Grows-trans a b c (more, e) (later, f) =
    (more ++ later, f ∙ ap (λ r. r ++ later) e ∙ append_assoc a more later)

put_idempotent-Grows :
    (namespace operation : Text) (key : Option Text) (hash : Text) (receipt : WriteReceipt)
    (now : ℕ) (rows rows' : List IdempotencyRow)
    → put_idempotent namespace operation key hash receipt now rows ≡ ok rows'
    → Grows rows rows'
unfolding put_idempotent
put_idempotent-Grows namespace operation none hash receipt now rows rows' h =
    Grows-same rows rows' (ground arith)
put_idempotent-Grows namespace operation (some key) hash receipt now rows rows' h =
    elim (Bool-cases (any (has_idempotency_key namespace operation key) rows)) [
      | inl e ↦ absurd (ground arith)
      | inr e ↦ (
        record {
          namespace = namespace;
          operation = operation;
          idempotency_key = key;
          request_hash = hash;
          receipt = receipt;
          created_at_ms = to_ms now;
        }
            ∷ [],
        ground arith,
      )
    ]

find-append :
    (p : IdempotencyRow → Bool) (rows more : List IdempotencyRow) (row : IdempotencyRow)
    → find p rows ≡ some row
    → find p (rows ++ more) ≡ some row
find-append p [] more row h = ground arith
find-append p (r ∷ rest) more row h = ground (arith, find-append p rest more row)

found_row :
    (o : Option IdempotencyRow) (b : Bool) (hash : Text) (receipt : WriteReceipt)
    → elim o [
      | none ↦ ok none
      | some row ↦ if text_eq row.request_hash hash then ok (some (row.receipt)) else err conflict
    ]
      ≡ (if b then ok (some receipt) else err conflict)
    → (row : IdempotencyRow) × (o ≡ some row)
found_row none b hash receipt h = absurd (ground arith)
found_row (some row) b hash receipt h = (row, refl)

-- A key that has a row is answered as before when rows are added.
get_idempotent-append :
    (namespace operation key hash : Text) (receipt : WriteReceipt) (b : Bool)
    (rows more : List IdempotencyRow)
    → get_idempotent rows namespace operation (some key) hash
      ≡ (if b then ok (some receipt) else err conflict)
    → get_idempotent (rows ++ more) namespace operation (some key) hash
      ≡ (if b then ok (some receipt) else err conflict)
unfolding get_idempotent
get_idempotent-append namespace operation key hash receipt b rows more h =
    let p = has_idempotency_key namespace operation key in
    let (row, f) = found_row (find p rows) b hash receipt h in
    ap
      (λ o. elim o [
        | none ↦ ok none
        | some row ↦ if text_eq row.request_hash hash then ok (some (row.receipt)) else err conflict
      ])
      (find-append p rows more row f ∙ sym f)
    ∙ h

module _ (P : Platform) where
  claim_head-keys :
      (request : RememberRequest) (existing : Option HeadRow) (moment : Moment) (sequence : ℕ)
      (db : Database) (claimed : Database × Claim)
      → claim_head P request existing moment sequence db ≡ ok claimed
      → claimed.0.idempotency ≡ db.idempotency
  unfolding claim_head
  claim_head-keys request none moment sequence db claimed h = ground arith
  claim_head-keys request (some head) moment sequence db claimed h = ground arith

  record_revision-keys :
      (request : RememberRequest) (claim : Claim) (sequence now : ℕ) (db db' : Database)
      → record_revision P request claim sequence now db ≡ ok db'
      → db'.idempotency ≡ db.idempotency
  unfolding record_revision
  record_revision-keys request claim sequence now db db' h = ground arith

module _ (P : Platform) (durability : Durability) where
  remember_new-Grows :
      (prepared : PreparedMemory) (moment : Moment) (db db' : Database) (receipt : WriteReceipt)
      → remember_new P durability prepared moment db ≡ ok (db', receipt)
      → Grows db.idempotency db'.idempotency
  remember_new-Grows prepared moment db db' receipt h =
      let r = remember_new-Remembered P durability prepared moment db db' receipt h in
      let w = r.written in
      subst (λ rows. Grows rows db'.idempotency)
        (w.keys
          ∙ record_revision-keys P prepared.request (w.claimed.1) r.sequence moment.now
              (w.claimed.0) w.revised w.records
          ∙ claim_head-keys P prepared.request w.existing moment r.sequence r.before w.claimed
              w.claims
          ∙ r.before_keys)
        (put_idempotent-Grows _ _ _ _ receipt moment.now r.after.idempotency db'.idempotency r.keys)

  retract_new-put :
      (request : RetractRequest) (reason : Text) (count : ℕ) (head : HeadRow) (moment : Moment)
      (db db' : Database) (receipt : WriteReceipt)
      → retract_new P durability request reason count head moment db ≡ ok (db', receipt)
      → put_idempotent head.namespace
          (codes "retract")
          (target_idempotency P durability request.memory_id request.idempotency_key)
          (P.retract_fingerprint request.memory_id reason)
          receipt
          moment.now
          db.idempotency
        ≡ ok (db'.idempotency)
  unfolding retract_new insert_event mark_retracted load_memory
  retract_new-put request reason count head moment db db' receipt h = ground arith

  Call-Grows :
      (max_text_bytes : ℕ) (db db' : Database)
      → Call P durability max_text_bytes db db'
      → Grows db.idempotency db'.idempotency
  Call-Grows max db db' (remembers {receipt} prepared moment h) =
      elim (remember_either P durability prepared moment db db' receipt h) [
        | inl e ↦ Grows-same db.idempotency db'.idempotency (ap (λ (x : Database). x.idempotency) e)
        | inr new ↦ remember_new-Grows prepared moment db db' receipt new
      ]
  Call-Grows max db db' (retracts {receipt} request moment h) =
      elim (retract_either P durability max request moment db db' receipt h) [
        | inl e ↦ Grows-same db.idempotency db'.idempotency (ap (λ (x : Database). x.idempotency) e)
        | inr (head, f, new) ↦
            put_idempotent-Grows _ _ _ _ receipt moment.now db.idempotency db'.idempotency
              (retract_new-put request _ _ head moment db db' receipt new)
      ]

  pub Calls-Grows :
      (max_text_bytes : ℕ) (db db' : Database)
      → Calls P durability max_text_bytes db db'
      → Grows db.idempotency db'.idempotency
  Calls-Grows max db db' done = Grows-same db.idempotency db.idempotency refl
  Calls-Grows max db db'' (call {db'} c rest) =
      Grows-trans db.idempotency db'.idempotency db''.idempotency (Call-Grows max db db' c)
        (Calls-Grows max db' db'' rest)

  -- Any number of calls leaves the answer to a key as it is.
  pub get_idempotent-Calls :
      (max_text_bytes : ℕ) (db db' : Database) (namespace operation key hash : Text)
      (receipt : WriteReceipt) (b : Bool)
      → Calls P durability max_text_bytes db db'
      → get_idempotent db.idempotency namespace operation (some key) hash
        ≡ (if b then ok (some receipt) else err conflict)
      → get_idempotent db'.idempotency namespace operation (some key) hash
        ≡ (if b then ok (some receipt) else err conflict)
  get_idempotent-Calls max db db' namespace operation key hash receipt b calls h =
      let (more, e) = Calls-Grows max db db' calls in
      rw e (get_idempotent-append namespace operation key hash receipt b db.idempotency more h)
