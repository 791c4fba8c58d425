-- ===== src/Store/Replay.antt =====
-- Idempotency: what a second request with the same key gets.
use super_mem.Base.{
  ℕ, Bool, true, false, Option, some, none, List, [], ◌∷◌, ◌++◌, Text, codes, text_eq, text_eq_iff,
  ◌≡◌, ◌∙◌, ◌⊎◌, ap, refl, sym, arith, inl, inr, any, find, if◌then◌else◌,
}
use mathlib.Core.Path.{subst}
use super_mem.Store.Outcome.{ok, err, conflict}
use super_mem.Types.{Scope}
use super_mem.Store.Tables.{
  Platform, Moment, Database, IdempotencyRow, PreparedMemory, Durability, WriteReceipt, to_ms,
}
use super_mem.Store.Scoping.{scoped_idempotency_key}
use super_mem.Store.Validate.{validate_idempotency}
use super_mem.Store.Events.{get_idempotent, put_idempotent, has_idempotency_key}
use super_mem.Store.Operations.{remember, remember_new, request_hash, deduplicated}
use super_mem.Store.Steps.{remember_new-Remembered}
use super_mem.Store.Lasting.{Calls}
use super_mem.Store.Keys.{get_idempotent-Calls}

find-append :
    (p : IdempotencyRow → Bool) (rows : List IdempotencyRow) (row : IdempotencyRow)
    → any p rows ≡ false
    → p row ≡ true
    → find p (rows ++ (row ∷ [])) ≡ some row
find-append p [] row a h = ground arith
find-append p (r ∷ rest) row a h = ground (arith, find-append p rest row)

has_own_key :
    (namespace operation key hash : Text) (receipt : WriteReceipt) (time : ℕ)
    → has_idempotency_key namespace operation key (record {
      namespace = namespace;
      operation = operation;
      idempotency_key = key;
      request_hash = hash;
      receipt = receipt;
      created_at_ms = time;
    })
      ≡ true
unfolding has_idempotency_key
has_own_key namespace operation key hash receipt time =
    rw
      (
        (text_eq_iff namespace namespace).1 refl,
        (text_eq_iff operation operation).1 refl,
        (text_eq_iff key key).1 refl,
      )
      refl

abbrev stored : Text → Text → Text → Text → WriteReceipt → ℕ → IdempotencyRow
stored namespace operation key hash receipt now = record {
  namespace = namespace;
  operation = operation;
  idempotency_key = key;
  request_hash = hash;
  receipt = receipt;
  created_at_ms = to_ms now;
}

put_inverse :
    (namespace operation key hash : Text) (receipt : WriteReceipt) (now : ℕ)
    (rows rows' : List IdempotencyRow)
    → put_idempotent namespace operation (some key) hash receipt now rows ≡ ok rows'
    → (any (has_idempotency_key namespace operation key) rows ≡ false)
      × (rows' ≡ rows ++ (stored namespace operation key hash receipt now ∷ []))
unfolding put_idempotent
put_inverse namespace operation key hash receipt now rows rows' h = ground arith

got_put :
    (o : Option IdempotencyRow) (row : IdempotencyRow) (hash : Text)
    → o ≡ some row
    → elim o [
      | none ↦ ok none
      | some row ↦ if text_eq row.request_hash hash then ok (some (row.receipt)) else err conflict
    ]
      ≡ (if text_eq row.request_hash hash then ok (some (row.receipt)) else err conflict)
got_put o row hash e = rw e refl

-- What was put under a key is got under it, by the same request.
get_idempotent-put_idempotent :
    (namespace operation key hash hash' : Text) (receipt : WriteReceipt) (now : ℕ)
    (rows rows' : List IdempotencyRow)
    → put_idempotent namespace operation (some key) hash receipt now rows ≡ ok rows'
    → get_idempotent rows' namespace operation (some key) hash'
      ≡ (if text_eq hash hash' then ok (some receipt) else err conflict)
unfolding get_idempotent
get_idempotent-put_idempotent namespace operation key hash hash' receipt now rows rows' h =
    let (absent, e) = put_inverse namespace operation key hash receipt now rows rows' h in
    let row = stored namespace operation key hash receipt now in
    rw e (
      got_put (find (has_idempotency_key namespace operation key) (rows ++ (row ∷ []))) row hash' (
        find-append (has_idempotency_key namespace operation key) rows row absent
          (has_own_key namespace operation key hash receipt (to_ms now))))

got_again :
    (o : Option IdempotencyRow) (hash hash' : Text) (receipt : WriteReceipt)
    → elim o [
      | none ↦ ok none
      | some row ↦ if text_eq row.request_hash hash then ok (some (row.receipt)) else err conflict
    ]
      ≡ ok (some receipt)
    → elim o [
      | none ↦ ok none
      | some row ↦ if text_eq row.request_hash hash' then ok (some (row.receipt)) else err conflict
    ]
      ≡ (if text_eq hash hash' then ok (some receipt) else err conflict)
got_again none hash hash' receipt h = ground arith
got_again (some row) hash hash' receipt h = ground (arith, text_eq_iff row.request_hash hash)

-- What was got under a key is got again, by the same request only.
get_idempotent-again :
    (namespace operation key hash hash' : Text) (receipt : WriteReceipt)
    (rows : List IdempotencyRow)
    → get_idempotent rows namespace operation (some key) hash ≡ ok (some receipt)
    → get_idempotent rows namespace operation (some key) hash'
      ≡ (if text_eq hash hash' then ok (some receipt) else err conflict)
unfolding get_idempotent
get_idempotent-again namespace operation key hash hash' receipt rows h =
    got_again (find (has_idempotency_key namespace operation key) rows) hash hash' receipt h

namespace_of : {a b : Scope} → a ≡ b → a.namespace ≡ b.namespace
namespace_of e = ap (λ sc. sc.namespace) e

module _ (P : Platform) (durability : Durability) where
  -- What a request gets, by what stands under its key.
  answered :
      (prepared : PreparedMemory) (moment : Moment) (db : Database) (receipt : WriteReceipt)
      (b : Bool) (namespace : Text) (scoped : Option Text)
      → validate_idempotency prepared.request.idempotency_key ≡ ok tt
      → prepared.request.scope.namespace ≡ namespace
      → scoped_idempotency_key P prepared.request.scope prepared.request.idempotency_key ≡ scoped
      → get_idempotent db.idempotency namespace
          (codes "remember")
          scoped
          (request_hash P durability prepared.request)
        ≡ (if b then ok (some receipt) else err conflict)
      → remember P durability prepared moment db
        ≡ (if b then ok (db, deduplicated receipt) else err conflict)
  unfolding remember
  answered prepared moment db receipt true namespace scoped v n e g = ground arith
  answered prepared moment db receipt false namespace scoped v n e g = ground arith

  -- Where the receipt of a success comes from.
  receipt_from :
      (prepared : PreparedMemory) (moment : Moment) (db db' : Database) (receipt : WriteReceipt)
      → remember P durability prepared moment db ≡ ok (db', receipt)
      → (validate_idempotency prepared.request.idempotency_key ≡ ok tt)
        × (((old : WriteReceipt) × (get_idempotent db.idempotency prepared.request.scope.namespace
                  (codes "remember")
                  (scoped_idempotency_key P prepared.request.scope prepared.request.idempotency_key)
                  (request_hash P durability prepared.request)
                ≡ ok (some old))
              × (db' ≡ db)
              × (receipt ≡ deduplicated old))
            ⊎ (remember_new P durability prepared moment db ≡ ok (db', receipt)))
  unfolding remember
  receipt_from prepared moment db db' receipt h = ground arith

  -- What stands under the key of a request that succeeded; `hash` is that of any request.
  kept_receipt :
      (prepared : PreparedMemory) (moment : Moment) (db db' : Database) (receipt : WriteReceipt)
      (key hash : Text)
      → scoped_idempotency_key P prepared.request.scope prepared.request.idempotency_key ≡ some key
      → remember P durability prepared moment db ≡ ok (db', receipt)
      → (last : WriteReceipt) × (deduplicated last ≡ deduplicated receipt)
        × (get_idempotent db'.idempotency prepared.request.scope.namespace
              (codes "remember")
              (some key)
              hash
            ≡ (if text_eq (request_hash P durability prepared.request) hash
                then ok (some last)
                else err conflict))
  unfolding deduplicated
  kept_receipt prepared moment db db' receipt key hash k h =
      elim (receipt_from prepared moment db db' receipt h).1 [
        | inl (old, g, same, r) ↦ (
          old,
          rw r refl,
          subst
              (λ (x : Database).
                get_idempotent x.idempotency prepared.request.scope.namespace (codes "remember")
                  (some key) hash
                ≡ (if text_eq (request_hash P durability prepared.request) hash
                    then ok (some old)
                    else err conflict))
              (sym same)
              (get_idempotent-again prepared.request.scope.namespace (codes "remember") key
                (request_hash P durability prepared.request) hash old db.idempotency
                (rw (sym k) g)),
        )
        | inr new ↦
            let r = remember_new-Remembered P durability prepared moment db db' receipt new in
            (
              receipt,
              refl,
              get_idempotent-put_idempotent prepared.request.scope.namespace (codes "remember") key
                  (request_hash P durability prepared.request) hash receipt moment.now
                  r.after.idempotency db'.idempotency (rw (sym k) r.keys),
            )
      ]

  some_key :
      (scope : Scope) (key : Text)
      → (scoped : Text) × (scoped_idempotency_key P scope (some key) ≡ some scoped)
  unfolding scoped_idempotency_key
  some_key scope key = (_, refl)

  -- After a request with an idempotency key has succeeded, and after any number of further successful
  -- calls of `remember` and `retract`, a request with the same scope and key gets the receipt of
  -- the first, marked as deduplicated, and writes nothing, if the two requests have the same
  -- fingerprint, and the error `conflict` otherwise.
  pub remember-replays :
      (max_text_bytes : ℕ) (prepared prepared' : PreparedMemory) (moment moment' : Moment)
      (db db' db'' : Database) (receipt : WriteReceipt) (key : Text)
      → prepared.request.idempotency_key ≡ some key
      → prepared'.request.idempotency_key ≡ some key
      → prepared'.request.scope ≡ prepared.request.scope
      → remember P durability prepared moment db ≡ ok (db', receipt)
      → Calls P durability max_text_bytes db' db''
      → remember P durability prepared' moment' db'' ≡ (
          if text_eq
            (request_hash P durability prepared.request)
            (request_hash P durability prepared'.request)
          then ok (db'', deduplicated receipt)
          else err conflict)
  remember-replays max prepared prepared' moment moment' db db' db'' receipt key k k' s h calls =
      let (scoped, sk) = some_key prepared.request.scope key in
      let valid = (receipt_from prepared moment db db' receipt h).0 in
      let hash = request_hash P durability prepared'.request in
      let (last, same, g) =
        kept_receipt prepared moment db db' receipt scoped hash
          (ap (scoped_idempotency_key P prepared.request.scope) k ∙ sk) h in
      let same_hash = text_eq (request_hash P durability prepared.request) hash in
      let later =
        get_idempotent-Calls P durability max db' db'' prepared.request.scope.namespace
          (codes "remember") scoped hash last same_hash calls g in
      let again =
        answered prepared' moment' db'' last same_hash prepared.request.scope.namespace
          (some scoped) (ap validate_idempotency (k' ∙ sym k) ∙ valid) (namespace_of s)
          (ap (λ sc. scoped_idempotency_key P sc prepared'.request.idempotency_key) s
            ∙ ap (scoped_idempotency_key P prepared.request.scope) k'
            ∙ sk)
          later in
      rw (sym same) again
