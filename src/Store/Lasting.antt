-- ===== src/Store/Lasting.antt =====
-- The lives of memories over every sequence of `remember` and `retract`.
use super_mem.Base.{
  ℕ, true, false, some, List, [], ◌∷◌, Text, ◌+◌, ◌≡◌, ◌∙◌, ◌⊎◌, ap, ◌==◌, refl, sym, arith, inl,
  inr, All,
}
use mathlib.Core.Path.{subst}
use super_mem.Types.{MemoryState}
use super_mem.Store.Outcome.{ok}
use super_mem.Store.Tables.{
  Platform, Moment, Database, HeadRow, PreparedMemory, RetractRequest, Durability, WriteReceipt,
}
use super_mem.Store.Validate.{find_head}
use super_mem.Store.Heads.{is_live, update_heads, with_state}
use super_mem.Store.Operations.{
  remember, remember_new, retract, retract_new, mark_retracted, is_retracted, load_memory,
}
use super_mem.Store.Events.{insert_event}
use super_mem.Store.Rows.{
  Evolves, Distinct, Holds, Evolves-map, Evolves-refl, Evolves-trans, Evolves-update_heads,
  Distinct-update_heads, Holds-In, find_head-In,
}
use super_mem.Store.Unrevised.{Unrevised}
use super_mem.Store.Claims.{remember_new-Unrevised}

-- A memory keeps its identifier; a retracted one keeps its whole row; a superseded one keeps its
-- row or is retracted.
abbrev pub Lasts : HeadRow → HeadRow → Type 0
Lasts h h' =
    (h'.memory_id ≡ h.memory_id)
    × (h.state ≡ MemoryState.retracted → h' ≡ h)
    × (h.state ≡ MemoryState.superseded → (h' ≡ h) ⊎ (h'.state ≡ MemoryState.retracted))

-- One successful call, with whatever request, clock and fresh identifiers.
module _ (P : Platform) (durability : Durability) (max_text_bytes : ℕ) where
  pub data Call : Database → Database → Type 0 where
    remembers :
        {db db' : Database} {receipt : WriteReceipt} (prepared : PreparedMemory) (moment : Moment)
        → remember P durability prepared moment db ≡ ok (db', receipt)
        → Call db db'
    retracts :
        {db db' : Database} {receipt : WriteReceipt} (request : RetractRequest) (moment : Moment)
        → retract P durability max_text_bytes request moment db ≡ ok (db', receipt)
        → Call db db'

  -- Any number of calls.
  pub data Calls : Database → Database → Type 0 where
    done : {db : Database} → Calls db db
    call : {db db' db'' : Database} → Call db db' → Calls db' db'' → Calls db db''

Lasts-refl : (h : HeadRow) → Lasts h h
Lasts-refl h = (refl, λ e. refl, λ e. inl refl)

state_of : (g h : HeadRow) → g ≡ h → g.state ≡ h.state
state_of g h e = ap (λ r. r.state) e

Lasts-trans : (a b c : HeadRow) → Lasts a b → Lasts b c → Lasts a c
Lasts-trans a b c (i, r, s) (i', r', s') = (
  i' ∙ i,
  λ e. r' (state_of b a (r e) ∙ e) ∙ r e,
  λ e. elim (s e) [
    | inl same ↦ elim (s' (state_of b a same ∙ e)) [
      | inl same' ↦ inl (same' ∙ same)
      | inr gone ↦ inr gone
    ]
    | inr gone ↦ inr (state_of c b (r' gone) ∙ gone)
  ],
)

Unrevised-Lasts : (h h' : HeadRow) → Unrevised h h' → Lasts h h'
Unrevised-Lasts h h' (i, u) = (i, λ e. u (ap is_live e), λ e. inl (u (ap is_live e)))

abbrev Kept : Database → Database → Type 0
Kept db db' = Evolves Lasts db.memory_heads db'.memory_heads × Distinct db'.memory_heads

Kept-refl : (db : Database) → Distinct db.memory_heads → Kept db db
Kept-refl db d = (Evolves-refl Lasts Lasts-refl db.memory_heads, d)

module _ (P : Platform) (durability : Durability) where
  pub remember_either :
      (prepared : PreparedMemory) (moment : Moment) (db db' : Database) (receipt : WriteReceipt)
      → remember P durability prepared moment db ≡ ok (db', receipt)
      → (db' ≡ db) ⊎ (remember_new P durability prepared moment db ≡ ok (db', receipt))
  unfolding remember
  remember_either prepared moment db db' receipt h = ground arith

  pub retract_either :
      (max_text_bytes : ℕ) (request : RetractRequest) (moment : Moment) (db db' : Database)
      (receipt : WriteReceipt)
      → retract P durability max_text_bytes request moment db ≡ ok (db', receipt)
      → (db' ≡ db)
        ⊎ ((head : HeadRow) × (find_head request.memory_id db.memory_heads ≡ some head)
            × (retract_new P durability request
                  (P.redact_text request.reason).0
                  (P.redact_text request.reason).1
                  head
                  moment
                  db
                ≡ ok (db', receipt)))
  unfolding retract
  retract_either max_text_bytes request moment db db' receipt h = ground arith

  retract_new-heads :
      (request : RetractRequest) (reason : Text) (count : ℕ) (head : HeadRow) (moment : Moment)
      (db db' : Database) (receipt : WriteReceipt)
      → find_head request.memory_id db.memory_heads ≡ some head
      → retract_new P durability request reason count head moment db ≡ ok (db', receipt)
      → (sequence : ℕ) × (db'.memory_heads
          ≡ update_heads
              (λ h. h.memory_id == request.memory_id)
              (with_state MemoryState.retracted sequence moment.now)
              db.memory_heads)
        × (is_retracted head.state ≡ false)
  unfolding retract_new mark_retracted load_memory insert_event
  retract_new-heads request reason count head moment db db' receipt f h =
      (db.last_seq + 1, ground arith, ground arith)

-- An UPDATE of rows that are not retracted, to the state `retracted`.
may_retract :
    (id sequence now : ℕ) (xs : List HeadRow)
    → Holds (λ h. is_retracted h.state ≡ false) id xs
    → All
        (λ h.
          (h.memory_id == id) ≡ true → Lasts h (with_state MemoryState.retracted sequence now h))
        xs
unfolding with_state
may_retract id sequence now [] a = tt
may_retract id sequence now (x ∷ xs) a = (
  λ c. (refl, λ e. ground (arith, a.0 (ground arith)), λ e. inr refl),
  may_retract id sequence now xs a.1,
)

module _ (P : Platform) (durability : Durability) where
  retract_new-Kept :
      (request : RetractRequest) (reason : Text) (count : ℕ) (head : HeadRow) (moment : Moment)
      (db db' : Database) (receipt : WriteReceipt)
      → find_head request.memory_id db.memory_heads ≡ some head
      → retract_new P durability request reason count head moment db ≡ ok (db', receipt)
      → Distinct db.memory_heads
      → Kept db db'
  unfolding with_state
  retract_new-Kept request reason count head moment db db' receipt f h d =
      let (sequence, heads, alive) =
        retract_new-heads P durability request reason count head moment db db' receipt f h in
      let (inside, same) = find_head-In request.memory_id db.memory_heads head f in
      let only =
        subst (λ id. Holds (λ g. is_retracted g.state ≡ false) id db.memory_heads) same
          (Holds-In (λ g. is_retracted g.state ≡ false) head db.memory_heads d inside alive) in
      rw heads (
        Evolves-update_heads Lasts Lasts-refl (λ g. g.memory_id == request.memory_id)
            (with_state MemoryState.retracted sequence moment.now) db.memory_heads
            (may_retract request.memory_id sequence moment.now db.memory_heads only),
        Distinct-update_heads (λ g. g.memory_id == request.memory_id)
            (with_state MemoryState.retracted sequence moment.now) (λ g. refl) db.memory_heads d,
      )

  Kept-same : (db db' : Database) → db' ≡ db → Distinct db.memory_heads → Kept db db'
  Kept-same db db' e d = subst (λ x. Kept db x) (sym e) (Kept-refl db d)

  Call-Kept :
      (max_text_bytes : ℕ) (db db' : Database)
      → Call P durability max_text_bytes db db'
      → Distinct db.memory_heads
      → Kept db db'
  Call-Kept max db db' (remembers {receipt} prepared moment h) d =
      elim (remember_either P durability prepared moment db db' receipt h) [
        | inl e ↦ Kept-same db db' e d
        | inr new ↦
            let k = remember_new-Unrevised P durability prepared moment db db' receipt new d in
            (Evolves-map Unrevised Lasts Unrevised-Lasts db.memory_heads db'.memory_heads k.0, k.1)
      ]
  Call-Kept max db db' (retracts {receipt} request moment h) d =
      elim (retract_either P durability max request moment db db' receipt h) [
        | inl e ↦ Kept-same db db' e d
        | inr (head, f, new) ↦ retract_new-Kept request _ _ head moment db db' receipt f new d
      ]

  -- Over any number of successful calls of `remember` and `retract`, from a table memory_heads
  -- with distinct identifiers: the identifiers stay distinct, no row is lost or moved, the row of a
  -- retracted memory never changes again, and a superseded memory keeps its row until it is retracted.
  pub Calls-Lasts :
      (max_text_bytes : ℕ) (db db' : Database)
      → Calls P durability max_text_bytes db db'
      → Distinct db.memory_heads
      → Evolves Lasts db.memory_heads db'.memory_heads × Distinct db'.memory_heads
  Calls-Lasts max db db' done d = Kept-refl db d
  Calls-Lasts max db db'' (call {db'} c rest) d =
      let k = Call-Kept max db db' c d in
      let k' = Calls-Lasts max db' db'' rest k.1 in
      (Evolves-trans Lasts Lasts-trans _ _ _ k.0 k'.0, k'.1)
