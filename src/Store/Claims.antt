-- ===== src/Store/Claims.antt =====
-- What `upsert_memory` does to the rows of memory_heads.
use super_mem.Base.{
  ℕ, true, false, Option, some, none, List, [], ◌∷◌, ◌++◌, ◌≡◌, ◌∙◌, ◌+◌, ◌⊎◌, Text, ap, ◌==◌, refl,
  sym, arith, inl, inr, In, any, filter,
}
use mathlib.Core.Path.{subst}
use mathlib.Core.Option.{some-injective}
use super_mem.Store.Outcome.{ok, ◌>>=◌, ok_steps}
use super_mem.Store.Tables.{
  Platform, Moment, Database, HeadRow, RememberRequest, PreparedMemory, Durability, WriteReceipt,
}
use super_mem.Store.Validate.{find_head}
use super_mem.Store.Heads.{
  Claim, is_live, update_heads, find_existing, check_revisable, has_key, newest, new_head,
  revise_heads, revised_head,
}
use super_mem.Store.Upsert.{claim_head, record_revision}
use super_mem.Store.Operations.{remember_new}
use super_mem.Store.Steps.{Written, remember_new-Remembered}
use super_mem.Store.Rows.{
  Evolves, Distinct, Holds, Evolves-refl, Evolves-append, Distinct-append, Holds-In, find_head-In,
  newest-In, filter-In,
}
use super_mem.Store.Unrevised.{
  Unrevised, Kept, Unrevised-refl, Kept-trans, Kept-update, Kept-apply_link_lifecycle, Live,
  In-last, All-chosen,
}

module _ (P : Platform) (request : RememberRequest) where
  abbrev FoundBy : List HeadRow → HeadRow → Type 0
  FoundBy heads head =
      ((id : ℕ) × (h : HeadRow) × (find_head id heads ≡ some h)
        × (check_revisable P request h ≡ ok head))
      ⊎ ((key : Text) × (newest (filter (has_key P request key) heads) ≡ some head))

  found_id :
      (heads : List HeadRow) (head : HeadRow) (id : ℕ) (o : Option HeadRow)
      → o ≡ find_head id heads
      → elim o [ none ↦ ok none | some h ↦ check_revisable P request h >>= λ h. ok (some h) ]
        ≡ ok (some head)
      → FoundBy heads head
  found_id heads head id none f e = ground arith
  found_id heads head id (some h) f e =
      let (h', same, c) = ok_steps _ (check_revisable P request h) e in
      inl (id, h, sym f, c ∙ ap ok (some-injective _ _ (ground arith)))

  found_key :
      (heads : List HeadRow) (head : HeadRow) (o : Option Text)
      → elim o [ some key ↦ ok (newest (filter (has_key P request key) heads)) | none ↦ ok none ]
        ≡ ok (some head)
      → FoundBy heads head
  found_key heads head none e = ground arith
  found_key heads head (some key) e = inr (key, ground arith)

  found_either :
      (heads : List HeadRow) (head : HeadRow) (o : Option ℕ)
      → elim o [
        | some id ↦ elim (find_head id heads) [
          | none ↦ ok none
          | some h ↦ check_revisable P request h >>= λ h. ok (some h)
        ]
        | none ↦ elim request.canonical_key [
          | some key ↦ ok (newest (filter (has_key P request key) heads))
          | none ↦ ok none
        ]
      ]
        ≡ ok (some head)
      → FoundBy heads head
  found_either heads head none e = found_key heads head request.canonical_key e
  found_either heads head (some id) e = found_id heads head id (find_head id heads) refl e

  found_by :
      (heads : List HeadRow) (head : HeadRow)
      → find_existing P request heads ≡ ok (some head)
      → FoundBy heads head
  unfolding find_existing
  found_by heads head e = found_either heads head request.memory_id e

  revisable_live :
      (h head : HeadRow)
      → check_revisable P request h ≡ ok head
      → (h ≡ head) × (is_live head.state ≡ true)
  unfolding check_revisable
  revisable_live h head e = ground arith

  key_live : (key : Text) (h : HeadRow) → has_key P request key h ≡ true → is_live h.state ≡ true
  unfolding has_key
  key_live key h e = ground arith

  -- What `find_existing` finds is a live row of the table.
  find_existing-In :
      (heads : List HeadRow) (head : HeadRow)
      → find_existing P request heads ≡ ok (some head)
      → In head heads × (is_live head.state ≡ true)
  find_existing-In heads head e = elim (found_by heads head e) [
    | inl (id, h, f, c) ↦
        let (same, live) = revisable_live h head c in
        (subst (λ x. In x heads) same (find_head-In id heads h f).0, live)
    | inr (key, n) ↦
        let (i, k) = filter-In (has_key P request key) heads head (newest-In _ head n) in
        (i, key_live key head k)
  ]

  pub claimed_old :
      (head : HeadRow) (moment : Moment) (sequence : ℕ) (db : Database) (claimed : Database × Claim)
      → claim_head P request (some head) moment sequence db ≡ ok claimed
      → (claimed.1.memory_id ≡ head.memory_id) × (claimed.0.memory_heads ≡ db.memory_heads)
  unfolding claim_head
  claimed_old head moment sequence db claimed c = ground arith

  pub claimed_new :
      (moment : Moment) (sequence : ℕ) (db : Database) (claimed : Database × Claim)
      → claim_head P request none moment sequence db ≡ ok claimed
      → (new : HeadRow) × (new.memory_id ≡ claimed.1.memory_id)
        × (is_live new.state ≡ true)
        × (any (λ h. h.memory_id == claimed.1.memory_id) db.memory_heads ≡ false)
        × (claimed.0.memory_heads ≡ db.memory_heads ++ (new ∷ []))
  unfolding claim_head new_head
  claimed_new moment sequence db claimed c = (
    new_head P request (db.last_docid + 1) claimed.1.memory_id sequence moment.now,
    ground arith,
    ground arith,
    ground arith,
    ground arith,
  )

  claim_head-Kept :
      (existing : Option HeadRow) (moment : Moment) (sequence : ℕ) (db : Database)
      (claimed : Database × Claim)
      → find_existing P request db.memory_heads ≡ ok existing
      → claim_head P request existing moment sequence db ≡ ok claimed
      → Distinct db.memory_heads
      → Kept db.memory_heads claimed.0.memory_heads
        × Holds Live claimed.1.memory_id claimed.0.memory_heads
  claim_head-Kept (some head) moment sequence db claimed f c d =
      let (i, live) = find_existing-In db.memory_heads head f in
      let (same, heads) = claimed_old head moment sequence db claimed c in
      rw (same, heads)
        (
          (Evolves-refl Unrevised Unrevised-refl db.memory_heads, d),
          Holds-In Live head db.memory_heads d i live,
        )
  claim_head-Kept none moment sequence db claimed f c d =
      let (new, same, live, absent, heads) = claimed_new moment sequence db claimed c in
      let absent' : any (λ g. g.memory_id == new.memory_id) db.memory_heads ≡ false =
        rw same absent in
      let d' = Distinct-append db.memory_heads new d absent' in
      rw (heads, sym same)
        (
          (Evolves-append Unrevised Unrevised-refl db.memory_heads (new ∷ []), d'),
          Holds-In Live new (db.memory_heads ++ (new ∷ [])) d' (In-last new db.memory_heads) live,
        )

  pub revised_heads :
      (claim : Claim) (sequence now : ℕ) (db revised : Database)
      → record_revision P request claim sequence now db ≡ ok revised
      → revised.memory_heads
        ≡ update_heads
            (λ h. h.memory_id == claim.memory_id)
            (revised_head P request claim sequence now)
            db.memory_heads
  unfolding record_revision revise_heads
  revised_heads claim sequence now db revised e = ground arith

  record_revision-Kept :
      (claim : Claim) (sequence now : ℕ) (db revised : Database)
      → record_revision P request claim sequence now db ≡ ok revised
      → Distinct db.memory_heads
      → Holds Live claim.memory_id db.memory_heads
      → Kept db.memory_heads revised.memory_heads
  unfolding revised_head
  record_revision-Kept claim sequence now db revised e d live =
      rw (revised_heads claim sequence now db revised e) (
        Kept-update (λ h. h.memory_id == claim.memory_id)
          (revised_head P request claim sequence now) db.memory_heads (λ h. refl)
          (All-chosen claim.memory_id db.memory_heads live) d)

Written-Kept :
    (P : Platform) (prepared : PreparedMemory) (moment : Moment) (sequence : ℕ) (db db' : Database)
    (id : ℕ)
    → Written P prepared moment sequence db db' id
    → Distinct db.memory_heads
    → Kept db.memory_heads db'.memory_heads
Written-Kept P prepared moment sequence db db' id w d =
    let (k, live) =
      claim_head-Kept P prepared.request w.existing moment sequence db w.claimed w.found w.claims
        d in
    let k' =
      record_revision-Kept P prepared.request w.claimed.1 sequence moment.now w.claimed.0 w.revised
        w.records k.1 live in
    let k'' =
      Kept-apply_link_lifecycle w.claimed.1.memory_id prepared.request.links sequence moment.now
        w.revised.memory_heads k'.1 in
    rw w.heads (Kept-trans _ _ _ k (Kept-trans _ _ _ k' k''))

-- A successful write keeps the identifiers of memory_heads distinct; every memory keeps its place and
-- its identifier; and no row of a superseded or retracted memory changes at all.
pub remember_new-Unrevised :
    (P : Platform) (durability : Durability) (prepared : PreparedMemory) (moment : Moment)
    (db db' : Database) (receipt : WriteReceipt)
    → remember_new P durability prepared moment db ≡ ok (db', receipt)
    → Distinct db.memory_heads
    → Evolves Unrevised db.memory_heads db'.memory_heads × Distinct db'.memory_heads
remember_new-Unrevised P durability prepared moment db db' receipt h d =
    let r = remember_new-Remembered P durability prepared moment db db' receipt h in
    let k =
      Written-Kept P prepared moment r.sequence r.before r.after r.id r.written
        (rw r.before_heads d) in
    rw r.after_heads (subst (λ heads. Kept heads r.after.memory_heads) r.before_heads k)
