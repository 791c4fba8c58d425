-- ===== src/Store/History.antt =====
-- What a successful `remember` adds to the revisions, and what it may link to.
use super_mem.Base.{
  ℕ, false, Option, some, none, List, [], ◌∷◌, ◌++◌, ◌≡◌, ◌∙◌, ◌⊎◌, ap, refl, sym, arith, ◌&&◌, not,
  is_some, Bool-cases, inl, inr, any, All, text_eq_iff, option_eq_iff,
}
use mathlib.Core.Path.{subst}
use super_mem.Types.{LinkInput, Scope}
use super_mem.Store.Outcome.{ok, ok_steps, ok-injective}
use super_mem.Store.Tables.{
  Platform, Moment, Database, HeadRow, RevisionRow, PreparedMemory, RememberRequest, Durability,
  WriteReceipt, to_ms,
}
use super_mem.Store.Scoping.{scope_key, same_durable_scope}
use super_mem.Store.Validate.{find_head, validate_link, validate_links}
use super_mem.Store.Heads.{Claim}
use super_mem.Store.Upsert.{retire, is_revision, claim_head, record_revision, new_revision}
use super_mem.Store.Operations.{remember_new, receipt_of}
use super_mem.Store.Steps.{remember_new-Remembered}

-- The same revision, which may have been retired since.
abbrev pub SameRevision : RevisionRow → RevisionRow → Type 0
SameRevision r r' =
    (r' ≡ r)
    ⊎ ((r.retired_at_ms ≡ none) × (time : ℕ) × (r' ≡ record r { retired_at_ms = some time }))

-- Row by row.
abbrev pub SameRevisions : List RevisionRow → List RevisionRow → Type 0
SameRevisions [] [] = Unit
SameRevisions [] (y ∷ ys) = ⊥
SameRevisions (x ∷ xs) [] = ⊥
SameRevisions (x ∷ xs) (y ∷ ys) = SameRevision x y × SameRevisions xs ys

SameRevisions-refl : (xs : List RevisionRow) → SameRevisions xs xs
SameRevisions-refl [] = tt
SameRevisions-refl (x ∷ xs) = (inl refl, SameRevisions-refl xs)

SameRevisions-retire :
    (id revision time : ℕ) (xs : List RevisionRow) → SameRevisions xs (retire id revision time xs)
unfolding retire
SameRevisions-retire id revision time [] = tt
SameRevisions-retire id revision time (x ∷ xs) = (
  elim (Bool-cases (is_revision id revision x && not (is_some x.retired_at_ms))) [
    | inl e ↦ rw e (inr (ground arith, time, refl))
    | inr e ↦ rw e (inl refl)
  ],
  SameRevisions-retire id revision time xs,
)

module _ (P : Platform) where
  kept_revisions :
      (request : RememberRequest) (moment : Moment) (sequence : ℕ) (db : Database)
      (claimed : Database × Claim)
      → claim_head P request none moment sequence db ≡ ok claimed
      → db.memory_revisions ≡ claimed.0.memory_revisions
  unfolding claim_head
  kept_revisions request moment sequence db claimed h = ground arith

  pub claimed_revisions :
      (request : RememberRequest) (existing : Option HeadRow) (moment : Moment) (sequence : ℕ)
      (db : Database) (claimed : Database × Claim)
      → claim_head P request existing moment sequence db ≡ ok claimed
      → SameRevisions db.memory_revisions claimed.0.memory_revisions
  unfolding claim_head
  claimed_revisions request (some head) moment sequence db claimed h =
      subst (λ (c : Database × Claim). SameRevisions db.memory_revisions c.0.memory_revisions)
        (ok-injective h)
        (SameRevisions-retire head.memory_id head.head_revision (to_ms moment.now)
          db.memory_revisions)
  claimed_revisions request none moment sequence db claimed h =
      subst (SameRevisions db.memory_revisions)
        (kept_revisions request moment sequence db claimed h)
        (SameRevisions-refl db.memory_revisions)

  pub recorded :
      (request : RememberRequest) (claim : Claim) (sequence now : ℕ) (db revised : Database)
      → record_revision P request claim sequence now db ≡ ok revised
      → (any (is_revision claim.memory_id claim.revision) db.memory_revisions ≡ false)
        × (revised.memory_revisions
            ≡ db.memory_revisions ++ (new_revision P request claim sequence now ∷ []))
  unfolding record_revision
  recorded request claim sequence now db revised h = ground arith

  -- A successful write keeps every old revision in its place, changed in nothing but perhaps the time at
  -- which it was retired, where it had none, and adds exactly one revision at the end: that of
  -- the memory in the receipt, under a number that the memory did not have, not retired, with the title,
  -- the body, the attributes and the scope of the request.
  pub remember_new-history :
      (durability : Durability) (prepared : PreparedMemory) (moment : Moment) (db db' : Database)
      (receipt : WriteReceipt)
      → remember_new P durability prepared moment db ≡ ok (db', receipt)
      → (old : List RevisionRow) × (new : RevisionRow) × (db'.memory_revisions ≡ old ++ (new ∷ []))
        × SameRevisions db.memory_revisions old
        × (any (is_revision new.memory_id new.revision) old ≡ false)
        × (receipt.memory_ids ≡ new.memory_id ∷ [])
        × (new.retired_at_ms ≡ none)
        × (new.title ≡ prepared.request.title)
        × (new.body ≡ prepared.request.body)
        × (new.attributes ≡ prepared.request.attributes)
        × (new.scope ≡ prepared.request.scope)
  unfolding new_revision receipt_of
  remember_new-history durability prepared moment db db' receipt h =
      let r = remember_new-Remembered P durability prepared moment db db' receipt h in
      let w = r.written in
      let (absent, added) =
        recorded prepared.request w.claimed.1 r.sequence moment.now w.claimed.0 w.revised
          w.records in
      let kept =
        claimed_revisions prepared.request w.existing moment r.sequence r.before w.claimed
          w.claims in
      let ids : receipt.memory_ids ≡ w.claimed.1.memory_id ∷ [] =
        ap (λ (x : WriteReceipt). x.memory_ids) r.same_receipt ∙ ap (λ i. i ∷ []) w.same_id in
      (
        w.claimed.0.memory_revisions,
        new_revision P prepared.request w.claimed.1 r.sequence moment.now,
        r.after_revisions ∙ w.revisions ∙ added,
        subst (λ xs. SameRevisions xs w.claimed.0.memory_revisions) r.before_revisions kept,
        absent,
        ids,
        refl,
        refl,
        refl,
        refl,
        refl,
      )

  -- The target is found, and it stands in the same durable scope.
  abbrev pub LinksWithin : Scope → List HeadRow → LinkInput → Type 0
  LinksWithin scope heads link =
      (target : HeadRow) × (find_head link.target heads ≡ some target)
      × (target.scope_key ≡ scope_key P scope)
      × (target.workspace_id ≡ scope.workspace_id)

  within :
      (heads : List HeadRow) (scope : Scope) (link : LinkInput) (o : Option HeadRow)
      → o ≡ find_head link.target heads
      → validate_link P heads scope link ≡ ok tt
      → LinksWithin scope heads link
  unfolding validate_link same_durable_scope
  within heads scope link none f h = ground arith
  within heads scope link (some t) f h = (
    t,
    sym f,
    ground (arith, text_eq_iff t.scope_key (scope_key P scope)),
    ground (arith, option_eq_iff t.workspace_id scope.workspace_id),
  )

  within_links :
      (heads : List HeadRow) (scope : Scope) (links : List LinkInput)
      → validate_links P heads scope links ≡ ok tt
      → All (LinksWithin scope heads) links
  unfolding validate_links
  within_links heads scope [] h = tt
  within_links heads scope (link ∷ rest) h =
      let (u, others, first) = ok_steps _ (validate_link P heads scope link) h in
      (within heads scope link _ refl first, within_links heads scope rest others)

  -- A write that links to a memory outside its durable scope never succeeds: after a success, every
  -- link's target was in the table, with the scope key and the workspace of the request.
  pub remember_new-LinksWithin :
      (durability : Durability) (prepared : PreparedMemory) (moment : Moment) (db db' : Database)
      (receipt : WriteReceipt)
      → remember_new P durability prepared moment db ≡ ok (db', receipt)
      → All (LinksWithin prepared.request.scope db.memory_heads) prepared.request.links
  remember_new-LinksWithin durability prepared moment db db' receipt h =
      let r = remember_new-Remembered P durability prepared moment db db' receipt h in
      within_links db.memory_heads prepared.request.scope prepared.request.links (
        subst
          (λ heads. validate_links P heads prepared.request.scope prepared.request.links ≡ ok tt)
          r.before_heads r.written.linked)
