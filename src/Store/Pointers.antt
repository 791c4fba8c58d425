-- ===== src/Store/Pointers.antt =====
-- Every head points at a revision that is stored.
use super_mem.Base.{
  ℕ, Bool, true, false, Option, some, none, List, [], ◌∷◌, ◌++◌, ◌≡◌, ◌∙◌, ◌==◌, ==_self, refl,
  arith, Bool-cases, inl, inr, ◌&&◌, any, All, All-append,
}
use super_mem.Types.{LinkInput, MemoryState}
use super_mem.Store.Outcome.{ok}
use super_mem.Store.Tables.{
  Platform, Moment, Database, HeadRow, RevisionRow, RememberRequest, PreparedMemory, Durability,
  WriteReceipt,
}
use super_mem.Store.Heads.{Claim, is_live, is_active, update_heads, with_state, revised_head}
use super_mem.Store.Lifecycle.{
  supersede, contest, supersedes, contests, apply_links, apply_link_lifecycle,
}
use super_mem.Store.Upsert.{is_revision, claim_head, record_revision, new_revision}
use super_mem.Store.Operations.{remember_new}
use super_mem.Store.Steps.{remember_new-Remembered}
use super_mem.Store.Claims.{claimed_old, claimed_new, revised_heads}
use super_mem.Store.History.{SameRevisions, claimed_revisions, recorded}

-- The head's own revision is among these.
abbrev pub Points : List RevisionRow → HeadRow → Type 0
Points revisions h = any (is_revision h.memory_id h.head_revision) revisions ≡ true

-- The same, for the memories with another identifier.
abbrev Others : ℕ → List RevisionRow → HeadRow → Type 0
Others id revisions h = (h.memory_id == id) ≡ false → Points revisions h

any-SameRevisions :
    (id revision : ℕ) (xs ys : List RevisionRow)
    → SameRevisions xs ys
    → any (is_revision id revision) ys ≡ any (is_revision id revision) xs
unfolding is_revision
any-SameRevisions id revision [] [] s = refl
any-SameRevisions id revision (x ∷ xs) (y ∷ ys) s =
    ground (arith, any-SameRevisions id revision xs ys s.1)
any-SameRevisions id revision [] (y ∷ ys) s = elim s [ ]
any-SameRevisions id revision (x ∷ xs) [] s = elim s [ ]

any-longer :
    (p : RevisionRow → Bool) (xs ys : List RevisionRow) → any p xs ≡ true → any p (xs ++ ys) ≡ true
any-longer p [] ys h = ground arith
any-longer p (x ∷ xs) ys h = ground (arith, any-longer p xs ys)

any-last :
    (p : RevisionRow → Bool) (xs : List RevisionRow) (y : RevisionRow)
    → p y ≡ true
    → any p (xs ++ (y ∷ [])) ≡ true
any-last p [] y h = ground arith
any-last p (x ∷ xs) y h = ground (arith, any-last p xs y)

All-change :
    (P Q : HeadRow → Type 0)
    → ((h : HeadRow) → P h → Q h)
    → (xs : List HeadRow) → All P xs
    → All Q xs
All-change P Q f [] a = tt
All-change P Q f (x ∷ xs) a = (f x a.0, All-change P Q f xs a.1)

-- An UPDATE gives the rows the property Q.
All-update_heads :
    (P Q : HeadRow → Type 0) (chosen : HeadRow → Bool) (change : HeadRow → HeadRow)
    → ((h : HeadRow) → chosen h ≡ true → P h → Q (change h))
    → ((h : HeadRow) → chosen h ≡ false → P h → Q h)
    → (xs : List HeadRow) → All P xs
    → All Q (update_heads chosen change xs)
unfolding update_heads
All-update_heads P Q chosen change f g [] a = tt
All-update_heads P Q chosen change f g (x ∷ xs) a = (
  elim (Bool-cases (chosen x)) [ inl e ↦ rw e (f x e a.0) | inr e ↦ rw e (g x e a.0) ],
  All-update_heads P Q chosen change f g xs a.1,
)

module _ (revisions : List RevisionRow) where
  Points-supersede :
      (id sequence now : ℕ) (xs : List HeadRow)
      → All (Points revisions) xs
      → All (Points revisions) (supersede id sequence now xs)
  unfolding supersede with_state
  Points-supersede id sequence now xs a =
      All-update_heads (Points revisions) (Points revisions)
        (λ h. h.memory_id == id && is_live h.state) (with_state MemoryState.superseded sequence now)
        (λ h e p. p) (λ h e p. p) xs a

  Points-contest :
      (id sequence now : ℕ) (xs : List HeadRow)
      → All (Points revisions) xs
      → All (Points revisions) (contest id sequence now xs)
  unfolding contest with_state
  Points-contest id sequence now xs a =
      All-update_heads (Points revisions) (Points revisions)
        (λ h. h.memory_id == id && is_active h.state)
        (with_state MemoryState.contested sequence now) (λ h e p. p) (λ h e p. p) xs a

  Points-apply_links :
      (sequence now : ℕ) (contested : Bool) (links : List LinkInput) (xs : List HeadRow)
      → All (Points revisions) xs
      → All (Points revisions) (apply_links sequence now contested links xs).1
  unfolding apply_links
  Points-apply_links sequence now contested [] xs a = a
  Points-apply_links sequence now contested (link ∷ rest) xs a =
      elim (Bool-cases (supersedes link)) [
        | inl e ↦ rw e (
            Points-apply_links sequence now contested rest _
              (Points-supersede link.target sequence now xs a))
        | inr e ↦ elim (Bool-cases (contests link)) [
          | inl f ↦
              rw (e, f)
                (Points-apply_links sequence now true rest _
                  (Points-contest link.target sequence now xs a))
          | inr f ↦ rw (e, f) (Points-apply_links sequence now contested rest xs a)
        ]
      ]

  Points-apply_link_lifecycle :
      (source : ℕ) (links : List LinkInput) (sequence now : ℕ) (xs : List HeadRow)
      → All (Points revisions) xs
      → All (Points revisions) (apply_link_lifecycle source links sequence now xs)
  unfolding apply_link_lifecycle
  Points-apply_link_lifecycle source links sequence now xs a =
      let b = Points-apply_links sequence now false links xs a in
      elim (Bool-cases ((apply_links sequence now false links xs).0)) [
        | inl e ↦ rw e (Points-contest source sequence now _ b)
        | inr e ↦ rw e b
      ]

module _ (P : Platform) (request : RememberRequest) where
  with_claimed :
      (existing : Option HeadRow) (moment : Moment) (sequence : ℕ) (db : Database)
      (claimed : Database × Claim)
      → claim_head P request existing moment sequence db ≡ ok claimed
      → All (Others claimed.1.memory_id claimed.0.memory_revisions) db.memory_heads
      → All (Others claimed.1.memory_id claimed.0.memory_revisions) claimed.0.memory_heads
  with_claimed (some head) moment sequence db claimed c a =
      rw (claimed_old P request head moment sequence db claimed c).1 a
  with_claimed none moment sequence db claimed c a =
      let (new, same, live, absent, heads) = claimed_new P request moment sequence db claimed c in
      rw heads (
        All-append (Others claimed.1.memory_id claimed.0.memory_revisions) db.memory_heads
          (new ∷ []) a (λ apart. ground (arith, ==_self new.memory_id), tt))

  -- After the claim, all heads but the claimed one still point at their revisions.
  Others-claim_head :
      (existing : Option HeadRow) (moment : Moment) (sequence : ℕ) (db : Database)
      (claimed : Database × Claim)
      → claim_head P request existing moment sequence db ≡ ok claimed
      → All (Points db.memory_revisions) db.memory_heads
      → All (Others claimed.1.memory_id claimed.0.memory_revisions) claimed.0.memory_heads
  Others-claim_head existing moment sequence db claimed c a =
      let kept = claimed_revisions P request existing moment sequence db claimed c in
      let others =
        All-change (Points db.memory_revisions)
          (Others claimed.1.memory_id claimed.0.memory_revisions)
          (λ h p apart. any-SameRevisions h.memory_id h.head_revision _ _ kept ∙ p) db.memory_heads
          a in
      with_claimed existing moment sequence db claimed c others

  pub record_revision-Points :
      (claim : Claim) (sequence now : ℕ) (db revised : Database)
      → record_revision P request claim sequence now db ≡ ok revised
      → All (Others claim.memory_id db.memory_revisions) db.memory_heads
      → All (Points revised.memory_revisions) revised.memory_heads
  unfolding revised_head new_revision is_revision
  record_revision-Points claim sequence now db revised r a =
      let (absent, added) = recorded P request claim sequence now db revised r in
      rw (revised_heads P request claim sequence now db revised r, added)
        (All-update_heads (Others claim.memory_id db.memory_revisions)
          (Points (db.memory_revisions ++ (new_revision P request claim sequence now ∷ [])))
          (λ h. h.memory_id == claim.memory_id) (revised_head P request claim sequence now)
          (λ h e p.
            any-last (is_revision h.memory_id claim.revision) db.memory_revisions
              (new_revision P request claim sequence now) (ground arith))
          (λ h e p.
            any-longer (is_revision h.memory_id h.head_revision) db.memory_revisions _ (p e))
          db.memory_heads a)

-- If every head of memory_heads points at a revision that is stored, then so does every head
-- after a successful write, which may have added a head, revised one and changed the states of others.
pub remember_new-Points :
    (P : Platform) (durability : Durability) (prepared : PreparedMemory) (moment : Moment)
    (db db' : Database) (receipt : WriteReceipt)
    → remember_new P durability prepared moment db ≡ ok (db', receipt)
    → All (Points db.memory_revisions) db.memory_heads
    → All (Points db'.memory_revisions) db'.memory_heads
remember_new-Points P durability prepared moment db db' receipt h a =
    let r = remember_new-Remembered P durability prepared moment db db' receipt h in
    let w = r.written in
    let before : All (Points r.before.memory_revisions) r.before.memory_heads =
      rw (r.before_heads, r.before_revisions) a in
    let others =
      Others-claim_head P prepared.request w.existing moment r.sequence r.before w.claimed w.claims
        before in
    let revised =
      record_revision-Points P prepared.request w.claimed.1 r.sequence moment.now w.claimed.0
        w.revised w.records others in
    rw (r.after_heads, r.after_revisions, w.heads, w.revisions)
      (Points-apply_link_lifecycle w.revised.memory_revisions w.claimed.1.memory_id
        prepared.request.links r.sequence moment.now w.revised.memory_heads revised)
