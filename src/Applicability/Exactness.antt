-- ===== src/Applicability/Exactness.antt =====
-- When a memory is classed as exact, and when as stale.
use super_mem.Base.{
  Text, text_eq_iff, option_eq, option_eq_iff, is_some, true, false, not, ◌&&◌, ◌||◌, Option, none,
  some, ◌≡◌, ◌≢◌, ◌↔◌, ◌⊎◌, refl, inl, inr, arith,
}
use super_mem.Types.{Scope, RepositoryContext, GitRelation, Applicability}
use super_mem.Applicability.Artifacts.{ArtifactComparison}
use super_mem.Applicability.Classify.{Resolver, git_applicability, classify_versions, classify}
use super_mem.Applicability.Isolation.{InScope, workspace_allowed_back}

module _ (resolve : Resolver) where
  -- Both commits and the current root are known, and Git says that the commits are the same.
  pub record IsSameCommit (memory current : RepositoryContext) : Type 0 where
    pub root : Text
    pub stored : Text
    pub head : Text
    pub root_known : current.root ≡ some root
    pub stored_known : memory.head_oid ≡ some stored
    pub head_known : current.head_oid ≡ some head
    pub relation : resolve root stored head ≡ GitRelation.same

  git_exact :
      (root stored head branch branch' : Option Text)
      → git_applicability resolve root stored head branch branch' ≡ Applicability.exact
      → (r s h : Text) × (root ≡ some r)
        × (stored ≡ some s)
        × (head ≡ some h)
        × (resolve r s h ≡ GitRelation.same)
  unfolding git_applicability
  git_exact (some r) (some s) (some h) branch branch' e = (r, s, h, refl, refl, refl, ground arith)
  git_exact none stored head branch branch' e = absurd (ground arith)
  git_exact (some r) none head branch branch' e = absurd (ground arith)
  git_exact (some r) (some s) none branch branch' e = absurd (ground arith)

  git_exact_back :
      (root stored head branch branch' : Option Text) (r s h : Text)
      → root ≡ some r
      → stored ≡ some s
      → head ≡ some h
      → resolve r s h ≡ GitRelation.same
      → git_applicability resolve root stored head branch branch' ≡ Applicability.exact
  unfolding git_applicability
  git_exact_back root stored head branch branch' r s h p q t e =
      rw (p, q, t, git_applicability) (rw e)

  git-ne-stale :
      (root stored head branch branch' : Option Text)
      → git_applicability resolve root stored head branch branch' ≢ Applicability.stale
  unfolding git_applicability
  git-ne-stale root stored head branch branch' = ground arith

  module _ (comparison : ArtifactComparison) where
    -- What makes a memory of a repository exact: no artifact mismatches, and either all artifacts
    -- are verified, or the worktrees are equally dirty, the artifacts are complete and the commits
    -- are the same.
    abbrev pub IsExact : RepositoryContext → RepositoryContext → Type 0
    IsExact m c =
        (comparison.mismatched ≡ false)
        × ((comparison.fully_verified ≡ true)
            ⊎ ((m.dirty_hash ≡ c.dirty_hash) × (comparison.complete ≡ true) × IsSameCommit m c))

    -- What makes it stale: an artifact mismatches, or the worktrees differ and not all artifacts
    -- are verified.
    abbrev pub IsStale : RepositoryContext → RepositoryContext → Type 0
    IsStale m c =
        (comparison.mismatched ≡ true)
        ⊎ ((m.dirty_hash ≢ c.dirty_hash) × (comparison.fully_verified ≡ false))

    dirty_test :
        (a b : Option Text)
        → (not (option_eq a b) && (is_some a || is_some b)) ≡ not (option_eq a b)
    unfolding option_eq
    dirty_test none none = refl
    dirty_test none (some b) = refl
    dirty_test (some a) b = ground arith

    abbrev by_git : RepositoryContext → RepositoryContext → Applicability
    by_git m c = git_applicability resolve c.root m.head_oid c.head_oid m.branch c.branch

    -- The same with the class that Git gives.
    exact_by_git :
        (m c : RepositoryContext)
        → (classify_versions resolve comparison m c ≡ Applicability.exact) ↔ (
            (comparison.mismatched ≡ false)
            × ((comparison.fully_verified ≡ true)
                ⊎ ((m.dirty_hash ≡ c.dirty_hash)
                    × (comparison.complete ≡ true)
                    × (by_git m c ≡ Applicability.exact))))
    unfolding classify_versions
    exact_by_git m c = (
      ground (arith, option_eq_iff m.dirty_hash c.dirty_hash, dirty_test m.dirty_hash c.dirty_hash),
      ground (arith, option_eq_iff m.dirty_hash c.dirty_hash, dirty_test m.dirty_hash c.dirty_hash),
    )

    same_commit : (m c : RepositoryContext) → by_git m c ≡ Applicability.exact → IsSameCommit m c
    same_commit m c h =
        let (r, s, t, p, q, u, e) = git_exact c.root m.head_oid c.head_oid m.branch c.branch h in
        record {
          root = r;
          stored = s;
          head = t;
          root_known = p;
          stored_known = q;
          head_known = u;
          relation = e;
        }

    same_commit_back :
        (m c : RepositoryContext) → IsSameCommit m c → by_git m c ≡ Applicability.exact
    same_commit_back m c g =
        git_exact_back c.root m.head_oid c.head_oid m.branch c.branch g.root g.stored g.head
          g.root_known g.stored_known g.head_known g.relation

    exact_versions :
        (m c : RepositoryContext)
        → (classify_versions resolve comparison m c ≡ Applicability.exact) ↔ IsExact m c
    exact_versions m c = (
      λ h.
          let (k, o) = (exact_by_git m c).0 h in
          (k, elim o [ inl v ↦ inl v | inr (d, w, g) ↦ inr (d, w, same_commit m c g) ]),
      λ h.
          (exact_by_git m c).1
            (h.0, elim h.1 [ inl v ↦ inl v | inr (d, w, g) ↦ inr (d, w, same_commit_back m c g) ]),
    )

    stale_versions :
        (m c : RepositoryContext)
        → (classify_versions resolve comparison m c ≡ Applicability.stale) ↔ IsStale m c
    unfolding classify_versions
    stale_versions m c = (
      ground (
        arith,
        option_eq_iff m.dirty_hash c.dirty_hash,
        dirty_test m.dirty_hash c.dirty_hash,
        git-ne-stale c.root m.head_oid c.head_oid m.branch c.branch,
      ),
      ground (
        arith,
        option_eq_iff m.dirty_hash c.dirty_hash,
        dirty_test m.dirty_hash c.dirty_hash,
        git-ne-stale c.root m.head_oid c.head_oid m.branch c.branch,
      ),
    )

    -- Where the two scopes have repositories, the class is that of the versions.
    classify_of_versions :
        (memory current : Scope) (m c : RepositoryContext)
        → InScope memory current
        → memory.repository ≡ some m
        → current.repository ≡ some c
        → classify memory current comparison resolve ≡ classify_versions resolve comparison m c
    unfolding classify
    classify_of_versions memory current m c s p q =
        let (r', e, i) = s.repository m p in
        ground (
          arith,
          text_eq_iff memory.namespace current.namespace,
          workspace_allowed_back memory.workspace_id current.workspace_id s.workspace,
          text_eq_iff m.repo_id c.repo_id,
        )

    -- For two scopes that have repositories, of which the current one admits the memory: the class
    -- is `Exact` exactly when no artifact mismatches and either all artifacts are verified, or the
    -- dirty hashes agree, the artifact set is complete and Git calls the two commits the same; and
    -- it is `Stale` exactly when an artifact mismatches, or the dirty hashes differ and not all
    -- artifacts are verified.
    pub exact_and_stale :
        (memory current : Scope) (m c : RepositoryContext)
        → InScope memory current
        → memory.repository ≡ some m
        → current.repository ≡ some c
        → ((classify memory current comparison resolve ≡ Applicability.exact) ↔ IsExact m c)
          × ((classify memory current comparison resolve ≡ Applicability.stale) ↔ IsStale m c)
    exact_and_stale memory current m c s p q =
        rw (classify_of_versions memory current m c s p q) (exact_versions m c, stale_versions m c)
