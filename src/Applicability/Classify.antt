-- ===== src/Applicability/Classify.antt =====
-- `classify_applicability` and its variants. The parameter `resolve_git_relation` of the variants is
-- the caller's; for `classify_applicability` it is `compare_revisions` of git.rs.
use super_mem.Base.{
  Text, Bool, true, false, ◌&&◌, ◌||◌, not, Option, none, some, List, text_eq, option_eq, is_some,
  if◌then◌else◌,
}
use super_mem.Types.{Scope, RepositoryContext, GitRelation, ArtifactRef, Applicability}
use super_mem.Applicability.Artifacts.{
  ArtifactComparison, ArtifactFingerprintSet, compare_artifact_refs, compare_artifact_fingerprints,
}

abbrev pub Resolver : Type 0
Resolver = Text → Text → Text → GitRelation

-- The `match` on the two workspaces: whether it returns.
unfoldable pub workspace_denied : Option Text → Option Text → Bool
workspace_denied (some memory) (some current) = not (text_eq memory current)
workspace_denied (some memory) none = true
workspace_denied none current = false

unfoldable pub of_relation : GitRelation → Applicability
of_relation GitRelation.same = Applicability.exact
of_relation (GitRelation.ancestor behind) = Applicability.compatible
of_relation (GitRelation.descendant ahead) = Applicability.divergent
of_relation (GitRelation.diverged ahead behind) = Applicability.divergent
of_relation GitRelation.unknown = Applicability.unversioned

-- The last two arms of the `match`: no commits to compare.
unfoldable pub of_branches : Option Text → Option Text → Applicability
of_branches (some memory) (some current) =
    if text_eq memory current then Applicability.unversioned else Applicability.divergent
of_branches _ _ = Applicability.unversioned

unfoldable pub git_applicability :
    Resolver → Option Text → Option Text → Option Text → Option Text → Option Text → Applicability
unfolding of_relation of_branches
git_applicability resolve (some root) (some stored) (some current) memory_branch current_branch =
    of_relation (resolve root stored current)
git_applicability resolve _ _ _ memory_branch current_branch =
    of_branches memory_branch current_branch

abbrev pub is_exact : Applicability → Bool
is_exact Applicability.exact = true
is_exact _ = false

-- From the comparison of the artifacts on, for two repositories.
unfoldable pub classify_versions :
    Resolver → ArtifactComparison → RepositoryContext → RepositoryContext → Applicability
unfolding git_applicability
classify_versions resolve comparison memory_repo current_repo =
    let by_git =
      git_applicability resolve current_repo.root memory_repo.head_oid current_repo.head_oid
        memory_repo.branch current_repo.branch in
    if comparison.mismatched
    then Applicability.stale
    else if not (option_eq memory_repo.dirty_hash current_repo.dirty_hash)
        && (is_some memory_repo.dirty_hash || is_some current_repo.dirty_hash)
    then (if comparison.fully_verified then Applicability.exact else Applicability.stale)
    else if comparison.fully_verified
    then Applicability.exact
    else if not comparison.complete && is_exact by_git
    then Applicability.unversioned
    else by_git

-- From the test of `repository.is_some()` on.
unfoldable pub classify_repositories :
    Resolver
    → ArtifactComparison
    → Option RepositoryContext
    → Option RepositoryContext
    → Applicability
unfolding classify_versions
classify_repositories resolve comparison (some memory_repo) (some current_repo) =
    if text_eq memory_repo.repo_id current_repo.repo_id
    then classify_versions resolve comparison memory_repo current_repo
    else Applicability.inapplicable
classify_repositories resolve comparison (some memory_repo) none = Applicability.inapplicable
classify_repositories resolve comparison none current = Applicability.unversioned

-- `classify_applicability_with_artifact_comparison`. The comparison has no effect, so it is given
-- as its value.
unfoldable pub classify : Scope → Scope → ArtifactComparison → Resolver → Applicability
unfolding workspace_denied classify_repositories
classify memory_scope current_scope comparison resolve =
    if not (text_eq memory_scope.namespace current_scope.namespace)
    then Applicability.inapplicable
    else if workspace_denied memory_scope.workspace_id current_scope.workspace_id
    then Applicability.inapplicable
    else classify_repositories resolve comparison memory_scope.repository current_scope.repository

-- `classify_applicability_with_relation`.
unfoldable pub classify_with_relation :
    Scope → Scope → List ArtifactRef → List ArtifactRef → Resolver → Applicability
unfolding classify
classify_with_relation memory_scope current_scope memory_artifacts current_artifacts resolve =
    classify memory_scope current_scope (compare_artifact_refs memory_artifacts current_artifacts)
      resolve

-- `classify_applicability_fingerprints_with_relation`.
unfoldable pub classify_fingerprints :
    Scope → Scope → ArtifactFingerprintSet → ArtifactFingerprintSet → Resolver → Applicability
unfolding classify
classify_fingerprints memory_scope current_scope memory_artifacts current_artifacts resolve =
    classify memory_scope current_scope
      (compare_artifact_fingerprints memory_artifacts current_artifacts) resolve
