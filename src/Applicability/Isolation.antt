-- ===== src/Applicability/Isolation.antt =====
-- The scopes between which a memory is never applied.
use super_mem.Base.{Text, text_eq_iff, false, Option, none, some, ◌≡◌, ◌≢◌, ◌↔◌, refl, arith}
use super_mem.Types.{Scope, RepositoryContext, Applicability}
use super_mem.Applicability.Artifacts.{ArtifactComparison}
use super_mem.Applicability.Classify.{
  Resolver, workspace_denied, git_applicability, classify_versions, classify_repositories, classify,
}

-- The current scope has the memory's namespace, its workspace if the memory has one, and its
-- repository if the memory has one.
pub record InScope (memory current : Scope) : Type 0 where
  pub namespace : memory.namespace ≡ current.namespace
  pub workspace : (w : Text) → memory.workspace_id ≡ some w → current.workspace_id ≡ some w
  pub repository :
      (r : RepositoryContext)
      → memory.repository ≡ some r
      → (r' : RepositoryContext) × (current.repository ≡ some r') × (r.repo_id ≡ r'.repo_id)

workspace_allowed :
    (a b : Option Text) → workspace_denied a b ≡ false → (w : Text) → a ≡ some w → b ≡ some w
unfolding workspace_denied
workspace_allowed none b h w e = cc
workspace_allowed (some v) none h w e = cc
workspace_allowed (some v) (some u) h w e = ground (arith, text_eq_iff v u)

pub workspace_allowed_back :
    (a b : Option Text) → ((w : Text) → a ≡ some w → b ≡ some w) → workspace_denied a b ≡ false
unfolding workspace_denied
workspace_allowed_back none b h = refl
workspace_allowed_back (some v) none h = cc (h v refl)
workspace_allowed_back (some v) (some u) h = ground (arith, text_eq_iff v u, h v refl)

git-ne-inapplicable :
    (resolve : Resolver) (root stored current branch branch' : Option Text)
    → git_applicability resolve root stored current branch branch' ≢ Applicability.inapplicable
unfolding git_applicability
git-ne-inapplicable resolve root stored current branch branch' = ground arith

versions-ne-inapplicable :
    (resolve : Resolver) (comparison : ArtifactComparison) (m c : RepositoryContext)
    → classify_versions resolve comparison m c ≢ Applicability.inapplicable
unfolding classify_versions
versions-ne-inapplicable resolve comparison m c = ground arith

module _ (resolve : Resolver) (comparison : ArtifactComparison) where
  repositories_allowed :
      (m c : Option RepositoryContext)
      → classify_repositories resolve comparison m c ≢ Applicability.inapplicable
      → (r : RepositoryContext) → m ≡ some r
      → (r' : RepositoryContext) × (c ≡ some r') × (r.repo_id ≡ r'.repo_id)
  unfolding classify_repositories
  repositories_allowed none c h r e = cc
  repositories_allowed (some m) none h r e = absurd (h refl)
  repositories_allowed (some m) (some c) h r e =
      (c, refl, ground (arith, text_eq_iff m.repo_id c.repo_id))

  repositories_allowed_back :
      (m c : Option RepositoryContext)
      → ((r : RepositoryContext)
          → m ≡ some r
          → (r' : RepositoryContext) × (c ≡ some r') × (r.repo_id ≡ r'.repo_id))
      → classify_repositories resolve comparison m c ≢ Applicability.inapplicable
  unfolding classify_repositories
  repositories_allowed_back none c h = cc
  repositories_allowed_back (some m) none h = λ e. let (r', e', i) = h m refl in cc
  repositories_allowed_back (some m) (some c) h =
      let (r', e', i) = h m refl in
      ground
        (arith, text_eq_iff m.repo_id c.repo_id, versions-ne-inapplicable resolve comparison m c)

  -- A memory is not `Inapplicable` exactly when the current scope has the memory's namespace, its
  -- workspace if it has one, and its repository if it has one; this whatever the artifacts, the
  -- branches and Git say.
  pub applicable-iff-InScope :
      (memory current : Scope)
      → (classify memory current comparison resolve ≢ Applicability.inapplicable)
        ↔ InScope memory current
  unfolding classify
  applicable-iff-InScope memory current = (
    λ h. record {
      namespace = ground (arith, text_eq_iff memory.namespace current.namespace);
      workspace = workspace_allowed memory.workspace_id current.workspace_id (ground arith);
      repository = repositories_allowed memory.repository current.repository (ground arith);
    },
    λ s. ground (
      arith,
      text_eq_iff memory.namespace current.namespace,
      workspace_allowed_back memory.workspace_id current.workspace_id s.workspace,
      repositories_allowed_back memory.repository current.repository s.repository,
    ),
  )
