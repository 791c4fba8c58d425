-- ===== src/Applicability/Incomplete.antt =====
-- A truncated set of fingerprints proves nothing current.
use super_mem.Base.{ℕ, ◌+◌, ◌≡◌, ◌≢◌, false, Option, none, some, List, [], ◌∷◌, arith}
use super_mem.Types.{Scope, Applicability, RepositoryContext}
use super_mem.Applicability.Artifacts.{
  ArtifactComparison, ArtifactFingerprint, ArtifactFingerprintSet, compare_fingerprints_from,
  compare_artifact_fingerprints,
}
use super_mem.Applicability.Classify.{
  Resolver, classify, classify_versions, classify_repositories, classify_fingerprints,
}

incomplete_comparison :
    (verified : ℕ) (hs : List ArtifactFingerprint) (set : ArtifactFingerprintSet)
    (cs : List ArtifactFingerprint)
    → set.complete ≡ false
    → let r = compare_fingerprints_from verified hs set cs in
      (r.complete ≡ false) × (r.fully_verified ≡ false)
unfolding compare_fingerprints_from
incomplete_comparison verified [] set cs e = (e, ground arith)
incomplete_comparison verified (h ∷ hs) set cs e = ground (
  arith,
  incomplete_comparison verified hs set cs e,
  incomplete_comparison (verified + 1) hs set cs e,
)

versions_not_exact :
    (resolve : Resolver) (r : ArtifactComparison) (m c : RepositoryContext)
    → r.complete ≡ false
    → r.fully_verified ≡ false
    → classify_versions resolve r m c ≢ Applicability.exact
unfolding classify_versions
versions_not_exact resolve r m c p q = ground arith

repositories_not_exact :
    (resolve : Resolver) (r : ArtifactComparison) (m c : Option RepositoryContext)
    → r.complete ≡ false
    → r.fully_verified ≡ false
    → classify_repositories resolve r m c ≢ Applicability.exact
unfolding classify_repositories
repositories_not_exact resolve r none c p q = cc
repositories_not_exact resolve r (some m) none p q = cc
repositories_not_exact resolve r (some m) (some c) p q =
    ground (arith, versions_not_exact resolve r m c p q)

-- A memory whose staged fingerprints were cut off is never classed as exact, whatever the scopes,
-- the current artifacts and Git say.
pub incomplete-ne-exact :
    (memory current : Scope) (set now : ArtifactFingerprintSet) (resolve : Resolver)
    → set.complete ≡ false
    → classify_fingerprints memory current set now resolve ≢ Applicability.exact
unfolding classify_fingerprints compare_artifact_fingerprints
incomplete-ne-exact memory current set now resolve e =
    let r = compare_fingerprints_from 0 set.fingerprints set now.fingerprints in
    let (p, q) = incomplete_comparison 0 set.fingerprints set now.fingerprints e in
    unfold classify in
    ground (arith, repositories_not_exact resolve r memory.repository current.repository p q)
