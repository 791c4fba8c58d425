-- ===== src/Applicability/Tests.antt =====
-- The theorems on applicability at concrete scopes and artifacts.
use super_mem.Base.{
  ℕ, ◌+◌, ◌*◌, ◌≡◌, ◌≢◌, ◌↔◌, refl, codes, true, false, none, some, List, [], ◌∷◌, arith,
}
use super_mem.Types.{Applicability, Scope, RepositoryContext, GitRelation, ArtifactRef}
use super_mem.Utf8.{as_bytes, encode_char, byte_length, utf8_len}
use super_mem.Applicability.Artifacts.{ArtifactComparison, ArtifactFingerprintSet}
use super_mem.Applicability.Digests.{
  length_framed, to_le_bytes, content_input, fingerprint_artifacts,
}
use super_mem.Applicability.Classify.{
  Resolver, classify, classify_with_relation, classify_fingerprints,
}
use super_mem.Applicability.Isolation.{InScope, applicable-iff-InScope}
use super_mem.Applicability.Exactness.{IsExact, IsStale, exact_and_stale}
use super_mem.Applicability.Agreement.{Fits, Distinguished, classify-fingerprints}
use super_mem.Applicability.Incomplete.{incomplete-ne-exact}

abbrev repository : RepositoryContext
repository = record {
  repo_id = codes "repo";
  root = some (codes "/src");
  common_dir = none;
  branch = some (codes "main");
  head_oid = some (codes "abcdef0");
  remote = none;
  dirty_hash = none;
}

abbrev scope : Scope
scope = record {
  namespace = codes "default";
  workspace_id = some (codes "w");
  repository = some repository;
  session_id = none;
}

abbrev resolve : Resolver
resolve root stored current = GitRelation.same

abbrev comparison : ArtifactComparison
comparison = record { mismatched = false; fully_verified = false; complete = true }

abbrev old : ArtifactRef
old = record {
  repo_id = codes "repo";
  path = codes "src/lib.rs";
  symbol = some (codes "main");
  content_hash = some (codes "old");
  git_oid = none;
  language = none;
}

abbrev new : ArtifactRef
new = record old { content_hash = some (codes "new") }

-- The number that a list of bytes writes: on these inputs it has no collision.
abbrev toy_hash : List ℕ → ℕ
toy_hash [] = 1
toy_hash (b ∷ bs) = b + 1000 * toy_hash bs

scope-InScope : InScope scope scope
scope-InScope = record { namespace = refl; workspace = λ w e. e; repository = λ r e. (r, e, refl) }

old-Fits : Fits old
unfolding byte_length utf8_len
old-Fits = record { identity = omega arith; content = omega arith }

new-Fits : Fits new
unfolding byte_length utf8_len
new-Fits = record { identity = omega arith; content = omega arith }

old-new : Distinguished toy_hash old new
unfolding content_input length_framed to_le_bytes as_bytes encode_char byte_length utf8_len
old-new = record { identity = λ e. refl; content = λ e. absurd (omega arith) }

applicable-iff-InScope_example :
    (classify scope scope comparison resolve ≢ Applicability.inapplicable) ↔ InScope scope scope
applicable-iff-InScope_example = applicable-iff-InScope resolve comparison scope scope

exact_and_stale_example :
    ((classify scope scope comparison resolve ≡ Applicability.exact)
      ↔ IsExact resolve comparison repository repository)
    × ((classify scope scope comparison resolve ≡ Applicability.stale)
        ↔ IsStale resolve comparison repository repository)
exact_and_stale_example =
    exact_and_stale resolve comparison scope scope repository repository scope-InScope refl refl

classify-fingerprints_example :
    classify_fingerprints scope scope
      (fingerprint_artifacts toy_hash (old ∷ []))
      (fingerprint_artifacts toy_hash (new ∷ []))
      resolve
    ≡ classify_with_relation scope scope (old ∷ []) (new ∷ []) resolve
classify-fingerprints_example =
    classify-fingerprints toy_hash scope scope (old ∷ []) (new ∷ []) resolve (old-Fits, tt)
      (new-Fits, tt) (refl, tt) ((old-new, tt), tt)

abbrev cut_off : ArtifactFingerprintSet
cut_off = record { fingerprints = record { identity = 1; content = 2 } ∷ []; complete = false }

incomplete-ne-exact_example :
    classify_fingerprints scope scope cut_off cut_off resolve ≢ Applicability.exact
incomplete-ne-exact_example = incomplete-ne-exact scope scope cut_off cut_off resolve refl
