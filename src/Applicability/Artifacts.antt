-- ===== src/Applicability/Artifacts.antt =====
-- The comparison of the artifacts that a memory refers to with the current ones.
use super_mem.Base.{
  ℕ, ◌+◌, Text, Bool, true, false, ◌&&◌, not, Option, none, some, List, [], ◌∷◌, ltb, ◌==◌, text_eq,
  option_eq, length, is_empty, is_some, any, all, find, filter, if◌then◌else◌,
}
use super_mem.Types.{ArtifactRef}

pub record ArtifactComparison : Type 0 where
  pub mismatched : Bool
  pub fully_verified : Bool
  pub complete : Bool

-- The two 32-byte digests, as the numbers that they write.
pub record ArtifactFingerprint : Type 0 where
  pub identity : ℕ
  pub content : ℕ

pub record ArtifactFingerprintSet : Type 0 where
  pub fingerprints : List ArtifactFingerprint
  pub complete : Bool

-- The same repository, path and symbol.
unfoldable pub same_artifact : ArtifactRef → ArtifactRef → Bool
same_artifact historical current =
    text_eq historical.repo_id current.repo_id
    && (text_eq historical.path current.path && option_eq historical.symbol current.symbol)

-- `current.and_then(|artifact| artifact.content_hash.as_deref())`.
abbrev pub hash_of : Option ArtifactRef → Option Text
hash_of none = none
hash_of (some a) = a.content_hash

abbrev pub has_hash : ArtifactRef → Bool
has_hash a = is_some a.content_hash

abbrev pub mismatch : Bool → ArtifactComparison
mismatch complete = record { mismatched = true; fully_verified = false; complete = complete }

-- What one round of the loop does with the two hashes: `none` returns with a mismatch, `some`
-- continues with the new count.
abbrev pub compare_hashes : Option Text → Option Text → ℕ → Option ℕ
compare_hashes (some old) (some now) verified =
    if text_eq old now then some (verified + 1) else none
compare_hashes (some old) none verified = some verified
compare_hashes none now verified = some verified

-- The loop of `compare_artifact_refs` over the historical artifacts that have a hash.
unfoldable pub compare_refs_from : ℕ → ℕ → List ArtifactRef → List ArtifactRef → ArtifactComparison
compare_refs_from verifiable verified [] current = record {
  mismatched = false;
  fully_verified = ltb 0 verifiable && verified == verifiable;
  complete = true;
}
compare_refs_from verifiable verified (historical ∷ rest) current =
    elim (compare_hashes historical.content_hash (hash_of (find (same_artifact historical) current))
      verified) [
        | none ↦ mismatch true
        | some verified' ↦ compare_refs_from (verifiable + 1) verified' rest current
      ]

unfoldable pub compare_artifact_refs : List ArtifactRef → List ArtifactRef → ArtifactComparison
unfolding compare_refs_from same_artifact
compare_artifact_refs memory_artifacts current_artifacts =
    compare_refs_from 0 0 (filter has_hash memory_artifacts) current_artifacts

-- The loop of `compare_artifact_fingerprints`.
unfoldable pub compare_fingerprints_from :
    ℕ
    → List ArtifactFingerprint
    → ArtifactFingerprintSet
    → List ArtifactFingerprint
    → ArtifactComparison
compare_fingerprints_from verified [] memory current = record {
  mismatched = false;
  fully_verified =
      memory.complete
      && (not (is_empty memory.fingerprints) && verified == length memory.fingerprints);
  complete = memory.complete;
}
compare_fingerprints_from verified (historical ∷ rest) memory current =
    elim (find (λ (c : ArtifactFingerprint). historical.identity == c.identity) current) [
      | none ↦ compare_fingerprints_from verified rest memory current
      | some c ↦
          let next = compare_fingerprints_from (verified + 1) rest memory current in
          if historical.content == c.content then next else mismatch memory.complete
    ]

unfoldable pub compare_artifact_fingerprints :
    ArtifactFingerprintSet → ArtifactFingerprintSet → ArtifactComparison
unfolding compare_fingerprints_from
compare_artifact_fingerprints memory_artifacts current_artifacts =
    compare_fingerprints_from 0 memory_artifacts.fingerprints memory_artifacts
      current_artifacts.fingerprints

-- `ArtifactFingerprintSet::is_fully_verified_by`.
unfoldable pub is_fully_verified_by : ArtifactFingerprintSet → ArtifactFingerprintSet → Bool
is_fully_verified_by memory current =
    memory.complete
    && (not (is_empty memory.fingerprints)
        && all
            (λ (h : ArtifactFingerprint).
              any (λ (c : ArtifactFingerprint). h.identity == c.identity && h.content == c.content)
                current.fingerprints)
            memory.fingerprints)
