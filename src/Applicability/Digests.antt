-- ===== src/Applicability/Digests.antt =====
-- The digests by which artifacts are staged. The parameter `blake3` maps the bytes that a hasher is
-- fed to the number that the 32-byte digest writes.
use super_mem.Base.{ℕ, ◌/◌, ◌%◌, ◌^◌, Text, codes, Option, none, some, List, [], ◌∷◌, ◌++◌, true}
use super_mem.Types.{ArtifactRef}
use super_mem.Utf8.{byte_length, as_bytes}
use super_mem.Applicability.Artifacts.{ArtifactFingerprint, ArtifactFingerprintSet}

-- `(n as u64).to_le_bytes()`.
unfoldable pub to_le_bytes : ℕ → List ℕ
to_le_bytes n =
    n % 256
    ∷ n / 2 ^ 8 % 256
    ∷ n / 2 ^ 16 % 256
    ∷ n / 2 ^ 24 % 256
    ∷ n / 2 ^ 32 % 256
    ∷ n / 2 ^ 40 % 256
    ∷ n / 2 ^ 48 % 256
    ∷ n / 2 ^ 56 % 256
    ∷ []

-- `update_length_framed`: what it feeds to the hasher.
unfoldable pub length_framed : Text → List ℕ
unfolding to_le_bytes
length_framed value = to_le_bytes (byte_length value) ++ as_bytes value

unfoldable pub symbol_bytes : Option Text → List ℕ
symbol_bytes none = 0 ∷ []
symbol_bytes (some symbol) = 1 ∷ length_framed symbol

-- All that `artifact_identity_fingerprint` feeds to its hasher.
unfoldable pub identity_input : Text → Text → Option Text → List ℕ
unfolding symbol_bytes
identity_input repo_id path symbol =
    length_framed (codes "super-mem:artifact-identity:v1")
    ++ (length_framed repo_id ++ (length_framed path ++ symbol_bytes symbol))

unfoldable pub content_input : Text → List ℕ
content_input content_hash =
    length_framed (codes "super-mem:artifact-content:v1") ++ length_framed content_hash

module _ (blake3 : List ℕ → ℕ) where
  unfoldable pub artifact_identity_fingerprint : Text → Text → Option Text → ℕ
  artifact_identity_fingerprint repo_id path symbol = blake3 (identity_input repo_id path symbol)

  unfoldable pub artifact_fingerprint : Text → Text → Option Text → Text → ArtifactFingerprint
  unfolding artifact_identity_fingerprint
  artifact_fingerprint repo_id path symbol content_hash = record {
    identity = artifact_identity_fingerprint repo_id path symbol;
    content = blake3 (content_input content_hash);
  }

  -- The `filter_map` of `fingerprint_artifacts`.
  unfoldable pub fingerprint_all : List ArtifactRef → List ArtifactFingerprint
  unfolding artifact_fingerprint
  fingerprint_all [] = []
  fingerprint_all (a ∷ rest) = elim a.content_hash [
    | none ↦ fingerprint_all rest
    | some content_hash ↦
        artifact_fingerprint a.repo_id a.path a.symbol content_hash ∷ fingerprint_all rest
  ]

  unfoldable pub fingerprint_artifacts : List ArtifactRef → ArtifactFingerprintSet
  unfolding fingerprint_all
  fingerprint_artifacts artifacts = record {
    fingerprints = fingerprint_all artifacts;
    complete = true;
  }
