-- ===== src/Applicability/Agreement.antt =====
-- The comparison by staged fingerprints agrees with the comparison of the artifacts themselves.
use mathlib.Core.Path.{subst, subst₂}
use mathlib.Core.Bool.{false≢true}
use super_mem.Base.{
  ℕ, ◌+◌, ◌≤◌, ◌≡◌, refl, ap, Text, text_eq, text_eq_iff, option_eq_iff, true, not, Option, none,
  some, List, [], ◌∷◌, ltb, ◌==◌, ==_iff, length, is_empty, find, filter, All, usize_max, inl, inr,
  Bool-cases, Option-cases, arith,
}
use super_mem.Types.{Scope, ArtifactRef}
use super_mem.Applicability.Classify.{
  Resolver, classify, classify_fingerprints, classify_with_relation,
}
use super_mem.Utf8.{byte_length}
use super_mem.Applicability.Artifacts.{
  ArtifactFingerprint, ArtifactFingerprintSet, same_artifact, has_hash, compare_refs_from,
  compare_artifact_refs, compare_fingerprints_from, compare_artifact_fingerprints,
}
use super_mem.Applicability.Digests.{
  identity_input, content_input, artifact_identity_fingerprint, artifact_fingerprint,
  fingerprint_all, fingerprint_artifacts,
}
use super_mem.Applicability.Framing.{SymbolFits, identity_input-injective, content_input-injective}

-- The texts of an artifact fit a `usize`.
pub record Fits (a : ArtifactRef) : Type 0 where
  pub identity :
      (byte_length a.repo_id ≤ usize_max) × (byte_length a.path ≤ usize_max) × SymbolFits a.symbol
  pub content : SymbolFits a.content_hash

module _ (blake3 : List ℕ → ℕ) where
  -- The hash does not collide on two inputs.
  abbrev pub NoCollision : List ℕ → List ℕ → Type 0
  NoCollision x y = blake3 x ≡ blake3 y → x ≡ y

  abbrev pub NoContentCollision : Option Text → Option Text → Type 0
  NoContentCollision (some old) (some now) = NoCollision (content_input old) (content_input now)
  NoContentCollision _ _ = Unit

  -- The hash tells a historical artifact from a current one.
  pub record Distinguished (h c : ArtifactRef) : Type 0 where
    pub identity :
        NoCollision
          (identity_input h.repo_id h.path h.symbol)
          (identity_input c.repo_id c.path c.symbol)
    pub content : NoContentCollision h.content_hash c.content_hash

  abbrev identity_of : ArtifactRef → ℕ
  identity_of a = artifact_identity_fingerprint blake3 a.repo_id a.path a.symbol

  -- Equal identities are equal repositories, paths and symbols.
  identity_agrees :
      (h c : ArtifactRef)
      → Fits h
      → Fits c
      → Distinguished h c
      → (identity_of h == identity_of c) ≡ same_artifact h c
  unfolding same_artifact artifact_identity_fingerprint
  identity_agrees h c fh fc d = elim (Bool-cases (identity_of h == identity_of c)) [
    | inl e ↦
        let (p, q, r) =
          identity_input-injective h.repo_id h.path h.symbol c.repo_id c.path c.symbol fh.identity
            fc.identity (d.identity ((==_iff (identity_of h) (identity_of c)).0 e)) in
        ground (
          arith,
          text_eq_iff h.repo_id c.repo_id,
          text_eq_iff h.path c.path,
          option_eq_iff h.symbol c.symbol,
        )
    | inr e ↦ ground (
      arith,
      text_eq_iff h.repo_id c.repo_id,
      text_eq_iff h.path c.path,
      option_eq_iff h.symbol c.symbol,
    )
  ]

  content_agrees :
      (old now : Text)
      → byte_length old ≤ usize_max
      → byte_length now ≤ usize_max
      → NoCollision (content_input old) (content_input now)
      → (blake3 (content_input old) == blake3 (content_input now)) ≡ text_eq old now
  content_agrees old now ho hn d =
      elim (Bool-cases (blake3 (content_input old) == blake3 (content_input now))) [
        | inl e ↦
            let p = content_input-injective old now ho hn (d ((==_iff _ _).0 e)) in
            ground (arith, text_eq_iff old now)
        | inr e ↦ ground (arith, text_eq_iff old now)
      ]

  abbrev fingerprint_of : ArtifactRef → Text → ArtifactFingerprint
  fingerprint_of a content_hash = artifact_fingerprint blake3 a.repo_id a.path a.symbol content_hash

  abbrev staged : Option Text → ArtifactRef → Option ArtifactFingerprint
  staged none a = none
  staged (some content_hash) a = some (fingerprint_of a content_hash)

  abbrev staged_of : Option ArtifactRef → Option ArtifactFingerprint
  staged_of none = none
  staged_of (some a) = staged a.content_hash a

  -- A search by identity finds the fingerprint of the artifact that a search by name finds.
  find_agrees :
      (h : ArtifactRef) (cs : List ArtifactRef)
      → Fits h
      → All Fits cs
      → All (λ c. has_hash c ≡ true) cs
      → All (Distinguished h) cs
      → find (λ (f : ArtifactFingerprint). identity_of h == f.identity) (fingerprint_all blake3 cs)
        ≡ staged_of (find (same_artifact h) cs)
  unfolding fingerprint_all
  find_agrees h [] fh fs hs ds = refl
  find_agrees h (c ∷ cs) fh fs hs ds = elim (Option-cases c.content_hash) [
    | inl e ↦ cc
    | inr (x, e) ↦
        ground (arith, identity_agrees h c fh fs.0 ds.0, find_agrees h cs fh fs.1 hs.1 ds.1)
  ]

  -- What is found is one of the current artifacts.
  find-All :
      (P : ArtifactRef → Type 0) (h : ArtifactRef) (cs : List ArtifactRef) (c : ArtifactRef)
      → All P cs
      → find (same_artifact h) cs ≡ some c
      → P c
  find-All P h [] c a e = cc
  find-All P h (d ∷ cs) c a e = elim (Bool-cases (same_artifact h d)) [
    | inl t ↦ subst P (cc) a.0
    | inr t ↦ find-All P h cs c a.1 (cc)
  ]

  length-fingerprint_all :
      (ms : List ArtifactRef) → length (fingerprint_all blake3 ms) ≡ length (filter has_hash ms)
  unfolding fingerprint_all
  length-fingerprint_all [] = refl
  length-fingerprint_all (m ∷ ms) = ground (arith, length-fingerprint_all ms)

  some_left : {A : Type 0} (xs : List A) → not (is_empty xs) ≡ ltb 0 (length xs)
  some_left [] = refl
  some_left (x ∷ xs) = ground arith

  -- The two loops agree from any point on.
  loops_agree :
      (ms cs : List ArtifactRef) (set : ArtifactFingerprintSet) (verifiable verified : ℕ)
      → set.complete ≡ true
      → verifiable + length (fingerprint_all blake3 ms) ≡ length set.fingerprints
      → All Fits ms
      → All Fits cs
      → All (λ c. has_hash c ≡ true) cs
      → All (λ m. All (Distinguished m) cs) ms
      → compare_fingerprints_from verified
          (fingerprint_all blake3 ms)
          set
          (fingerprint_all blake3 cs)
        ≡ compare_refs_from verifiable verified (filter has_hash ms) cs
  unfolding compare_fingerprints_from compare_refs_from fingerprint_all
  loops_agree [] cs set verifiable verified k n fm fc hc d =
      ground (arith, some_left set.fingerprints)
  loops_agree (m ∷ ms) cs set verifiable verified k n fm fc hc d =
      elim (Option-cases m.content_hash) [
        | inl e ↦ ground (arith, loops_agree ms cs set verifiable verified k, fm.1, d.1)
        | inr (old, e) ↦
            let found = find_agrees m cs fm.0 fc hc d.0 in
            elim (Option-cases (find (same_artifact m) cs)) [
              | inl f ↦
                  ground
                    (arith, found, loops_agree ms cs set (verifiable + 1) verified k, fm.1, d.1)
              | inr (c, f) ↦
                  let hashed = find-All (λ a. has_hash a ≡ true) m cs c hc f in
                  let told = find-All (Distinguished m) m cs c d.0 f in
                  let fits = find-All Fits m cs c fc f in
                  elim (Option-cases c.content_hash) [
                    | inl g ↦ absurd (false≢true (ground arith))
                    | inr (now, g) ↦
                        let same =
                          content_agrees old now (subst SymbolFits e fm.0.content)
                            (subst SymbolFits g fits.content)
                            (subst₂ NoContentCollision e g told.content) in
                        ground (
                          arith,
                          found,
                          same,
                          loops_agree ms cs set (verifiable + 1) (verified + 1) k,
                          fm.1,
                          d.1,
                        )
                  ]
            ]
      ]

  -- For artifacts whose texts fit a `usize`, of which all current ones have a content hash, and a
  -- hash that does not collide on a historical and a current one: the class of a memory by the
  -- staged fingerprints is its class by the artifacts, for all scopes and whatever Git says.
  pub classify-fingerprints :
      (memory current : Scope) (ms cs : List ArtifactRef) (resolve : Resolver)
      → All Fits ms
      → All Fits cs
      → All (λ c. has_hash c ≡ true) cs
      → All (λ m. All (Distinguished m) cs) ms
      → classify_fingerprints memory current
          (fingerprint_artifacts blake3 ms)
          (fingerprint_artifacts blake3 cs)
          resolve
        ≡ classify_with_relation memory current ms cs resolve
  unfolding classify_fingerprints classify_with_relation compare_artifact_fingerprints
      compare_artifact_refs fingerprint_artifacts
  classify-fingerprints memory current ms cs resolve fm fc hc d =
      ap (λ comparison. classify memory current comparison resolve)
        (loops_agree ms cs (fingerprint_artifacts blake3 ms) 0 0 refl (omega arith) fm fc hc d)
