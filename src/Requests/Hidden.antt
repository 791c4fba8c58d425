-- ===== src/Requests/Hidden.antt =====
-- The redaction of the fields of a request, with the number of what was redacted.
use super_mem.Base.{ℕ, ◌+◌, Option, none, some, List, [], ◌∷◌}
use super_mem.Types.{EntityRef, ArtifactRef}
use super_mem.Requests.Scoped.{Settings, redact_text}

-- A loop that replaces every element and adds up the counts.
abbrev pub each : {A : Type 0} → (A → A × ℕ) → List A → List A × ℕ
each f [] = ([], 0)
each f (a ∷ rest) = let r = f a in let s = each f rest in (r.0 ∷ s.0, r.1 + s.1)

abbrev pub if_present : {A : Type 0} → (A → A × ℕ) → Option A → Option A × ℕ
if_present f none = (none, 0)
if_present f (some a) = let r = f a in (some (r.0), r.1)

module _ (S : Settings) where
  unfoldable pub hide_entity : EntityRef → EntityRef × ℕ
  unfolding redact_text
  hide_entity entity =
      let kind = redact_text S entity.kind in
      let canonical = redact_text S entity.canonical in
      let display = redact_text S entity.display in
      (
        record { kind = kind.0; canonical = canonical.0; display = display.0 },
        kind.1 + canonical.1 + display.1,
      )

  unfoldable pub hide_artifact : ArtifactRef → ArtifactRef × ℕ
  unfolding redact_text
  hide_artifact artifact =
      let repo = redact_text S artifact.repo_id in
      let path = redact_text S artifact.path in
      let symbol = if_present (redact_text S) artifact.symbol in
      let language = if_present (redact_text S) artifact.language in
      let content_hash = if_present (redact_text S) artifact.content_hash in
      let git_oid = if_present (redact_text S) artifact.git_oid in
      (
        record {
          repo_id = repo.0;
          path = path.0;
          symbol = symbol.0;
          content_hash = content_hash.0;
          git_oid = git_oid.0;
          language = language.0;
        },
        repo.1 + path.1 + symbol.1 + language.1 + content_hash.1 + git_oid.1,
      )
