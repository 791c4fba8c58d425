-- ===== src/Requests/Paths.antt =====
-- The artifacts of a request: `normalize_artifact_path_checked`, `validate_artifact` and
-- `normalize_artifact_for_scope`.
use super_mem.Base.{
  ℕ, Text, codes, Bool, true, false, not, ◌&&◌, ◌||◌, Option, none, some, List, [], ◌∷◌, ◌++◌, leb,
  ◌==◌, text_eq, is_empty, if◌then◌else◌,
}
use super_mem.Types.{ArtifactRef, Scope, repo_id}
use super_mem.Store.Outcome.{Outcome, ok, err, conflict, invalid_input, ◌>>=◌, ◌>>◌, guard}
use super_mem.Store.Words.{trim, split_at}
use super_mem.Store.Validate.{validate_bounded_text}

-- `replace('\\', "/")`.
unfoldable pub forward_slashes : Text → Text
forward_slashes [] = []
forward_slashes (c ∷ s) = (if c == 92 then 47 else c) ∷ forward_slashes s

abbrev pub is_letter : ℕ → Bool
is_letter c = leb 65 c && leb c 90 || leb 97 c && leb c 122

-- The second byte is a colon and the first a letter, which is then the whole first character.
unfoldable pub is_drive : Text → Bool
is_drive (c ∷ d ∷ rest) = is_letter c && d == 58
is_drive s = false

abbrev pub is_slash : ℕ → Bool
is_slash c = c == 47

-- The loop, on `components`.
unfoldable pub read_components : List Text → List Text → Outcome (List Text)
unfolding is_drive
read_components components [] = ok components
read_components components (component ∷ rest) =
    let skipped = read_components components rest in
    let pushed = read_components (components ++ component ∷ []) rest in
    if is_empty component || text_eq component (codes ".")
    then skipped
    else if text_eq component (codes "..")
    then err invalid_input
    else if is_empty components && is_drive component
    then err invalid_input
    else pushed

-- `join("/")`.
unfoldable pub join_path : List Text → Text
join_path [] = []
join_path (t ∷ ts) = elim ts [ [] ↦ t | u ∷ us ↦ t ++ (47 ∷ join_path ts) ]

abbrev pub starts_with_slash : Text → Bool
starts_with_slash [] = false
starts_with_slash (c ∷ s) = is_slash c

unfoldable pub normalize_artifact_path_checked : Text → Outcome Text
unfolding trim forward_slashes split_at read_components join_path
normalize_artifact_path_checked path = do
  let portable = forward_slashes (trim path)
  guard (not (is_empty portable || starts_with_slash portable)) invalid_input
  components ← read_components [] (split_at is_slash [] portable)
  guard (not (is_empty components)) invalid_input
  ok (join_path components)

-- `validate_bounded_text` of a field that may be missing.
unfoldable pub validate_optional : Option Text → ℕ → Outcome (Unit {0})
unfolding validate_bounded_text
validate_optional none maximum = ok tt
validate_optional (some value) maximum = validate_bounded_text value false maximum

unfoldable pub validate_artifact : ArtifactRef → Outcome (Unit {0})
unfolding validate_bounded_text validate_optional
validate_artifact artifact = do
  validate_bounded_text artifact.repo_id true 512
  validate_bounded_text artifact.path false 4096
  validate_optional artifact.symbol 512
  validate_optional artifact.content_hash 256
  validate_optional artifact.git_oid 256
  validate_optional artifact.language 128

-- The match of `normalize_artifact_for_scope`.
unfoldable pub artifact_repository : Option Text → Text → Outcome Text
artifact_repository none supplied = ok supplied
artifact_repository (some own) supplied =
    if is_empty supplied then ok own else if text_eq supplied own then ok supplied else err conflict

unfoldable pub normalize_artifact_for_scope : ArtifactRef → Scope → Outcome ArtifactRef
unfolding artifact_repository normalize_artifact_path_checked validate_artifact trim
normalize_artifact_for_scope artifact scope = do
  repository ← artifact_repository (repo_id scope) (trim artifact.repo_id)
  path ← normalize_artifact_path_checked artifact.path
  let normalized = record artifact { repo_id = repository; path = path }
  validate_artifact normalized
  ok normalized
