-- ===== src/Requests/Scoped.antt =====
-- The checks of a scope: `normalize_repository`, `validate_scope`, and the settings that they read.
use super_mem.Base.{
  ℕ, Text, Bool, false, not, ◌&&◌, ◌||◌, Option, none, some, List, [], ◌∷◌, leb, ◌==◌, is_empty,
  all,
}
use super_mem.Types.{Scope, RepositoryContext, Value}
use super_mem.Utf8.{byte_length}
use super_mem.Redaction.{Pattern, redact, redact_attributes}
use super_mem.Store.Outcome.{Outcome, ok, invalid_input, ◌>>◌, guard}
use super_mem.Store.Words.{trim}
use super_mem.Store.Validate.{validate_bounded_text}
use super_mem.Requests.Paths.{validate_optional}
use super_mem.Requests.Remote.{normalize_remote}

-- What the engine was opened with; the patterns of `Redactor::default`; and the length of the JSON
-- that `serde_json` makes of attributes.
pub record Settings : Type 0 where
  pub max_text_bytes : ℕ
  pub redactor : Option (List Pattern)
  pub default_patterns : List Pattern
  pub encoded_length : List (Text × Value) → ℕ

unfoldable pub normalize_repository : Option RepositoryContext → Option RepositoryContext
unfolding normalize_remote
normalize_repository none = none
normalize_repository (some repository) = elim repository.remote [
  | none ↦ some repository
  | some remote ↦ some (record repository { remote = normalize_remote remote })
]

unfoldable pub is_hex_digit : ℕ → Bool
is_hex_digit c = leb 48 c && leb c 57 || (leb 65 c && leb c 70 || leb 97 c && leb c 102)

-- Every byte of a character outside ASCII is no digit.
unfoldable pub valid_hex_identifier : Text → ℕ → ℕ → Bool
unfolding is_hex_digit
valid_hex_identifier value minimum maximum =
    leb minimum (byte_length value) && leb (byte_length value) maximum && all is_hex_digit value

unfoldable pub validate_hex : Option Text → ℕ → ℕ → Outcome (Unit {0})
unfolding valid_hex_identifier
validate_hex none minimum maximum = ok tt
validate_hex (some value) minimum maximum =
    guard (valid_hex_identifier value minimum maximum) invalid_input

unfoldable pub validate_repository : RepositoryContext → Outcome (Unit {0})
unfolding trim validate_optional validate_hex
validate_repository repository = do
  guard (not (is_empty (trim repository.repo_id)) && leb (byte_length repository.repo_id) 512)
      invalid_input
  validate_optional repository.root 4096
  validate_optional repository.common_dir 4096
  validate_optional repository.branch 512
  validate_optional repository.head_oid 256
  validate_optional repository.remote 4096
  validate_optional repository.dirty_hash 256
  validate_hex repository.head_oid 7 64
  validate_hex repository.dirty_hash 16 128

unfoldable pub validate_own_repository : Option RepositoryContext → Outcome (Unit {0})
unfolding validate_repository
validate_own_repository none = ok tt
validate_own_repository (some repository) = validate_repository repository

-- `into_iter().flatten()`.
unfoldable pub flatten : List (Option Text) → List Text
flatten [] = []
flatten (o ∷ rest) = elim o [ none ↦ flatten rest | some value ↦ value ∷ flatten rest ]

-- The array `metadata`, without the values that are missing.
unfoldable pub scope_metadata : Scope → List Text
unfolding flatten
scope_metadata scope = flatten (
    some scope.namespace ∷ scope.workspace_id ∷ scope.session_id ∷ (elim scope.repository [
      | none ↦ []
      | some r ↦
          some r.repo_id
          ∷ r.branch
          ∷ r.root
          ∷ r.common_dir
          ∷ r.remote
          ∷ r.head_oid
          ∷ r.dirty_hash
          ∷ []
    ]))

module _ (S : Settings) where
  -- `redact_text` and `redact_attributes` of the engine.
  unfoldable pub redact_text : Text → Text × ℕ
  unfolding redact
  redact_text text = elim S.redactor [
    | none ↦ (text, 0)
    | some patterns ↦ ((redact patterns text).text, (redact patterns text).count)
  ]

  unfoldable pub hide_attributes : List (Text × Value) → List (Text × Value) × ℕ
  unfolding redact_attributes
  hide_attributes attributes = elim S.redactor [
    | none ↦ (attributes, 0)
    | some patterns ↦ redact_attributes patterns attributes
  ]

  unfoldable pub is_clean : List Text → Bool
  unfolding redact_text
  is_clean values = all (λ value. (redact_text value).1 == 0) values

  unfoldable pub validate_scope : Scope → Outcome (Unit {0})
  unfolding trim validate_own_repository validate_optional scope_metadata is_clean
  validate_scope scope = do
    guard (not (is_empty (trim scope.namespace)) && leb (byte_length scope.namespace) 128)
        invalid_input
    validate_own_repository scope.repository
    validate_optional scope.workspace_id 512
    validate_optional scope.session_id 512
    guard (is_clean (scope_metadata scope)) invalid_input

  unfoldable pub validate_text : Text → Bool → Outcome (Unit {0})
  unfolding trim
  validate_text value allow_empty = do
    guard (allow_empty || not (is_empty (trim value))) invalid_input
    guard (leb (byte_length value) S.max_text_bytes) invalid_input

  unfoldable pub validate_attributes : List (Text × Value) → Outcome (Unit {0})
  validate_attributes attributes =
      guard (leb (S.encoded_length attributes) S.max_text_bytes) invalid_input

  unfoldable pub validate_relation : Text → Outcome (Unit {0})
  unfolding validate_bounded_text redact
  validate_relation relation = do
    validate_bounded_text relation false 64
    let patterns : List Pattern = elim S.redactor [
      | none ↦ S.default_patterns
      | some patterns ↦ patterns
    ]
    guard ((redact patterns relation).count == 0) invalid_input
