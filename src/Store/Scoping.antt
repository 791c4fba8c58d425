-- ===== src/Store/Scoping.antt =====
-- The durable identity of a scope: `Scope::key`, `same_durable_scope`, `scoped_idempotency_key`,
-- `attachment_namespace`, `stabilize_scope`, and the digest of a memory's content.
use super_mem.Base.{Text, codes, Bool, ◌&&◌, Option, none, some, [], ◌∷◌, ◌++◌, text_eq, option_eq}
use super_mem.Types.{Scope, RepositoryContext}
use super_mem.Utf8.{as_bytes}
use super_mem.Store.Tables.{Platform}

module _ (P : Platform) where
  -- `Scope::key`.
  unfoldable pub scope_key : Scope → Text
  scope_key scope = elim scope.repository [
    | some r ↦
        P.hex_digest (P.encode_repository scope.namespace (codes "repository") r.repo_id r.branch)
    | none ↦
        P.hex_digest (P.encode_workspace scope.namespace (codes "workspace") scope.workspace_id)
  ]

  unfoldable pub same_durable_scope : Text → Option Text → Scope → Bool
  unfolding scope_key
  same_durable_scope stored_scope_key stored_workspace scope =
      text_eq stored_scope_key (scope_key scope) && option_eq stored_workspace scope.workspace_id

  -- `scope.repository.as_ref().and(scope.workspace_id.as_deref())`, as it is fed to the hasher.
  unfoldable pub workspace_bytes : Scope → Text
  workspace_bytes scope = elim scope.repository [
    | none ↦ []
    | some r ↦ elim scope.workspace_id [
      | none ↦ []
      | some w ↦ as_bytes (codes "workspace-v1") ++ (0 ∷ P.raw_digest (as_bytes w))
    ]
  ]

  unfoldable pub scoped_idempotency_key : Scope → Option Text → Option Text
  unfolding scope_key workspace_bytes
  scoped_idempotency_key scope none = none
  scoped_idempotency_key scope (some key) =
      some
        (P.hex_digest (as_bytes (scope_key scope) ++ (0 ∷ workspace_bytes scope ++ as_bytes key)))

  unfoldable pub attachment_namespace : Scope → Text → Text → Text
  unfolding scope_key
  attachment_namespace scope attachment_kind variant =
      scope.namespace
      ++ (0x1f
          ∷ P.hex_digest (
              as_bytes (codes "super-mem:attachment-scope:v1")
              ++ (0 ∷ as_bytes (scope_key scope)
                  ++ (0 ∷ elim scope.workspace_id [
                    | some w ↦ as_bytes (codes "workspace") ++ (0 ∷ P.raw_digest (as_bytes w))
                    | none ↦ as_bytes (codes "no-workspace")
                  ]
                      ++ (0 ∷ as_bytes attachment_kind ++ (0 ∷ as_bytes variant))))))

  unfoldable pub memory_content_hash : Text → Text → Text
  memory_content_hash title body = P.hex_digest (
      as_bytes (codes "super-mem:memory-content:v2")
      ++ (0 ∷ P.raw_digest (as_bytes title) ++ P.raw_digest (as_bytes body)))

unfoldable pub stable_repository : Option RepositoryContext → Option RepositoryContext
stable_repository none = none
stable_repository (some r) =
    some (record r {
      root = none;
      common_dir = none;
      head_oid = none;
      remote = none;
      dirty_hash = none;
    })

unfoldable pub stabilize_scope : Scope → Scope
unfolding stable_repository
stabilize_scope scope = record scope {
  session_id = none;
  repository = stable_repository scope.repository;
}
