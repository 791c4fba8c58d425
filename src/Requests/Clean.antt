-- ===== src/Requests/Clean.antt =====
-- The scope and the time of validity of a request: what their tests make sure of.
use super_mem.Base.{ℕ, ◌≡◌, Text, true, List, [], ◌∷◌, arith, All, Option, none, some, ◌∷◌, ◌<◌}
use super_mem.Types.{Scope, RepositoryContext}
use super_mem.Requests.Scoped.{Settings, is_clean, scope_metadata, redact_text, flatten}
use super_mem.Requests.Prepare.{valid_interval}

-- A time of validity ends after it begins.
abbrev pub IsInterval : Option ℕ → Option ℕ → Type 0
IsInterval none none = Unit
IsInterval none (some until) = Unit
IsInterval (some from) none = Unit
IsInterval (some from) (some until) = from < until

module _ (S : Settings) where
  -- The redactor finds nothing in the text, if there is one.
  abbrev pub Unfound : Option Text → Type 0
  Unfound none = Unit
  Unfound (some text) = (redact_text S text).1 ≡ 0

  abbrev pub RepositoryUnfound : Option RepositoryContext → Type 0
  RepositoryUnfound none = Unit
  RepositoryUnfound (some r) =
      Unfound (some r.repo_id)
      × Unfound r.branch
      × Unfound r.root
      × Unfound r.common_dir
      × Unfound r.remote
      × Unfound r.head_oid
      × Unfound r.dirty_hash

  -- It finds nothing in any text of the scope.
  abbrev pub ScopeUnfound : Scope → Type 0
  ScopeUnfound scope =
      Unfound (some scope.namespace)
      × Unfound scope.workspace_id
      × Unfound scope.session_id
      × RepositoryUnfound scope.repository

  flatten-Unfound :
      (values : List (Option Text)) → is_clean S (flatten values) ≡ true → All Unfound values
  unfolding flatten is_clean
  flatten-Unfound [] h = tt
  flatten-Unfound (none ∷ rest) h = (tt, flatten-Unfound rest h)
  flatten-Unfound (some text ∷ rest) h = (ground arith, flatten-Unfound rest (ground arith))

  of_repository :
      (o : Option RepositoryContext)
      → All Unfound (elim o [
        | none ↦ []
        | some r ↦
            some r.repo_id
            ∷ r.branch
            ∷ r.root
            ∷ r.common_dir
            ∷ r.remote
            ∷ r.head_oid
            ∷ r.dirty_hash
            ∷ []
      ])
      → RepositoryUnfound o
  of_repository none h = tt
  of_repository (some r) h =
      (h.0, h.1.0, h.1.1.0, h.1.1.1.0, h.1.1.1.1.0, h.1.1.1.1.1.0, h.1.1.1.1.1.1.0)

  pub is_clean-ScopeUnfound :
      (scope : Scope) → is_clean S (scope_metadata scope) ≡ true → ScopeUnfound scope
  unfolding scope_metadata
  is_clean-ScopeUnfound scope h =
      let names =
        flatten-Unfound
          (some scope.namespace ∷ scope.workspace_id ∷ scope.session_id ∷ (elim scope.repository [
            | none ↦ []
            | some r ↦
                some r.repo_id
                ∷ r.branch
                ∷ r.root
                ∷ r.common_dir
                ∷ r.remote
                ∷ r.head_oid
                ∷ r.dirty_hash
                ∷ []
          ]))
          h in
      (names.0, names.1.0, names.1.1.0, of_repository scope.repository (names.1.1.1))

pub valid_interval-IsInterval :
    (from until : Option ℕ) → valid_interval from until ≡ true → IsInterval from until
unfolding valid_interval
valid_interval-IsInterval none none h = tt
valid_interval-IsInterval none (some until) h = tt
valid_interval-IsInterval (some from) none h = tt
valid_interval-IsInterval (some from) (some until) h = ground arith
