-- ===== src/Types/Scopes.antt =====
-- The scopes by which memories are isolated, and the artifacts that they refer to.
use super_mem.Base.{ℕ, Text, Option, none, some}

pub record RepositoryContext : Type 0 where
  pub repo_id : Text
  pub root : Option Text
  pub common_dir : Option Text
  pub branch : Option Text
  pub head_oid : Option Text
  pub remote : Option Text
  pub dirty_hash : Option Text

pub record Scope : Type 0 where
  pub namespace : Text
  pub workspace_id : Option Text
  pub repository : Option RepositoryContext
  pub session_id : Option Text

-- The counts of commits are `u32`s.
pub data GitRelation : Type 0 where
  same : GitRelation
  ancestor : ℕ → GitRelation
  descendant : ℕ → GitRelation
  diverged : ℕ → ℕ → GitRelation
  unknown : GitRelation

pub record ArtifactRef : Type 0 where
  pub repo_id : Text
  pub path : Text
  pub symbol : Option Text
  pub content_hash : Option Text
  pub git_oid : Option Text
  pub language : Option Text

-- `Scope::repo_id` and `Scope::branch`.
abbrev pub repo_id : Scope → Option Text
repo_id s = elim s.repository [ none ↦ none | some r ↦ some (r.repo_id) ]

abbrev pub branch : Scope → Option Text
branch s = elim s.repository [ none ↦ none | some r ↦ r.branch ]
