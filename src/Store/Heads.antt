-- ===== src/Store/Heads.antt =====
-- The reads and the updates of `memory_heads` in `upsert_memory`: which memory a request revises,
-- and what becomes of its row.
use super_mem.Base.{
  ℕ, Text, Bool, true, false, ◌&&◌, ◌||◌, Option, none, some, List, [], ◌∷◌, ltb, ◌==◌, text_eq,
  option_eq, filter, if◌then◌else◌,
}
use super_mem.Types.{MemoryState, kind_as_str, repo_id, branch}
use super_mem.Store.Outcome.{Outcome, ok, conflict, ◌>>=◌, ◌>>◌, guard}
use super_mem.Store.Tables.{Platform, HeadRow, RememberRequest, to_ms}
use super_mem.Store.Scoping.{scope_key, same_durable_scope}
use super_mem.Store.Validate.{find_head}

-- `state IN ('active','contested')`.
abbrev pub is_live : MemoryState → Bool
is_live MemoryState.active = true
is_live MemoryState.contested = true
is_live MemoryState.superseded = false
is_live MemoryState.retracted = false

abbrev pub is_active : MemoryState → Bool
is_active MemoryState.active = true
is_active MemoryState.contested = false
is_active MemoryState.superseded = false
is_active MemoryState.retracted = false

-- `UPDATE memory_heads SET ... WHERE ...`.
unfoldable pub update_heads : (HeadRow → Bool) → (HeadRow → HeadRow) → List HeadRow → List HeadRow
update_heads chosen change [] = []
update_heads chosen change (h ∷ rest) =
    (if chosen h then change h else h) ∷ update_heads chosen change rest

-- `ORDER BY updated_seq DESC,memory_id`: whether the first comes before the second.
unfoldable pub newer : HeadRow → HeadRow → Bool
newer g h =
    ltb h.updated_seq g.updated_seq
    || (g.updated_seq == h.updated_seq && ltb g.memory_id h.memory_id)

-- `ORDER BY ... LIMIT 1`.
unfoldable pub newest : List HeadRow → Option HeadRow
unfolding newer
newest [] = none
newest (h ∷ rest) = elim (newest rest) [
  | none ↦ some h
  | some g ↦ if newer g h then some g else some h
]

-- `.map(to_ms)`.
unfoldable pub map_ms : Option ℕ → Option ℕ
unfolding to_ms
map_ms none = none
map_ms (some t) = some (to_ms t)

-- What the match on `existing` binds.
pub record Claim : Type 0 where
  pub memory_id : ℕ
  pub docid : ℕ
  pub revision : ℕ
  pub created_at_ms : ℕ
  pub created_seq : ℕ

module _ (P : Platform) where
  -- The closure on the row that an explicit identifier finds.
  unfoldable pub check_revisable : RememberRequest → HeadRow → Outcome HeadRow
  unfolding same_durable_scope kind_as_str
  check_revisable request head = do
    guard
        (text_eq head.namespace request.scope.namespace
          && same_durable_scope P head.scope_key head.workspace_id request.scope)
        conflict
    guard (text_eq (kind_as_str head.kind) (kind_as_str request.kind)) conflict
    guard (is_live head.state) conflict
    ok head

  -- The rows that a canonical key selects.
  unfoldable pub has_key : RememberRequest → Text → HeadRow → Bool
  unfolding scope_key kind_as_str
  has_key request canonical_key head =
      text_eq head.namespace request.scope.namespace
      && (text_eq head.scope_key (scope_key P request.scope)
          && (text_eq (kind_as_str head.kind) (kind_as_str request.kind)
              && (option_eq head.canonical_key (some canonical_key)
                  && (option_eq head.workspace_id request.scope.workspace_id
                      && is_live head.state))))

  -- `existing`.
  unfoldable pub find_existing : RememberRequest → List HeadRow → Outcome (Option HeadRow)
  unfolding find_head check_revisable has_key newest
  find_existing request heads = elim request.memory_id [
    | some id ↦ elim (find_head id heads) [
      | none ↦ ok none
      | some head ↦ check_revisable request head >>= λ h. ok (some h)
    ]
    | none ↦ elim request.canonical_key [
      | some key ↦ ok (newest (filter (has_key request key) heads))
      | none ↦ ok none
    ]
  ]

  -- `INSERT INTO memory_heads`: the column `memory_id` is UNIQUE.
  unfoldable pub new_head : RememberRequest → ℕ → ℕ → ℕ → ℕ → HeadRow
  unfolding scope_key to_ms map_ms
  new_head request docid id sequence now = record {
    docid = docid;
    memory_id = id;
    namespace = request.scope.namespace;
    scope_key = scope_key P request.scope;
    workspace_id = request.scope.workspace_id;
    repo_id = repo_id request.scope;
    branch = branch request.scope;
    session_id = request.scope.session_id;
    kind = request.kind;
    state = MemoryState.active;
    canonical_key = request.canonical_key;
    head_revision = 1;
    importance = request.importance;
    confidence = request.confidence;
    trust = request.trust;
    valid_from_ms = map_ms request.valid_from;
    valid_until_ms = map_ms request.valid_until;
    expires_at_ms = map_ms request.expires_at;
    created_at_ms = to_ms now;
    updated_at_ms = to_ms now;
    created_seq = sequence;
    updated_seq = sequence;
  }

  -- `UPDATE memory_heads SET ... WHERE memory_id=?1` after the revision is inserted.
  unfoldable pub revised_head : RememberRequest → Claim → ℕ → ℕ → HeadRow → HeadRow
  unfolding scope_key to_ms map_ms
  revised_head request claim sequence now head = record head {
    namespace = request.scope.namespace;
    scope_key = scope_key P request.scope;
    workspace_id = request.scope.workspace_id;
    repo_id = repo_id request.scope;
    branch = branch request.scope;
    session_id = request.scope.session_id;
    kind = request.kind;
    state = MemoryState.active;
    canonical_key = request.canonical_key;
    head_revision = claim.revision;
    importance = request.importance;
    confidence = request.confidence;
    trust = request.trust;
    valid_from_ms = map_ms request.valid_from;
    valid_until_ms = map_ms request.valid_until;
    expires_at_ms = map_ms request.expires_at;
    created_at_ms = claim.created_at_ms;
    updated_at_ms = to_ms now;
    created_seq = claim.created_seq;
    updated_seq = sequence;
  }

  unfoldable pub revise_heads : RememberRequest → Claim → ℕ → ℕ → List HeadRow → List HeadRow
  unfolding update_heads revised_head
  revise_heads request claim sequence now heads =
      update_heads (λ h. h.memory_id == claim.memory_id) (revised_head request claim sequence now)
        heads

-- `UPDATE memory_heads SET state=...,updated_at_ms=...,updated_seq=...`.
unfoldable pub with_state : MemoryState → ℕ → ℕ → HeadRow → HeadRow
unfolding to_ms
with_state state sequence now head = record head {
  state = state;
  updated_at_ms = to_ms now;
  updated_seq = sequence;
}
