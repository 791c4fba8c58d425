-- ===== src/Store/Lifecycle.antt =====
-- `apply_link_lifecycle`: what the links of a memory do to the states of memories.
use super_mem.Base.{
  ℕ, Text, codes, Bool, true, false, ◌&&◌, List, [], ◌∷◌, ◌==◌, text_eq, if◌then◌else◌,
}
use super_mem.Types.{LinkInput, MemoryState}
use super_mem.Store.Words.{trim, to_ascii_lowercase}
use super_mem.Store.Tables.{HeadRow}
use super_mem.Store.Heads.{is_live, is_active, update_heads, with_state}

-- `link.relation.trim().to_ascii_lowercase()`.
unfoldable pub relation_of : LinkInput → Text
unfolding trim to_ascii_lowercase
relation_of link = to_ascii_lowercase (trim link.relation)

unfoldable pub supersedes : LinkInput → Bool
unfolding relation_of
supersedes link = text_eq (relation_of link) (codes "supersedes")

unfoldable pub contests : LinkInput → Bool
unfolding relation_of
contests link = text_eq (relation_of link) (codes "contests")

unfoldable pub supersede : ℕ → ℕ → ℕ → List HeadRow → List HeadRow
unfolding update_heads with_state
supersede id sequence now heads =
    update_heads (λ h. h.memory_id == id && is_live h.state)
      (with_state MemoryState.superseded sequence now) heads

unfoldable pub contest : ℕ → ℕ → ℕ → List HeadRow → List HeadRow
unfolding update_heads with_state
contest id sequence now heads =
    update_heads (λ h. h.memory_id == id && is_active h.state)
      (with_state MemoryState.contested sequence now) heads

-- The loop; the Boolean is `source_contested`.
unfoldable pub apply_links : ℕ → ℕ → Bool → List LinkInput → List HeadRow → Bool × List HeadRow
unfolding supersedes contests supersede contest
apply_links sequence now source_contested [] heads = (source_contested, heads)
apply_links sequence now source_contested (link ∷ rest) heads =
    if supersedes link
    then apply_links sequence now source_contested rest (supersede link.target sequence now heads)
    else if contests link
    then apply_links sequence now true rest (contest link.target sequence now heads)
    else apply_links sequence now source_contested rest heads

unfoldable pub apply_link_lifecycle : ℕ → List LinkInput → ℕ → ℕ → List HeadRow → List HeadRow
unfolding apply_links contest
apply_link_lifecycle source links sequence now heads =
    let after = apply_links sequence now false links heads in
    if after.0 then contest source sequence now after.1 else after.1
