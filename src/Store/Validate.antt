-- ===== src/Store/Validate.antt =====
-- The checks of a write against the database: `validate_evidence`, `validate_links`, and the bounds
-- on texts.
use super_mem.Base.{
  ℕ, Text, Bool, not, ◌&&◌, ◌||◌, Option, none, some, List, [], ◌∷◌, ltb, leb, ◌==◌, text_eq,
  option_eq, is_empty, find,
}
use super_mem.Types.{EvidenceRef, LinkInput, Scope}
use super_mem.Utf8.{byte_length, is_char_boundary}
use super_mem.Store.Outcome.{
  Outcome, ok, err, conflict, invalid_input, not_found, ◌>>=◌, ◌>>◌, guard,
}
use super_mem.Store.Words.{trim}
use super_mem.Store.Tables.{Platform, EventRow, HeadRow}
use super_mem.Store.Scoping.{scope_key, same_durable_scope}

unfoldable pub validate_idempotency : Option Text → Outcome (Unit {0})
validate_idempotency none = ok tt
validate_idempotency (some key) =
    guard (not (is_empty key || ltb 256 (byte_length key))) invalid_input

unfoldable pub validate_bounded_text : Text → Bool → ℕ → Outcome (Unit {0})
unfolding trim
validate_bounded_text value allow_empty maximum = do
  guard (allow_empty || not (is_empty (trim value))) invalid_input
  guard (leb (byte_length value) maximum) invalid_input

-- `SELECT ... WHERE memory_id=?` and `SELECT ... WHERE event_id=?`.
unfoldable pub find_head : ℕ → List HeadRow → Option HeadRow
find_head id heads = find (λ h. h.memory_id == id) heads

unfoldable pub find_event : ℕ → List EventRow → Option EventRow
find_event id events = find (λ e. e.event_id == id) events

-- `optional()?.ok_or_else(|| Error::NotFound ...)`.
abbrev pub or_not_found : {A : Type 0} → Option A → Outcome A
or_not_found none = err not_found
or_not_found (some a) = ok a

-- The match on the two ends of a span.
unfoldable pub validate_span : Option ℕ → Option ℕ → Text → Outcome (Unit {0})
validate_span none none content = ok tt
validate_span (some start) (some end) content =
    guard
      (ltb start end
        && (leb end (byte_length content)
            && (is_char_boundary content start && is_char_boundary content end)))
      invalid_input
validate_span none (some end) content = err invalid_input
validate_span (some start) none content = err invalid_input

module _ (P : Platform) where
  -- One round of `validate_evidence`.
  unfoldable pub validate_source : List EventRow → Scope → EvidenceRef → Outcome (Unit {0})
  unfolding validate_bounded_text find_event validate_span scope_key
  validate_source events scope source = do
    validate_bounded_text source.relation Bool.false 64
    event ← or_not_found (find_event source.event_id events)
    guard
        (text_eq (scope_key P event.scope) (scope_key P scope)
          && option_eq event.scope.workspace_id scope.workspace_id)
        conflict
    validate_span source.span_start source.span_end event.content

  unfoldable pub validate_evidence : List EventRow → Scope → List EvidenceRef → Outcome (Unit {0})
  unfolding validate_source
  validate_evidence events scope [] = ok tt
  validate_evidence events scope (source ∷ rest) = do
    validate_source events scope source
    validate_evidence events scope rest

  -- One round of `validate_links`.
  unfoldable pub validate_link : List HeadRow → Scope → LinkInput → Outcome (Unit {0})
  unfolding find_head same_durable_scope trim
  validate_link heads scope link = do
    target ← or_not_found (find_head link.target heads)
    guard (same_durable_scope P target.scope_key target.workspace_id scope) conflict
    guard (not (is_empty (trim link.relation) || ltb 64 (byte_length link.relation))) invalid_input

  unfoldable pub validate_links : List HeadRow → Scope → List LinkInput → Outcome (Unit {0})
  unfolding validate_link
  validate_links heads scope [] = ok tt
  validate_links heads scope (link ∷ rest) = do
    validate_link heads scope link
    validate_links heads scope rest
