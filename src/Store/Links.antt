-- ===== src/Store/Links.antt =====
-- The loop of `upsert_memory` over `request.links`.
use super_mem.Base.{
  ℕ, suc, min, Bool, ◌&&◌, not, List, [], ◌∷◌, ◌++◌, ◌==◌, text_eq, any, if◌then◌else◌,
}
use super_mem.Types.{LinkInput}
use super_mem.Store.Outcome.{Outcome, ok, err, invalid_input, database, ◌>>=◌, ◌>>◌, guard}
use super_mem.Store.Tables.{Moment, LinkRow, LinkRevisionRow, EventMemoryRow, LinkTables, to_ms}
use super_mem.Store.Attachments.{insert_or_ignore}

unfoldable pub note_event_memory : ℕ → ℕ → List EventMemoryRow → List EventMemoryRow
unfolding insert_or_ignore
note_event_memory event_id memory_id rows =
    insert_or_ignore (λ r. r.event_id == event_id && r.memory_id == memory_id)
      (record { event_id = event_id; memory_id = memory_id }) rows

-- The columns that are UNIQUE together.
unfoldable pub same_link : LinkRow → LinkRow → Bool
same_link a b =
    a.source_memory_id == b.source_memory_id
    && (a.target_memory_id == b.target_memory_id && text_eq a.relation b.relation)

-- `ON CONFLICT ... DO UPDATE`, where there is a conflict.
unfoldable pub update_link : LinkRow → List LinkRow → List LinkRow
unfolding same_link
update_link row [] = []
update_link row (r ∷ rest) =
    (if same_link row r
      then record r {
        weight = row.weight;
        created_event_id = row.created_event_id;
        created_at_ms = row.created_at_ms;
      }
      else r)
    ∷ update_link row rest

-- `INSERT INTO memory_links`; `link_id` is the primary key.
unfoldable pub upsert_link : LinkRow → List LinkRow → Outcome (List LinkRow)
unfolding same_link update_link
upsert_link row rows =
    if any (same_link row) rows
    then ok (update_link row rows)
    else if any (λ r. r.link_id == row.link_id) rows
    then err database
    else ok (rows ++ (row ∷ []))

unfoldable pub same_link_revision : LinkRevisionRow → LinkRevisionRow → Bool
same_link_revision a b =
    a.source_memory_id == b.source_memory_id
    && (a.source_revision == b.source_revision
        && (a.target_memory_id == b.target_memory_id && text_eq a.relation b.relation))

module _ (moment : Moment) (memory_id revision : ℕ) where
  -- One round of the loop; `i` counts the rounds.
  unfoldable pub insert_link : ℕ → LinkInput → LinkTables → Outcome LinkTables
  unfolding upsert_link same_link_revision note_event_memory to_ms
  insert_link i link t = do
    guard (not (link.target == memory_id)) invalid_input
    links ←
        upsert_link
          (record {
            link_id = moment.fresh_link i;
            source_memory_id = memory_id;
            target_memory_id = link.target;
            relation = link.relation;
            weight = min link.weight 1000;
            created_event_id = moment.event_id;
            created_at_ms = to_ms moment.now;
          })
          t.memory_links
    let row : LinkRevisionRow = record {
      link_id = moment.fresh_link i;
      source_memory_id = memory_id;
      source_revision = revision;
      target_memory_id = link.target;
      relation = link.relation;
      weight = min link.weight 1000;
      created_event_id = moment.event_id;
      created_at_ms = to_ms moment.now;
    }
    guard (not (any (same_link_revision row) t.memory_link_revisions)) database
    ok (record {
      memory_links = links;
      memory_link_revisions = t.memory_link_revisions ++ (row ∷ []);
      event_memories = note_event_memory moment.event_id link.target t.event_memories;
    })

  unfoldable pub insert_links : ℕ → List LinkInput → LinkTables → Outcome LinkTables
  unfolding insert_link
  insert_links i [] t = ok t
  insert_links i (link ∷ rest) t = insert_link i link t >>= λ t'. insert_links (suc i) rest t'
