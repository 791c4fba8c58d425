-- ===== src/Lib.antt =====
-- A verification library for super-mem, the local memory of coding agents.
--
-- The program keeps memories (facts, decisions, procedures, ...) of a repository or a workspace in a
-- SQLite database. An agent, or a hook of its harness, writes events and memories; a recall ranks the
-- memories that match a query, says of each whether it still applies to the current state of the
-- repository, and compiles the best into a bounded context that is put before the agent.
--
--   * The store: `remember`, `retract`, `upsert_memory`, `apply_link_lifecycle`, `insert_event`,
--     `get_idempotent`, `put_idempotent` and the checks `validate_evidence` and `validate_links` of
--     crates/super-mem-core/src/engine.rs, on the tables of crates/super-mem-core/src/schema.rs.
--     Files: Store.antt and Store/. A table is the list of its rows, and a write is a function from
--     the database to a result and the new database; an error gives no database, since its
--     transaction is dropped. Store/Operations.antt has the calls, Store/Upsert.antt the
--     write of one memory in the order of its statements, Store/Heads.antt and Store/Lifecycle.antt
--     the states of memories, Store/Attachments.antt and Store/Links.antt the other tables.
--   * Applicability: crates/super-mem-core/src/applicability.rs. Files: Applicability.antt and
--     Applicability/. `classify` is `classify_applicability_with_artifact_comparison`, and the two
--     entries are `classify_with_relation` (on artifacts) and `classify_fingerprints` (on digests).
--   * The context: `compile_context`, `truncate_to_tokens`, `estimate_tokens` and the rendering of
--     crates/super-mem-core/src/engine.rs, and `context_envelope` of crates/super-mem-cli/src/app.rs.
--     Files: Context.antt and Context/. The recall hands its hits, in the order of their ranks, to
--     Context/Assemble.antt.
--   * The ranking: crates/super-mem-core/src/ranking.rs, with `bound_mmr_pool` and `prune_candidates`
--     of the engine. Files: Ranking.antt and Ranking/. Ranking/Mmr.antt is `select_mmr`, and
--     Ranking/Reference.antt the reference that the tests of ranking.rs compare it with;
--     Ranking/Query.antt makes the full-text queries, and Ranking/Reader.antt reads them.
--   * The checkpoints: the loops of `checkpoint_session`, `classify_checkpoint_event` and
--     `coalesce_checkpoint_attempts` with all that they call, of the engine. Files: Checkpoints.antt and
--     Checkpoints/. Checkpoints/Session.antt reads the events of a session into attempts, and
--     Checkpoints/Groups.antt makes one attempt of all the runs of one action.
--   * The requests: `prepare_memory` and what it calls, of the engine, and `normalize_remote` of
--     crates/super-mem-core/src/git.rs. Files: Requests.antt and Requests/. Requests/Scoped.antt has the
--     checks of a scope, Requests/Paths.antt the paths of artifacts, and Requests/Prepare.antt the
--     whole, whose result is the prepared request that `remember` in Store/Operations.antt takes.
--   * The vectors: the codec, the signatures and the ranking of crates/super-mem-core/src/search.rs.
--     Files: Search.antt and Search/. A component is the 32 bits of its f32.
--   * The types that these share: crates/super-mem-core/src/types.rs. Files: Types.antt and Types/.
--   * Strings: Utf8.antt and Utf8/, with `truncate_utf8_bytes` of the engine. Base.antt and Base/
--     hold the helpers on numbers, lists and options.
--   * The limit on captures: `cap_automatic_capture` of crates/super-mem-cli/src/hook.rs, in
--     Capture.antt and Capture/, for every maximum and marker.
--   * The redaction of secrets: `Redactor` of crates/super-mem-core/src/redaction.rs, in
--     Redaction.antt and Redaction/. A regular expression is a parameter: what `replace_all` gives.
--
-- Conventions. A string is the list of its code points, and its length in bytes is that of its
-- UTF-8 encoding. An identifier is the number of its UUID. A time is a count of nanoseconds from
-- the earliest time of the clock, and `to_ms` divides it. An f64 or f32 is its bit pattern; only
-- the tests on bits (`total_cmp`, `is_finite`, negative zero) are computed. A `usize` saturates at
-- 2^64 - 1, a revision at 2^32 - 1. A column that holds JSON holds the value itself. The
-- constraints PRIMARY KEY and UNIQUE are written out where a statement can break them, and give the
-- error `database`.
--
-- Fuel. The binary search of `compile_context` has as many rounds as the largest body that it may
-- select has tokens; every round shrinks the interval, so the fuel never runs out, and the theorem on
-- `select_body` has no condition on it. The loop of `cap_automatic_capture` that looks for a boundary
-- has the distance to the end of the text, which is a boundary. The outer loop of `select_mmr` has its
-- limit, and a selection takes one of the available indices. The operations on 64 bits have one round
-- for a bit. All other loops are by recursion on a list.
--
-- Parameters. The arithmetic of floats and the properties of characters are the records `Floats` and
-- `Unicode` of Ranking/Floats.antt and `Doubles` of Search/Encoding.antt, of which nothing is assumed.
-- BLAKE3, serde_json, the printed form of an identifier, the clock and the generators of identifiers
-- are not code of the repository: they are arguments (`Platform` and `Moment` in Store/Tables.antt,
-- `Settings` in Requests/Scoped.antt, `blake3` and `resolve` in Applicability/, `hex_digest` and
-- `parse_event_id` in Checkpoints/, `show_id` in Context/), and what is proved holds of all functions
-- in their place, or names what it needs of them. In Store/, `code_aliases` of
-- crates/super-mem-core/src/search.rs and `redact_text` are arguments of the same kind: no theorem
-- depends on what they return.
--
-- Not modelled. `observe`, `feedback`, the writes of a checkpoint and the queries of the recall; the
-- search profiles, their aliases and their writes; the inspection of git and of files. The CHECKs on
-- the columns of importance and confidence are left out, since `prepare_memory` tests both scores. The
-- migrations and inspections of crates/super-mem-core/src/schema.rs are SQL that SQLite runs. The
-- command line, the rest of the hooks, the MCP server and the adapters are input and output around
-- these calls.
pub mod Base
pub mod Types
pub mod Utf8
pub mod Context
pub mod Applicability
pub mod Ranking
pub mod Requests
pub mod Search
pub mod Store
pub mod Checkpoints
pub mod Redaction
pub mod Capture
