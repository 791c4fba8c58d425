-- ===== src/Store/Tests.antt =====
-- The store on concrete requests: one memory is remembered, a second supersedes it, and the second
-- is retracted.
use super_mem.Base.{
  ℕ, List, [], ◌∷◌, ◌++◌, ◌+◌, Text, codes, Bool, true, false, some, none, ◌≡◌, ◌≢◌, refl, length,
  map, arith, any, All, text_eq, option_eq, if◌then◌else◌,
}
use super_mem.Types.{Scope, MemoryKind, MemoryState, TrustLevel, LinkInput, Value}
use super_mem.Store.Outcome.{Outcome, ok, err, conflict}
use super_mem.Store.Tables.{
  Platform, Moment, Database, HeadRow, RevisionRow, RememberRequest, PreparedMemory, RetractRequest,
  Durability, WriteReceipt,
}
use super_mem.Utf8.{byte_length, utf8_len, as_bytes}
use super_mem.Store.Validate.{find_head, validate_bounded_text}
use super_mem.Store.Upsert.{is_revision}
use super_mem.Store.Rows.{Evolves, Distinct}
use super_mem.Store.Unrevised.{Unrevised}
use super_mem.Store.Claims.{remember_new-Unrevised}
use super_mem.Store.Lasting.{Lasts, remembers, retracts, call, done, Calls-Lasts}
use super_mem.Store.Replay.{remember-replays}
use super_mem.Store.History.{
  SameRevisions, LinksWithin, remember_new-history, remember_new-LinksWithin,
}
use super_mem.Store.Retraction.{withdrawn, retract-withdraws, retract-again}
use super_mem.Store.Pointers.{Points, remember_new-Points}
use super_mem.Store.Operations.{remember, remember_new, retract, request_hash, deduplicated}

abbrev platform : Platform
platform = record {
  hex_digest = λ bytes. bytes;
  raw_digest = λ bytes. bytes;
  digest = length;
  encode_repository = λ namespace label repo branch. namespace ++ repo;
  encode_workspace = λ namespace label workspace. namespace;
  request_fingerprint = λ request. request.title;
  retract_fingerprint = λ id reason. reason;
  memory_id_value = λ id. Value.null;
  show_id = λ id. id ∷ [];
  code_aliases = λ title body tags entities artifacts. [];
  redact_text = λ text. (text, 0);
}

abbrev empty : Database
empty = record {
  last_seq = 0;
  events = [];
  last_docid = 0;
  memory_heads = [];
  memory_revisions = [];
  memory_revision_metadata = [];
  memory_evidence = [];
  memory_tags = [];
  entity_tables = record { last_entity = 0; entities = []; memory_entities = [] };
  artifact_tables = record {
    last_artifact = 0;
    artifacts = [];
    artifact_fingerprints = [];
    memory_artifacts = [];
  };
  link_tables = record { memory_links = []; memory_link_revisions = []; event_memories = [] };
  memory_fts = [];
  search_alias_state = [];
  search_projections = [];
  idempotency = [];
}

abbrev scope : Scope
scope = record {
  namespace = codes "n";
  workspace_id = some (codes "w");
  repository = none;
  session_id = none;
}

abbrev request : Text → List LinkInput → RememberRequest
request title links = record {
  memory_id = none;
  idempotency_key = some (codes "key" ++ title);
  kind = MemoryKind.fact;
  scope = scope;
  canonical_key = none;
  title = title;
  body = codes "b";
  importance = 0;
  confidence = 0;
  trust = TrustLevel.agent;
  valid_from = none;
  valid_until = none;
  expires_at = none;
  attributes = [];
  tags = codes "T" ∷ [];
  entities = [];
  artifacts = [];
  evidence = [];
  links = links;
}

abbrev first : PreparedMemory
first = record { request = request (codes "1") []; redaction_count = 0 }

abbrev second : PreparedMemory
second = record {
  request =
      request (codes "2")
        (record { target = 11; relation = codes "Supersedes"; weight = 5000 } ∷ []);
  redaction_count = 0;
}

-- Another request under the key of the second.
abbrev reused : PreparedMemory
reused = record {
  request = record (request (codes "3") []) { idempotency_key = some (codes "key2") };
  redaction_count = 0;
}

abbrev moment : ℕ → Moment
moment n = record { now = n; event_id = n; fresh_memory = 10 + n; fresh_link = λ i. 100 + n + i }

abbrev withdrawal : RetractRequest
withdrawal = record { memory_id = 12; reason = codes "r"; idempotency_key = none }

-- The database and the receipt of a success.
abbrev result : Outcome (Database × WriteReceipt) → Database × WriteReceipt
result (ok r) = r
result (err e) = (
  empty,
  record {
    event_id = 0;
    memory_ids = [];
    database_seq = 0;
    lexical_index_seq = 0;
    deduplicated = false;
    durability = Durability.balanced;
    redaction_count = 0;
  },
)

abbrev db1 : Database
db1 = (result (remember_new platform Durability.balanced first (moment 1) empty)).0

abbrev db2 : Database
db2 = (result (remember_new platform Durability.balanced second (moment 2) db1)).0

abbrev receipt2 : WriteReceipt
receipt2 = (result (remember_new platform Durability.balanced second (moment 2) db1)).1

abbrev db3 : Database
db3 = (result (retract platform Durability.balanced 100 withdrawal (moment 3) db2)).0

abbrev receipt3 : WriteReceipt
receipt3 = (result (retract platform Durability.balanced 100 withdrawal (moment 3) db2)).1

abbrev is_ok : Outcome (Database × WriteReceipt) → Bool
is_ok (ok r) = true
is_ok (err e) = false

is_ok-result : (m : Outcome (Database × WriteReceipt)) → is_ok m ≡ true → m ≡ ok (result m)
is_ok-result (ok r) h = refl
is_ok-result (err e) h = ground arith

second_ok : remember_new platform Durability.balanced second (moment 2) db1 ≡ ok (db2, receipt2)
unfolding remember_new text_eq option_eq byte_length utf8_len as_bytes
second_ok = refl

remembers_ok : remember platform Durability.balanced second (moment 2) db1 ≡ ok (db2, receipt2)
unfolding remember remember_new text_eq option_eq byte_length utf8_len as_bytes
remembers_ok = refl

retract_ok : retract platform Durability.balanced 100 withdrawal (moment 3) db2 ≡ ok (db3, receipt3)
unfolding retract remember_new text_eq option_eq byte_length utf8_len as_bytes
retract_ok = refl

-- The first memory is superseded, the second is retracted.
states :
    map (λ (h : HeadRow). h.state) db3.memory_heads
    ≡ MemoryState.superseded ∷ MemoryState.retracted ∷ []
unfolding retract remember_new text_eq option_eq byte_length utf8_len as_bytes
states = refl

db1-Distinct : Distinct db1.memory_heads
unfolding remember_new text_eq option_eq byte_length utf8_len as_bytes
db1-Distinct = (refl, tt)

db2-Distinct : Distinct db2.memory_heads
unfolding remember_new text_eq option_eq byte_length utf8_len as_bytes
db2-Distinct = (refl, (refl, tt))

Calls-Lasts_example : Evolves Lasts db2.memory_heads db3.memory_heads × Distinct db3.memory_heads
Calls-Lasts_example =
    Calls-Lasts platform Durability.balanced 100 db2 db3
      (call (retracts withdrawal (moment 3) retract_ok) done) db2-Distinct

remember_new-Unrevised_example :
    Evolves Unrevised db1.memory_heads db2.memory_heads × Distinct db2.memory_heads
remember_new-Unrevised_example =
    remember_new-Unrevised platform Durability.balanced second (moment 2) db1 db2 receipt2 second_ok
      db1-Distinct

-- A third memory, written after the retraction.
abbrev third : PreparedMemory
third = record { request = request (codes "4") []; redaction_count = 0 }

abbrev db4 : Database
db4 = (result (remember platform Durability.balanced third (moment 4) db3)).0

third_ok :
    remember platform Durability.balanced third (moment 4) db3
    ≡ ok (result (remember platform Durability.balanced third (moment 4) db3))
unfolding remember retract remember_new text_eq option_eq byte_length utf8_len as_bytes
third_ok = refl

remember-replays_example : remember platform Durability.balanced reused (moment 5) db4 ≡ (
    if text_eq
      (request_hash platform Durability.balanced second.request)
      (request_hash platform Durability.balanced reused.request)
    then ok (db4, deduplicated receipt2)
    else err conflict)
remember-replays_example =
    remember-replays platform Durability.balanced 100 second reused (moment 2) (moment 5) db1 db2
      db4 receipt2 (codes "key2") refl refl refl remembers_ok
      (call (retracts withdrawal (moment 3) retract_ok)
        (call (remembers third (moment 4) third_ok) done))

remember_new-history_example :
    (old : List RevisionRow) × (new : RevisionRow) × (db2.memory_revisions ≡ old ++ (new ∷ []))
    × SameRevisions db1.memory_revisions old
    × (any (is_revision new.memory_id new.revision) old ≡ false)
    × (receipt2.memory_ids ≡ new.memory_id ∷ [])
    × (new.retired_at_ms ≡ none)
    × (new.title ≡ codes "2")
    × (new.body ≡ codes "b")
    × (new.attributes ≡ [])
    × (new.scope ≡ scope)
remember_new-history_example =
    remember_new-history platform Durability.balanced second (moment 2) db1 db2 receipt2 second_ok

remember_new-LinksWithin_example :
    All (LinksWithin platform scope db1.memory_heads) second.request.links
remember_new-LinksWithin_example =
    remember_new-LinksWithin platform Durability.balanced second (moment 2) db1 db2 receipt2
      second_ok

fresh : receipt3.deduplicated ≡ false
unfolding retract remember_new text_eq option_eq byte_length utf8_len as_bytes
fresh = refl

retract-withdraws_example :
    (head : HeadRow) × (find_head 12 db2.memory_heads ≡ some head)
    × (find_head 12 db3.memory_heads ≡ some (withdrawn (db2.last_seq + 1) 3 head))
    × (db3.memory_revisions ≡ db2.memory_revisions)
    × All (λ r. r.rowid ≢ head.docid) db3.memory_fts
    × All (λ r. r.memory_id ≢ 12) db3.search_alias_state
    × All (λ r. r.memory_id ≢ 12) db3.search_projections
retract-withdraws_example =
    retract-withdraws platform Durability.balanced 100 withdrawal (moment 3) db2 db3 receipt3
      retract_ok fresh

reason_valid : validate_bounded_text (codes "r") false 100 ≡ ok tt
unfolding validate_bounded_text byte_length utf8_len
reason_valid = refl

retract-again_example :
    retract platform Durability.balanced 100 withdrawal (moment 5) db3 ≡ err conflict
retract-again_example =
    retract-again platform Durability.balanced 100 withdrawal withdrawal (moment 3) (moment 5) db2
      db3 receipt3 retract_ok fresh refl refl reason_valid

db1-Points : All (Points db1.memory_revisions) db1.memory_heads
unfolding remember_new text_eq option_eq byte_length utf8_len as_bytes
db1-Points = (refl, tt)

remember_new-Points_example : All (Points db2.memory_revisions) db2.memory_heads
remember_new-Points_example =
    remember_new-Points platform Durability.balanced second (moment 2) db1 db2 receipt2 second_ok
      db1-Points
