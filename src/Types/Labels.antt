-- ===== src/Types/Labels.antt =====
-- The enumerations, their stable labels (`as_str`) and the readers of the labels (`parse`).
pub mod Laws
use super_mem.Base.{Text, codes, text_eq, Option, none, some, if◌then◌else◌}

pub data MemoryKind : Type 0 where
  fact preference constraint decision procedure episode outcome task observation : MemoryKind

pub data MemoryState : Type 0 where
  active contested superseded retracted : MemoryState

pub data TrustLevel : Type 0 where
  external agent tool_verified user_confirmed : TrustLevel

pub data EventKind : Type 0 where
  conversation_turn tool_call tool_result command_result file_change : EventKind
  verification explicit_memory checkpoint manual_note lifecycle : EventKind

pub data Applicability : Type 0 where
  exact compatible stale divergent unversioned inapplicable : Applicability

pub data RetrievalSignal : Type 0 where
  exact lexical lexical_strict code_alias code_alias_strict semantic_expansion : RetrievalSignal
  dense_vector sparse entity recency artifact_verified error_fingerprint : RetrievalSignal

-- `MemoryKind::as_str` and `MemoryKind::parse`.
unfoldable pub kind_as_str : MemoryKind → Text
kind_as_str MemoryKind.fact = codes "fact"
kind_as_str MemoryKind.preference = codes "preference"
kind_as_str MemoryKind.constraint = codes "constraint"
kind_as_str MemoryKind.decision = codes "decision"
kind_as_str MemoryKind.procedure = codes "procedure"
kind_as_str MemoryKind.episode = codes "episode"
kind_as_str MemoryKind.outcome = codes "outcome"
kind_as_str MemoryKind.task = codes "task"
kind_as_str MemoryKind.observation = codes "observation"

unfoldable pub parse_kind : Text → Option MemoryKind
parse_kind value =
    if text_eq value (codes "fact")
    then some MemoryKind.fact
    else if text_eq value (codes "preference")
    then some MemoryKind.preference
    else if text_eq value (codes "constraint")
    then some MemoryKind.constraint
    else if text_eq value (codes "decision")
    then some MemoryKind.decision
    else if text_eq value (codes "procedure")
    then some MemoryKind.procedure
    else if text_eq value (codes "episode")
    then some MemoryKind.episode
    else if text_eq value (codes "outcome")
    then some MemoryKind.outcome
    else if text_eq value (codes "task")
    then some MemoryKind.task
    else if text_eq value (codes "observation")
    then some MemoryKind.observation
    else none

-- `MemoryState::parse`.
unfoldable pub parse_state : Text → Option MemoryState
parse_state value =
    if text_eq value (codes "active")
    then some MemoryState.active
    else if text_eq value (codes "contested")
    then some MemoryState.contested
    else if text_eq value (codes "superseded")
    then some MemoryState.superseded
    else if text_eq value (codes "retracted")
    then some MemoryState.retracted
    else none

-- `TrustLevel::as_str` and `TrustLevel::parse`.
unfoldable pub trust_as_str : TrustLevel → Text
trust_as_str TrustLevel.external = codes "external"
trust_as_str TrustLevel.agent = codes "agent"
trust_as_str TrustLevel.tool_verified = codes "tool_verified"
trust_as_str TrustLevel.user_confirmed = codes "user_confirmed"

unfoldable pub parse_trust : Text → Option TrustLevel
parse_trust value =
    if text_eq value (codes "external")
    then some TrustLevel.external
    else if text_eq value (codes "agent")
    then some TrustLevel.agent
    else if text_eq value (codes "tool_verified")
    then some TrustLevel.tool_verified
    else if text_eq value (codes "user_confirmed")
    then some TrustLevel.user_confirmed
    else none

-- `EventKind::as_str` and `EventKind::parse`.
unfoldable pub event_as_str : EventKind → Text
event_as_str EventKind.conversation_turn = codes "conversation_turn"
event_as_str EventKind.tool_call = codes "tool_call"
event_as_str EventKind.tool_result = codes "tool_result"
event_as_str EventKind.command_result = codes "command_result"
event_as_str EventKind.file_change = codes "file_change"
event_as_str EventKind.verification = codes "verification"
event_as_str EventKind.explicit_memory = codes "explicit_memory"
event_as_str EventKind.checkpoint = codes "checkpoint"
event_as_str EventKind.manual_note = codes "manual_note"
event_as_str EventKind.lifecycle = codes "lifecycle"

unfoldable pub parse_event : Text → Option EventKind
parse_event value =
    if text_eq value (codes "conversation_turn")
    then some EventKind.conversation_turn
    else if text_eq value (codes "tool_call")
    then some EventKind.tool_call
    else if text_eq value (codes "tool_result")
    then some EventKind.tool_result
    else if text_eq value (codes "command_result")
    then some EventKind.command_result
    else if text_eq value (codes "file_change")
    then some EventKind.file_change
    else if text_eq value (codes "verification")
    then some EventKind.verification
    else if text_eq value (codes "explicit_memory")
    then some EventKind.explicit_memory
    else if text_eq value (codes "checkpoint")
    then some EventKind.checkpoint
    else if text_eq value (codes "manual_note")
    then some EventKind.manual_note
    else if text_eq value (codes "lifecycle")
    then some EventKind.lifecycle
    else none

-- `Applicability::as_str`.
unfoldable pub applicability_as_str : Applicability → Text
applicability_as_str Applicability.exact = codes "exact"
applicability_as_str Applicability.compatible = codes "compatible"
applicability_as_str Applicability.stale = codes "stale"
applicability_as_str Applicability.divergent = codes "divergent"
applicability_as_str Applicability.unversioned = codes "unversioned"
applicability_as_str Applicability.inapplicable = codes "inapplicable"
