-- ===== src/Checkpoints/Events.antt =====
-- What a checkpoint reads of one event of the session.
use super_mem.Base.{
  ℕ, ◌^◌, Text, codes, Bool, true, false, not, ◌&&◌, ◌||◌, Option, none, some, List, [], ◌∷◌, ◌++◌,
  ltb, ◌==◌, text_eq, is_empty, any, get_elem?, if◌then◌else◌,
}
use super_mem.Types.{Value, Number, EventKind, event_as_str}
use super_mem.Context.Tokens.{truncate_to_tokens}
use super_mem.Store.Words.{trim, to_ascii_lowercase}
use super_mem.Checkpoints.Words.{split_whitespace, file_name}
use super_mem.Redaction.{contains}

-- The attributes are a `BTreeMap`: its entries.
pub record SessionEvent : Type 0 where
  pub event_id : Text
  pub kind : Text
  pub content : Text
  pub attributes : List (Text × Value)

pub data CheckpointPromotionReason : Type 0 where
  verification failed_execution explicit_salience : CheckpointPromotionReason

unfoldable pub reason_as_str : CheckpointPromotionReason → Text
reason_as_str CheckpointPromotionReason.verification = codes "verification"
reason_as_str CheckpointPromotionReason.failed_execution = codes "failed_execution"
reason_as_str CheckpointPromotionReason.explicit_salience = codes "explicit_salience"

-- `BTreeMap::get`.
abbrev pub get : List (Text × Value) → Text → Option Value
get [] key = none
get ((k, v) ∷ rest) key = if text_eq k key then some v else get rest key

-- `and_then(Value::as_bool)`, `and_then(Value::as_str)` and `and_then(Value::as_i64)`.
abbrev pub as_bool : Option Value → Option Bool
as_bool (some (Value.bool b)) = some b
as_bool value = none

abbrev pub as_str : Option Value → Option Text
as_str (some (Value.string s)) = some s
as_str value = none

abbrev pub as_i64 : Option Value → Option Number
as_i64 (some (Value.number (Number.pos_int n))) =
    if ltb n (2 ^ 63) then some (Number.pos_int n) else none
as_i64 (some (Value.number (Number.neg_int n))) = some (Number.neg_int n)
as_i64 value = none

abbrev pub equals : Option Number → ℕ → Bool
equals (some (Number.pos_int n)) m = n == m
equals number m = false

-- `unwrap_or`.
abbrev pub unwrap_or : {A : Type 0} → Option A → A → A
unwrap_or none a = a
unwrap_or (some b) a = b

-- `filter(|command| !command.trim().is_empty())`.
unfoldable pub not_blank : Option Text → Option Text
unfolding trim
not_blank none = none
not_blank (some command) = if is_empty (trim command) then none else some command

unfoldable pub command_of : SessionEvent → Option Text
unfolding not_blank
command_of event = not_blank (as_str (get event.attributes (codes "command")))

unfoldable pub event_succeeded : SessionEvent → Bool
event_succeeded event = elim (as_bool (get event.attributes (codes "succeeded"))) [
  | some succeeded ↦ succeeded
  | none ↦ elim (as_bool (get event.attributes (codes "is_error"))) [
    | some is_error ↦ not is_error
    | none ↦ elim (as_i64 (get event.attributes (codes "exit_code"))) [
      | none ↦ true
      | some exit_code ↦ equals (some exit_code) 0
    ]
  ]
]

-- `expected_negative`.
unfoldable pub expected_negative : List Text → Bool
unfolding file_name
expected_negative tokens =
    let executable = file_name (unwrap_or (get_elem? tokens 0) []) in
    let diff = text_eq (unwrap_or (get_elem? tokens 1) []) (codes "diff") in
    (text_eq executable (codes "rg") || text_eq executable (codes "grep"))
    || (text_eq executable (codes "git") && (diff && any (text_eq (codes "--quiet")) tokens))

abbrev pub failure_markers : List Text
failure_markers =
    codes "error:"
    ∷ codes "fatal:"
    ∷ codes "panic"
    ∷ codes "exception"
    ∷ codes "traceback"
    ∷ codes "segmentation fault"
    ∷ []

unfoldable pub is_neutral_negative_probe : SessionEvent → Bool
unfolding expected_negative split_whitespace contains to_ascii_lowercase event_as_str
is_neutral_negative_probe event =
    if text_eq event.kind (event_as_str EventKind.command_result)
      && equals (as_i64 (get event.attributes (codes "exit_code"))) 1
    then (elim (as_str (get event.attributes (codes "command"))) [
      | none ↦ false
      | some command ↦
          if expected_negative (split_whitespace command)
          then not (any (λ m. contains (to_ascii_lowercase event.content) m) failure_markers)
          else false
    ])
    else false

-- The kinds `command_result`, `tool_result` and `verification`.
unfoldable pub is_execution : Text → Bool
is_execution kind =
    text_eq kind (codes "command_result")
    || (text_eq kind (codes "tool_result") || text_eq kind (codes "verification"))

-- The flag `verification` of `classify_checkpoint_event`.
unfoldable pub is_verification : SessionEvent → Bool
unfolding event_as_str
is_verification event =
    text_eq event.kind (event_as_str EventKind.verification)
    || unwrap_or (as_bool (get event.attributes (codes "verification"))) false

unfoldable pub classify_checkpoint_event : SessionEvent → Option CheckpointPromotionReason
unfolding is_verification event_succeeded is_execution is_neutral_negative_probe
classify_checkpoint_event event =
    if is_verification event
    then some CheckpointPromotionReason.verification
    else if not (event_succeeded event)
        && (is_execution event.kind && not (is_neutral_negative_probe event))
    then some CheckpointPromotionReason.failed_execution
    else if unwrap_or (as_bool (get event.attributes (codes "memory_salient"))) false
    then some CheckpointPromotionReason.explicit_salience
    else none

unfoldable pub session_evidence_relation : Text → Text
session_evidence_relation kind =
    if text_eq kind (codes "conversation_turn")
    then codes "session_prompt"
    else if text_eq kind (codes "command_result")
    then codes "command_evidence"
    else if text_eq kind (codes "verification")
    then codes "verification_evidence"
    else if text_eq kind (codes "file_change")
    then codes "file_evidence"
    else codes "tool_evidence"

unfoldable pub is_generic_checkpoint_goal : Text → Bool
unfolding trim to_ascii_lowercase
is_generic_checkpoint_goal goal = any (text_eq (to_ascii_lowercase (trim goal))) (
    codes "coding task"
    ∷ codes "complete the current coding turn"
    ∷ codes "complete the delegated coding task"
    ∷ codes "complete the current opencode coding turn"
    ∷ codes "complete the current pi coding turn"
    ∷ [])

unfoldable pub event_action : SessionEvent → Text
unfolding command_of event_as_str truncate_to_tokens
event_action event =
    let tool = unwrap_or (as_str (get event.attributes (codes "tool_name"))) (
      if text_eq event.kind (event_as_str EventKind.command_result)
      then codes "command"
      else codes "tool") in
    truncate_to_tokens
      (elim (command_of event) [ none ↦ tool | some command ↦ tool ++ (codes ": " ++ command) ]) 256

unfoldable pub checkpoint_attempt_group_identity : SessionEvent → Option Text → Text
unfolding command_of event_succeeded
checkpoint_attempt_group_identity event fingerprint = elim (command_of event) [
  | some command ↦ codes "command:" ++ command
  | none ↦ elim (if event_succeeded event then none else fingerprint) [
    | some print ↦ codes "diagnostic:" ++ print
    | none ↦ codes "event:" ++ event.event_id
  ]
]
