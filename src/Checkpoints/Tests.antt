-- ===== src/Checkpoints/Tests.antt =====
-- Runs of the checkpoints, and their theorems on a session with a failing test.
use super_mem.Base.{
  ℕ, ◌≡◌, ◌≢◌, ◌≤◌, refl, Text, codes, Bool, true, false, Option, none, some, List, [], ◌∷◌, ◌||◌,
  length, map, filter, All, In, Pairwise, inl, text_eq, text_ltb,
}
use super_mem.Types.{Value, Number}
use super_mem.Utf8.{byte_length, utf8_len, as_bytes}
use super_mem.Store.Outcome.{ok}
use super_mem.Checkpoints.Events.{
  SessionEvent, CheckpointPromotionReason, classify_checkpoint_event, event_succeeded, is_execution,
  is_neutral_negative_probe,
}
use super_mem.Checkpoints.Session.{attempt_of, begin_session, read_events, Progress}
use super_mem.Checkpoints.Groups.{
  AutomaticCheckpointAttempt, CheckpointAttempt, checkpoint_attempt_canonical_key, group_attempts,
  has_failure, reported_groups, coalesce_checkpoint_attempts,
}
use super_mem.Checkpoints.Grouping.{find_group, own_attempts, find_group-group_attempts}
use super_mem.Checkpoints.Reporting.{failures_reported}
use super_mem.Checkpoints.Order.{
  Earlier, reported_groups-ordered, coalesce_checkpoint_attempts-distinct,
}
use super_mem.Checkpoints.Caps.{is_success, reported_groups-Few}
use super_mem.Checkpoints.Classes.{failed_executions_reported}

-- A digest that keeps the bytes.
abbrev plain : List ℕ → Text
plain bytes = bytes

abbrev command : Text → Text → ℕ → Text → SessionEvent
command id run code output = record {
  event_id = id;
  kind = codes "command_result";
  content = output;
  attributes =
      (codes "command", Value.string run)
      ∷ (codes "exit_code", Value.number (Number.pos_int code))
      ∷ [];
}

abbrev parse : Text → Option ℕ
parse s = some (length s)

abbrev test_run : SessionEvent
test_run = command (codes "a") (codes "cargo test") 101 (codes "1 failed")

abbrev searched : SessionEvent
searched = command (codes "ab") (codes "/usr/bin/rg TODO") 1 (codes "")

abbrev again : SessionEvent
again = command (codes "abc") (codes "cargo  test") 0 (codes "ok")

abbrev session : List SessionEvent
session = test_run ∷ searched ∷ again ∷ []

abbrev blank : Progress
blank = begin_session [] (codes "coding task") []

classes :
    map classify_checkpoint_event session
    ≡ some CheckpointPromotionReason.failed_execution ∷ none ∷ none ∷ []
unfolding classify_checkpoint_event text_eq
classes = refl

abbrev attempt : Text → Text → Bool → AutomaticCheckpointAttempt
attempt action result succeeded = record {
  action = action;
  result = result;
  succeeded = succeeded;
  fingerprint = none;
  promotion_reason = some CheckpointPromotionReason.verification;
  group_identity = action;
}

abbrev runs : List AutomaticCheckpointAttempt
runs =
    attempt (codes "test") (codes "red") false
    ∷ attempt (codes "lint") (codes "clean") true
    ∷ attempt (codes "test") (codes "green") true
    ∷ []

coalesced :
    map (λ r. r.result) (coalesce_checkpoint_attempts plain runs [])
    ≡ codes "First failure: red\nFinal result: green\nObserved runs: 2" ∷ codes "clean" ∷ []
unfolding coalesce_checkpoint_attempts text_eq text_ltb byte_length utf8_len as_bytes
coalesced = refl

find_group-group_attempts_example :
    find_group (codes "test") (group_attempts (λ t. t) [] 0 runs [])
    ≡ own_attempts (λ t. t) [] (codes "test") 0 runs none
find_group-group_attempts_example = find_group-group_attempts (λ t. t) [] (codes "test") 0 runs []

failures_reported_example :
    (report : CheckpointAttempt) × In report (coalesce_checkpoint_attempts plain runs [])
    × (report.canonical_key ≡ some (checkpoint_attempt_canonical_key plain (codes "test")))
failures_reported_example =
    failures_reported plain runs [] (attempt (codes "test") (codes "red") false) (inl refl) refl

reported_groups-ordered_example : Pairwise Earlier (reported_groups plain runs [])
reported_groups-ordered_example = reported_groups-ordered plain runs []

coalesce_checkpoint_attempts-distinct_example :
    Pairwise (λ a b. a.canonical_key ≢ b.canonical_key) (coalesce_checkpoint_attempts plain runs [])
coalesce_checkpoint_attempts-distinct_example = coalesce_checkpoint_attempts-distinct plain runs []

reported_groups-Few_example :
    let reported = reported_groups plain runs [] in
    (length (filter (is_success CheckpointPromotionReason.verification) reported) ≤ 4)
    × (length (filter (is_success CheckpointPromotionReason.explicit_salience) reported) ≤ 4)
    × All
        (λ g.
          (has_failure g
            || (is_success CheckpointPromotionReason.verification g
                || is_success CheckpointPromotionReason.explicit_salience g))
          ≡ true)
        reported
reported_groups-Few_example = reported_groups-Few plain runs []

session_read : (q : Progress) × (read_events parse session blank ≡ ok q)
unfolding read_events text_eq byte_length utf8_len
session_read = (_, refl)

failed_executions_reported_example :
    (report : CheckpointAttempt) × In report
      (coalesce_checkpoint_attempts plain session_read.0.attempts [])
    × (report.canonical_key
        ≡ some (checkpoint_attempt_canonical_key plain (attempt_of test_run).group_identity))
unfolding event_succeeded is_execution is_neutral_negative_probe text_eq
failed_executions_reported_example =
    failed_executions_reported parse plain [] test_run session blank session_read.0 (inl refl) refl
      refl refl session_read.1
