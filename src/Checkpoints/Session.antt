-- ===== src/Checkpoints/Session.antt =====
-- The loops of `checkpoint_session` over the rows of the events, the newest first.
use super_mem.Base.{
  ℕ, Text, codes, Bool, false, not, ◌&&◌, ◌||◌, Option, none, some, List, [], ◌∷◌, ◌++◌, any, ◌==◌,
  text_eq, is_some, map, if◌then◌else◌,
}
use super_mem.Types.{EvidenceRef, EventKind, event_as_str}
use super_mem.Store.Outcome.{Outcome, ok, err, migration, ◌>>=◌}
use super_mem.Context.Tokens.{truncate_to_tokens}
use super_mem.Checkpoints.Events.{
  SessionEvent, get, as_str, command_of, event_succeeded, is_execution, classify_checkpoint_event,
  session_evidence_relation, is_generic_checkpoint_goal, event_action,
  checkpoint_attempt_group_identity,
}
use super_mem.Checkpoints.Groups.{AutomaticCheckpointAttempt, is_verified}

-- `is_user_prompt`.
unfoldable pub is_user_prompt : SessionEvent → Bool
unfolding event_as_str
is_user_prompt event =
    text_eq event.kind (event_as_str EventKind.conversation_turn)
    && (elim (as_str (get event.attributes (codes "role"))) [
      | none ↦ false
      | some role ↦ text_eq role (codes "user")
    ])

-- The rows up to the last checkpoint, or with the last prompt of the user.
unfoldable pub recent_events : List SessionEvent → List SessionEvent
unfolding is_user_prompt event_as_str
recent_events [] = []
recent_events (event ∷ rows) =
    let rest = recent_events rows in
    if text_eq event.kind (event_as_str EventKind.checkpoint)
    then []
    else if is_user_prompt event
    then event ∷ []
    else event ∷ rest

unfoldable pub reversed : List SessionEvent → List SessionEvent
reversed [] = []
reversed (e ∷ es) = reversed es ++ e ∷ []

-- What the second loop changes: the fields of the request, the attempts, and the set of the evidence.
pub record Progress : Type 0 where
  pub evidence : List EvidenceRef
  pub goal : Text
  pub verification : List Text
  pub attempts : List AutomaticCheckpointAttempt
  pub seen_evidence : List ℕ

-- `seen_evidence.insert`, and what is done where it gives true.
unfoldable pub cite_event : ℕ → SessionEvent → Progress → Progress
unfolding session_evidence_relation
cite_event id event p = if any (λ seen. seen == id) p.seen_evidence then p else record {
  evidence =
      p.evidence
      ++ record {
        event_id = id;
        span_start = none;
        span_end = none;
        relation = session_evidence_relation event.kind;
      }
        ∷ [];
  goal = p.goal;
  verification = p.verification;
  attempts = p.attempts;
  seen_evidence = id ∷ p.seen_evidence;
}

unfoldable pub take_goal : SessionEvent → Progress → Progress
unfolding is_user_prompt is_generic_checkpoint_goal truncate_to_tokens
take_goal event p =
    if is_user_prompt event && is_generic_checkpoint_goal p.goal
    then record {
      evidence = p.evidence;
      goal = truncate_to_tokens event.content 256;
      verification = p.verification;
      attempts = p.attempts;
      seen_evidence = p.seen_evidence;
    }
    else p

-- `closes_failure_candidate`.
unfoldable pub closes_failure : SessionEvent → Bool
unfolding classify_checkpoint_event event_succeeded is_execution command_of
closes_failure event =
    not (is_some (classify_checkpoint_event event))
    && (event_succeeded event && (is_execution event.kind && is_some (command_of event)))

unfoldable pub attempt_of : SessionEvent → AutomaticCheckpointAttempt
unfolding event_action truncate_to_tokens event_succeeded classify_checkpoint_event
    checkpoint_attempt_group_identity
attempt_of event =
    let fingerprint = as_str (get event.attributes (codes "error_fingerprint")) in
    record {
      action = event_action event;
      result = truncate_to_tokens event.content 768;
      succeeded = event_succeeded event;
      fingerprint = fingerprint;
      promotion_reason = classify_checkpoint_event event;
      group_identity = checkpoint_attempt_group_identity event fingerprint;
    }

unfoldable pub note_attempt : SessionEvent → Progress → Progress
unfolding classify_checkpoint_event closes_failure attempt_of
note_attempt event p =
    let attempt = attempt_of event in
    let line = attempt.action ++ (codes ": " ++ attempt.result) in
    let verification =
      if is_verified attempt.promotion_reason && not (any (text_eq line) p.verification)
      then p.verification ++ line ∷ []
      else p.verification in
    if is_some (classify_checkpoint_event event) || closes_failure event
    then record {
      evidence = p.evidence;
      goal = p.goal;
      verification = verification;
      attempts = p.attempts ++ attempt ∷ [];
      seen_evidence = p.seen_evidence;
    }
    else p

-- The parameter `parse_event_id` reads the printed form of an identifier.
module _ (parse_event_id : Text → Option ℕ) where
  unfoldable pub read_event : SessionEvent → Progress → Outcome Progress
  unfolding cite_event take_goal note_attempt
  read_event event p = elim (parse_event_id event.event_id) [
    | none ↦ err migration
    | some id ↦ ok (note_attempt event (take_goal event (cite_event id event p)))
  ]

  unfoldable pub read_events : List SessionEvent → Progress → Outcome Progress
  unfolding read_event
  read_events [] p = ok p
  read_events (event ∷ events) p = read_event event p >>= read_events events

-- The state before the second loop, by the evidence and the goal of the request.
unfoldable pub begin_session : List EvidenceRef → Text → List Text → Progress
begin_session evidence goal verification = record {
  evidence = evidence;
  goal = goal;
  verification = verification;
  attempts = [];
  seen_evidence = map (λ (e : EvidenceRef). e.event_id) evidence;
}
