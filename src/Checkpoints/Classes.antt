-- ===== src/Checkpoints/Classes.antt =====
-- What the loop over a session keeps of its events.
use mathlib.Core.Path.{subst}
use super_mem.Base.{
  ◌∙◌, ℕ, ◌≡◌, refl, sym, Text, true, false, ◌&&◌, ◌||◌, Option, none, some, List, [], ◌∷◌, ◌++◌,
  any, ◌==◌, is_some, In, inl, inr, arith, Bool-cases,
}
use super_mem.Store.Outcome.{ok, err, migration, ok_steps, ok-injective}
use super_mem.Checkpoints.Events.{
  SessionEvent, event_succeeded, is_execution, is_generic_checkpoint_goal,
  is_neutral_negative_probe, classify_checkpoint_event,
}
use super_mem.Checkpoints.Groups.{
  AutomaticCheckpointAttempt, CheckpointAttempt, checkpoint_attempt_canonical_key,
  coalesce_checkpoint_attempts,
}
use super_mem.Checkpoints.Reporting.{failures_reported}
use super_mem.Checkpoints.Session.{
  is_user_prompt, Progress, cite_event, take_goal, attempt_of, closes_failure, note_attempt,
  read_event, read_events,
}

-- An execution that failed, other than a neutral probe, is promoted to an attempt.
failure-promoted :
    (event : SessionEvent)
    → event_succeeded event ≡ false
    → is_execution event.kind ≡ true
    → is_neutral_negative_probe event ≡ false
    → is_some (classify_checkpoint_event event) ≡ true
unfolding classify_checkpoint_event
failure-promoted event f x n = ground arith

In-append_left : {A : Type 0} (a : A) (xs ys : List A) → In a xs → In a (xs ++ ys)
In-append_left a [] ys i = elim i [ ]
In-append_left a (x ∷ xs) ys (inl same) = inl same
In-append_left a (x ∷ xs) ys (inr i) = inr (In-append_left a xs ys i)

In-last : {A : Type 0} (a : A) (xs : List A) → In a (xs ++ a ∷ [])
In-last a [] = inl refl
In-last a (x ∷ xs) = inr (In-last a xs)

cite_event-attempts :
    (id : ℕ) (event : SessionEvent) (p : Progress) → (cite_event id event p).attempts ≡ p.attempts
unfolding cite_event
cite_event-attempts id event p = elim (Bool-cases (any (λ seen. seen == id) p.seen_evidence)) [
  | inl e ↦ rw e refl
  | inr e ↦ rw e refl
]

take_goal-attempts :
    (event : SessionEvent) (p : Progress) → (take_goal event p).attempts ≡ p.attempts
unfolding take_goal
take_goal-attempts event p =
    elim (Bool-cases (is_user_prompt event && is_generic_checkpoint_goal p.goal)) [
      | inl e ↦ rw e refl
      | inr e ↦ rw e refl
    ]

note_attempt-keeps :
    (a : AutomaticCheckpointAttempt) (event : SessionEvent) (p : Progress)
    → In a p.attempts
    → In a (note_attempt event p).attempts
unfolding note_attempt
note_attempt-keeps a event p i =
    elim (Bool-cases (is_some (classify_checkpoint_event event) || closes_failure event)) [
      | inl e ↦ rw e (In-append_left a p.attempts (attempt_of event ∷ []) i)
      | inr e ↦ rw e i
    ]

note_attempt-notes :
    (event : SessionEvent) (p : Progress)
    → is_some (classify_checkpoint_event event) ≡ true
    → In (attempt_of event) (note_attempt event p).attempts
unfolding note_attempt
note_attempt-notes event p h = rw h (In-last (attempt_of event) p.attempts)

module _ (parse_event_id : Text → Option ℕ) where
  -- One round either fails, or is its three steps.
  read_event-steps :
      (event : SessionEvent) (p q : Progress)
      → read_event parse_event_id event p ≡ ok q
      → (id : ℕ) × (note_attempt event (take_goal event (cite_event id event p)) ≡ q)
  unfolding read_event
  read_event-steps event p q h =
      parsed (parse_event_id event.event_id)
        (λ id. note_attempt event (take_goal event (cite_event id event p))) h
    where
      parsed :
          (o : Option ℕ) (step : ℕ → Progress)
          → (elim o [ none ↦ err migration | some id ↦ ok (step id) ]) ≡ ok q
          → (id : ℕ) × (step id ≡ q)
      parsed none step h = ground arith
      parsed (some id) step h = (id, ok-injective h)

  read_event-keeps :
      (a : AutomaticCheckpointAttempt) (event : SessionEvent) (p q : Progress)
      → read_event parse_event_id event p ≡ ok q
      → In a p.attempts
      → In a q.attempts
  read_event-keeps a event p q h i =
      let (id, same) = read_event-steps event p q h in
      subst (λ r. In a r.attempts) same
        (note_attempt-keeps a event (take_goal event (cite_event id event p)) (
          subst (In a)
            (sym
              (take_goal-attempts event (cite_event id event p) ∙ cite_event-attempts id event p))
            i))

  read_events-keeps :
      (a : AutomaticCheckpointAttempt) (events : List SessionEvent) (p q : Progress)
      → read_events parse_event_id events p ≡ ok q
      → In a p.attempts
      → In a q.attempts
  unfolding read_events
  read_events-keeps a [] p q h i = subst (λ r. In a r.attempts) (ok-injective h) i
  read_events-keeps a (event ∷ events) p q h i =
      let (r, later, now) =
        ok_steps (read_events parse_event_id events) (read_event parse_event_id event p) h in
      read_events-keeps a events r q later (read_event-keeps a event p r now i)

  read_events-notes :
      (event : SessionEvent) (events : List SessionEvent) (p q : Progress)
      → In event events
      → is_some (classify_checkpoint_event event) ≡ true
      → read_events parse_event_id events p ≡ ok q
      → In (attempt_of event) q.attempts
  unfolding read_events
  read_events-notes event [] p q i c h = elim i [ ]
  read_events-notes event (e ∷ events) p q i c h =
      let (r, later, now) =
        ok_steps (read_events parse_event_id events) (read_event parse_event_id e p) h in
      elim i [
        | inl same ↦
            let (id, steps) = read_event-steps e p r now in
            read_events-keeps (attempt_of event) events r q later (
              subst (λ u. In (attempt_of event) u.attempts) steps
                (subst
                  (λ u.
                    In (attempt_of event)
                      (note_attempt u (take_goal e (cite_event id e p))).attempts)
                  same (note_attempt-notes event (take_goal e (cite_event id e p)) c)))
        | inr j ↦ read_events-notes event events r q j c later
      ]

  -- Where a session is read without an error, every execution in it that failed, other than a neutral probe, is
  -- reported by the checkpoint under the key of its action. A neutral probe is what
  -- `is_neutral_negative_probe` tells: the result of a command with exit code 1 that is rg, grep or
  -- `git diff` with `--quiet`, and whose output has no word of a failure.
  pub failed_executions_reported :
      (hex_digest : List ℕ → Text) (failed : List (Text × Text)) (event : SessionEvent)
      (events : List SessionEvent) (p q : Progress)
      → In event events
      → event_succeeded event ≡ false
      → is_execution event.kind ≡ true
      → is_neutral_negative_probe event ≡ false
      → read_events parse_event_id events p ≡ ok q
      → (report : CheckpointAttempt) × In report
          (coalesce_checkpoint_attempts hex_digest q.attempts failed)
        × (report.canonical_key
            ≡ some (checkpoint_attempt_canonical_key hex_digest (attempt_of event).group_identity))
  unfolding attempt_of
  failed_executions_reported hex_digest failed event events p q i f x n h =
      failures_reported hex_digest q.attempts failed (attempt_of event)
        (read_events-notes event events p q i (failure-promoted event f x n) h) (rw f refl)
