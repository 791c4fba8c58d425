-- ===== src/Checkpoints/Caps.antt =====
-- How many groups without a failure are reported.
use super_mem.Base.{
  ℕ, ◌-◌, ◌≤◌, ◌≡◌, refl, Text, Bool, true, false, not, ◌&&◌, ◌||◌, Option, none, some, List, [],
  ◌∷◌, arith, All, if◌then◌else◌, sort_by, filter, length,
}
use super_mem.Checkpoints.Events.{CheckpointPromotionReason}
use super_mem.Checkpoints.Groups.{
  AutomaticCheckpointAttempt, CheckpointAttemptGroup, checkpoint_attempt_canonical_key,
  group_attempts, group_not_after, has_failure, count_success, filter_group, keep_groups,
  reported_groups,
}

-- The reasons are the same.
abbrev pub same_reason : Option CheckpointPromotionReason → CheckpointPromotionReason → Bool
same_reason (some CheckpointPromotionReason.verification) CheckpointPromotionReason.verification =
    true
same_reason (some CheckpointPromotionReason.failed_execution)
      CheckpointPromotionReason.failed_execution =
    true
same_reason (some CheckpointPromotionReason.explicit_salience)
      CheckpointPromotionReason.explicit_salience =
    true
same_reason reason other = false

-- A group that never failed, for the reason.
abbrev pub is_success : CheckpointPromotionReason → CheckpointAttemptGroup → Bool
is_success reason group = not (has_failure group) && same_reason group.promotion_reason reason

abbrev is_some_success : CheckpointAttemptGroup → Bool
is_some_success g =
    has_failure g
    || (is_success CheckpointPromotionReason.verification g
        || is_success CheckpointPromotionReason.explicit_salience g)

-- What the counters leave.
abbrev Few : ℕ → ℕ → List CheckpointAttemptGroup → Type 0
Few v s kept =
    (length (filter (is_success CheckpointPromotionReason.verification) kept) ≤ 4 - v)
    × (length (filter (is_success CheckpointPromotionReason.explicit_salience) kept) ≤ 4 - s)
    × All (λ g. is_some_success g ≡ true) kept

Few-filter_group :
    (v s : ℕ) (g : CheckpointAttemptGroup) (reason : Option CheckpointPromotionReason)
    (kept : List CheckpointAttemptGroup)
    → g.promotion_reason ≡ reason
    → Few ((filter_group v s g).1) ((filter_group v s g).2) kept
    → Few v s (if (filter_group v s g).0 then g ∷ kept else kept)
unfolding filter_group count_success
Few-filter_group v s g none kept r few = (ground arith, ground arith, ground arith)
Few-filter_group v s g (some CheckpointPromotionReason.verification) kept r few =
    (ground arith, ground arith, ground arith)
Few-filter_group v s g (some CheckpointPromotionReason.failed_execution) kept r few =
    (ground arith, ground arith, ground arith)
Few-filter_group v s g (some CheckpointPromotionReason.explicit_salience) kept r few =
    (ground arith, ground arith, ground arith)

keep_groups-Few :
    (v s : ℕ) (groups : List CheckpointAttemptGroup) → Few v s (keep_groups v s groups)
unfolding keep_groups
keep_groups-Few v s [] = (omega arith, omega arith, tt)
keep_groups-Few v s (g ∷ groups) =
    let counted = filter_group v s g in
    Few-filter_group v s g g.promotion_reason (keep_groups (counted.1) (counted.2) groups) refl
      (keep_groups-Few (counted.1) (counted.2) groups)

-- At most four groups that never failed are reported for a verification, at most four because they are
-- salient, and none for another reason.
pub reported_groups-Few :
    (hex_digest : List ℕ → Text) (attempts : List AutomaticCheckpointAttempt)
    (failed : List (Text × Text))
    → let reported = reported_groups hex_digest attempts failed in
      (length (filter (is_success CheckpointPromotionReason.verification) reported) ≤ 4)
      × (length (filter (is_success CheckpointPromotionReason.explicit_salience) reported) ≤ 4)
      × All
          (λ g.
            (has_failure g
              || (is_success CheckpointPromotionReason.verification g
                  || is_success CheckpointPromotionReason.explicit_salience g))
            ≡ true)
          reported
unfolding reported_groups
reported_groups-Few hex_digest attempts failed = keep_groups-Few 0 0 (
    sort_by group_not_after
      (group_attempts (checkpoint_attempt_canonical_key hex_digest) failed 0 attempts []))
