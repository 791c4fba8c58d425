-- ===== src/Checkpoints/Groups.antt =====
-- `coalesce_checkpoint_attempts`: one attempt for all the runs of one action.
use super_mem.Base.{
  ℕ, suc, ◌+◌, Text, codes, Bool, true, false, not, ◌&&◌, ◌||◌, Option, none, some, List, [], ◌∷◌,
  ◌++◌, ltb, leb, ◌==◌, text_eq, text_ltb, is_some, map, sort_by, if◌then◌else◌,
}
use super_mem.Utf8.{byte_length, as_bytes}
use super_mem.Store.Words.{join_words}
use super_mem.Context.Render.{show_nat}
use super_mem.Applicability.Digests.{to_le_bytes}
use super_mem.Checkpoints.Words.{split_whitespace}
use super_mem.Checkpoints.Events.{CheckpointPromotionReason, reason_as_str, unwrap_or}

pub record AutomaticCheckpointAttempt : Type 0 where
  pub action : Text
  pub result : Text
  pub succeeded : Bool
  pub fingerprint : Option Text
  pub promotion_reason : Option CheckpointPromotionReason
  pub group_identity : Text

pub record CheckpointAttemptGroup : Type 0 where
  pub canonical_key : Text
  pub action : Text
  pub final_result : Text
  pub final_succeeded : Bool
  pub fingerprint : Option Text
  pub promotion_reason : Option CheckpointPromotionReason
  pub first_failure : Option Text
  pub previously_failed : Bool
  pub observations : ℕ
  pub last_order : ℕ

pub record CheckpointAttempt : Type 0 where
  pub action : Text
  pub result : Text
  pub succeeded : Bool
  pub fingerprint : Option Text
  pub canonical_key : Option Text
  pub promotion_reason : Option Text

unfoldable pub merge_checkpoint_promotion_reason :
    Option CheckpointPromotionReason
    → Option CheckpointPromotionReason
    → Option CheckpointPromotionReason
merge_checkpoint_promotion_reason (some CheckpointPromotionReason.verification) next =
    some CheckpointPromotionReason.verification
merge_checkpoint_promotion_reason (some CheckpointPromotionReason.explicit_salience) next =
    elim next [
      | some CheckpointPromotionReason.verification ↦ some CheckpointPromotionReason.verification
      | _ ↦ some CheckpointPromotionReason.explicit_salience
    ]
merge_checkpoint_promotion_reason (some CheckpointPromotionReason.failed_execution) next =
    elim next [ none ↦ some CheckpointPromotionReason.failed_execution | some reason ↦ some reason ]
merge_checkpoint_promotion_reason none next = next

-- The parameter `hex_digest` is the BLAKE3 digest in hexadecimal digits.
unfoldable pub checkpoint_attempt_canonical_key : (List ℕ → Text) → Text → Text
unfolding split_whitespace join_words to_le_bytes
checkpoint_attempt_canonical_key hex_digest identity =
    let normalized = join_words (split_whitespace identity) in
    codes "auto:attempt:v3:"
    ++ hex_digest (
        codes "super-mem:checkpoint-attempt-key:v3\0"
        ++ (to_le_bytes (byte_length normalized) ++ as_bytes normalized))

abbrev pub or_else : {A : Type 0} → Option A → Option A → Option A
or_else none other = other
or_else (some a) other = some a

-- The group that `or_insert_with` makes of its first attempt.
unfoldable pub new_group :
    Text → Option Text → ℕ → AutomaticCheckpointAttempt → CheckpointAttemptGroup
new_group key previous_failure order attempt = record {
  canonical_key = key;
  action = attempt.action;
  final_result = attempt.result;
  final_succeeded = attempt.succeeded;
  fingerprint = attempt.fingerprint;
  promotion_reason = attempt.promotion_reason;
  first_failure =
      or_else previous_failure (if attempt.succeeded then none else some attempt.result);
  previously_failed = is_some previous_failure;
  observations = if is_some previous_failure then 1 else 0;
  last_order = order;
}

-- The statements after it. The observations are at most one more than the attempts of a session.
unfoldable pub observe_attempt :
    ℕ → AutomaticCheckpointAttempt → CheckpointAttemptGroup → CheckpointAttemptGroup
unfolding merge_checkpoint_promotion_reason
observe_attempt order attempt group = record {
  canonical_key = group.canonical_key;
  action = attempt.action;
  final_result = attempt.result;
  final_succeeded = attempt.succeeded;
  fingerprint = or_else attempt.fingerprint group.fingerprint;
  promotion_reason =
      merge_checkpoint_promotion_reason group.promotion_reason attempt.promotion_reason;
  first_failure =
      or_else group.first_failure (if attempt.succeeded then none else some attempt.result);
  previously_failed = group.previously_failed;
  observations = group.observations + 1;
  last_order = order;
}

-- `previously_failed.get(&canonical_key)`, of a `BTreeMap`.
abbrev pub lookup : List (Text × Text) → Text → Option Text
lookup [] key = none
lookup ((k, v) ∷ rest) key = if text_eq k key then some v else lookup rest key

-- `groups.entry(key)`, in the `BTreeMap` that is the list of its groups in the order of their keys.
unfoldable pub put_attempt :
    Text
    → Option Text
    → ℕ
    → AutomaticCheckpointAttempt
    → List CheckpointAttemptGroup
    → List CheckpointAttemptGroup
unfolding new_group observe_attempt
put_attempt key previous order attempt [] =
    observe_attempt order attempt (new_group key previous order attempt) ∷ []
put_attempt key previous order attempt (g ∷ groups) =
    let later = put_attempt key previous order attempt groups in
    if text_eq key g.canonical_key
    then observe_attempt order attempt g ∷ groups
    else if text_ltb key g.canonical_key
    then observe_attempt order attempt (new_group key previous order attempt) ∷ g ∷ groups
    else g ∷ later

-- The loop over `attempts.into_iter().enumerate()`.
unfoldable pub group_attempts :
    (Text → Text)
    → List (Text × Text)
    → ℕ
    → List AutomaticCheckpointAttempt
    → List CheckpointAttemptGroup
    → List CheckpointAttemptGroup
unfolding put_attempt
group_attempts key_of failed order [] groups = groups
group_attempts key_of failed order (attempt ∷ rest) groups =
    let key = key_of attempt.group_identity in
    group_attempts key_of failed (suc order) rest
      (put_attempt key (lookup failed key) order attempt groups)

abbrev pub is_verified : Option CheckpointPromotionReason → Bool
is_verified (some CheckpointPromotionReason.verification) = true
is_verified reason = false

unfoldable pub checkpoint_group_priority : CheckpointAttemptGroup → ℕ
checkpoint_group_priority group =
    if not group.final_succeeded
    then 0
    else if is_some group.first_failure
    then 1
    else if is_verified group.promotion_reason
    then 2
    else 3

-- The closure of `sort_by` does not give `Greater`.
unfoldable pub group_not_after : CheckpointAttemptGroup → CheckpointAttemptGroup → Bool
unfolding checkpoint_group_priority
group_not_after a b =
    let p = checkpoint_group_priority a in
    let q = checkpoint_group_priority b in
    ltb p q
    || (p == q
        && (ltb b.last_order a.last_order
            || (a.last_order == b.last_order && not (text_ltb b.canonical_key a.canonical_key))))

-- A group that the filter keeps whatever its counters are.
unfoldable pub has_failure : CheckpointAttemptGroup → Bool
has_failure group =
    group.previously_failed || (is_some group.first_failure || not group.final_succeeded)

-- The match in the filter: whether a group without a failure is kept, and the counters after it.
unfoldable pub count_success : Option CheckpointPromotionReason → ℕ → ℕ → Bool × ℕ × ℕ
count_success (some CheckpointPromotionReason.verification) v s = (leb (v + 1) 4, v + 1, s)
count_success (some CheckpointPromotionReason.explicit_salience) v s = (leb (s + 1) 4, v, s + 1)
count_success (some CheckpointPromotionReason.failed_execution) v s = (false, v, s)
count_success none v s = (false, v, s)

-- The closure of the filter, on its counters `successful_verifications` and `successful_salient`.
unfoldable pub filter_group : ℕ → ℕ → CheckpointAttemptGroup → Bool × ℕ × ℕ
unfolding has_failure count_success
filter_group v s g = if has_failure g then (true, v, s) else count_success g.promotion_reason v s

unfoldable pub keep_groups : ℕ → ℕ → List CheckpointAttemptGroup → List CheckpointAttemptGroup
unfolding filter_group
keep_groups v s [] = []
keep_groups v s (g ∷ groups) =
    let counted = filter_group v s g in
    let kept = keep_groups (counted.1) (counted.2) groups in if counted.0 then g ∷ kept else kept

unfoldable pub coalesced_checkpoint_result : CheckpointAttemptGroup → Text
unfolding show_nat
coalesced_checkpoint_result group =
    let runs = show_nat group.observations in
    let equivalent = group.final_result ++ (codes "\nObserved equivalent runs: " ++ runs) in
    if group.observations == 1 then group.final_result else elim group.first_failure [
      | none ↦ equivalent
      | some first_failure ↦
          if group.final_succeeded
          then codes "First failure: "
            ++ (first_failure
                ++ (codes "\nFinal result: "
                    ++ (group.final_result ++ (codes "\nObserved runs: " ++ runs))))
          else if text_eq first_failure group.final_result
          then equivalent
          else codes "First failure: "
            ++ (first_failure
                ++ (codes "\nLatest failure: "
                    ++ (group.final_result ++ (codes "\nObserved runs: " ++ runs))))
    ]

unfoldable pub report_group : CheckpointAttemptGroup → CheckpointAttempt
unfolding coalesced_checkpoint_result reason_as_str
report_group group = record {
  action = group.action;
  result = coalesced_checkpoint_result group;
  succeeded = group.final_succeeded;
  fingerprint = group.fingerprint;
  canonical_key = some group.canonical_key;
  promotion_reason =
      some (
        reason_as_str
          (unwrap_or group.promotion_reason CheckpointPromotionReason.failed_execution));
}

-- The groups that are reported, in their order.
unfoldable pub reported_groups :
    (List ℕ → Text)
    → List AutomaticCheckpointAttempt
    → List (Text × Text)
    → List CheckpointAttemptGroup
unfolding group_attempts checkpoint_attempt_canonical_key group_not_after sort_by keep_groups
reported_groups hex_digest attempts failed = keep_groups 0 0 (
    sort_by group_not_after
      (group_attempts (checkpoint_attempt_canonical_key hex_digest) failed 0 attempts []))

unfoldable pub coalesce_checkpoint_attempts :
    (List ℕ → Text) → List AutomaticCheckpointAttempt → List (Text × Text) → List CheckpointAttempt
unfolding reported_groups report_group
coalesce_checkpoint_attempts hex_digest attempts failed =
    map report_group (reported_groups hex_digest attempts failed)
