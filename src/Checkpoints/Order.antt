-- ===== src/Checkpoints/Order.antt =====
-- The reported groups: one of each key, the failures first.
use super_mem.Base.{
  ℕ, suc, ◌≡◌, ◌≢◌, sym, ap, Text, Bool, true, false, not, ◌&&◌, ◌||◌, Option, some, List, [], ◌∷◌,
  arith, text_eq, text_eq_iff, text_ltb, text_ltb-transitive, text_ltb_irreflexive,
  text_ltb_connected, All, Pairwise, Pairwise-weaken, ◌<◌, ◌≤◌, ◌⊎◌, refl, none, is_some,
  if◌then◌else◌, inl, inr, Bool-cases, sort_by, Pairwise-sort_by, sort_by-Sorted, map, ltb, ◌==◌,
}
use super_mem.Checkpoints.Events.{CheckpointPromotionReason, unwrap_or}
use super_mem.Checkpoints.Groups.{
  AutomaticCheckpointAttempt, CheckpointAttemptGroup, checkpoint_attempt_canonical_key, new_group,
  observe_attempt, lookup, put_attempt, group_attempts, checkpoint_group_priority, is_verified,
  group_not_after, filter_group, keep_groups, report_group, reported_groups,
  coalesce_checkpoint_attempts,
}

-- The order of a `BTreeMap`.
abbrev Before : CheckpointAttemptGroup → CheckpointAttemptGroup → Type 0
Before g h = text_ltb g.canonical_key h.canonical_key ≡ true

All-put_attempt :
    (start key : Text) (previous : Option Text) (order : ℕ) (a : AutomaticCheckpointAttempt)
    (groups : List CheckpointAttemptGroup)
    → text_ltb start key ≡ true
    → All (λ g. text_ltb start g.canonical_key ≡ true) groups
    → All (λ g. text_ltb start g.canonical_key ≡ true) (put_attempt key previous order a groups)
unfolding put_attempt observe_attempt new_group
All-put_attempt start key previous order a [] b h = (b, tt)
All-put_attempt start key previous order a (g ∷ groups) b h =
    elim (Bool-cases (text_eq key g.canonical_key)) [
      | inl e ↦ rw e h
      | inr e ↦ elim (Bool-cases (text_ltb key g.canonical_key)) [
        | inl f ↦ rw (e, f) (b, h)
        | inr f ↦ rw (e, f) (h.0, All-put_attempt start key previous order a groups b h.1)
      ]
    ]

put_attempt-rising :
    (key : Text) (previous : Option Text) (order : ℕ) (a : AutomaticCheckpointAttempt)
    (groups : List CheckpointAttemptGroup)
    → Pairwise Before groups
    → Pairwise Before (put_attempt key previous order a groups)
unfolding put_attempt observe_attempt new_group
put_attempt-rising key previous order a [] h = (tt, tt)
put_attempt-rising key previous order a (g ∷ groups) h =
    elim (Bool-cases (text_eq key g.canonical_key)) [
      | inl e ↦ rw e h
      | inr e ↦ elim (Bool-cases (text_ltb key g.canonical_key)) [
        | inl f ↦ rw (e, f) ((f, weaken groups f h.0), h)
        | inr f ↦
            rw (e, f)
              (
                All-put_attempt g.canonical_key key previous order a groups (after e f) h.0,
                put_attempt-rising key previous order a groups h.1,
              )
      ]
    ]
  where
    weaken :
        (hs : List CheckpointAttemptGroup)
        → text_ltb key g.canonical_key ≡ true
        → All (Before g) hs
        → All (λ c. text_ltb key c.canonical_key ≡ true) hs
    weaken [] f p = tt
    weaken (c ∷ hs) f p =
        (text_ltb-transitive key g.canonical_key c.canonical_key f p.0, weaken hs f p.1)

    after :
        text_eq key g.canonical_key ≡ false
        → text_ltb key g.canonical_key ≡ false
        → text_ltb g.canonical_key key ≡ true
    after e f = elim (Bool-cases (text_ltb g.canonical_key key)) [
      | inl less ↦ less
      | inr c ↦
          ground
            (arith, e, text_eq_iff key g.canonical_key, text_ltb_connected key g.canonical_key f c)
    ]

group_attempts-rising :
    (key_of : Text → Text) (failed : List (Text × Text)) (order : ℕ)
    (attempts : List AutomaticCheckpointAttempt) (groups : List CheckpointAttemptGroup)
    → Pairwise Before groups
    → Pairwise Before (group_attempts key_of failed order attempts groups)
unfolding group_attempts
group_attempts-rising key_of failed order [] groups h = h
group_attempts-rising key_of failed order (a ∷ rest) groups h =
    group_attempts-rising key_of failed (suc order) rest _ (
      put_attempt-rising (key_of a.group_identity) (lookup failed (key_of a.group_identity)) order a
        groups h)

All-keep_groups :
    (P : CheckpointAttemptGroup → Type 0) (v s : ℕ) (groups : List CheckpointAttemptGroup)
    → All P groups
    → All P (keep_groups v s groups)
unfolding keep_groups
All-keep_groups P v s [] h = tt
All-keep_groups P v s (g ∷ groups) h =
    let counted = filter_group v s g in
    elim (Bool-cases (counted.0)) [
      | inl e ↦ rw e (h.0, All-keep_groups P (counted.1) (counted.2) groups h.1)
      | inr e ↦ rw e (All-keep_groups P (counted.1) (counted.2) groups h.1)
    ]

Pairwise-keep_groups :
    (R : CheckpointAttemptGroup → CheckpointAttemptGroup → Type 0) (v s : ℕ)
    (groups : List CheckpointAttemptGroup)
    → Pairwise R groups
    → Pairwise R (keep_groups v s groups)
unfolding keep_groups
Pairwise-keep_groups R v s [] h = tt
Pairwise-keep_groups R v s (g ∷ groups) h =
    let counted = filter_group v s g in
    let rest = Pairwise-keep_groups R (counted.1) (counted.2) groups h.1 in
    elim (Bool-cases (counted.0)) [
      | inl e ↦ rw e (All-keep_groups (R g) (counted.1) (counted.2) groups h.0, rest)
      | inr e ↦ rw e rest
    ]

-- The order of the sort: by priority, then the latest first, then by key.
abbrev by_priority : ℕ × ℕ × Text → ℕ × ℕ × Text → Bool
by_priority (p, m, k) (q, n, l) = ltb p q || (p == q && (ltb n m || (m == n && not (text_ltb l k))))

by_priority-total : (a b : ℕ × ℕ × Text) → by_priority a b ≡ false → by_priority b a ≡ true
by_priority-total (p, m, k) (q, n, l) h =
    ground (arith, text_ltb-transitive k l k, text_ltb_irreflexive k)

by_priority-transitive :
    (a b c : ℕ × ℕ × Text)
    → by_priority a b ≡ true
    → by_priority b c ≡ true
    → by_priority a c ≡ true
by_priority-transitive (p, m, k) (q, n, l) (r, o, j) h g =
    ground (arith, text_ltb-transitive j k l, text_ltb_connected k l)

abbrev priority_of : CheckpointAttemptGroup → ℕ × ℕ × Text
priority_of g = (checkpoint_group_priority g, g.last_order, g.canonical_key)

-- How early a group is to be reported, by whether its last attempt succeeded, its first failure and
-- the reason of its promotion: a failure that stands, a failure that was overcome, a verification, the rest.
abbrev pub rank : Bool → Option Text → Option CheckpointPromotionReason → ℕ
rank false failure reason = 0
rank true (some failure) reason = 1
rank true none (some CheckpointPromotionReason.verification) = 2
rank true none (some CheckpointPromotionReason.explicit_salience) = 3
rank true none (some CheckpointPromotionReason.failed_execution) = 3
rank true none none = 3

abbrev pub rank_of : CheckpointAttemptGroup → ℕ
rank_of g = rank g.final_succeeded g.first_failure g.promotion_reason

-- The first group has the lower rank; or the same rank and the later last attempt.
abbrev pub Earlier : CheckpointAttemptGroup → CheckpointAttemptGroup → Type 0
Earlier a b = (rank_of a < rank_of b) ⊎ ((rank_of a ≡ rank_of b) × (b.last_order ≤ a.last_order))

priority-rank : (g : CheckpointAttemptGroup) → checkpoint_group_priority g ≡ rank_of g
unfolding checkpoint_group_priority
priority-rank g = ranked g.final_succeeded g.first_failure g.promotion_reason
  where
    ranked :
        (b : Bool) (f : Option Text) (r : Option CheckpointPromotionReason)
        → (if not b then 0 else if is_some f then 1 else if is_verified r then 2 else 3)
          ≡ rank b f r
    ranked false f r = refl
    ranked true (some f) r = refl
    ranked true none (some CheckpointPromotionReason.verification) = refl
    ranked true none (some CheckpointPromotionReason.explicit_salience) = refl
    ranked true none (some CheckpointPromotionReason.failed_execution) = refl
    ranked true none none = refl

group_not_after-Earlier : (a b : CheckpointAttemptGroup) → group_not_after a b ≡ true → Earlier a b
unfolding group_not_after
group_not_after-Earlier a b h = ground (arith, priority-rank a, priority-rank b)

-- The reported groups stand in this order: first those whose last attempt failed, then those that failed before,
-- then the verifications, then the others; and of two groups of one rank the last attempt of the one
-- that stands first is not before that of the other.
pub reported_groups-ordered :
    (hex_digest : List ℕ → Text) (attempts : List AutomaticCheckpointAttempt)
    (failed : List (Text × Text))
    → Pairwise Earlier (reported_groups hex_digest attempts failed)
unfolding reported_groups group_not_after
reported_groups-ordered hex_digest attempts failed =
    let groups =
      group_attempts (checkpoint_attempt_canonical_key hex_digest) failed 0 attempts [] in
    Pairwise-weaken (λ a b. group_not_after a b ≡ true) Earlier
      (keep_groups 0 0 (sort_by group_not_after groups)) group_not_after-Earlier
      (Pairwise-keep_groups (λ a b. group_not_after a b ≡ true) 0 0 (sort_by group_not_after groups)
        (sort_by-Sorted group_not_after (λ a b. by_priority-total (priority_of a) (priority_of b))
          (λ a b c. by_priority-transitive (priority_of a) (priority_of b) (priority_of c)) groups))

-- The attempts that are reported have different keys: all runs of an action are reported as one.
pub coalesce_checkpoint_attempts-distinct :
    (hex_digest : List ℕ → Text) (attempts : List AutomaticCheckpointAttempt)
    (failed : List (Text × Text))
    → Pairwise
        (λ a b. a.canonical_key ≢ b.canonical_key)
        (coalesce_checkpoint_attempts hex_digest attempts failed)
unfolding coalesce_checkpoint_attempts reported_groups report_group
coalesce_checkpoint_attempts-distinct hex_digest attempts failed =
    let key_of = checkpoint_attempt_canonical_key hex_digest in
    let groups = group_attempts key_of failed 0 attempts [] in
    reported (keep_groups 0 0 (sort_by group_not_after groups)) (
      Pairwise-keep_groups Differ 0 0 (sort_by group_not_after groups) (
        Pairwise-sort_by group_not_after Differ (λ a b d e. d (sym e)) groups
          (differ groups (group_attempts-rising key_of failed 0 attempts [] tt))))
  where
    Differ : CheckpointAttemptGroup → CheckpointAttemptGroup → Type 0
    Differ a b = a.canonical_key ≢ b.canonical_key

    apart :
        (g : CheckpointAttemptGroup) (hs : List CheckpointAttemptGroup)
        → All (Before g) hs
        → All (Differ g) hs
    apart g [] h = tt
    apart g (c ∷ hs) h =
        ((λ e. ground (arith, text_ltb_irreflexive c.canonical_key)), apart g hs h.1)

    differ : (gs : List CheckpointAttemptGroup) → Pairwise Before gs → Pairwise Differ gs
    differ [] h = tt
    differ (g ∷ gs) h = (apart g gs h.0, differ gs h.1)

    reports :
        (g : CheckpointAttemptGroup) (hs : List CheckpointAttemptGroup)
        → All (Differ g) hs
        → All (λ b. some g.canonical_key ≢ b.canonical_key) (map report_group hs)
    reports g [] h = tt
    reports g (c ∷ hs) h = ((λ e. h.0 (ap (λ o. unwrap_or o []) e)), reports g hs h.1)

    reported :
        (gs : List CheckpointAttemptGroup)
        → Pairwise Differ gs
        → Pairwise (λ a b. a.canonical_key ≢ b.canonical_key) (map report_group gs)
    reported [] h = tt
    reported (g ∷ gs) h = (reports g gs h.0, reported gs h.1)
