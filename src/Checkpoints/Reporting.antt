-- ===== src/Checkpoints/Reporting.antt =====
-- Which groups are reported: every one with a failure, few of the others, each once.
use mathlib.Core.Path.{subst}
use super_mem.Base.{
  ℕ, suc, ◌≡◌, refl, sym, ◌∙◌, ap, Text, true, false, not, ◌||◌, Option, none, some, List, [], ◌∷◌,
  arith, text_eq, text_eq_iff, text_ltb, is_some, In, inl, inr, ◌⊎◌, Bool-cases, if◌then◌else◌,
  sort_by, In-sort_by, map,
}
use super_mem.Checkpoints.Events.{unwrap_or}
use super_mem.Checkpoints.Groups.{
  AutomaticCheckpointAttempt, CheckpointAttemptGroup, CheckpointAttempt,
  checkpoint_attempt_canonical_key, new_group, observe_attempt, lookup, group_attempts,
  group_not_after, has_failure, filter_group, keep_groups, report_group, reported_groups,
  coalesce_checkpoint_attempts, or_else,
}
use super_mem.Checkpoints.Grouping.{
  find_group, own_attempt, own_attempts, find_group-group_attempts,
}

-- The group is there and knows of a failure.
abbrev Failed : Option CheckpointAttemptGroup → Type 0
Failed group = (g : CheckpointAttemptGroup) × (group ≡ some g) × (is_some g.first_failure ≡ true)

or_else_left : (x y : Option Text) → is_some x ≡ true → is_some (or_else x y) ≡ true
or_else_left none y h = ground arith
or_else_left (some t) y h = refl

or_else_right : (x : Option Text) (t : Text) → is_some (or_else x (some t)) ≡ true
or_else_right none t = refl
or_else_right (some u) t = refl

module _ (key_of : Text → Text) (failed : List (Text × Text)) (key : Text) where
  own_attempt-Failed :
      (order : ℕ) (a : AutomaticCheckpointAttempt) (group : Option CheckpointAttemptGroup)
      → Failed group
        ⊎ ((a.succeeded ≡ false) ⊎ ((group ≡ none) × (is_some (lookup failed key) ≡ true)))
      → is_some (own_attempt key (lookup failed key) order a group).first_failure ≡ true
  unfolding observe_attempt new_group
  own_attempt-Failed order a group (inl (g, same, f)) =
      rw (same, or_else) (or_else_left g.first_failure _ f)
  own_attempt-Failed order a group (inr (inl f)) = rw f (or_else_right _ a.result)
  own_attempt-Failed order a group (inr (inr (none_yet, before))) =
      rw none_yet (or_else_left _ _ (or_else_left (lookup failed key) _ before))

  own_attempts-Failed :
      (order : ℕ) (attempts : List AutomaticCheckpointAttempt)
      (group : Option CheckpointAttemptGroup)
      → Failed group
      → Failed (own_attempts key_of failed key order attempts group)
  own_attempts-Failed order [] group f = f
  own_attempts-Failed order (a ∷ rest) group f =
      elim (Bool-cases (text_eq key (key_of a.group_identity))) [
        | inl e ↦ rw e (
            own_attempts-Failed (suc order) rest
              (some (own_attempt key (lookup failed key) order a group))
              (
                own_attempt key (lookup failed key) order a group,
                refl,
                own_attempt-Failed order a group (inl f),
              ))
        | inr e ↦ rw e (own_attempts-Failed (suc order) rest group f)
      ]

  -- An attempt that fails, or whose action failed in an earlier session, leaves a failure in its group.
  own_attempts-records :
      (a : AutomaticCheckpointAttempt) (order : ℕ) (attempts : List AutomaticCheckpointAttempt)
      (group : Option CheckpointAttemptGroup)
      → In a attempts
      → text_eq key (key_of a.group_identity) ≡ true
      → (not a.succeeded || is_some (lookup failed key)) ≡ true
      → (is_some (lookup failed key) ≡ true → (group ≡ none) ⊎ Failed group)
      → Failed (own_attempts key_of failed key order attempts group)
  own_attempts-records a order [] group i e f c = elim i [ ]
  own_attempts-records a order (b ∷ rest) group (inl same) e f c =
      let made = own_attempt key (lookup failed key) order b group in
      rw (subst (λ t. text_eq key (key_of t.group_identity) ≡ true) same e) (
        own_attempts-Failed (suc order) rest (some made) (
          made,
          refl,
          own_attempt-Failed order b group
              (cause (subst (λ t. (not t.succeeded || is_some (lookup failed key)) ≡ true) same f)),
        ))
    where
      cause :
          (not b.succeeded || is_some (lookup failed key)) ≡ true
          → Failed group
            ⊎ ((b.succeeded ≡ false) ⊎ ((group ≡ none) × (is_some (lookup failed key) ≡ true)))
      cause h = elim (Bool-cases b.succeeded) [
        | inr wrong ↦ inr (inl wrong)
        | inl fine ↦
            let before : is_some (lookup failed key) ≡ true = ground arith in
            elim (c before) [ inl none_yet ↦ inr (inr (none_yet, before)) | inr there ↦ inl there ]
      ]
  own_attempts-records a order (b ∷ rest) group (inr i) e f c =
      elim (Bool-cases (text_eq key (key_of b.group_identity))) [
        | inl own ↦
            let made = own_attempt key (lookup failed key) order b group in
            rw own (
              own_attempts-records a (suc order) rest (some made) i e f (λ before. inr (
                made,
                refl,
                own_attempt-Failed order b group (elim (c before) [
                  | inl none_yet ↦ inr (inr (none_yet, before))
                  | inr there ↦ inl there
                ]),
              )))
        | inr other ↦ rw other (own_attempts-records a (suc order) rest group i e f c)
      ]

find_group-In :
    (key : Text) (groups : List CheckpointAttemptGroup) (g : CheckpointAttemptGroup)
    → find_group key groups ≡ some g
    → In g groups × (g.canonical_key ≡ key)
find_group-In key [] g h = ground arith
find_group-In key (b ∷ groups) g h = elim (Bool-cases (text_eq key b.canonical_key)) [
  | inl e ↦
      let same : b ≡ g = some_same (subst (λ c. (if c then some b else later) ≡ some g) e h) in
      (
        inl (sym same),
        ap (λ c. c.canonical_key) (sym same) ∙ sym ((text_eq_iff key b.canonical_key).0 e),
      )
  | inr e ↦
      let rest = subst (λ c. (if c then some b else later) ≡ some g) e h in
      elim (Bool-cases (text_ltb key b.canonical_key)) [
        | inl f ↦ absurd (
            none_not_some
              (subst (λ c. (if c then none else find_group key groups) ≡ some g) f rest))
        | inr f ↦
            let (i, same) =
              find_group-In key groups g
                (subst (λ c. (if c then none else find_group key groups) ≡ some g) f rest) in
            (inr i, same)
      ]
]
  where
    later : Option CheckpointAttemptGroup
    later = if text_ltb key b.canonical_key then none else find_group key groups

    some_same : {x y : CheckpointAttemptGroup} → some x ≡ some y → x ≡ y
    some_same {x} h = ap (λ o. unwrap_or o x) h

    none_not_some : {y : CheckpointAttemptGroup} → none ≡ some y → ⊥
    none_not_some h = ground arith

In-keep_groups :
    (g : CheckpointAttemptGroup) (v s : ℕ) (groups : List CheckpointAttemptGroup)
    → In g groups
    → has_failure g ≡ true
    → In g (keep_groups v s groups)
unfolding keep_groups filter_group
In-keep_groups g v s [] i h = i
In-keep_groups g v s (b ∷ groups) i h =
    let counted = filter_group v s b in
    elim (Bool-cases (counted.0)) [
      | inl e ↦ rw e (elim i [
        | inl same ↦ inl same
        | inr j ↦ inr (In-keep_groups g (counted.1) (counted.2) groups j h)
      ])
      | inr e ↦ rw e (elim i [
        | inl same ↦ absurd (dropped (subst (λ t. has_failure t ≡ true) same h) e)
        | inr j ↦ In-keep_groups g (counted.1) (counted.2) groups j h
      ])
    ]
  where
    dropped : has_failure b ≡ true → (filter_group v s b).0 ≡ false → ⊥
    dropped f e = ground arith

In-map : {A B : Type 0} (f : A → B) (x : A) (xs : List A) → In x xs → In (f x) (map f xs)
In-map f x [] i = elim i [ ]
In-map f x (y ∷ ys) (inl same) = inl (ap f same)
In-map f x (y ∷ ys) (inr i) = inr (In-map f x ys i)

-- No failure is lost: where an attempt of the session did not succeed, or its action had failed in an
-- earlier session, an attempt is reported under the key of the action.
pub failures_reported :
    (hex_digest : List ℕ → Text) (attempts : List AutomaticCheckpointAttempt)
    (failed : List (Text × Text)) (a : AutomaticCheckpointAttempt)
    → In a attempts
    → (not a.succeeded
        || is_some (lookup failed (checkpoint_attempt_canonical_key hex_digest a.group_identity)))
      ≡ true
    → (report : CheckpointAttempt) × In report
        (coalesce_checkpoint_attempts hex_digest attempts failed)
      × (report.canonical_key ≡ some (checkpoint_attempt_canonical_key hex_digest a.group_identity))
unfolding coalesce_checkpoint_attempts reported_groups report_group has_failure
failures_reported hex_digest attempts failed a i f =
    let key_of = checkpoint_attempt_canonical_key hex_digest in
    let key = key_of a.group_identity in
    let groups = group_attempts key_of failed 0 attempts [] in
    let (g, same, failure) =
      own_attempts-records key_of failed key a 0 attempts none i ((text_eq_iff key key).1 refl) f
        (λ before. inl refl) in
    let (there, keyed) =
      find_group-In key groups g
        (find_group-group_attempts key_of failed key 0 attempts [] ∙ same) in
    let kept =
      In-keep_groups g 0 0 (sort_by group_not_after groups)
        (In-sort_by group_not_after g groups there) (ground arith) in
    (
      report_group g,
      In-map report_group g (reported_groups hex_digest attempts failed) kept,
      ap some keyed,
    )
