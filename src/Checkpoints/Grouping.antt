-- ===== src/Checkpoints/Grouping.antt =====
-- The group of a key is what the attempts with this key make of it, and no other attempt.
use mathlib.Core.Path.{subst}
use super_mem.Base.{
  ℕ, suc, ◌≡◌, refl, sym, ◌∙◌, ap, Text, true, false, Option, none, some, List, [], ◌∷◌, arith,
  text_eq, text_eq_iff, text_ltb, text_ltb-transitive, text_ltb_irreflexive, inl, inr, Bool-cases,
  if◌then◌else◌,
}
use super_mem.Checkpoints.Events.{unwrap_or}
use super_mem.Checkpoints.Groups.{
  AutomaticCheckpointAttempt, CheckpointAttemptGroup, new_group, observe_attempt, lookup,
  put_attempt, group_attempts,
}

-- `BTreeMap::get`: the search stops at the first key that is not less.
abbrev pub find_group : Text → List CheckpointAttemptGroup → Option CheckpointAttemptGroup
find_group key [] = none
find_group key (g ∷ groups) =
    let later = find_group key groups in
    if text_eq key g.canonical_key
    then some g
    else if text_ltb key g.canonical_key
    then none
    else later

-- What one attempt makes of the group of its key.
abbrev pub own_attempt :
    Text
    → Option Text
    → ℕ
    → AutomaticCheckpointAttempt
    → Option CheckpointAttemptGroup
    → CheckpointAttemptGroup
own_attempt key previous order attempt group =
    observe_attempt order attempt (unwrap_or group (new_group key previous order attempt))

text_eq_self : (s : Text) → text_eq s s ≡ true
text_eq_self s = (text_eq_iff s s).1 refl

-- No key is before itself.
eq_not_before : (s t : Text) → text_eq s t ≡ true → text_ltb s t ≡ false
eq_not_before s t e = rw ((text_eq_iff s t).0 e) (text_ltb_irreflexive t)

find_group_before :
    (k : Text) (g : CheckpointAttemptGroup) (groups : List CheckpointAttemptGroup)
    → text_ltb k g.canonical_key ≡ true
    → find_group k (g ∷ groups) ≡ none
find_group_before k g groups h = elim (Bool-cases (text_eq k g.canonical_key)) [
  | inl e ↦ ground (arith, eq_not_before k g.canonical_key e)
  | inr e ↦ rw (e, h) refl
]

module _ (key : Text) (previous : Option Text) (order : ℕ)
    (attempt : AutomaticCheckpointAttempt) where
  find_group-put_attempt :
      (groups : List CheckpointAttemptGroup)
      → find_group key (put_attempt key previous order attempt groups)
        ≡ some (own_attempt key previous order attempt (find_group key groups))
  unfolding put_attempt observe_attempt new_group
  find_group-put_attempt [] = rw (text_eq_self key) refl
  find_group-put_attempt (g ∷ groups) = elim (Bool-cases (text_eq key g.canonical_key)) [
    | inl e ↦ rw (e, e) refl
    | inr e ↦ elim (Bool-cases (text_ltb key g.canonical_key)) [
      | inl f ↦ rw (e, f, text_eq_self key) refl
      | inr f ↦ rw (e, f, e, f) (find_group-put_attempt groups)
    ]
  ]

  find_group-put_other :
      (k : Text) (groups : List CheckpointAttemptGroup)
      → text_eq k key ≡ false
      → find_group k (put_attempt key previous order attempt groups) ≡ find_group k groups
  unfolding put_attempt observe_attempt new_group
  find_group-put_other k [] d = ground (arith, d)
  find_group-put_other k (g ∷ groups) d = elim (Bool-cases (text_eq key g.canonical_key)) [
    | inl e ↦
        let differs : text_eq k g.canonical_key ≡ false =
          subst (λ t. text_eq k t ≡ false) ((text_eq_iff key g.canonical_key).0 e) d in
        rw (e, differs) refl
    | inr e ↦ elim (Bool-cases (text_ltb key g.canonical_key)) [
      | inl f ↦ elim (Bool-cases (text_ltb k key)) [
        | inl before ↦
            rw (e, f, d, before)
              (sym
                (find_group_before k g groups (text_ltb-transitive k key g.canonical_key before f)))
        | inr after ↦ rw (e, f, d, after) refl
      ]
      | inr f ↦
          rw (e, f)
            (ap
              (λ later.
                if text_eq k g.canonical_key
                then some g
                else if text_ltb k g.canonical_key
                then none
                else later)
              (find_group-put_other k groups d))
    ]
  ]

-- What the attempts with the key make of its group, one after the other.
abbrev pub own_attempts :
    (Text → Text)
    → List (Text × Text)
    → Text
    → ℕ
    → List AutomaticCheckpointAttempt
    → Option CheckpointAttemptGroup
    → Option CheckpointAttemptGroup
own_attempts key_of failed key order [] group = group
own_attempts key_of failed key order (attempt ∷ rest) group =
    own_attempts key_of failed key (suc order) rest (
      if text_eq key (key_of attempt.group_identity)
      then some (own_attempt key (lookup failed key) order attempt group)
      else group)

-- The loop makes of the group of a key what its own attempts make of it, in their order, whatever
-- attempts of other keys come between.
pub find_group-group_attempts :
    (key_of : Text → Text) (failed : List (Text × Text)) (key : Text) (order : ℕ)
    (attempts : List AutomaticCheckpointAttempt) (groups : List CheckpointAttemptGroup)
    → find_group key (group_attempts key_of failed order attempts groups)
      ≡ own_attempts key_of failed key order attempts (find_group key groups)
unfolding group_attempts
find_group-group_attempts key_of failed key order [] groups = refl
find_group-group_attempts key_of failed key order (a ∷ rest) groups =
    let k = key_of a.group_identity in
    let put = put_attempt k (lookup failed k) order a groups in
    find_group-group_attempts key_of failed key (suc order) rest put
    ∙ ap (own_attempts key_of failed key (suc order) rest) (elim (Bool-cases (text_eq key k)) [
      | inl e ↦ rw e (
          subst
            (λ t.
              find_group t put
              ≡ some (own_attempt t (lookup failed t) order a (find_group t groups)))
            (sym ((text_eq_iff key k).0 e))
            (find_group-put_attempt k (lookup failed k) order a groups))
      | inr e ↦ rw e (find_group-put_other k (lookup failed k) order a key groups e)
    ])
