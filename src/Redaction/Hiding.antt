-- ===== src/Redaction/Hiding.antt =====
-- Nothing under a sensitive key survives the redaction.
use super_mem.Base.{
  Text, codes, text_eq, text_eq_iff, true, List, [], ◌∷◌, ◌≡◌, refl, any, In, arith, inl, inr,
  Bool-cases, if◌then◌else◌, All,
}
use super_mem.Types.{Value, Items, Fields}
use super_mem.Redaction.{
  Pattern, is_generated_placeholder, sensitive_key, redact_sensitive_value, redact_sensitive_items,
  redact_sensitive_fields, redact_value, redact_items, redact_fields, redact_attributes,
}

-- The texts that stand for what was hidden.
abbrev pub generated : List Text
generated =
    codes "[REDACTED:private_key]"
    ∷ codes "[REDACTED:openai_key]"
    ∷ codes "[REDACTED:github_token]"
    ∷ codes "[REDACTED:aws_access_key]"
    ∷ codes "[REDACTED:bearer_token]"
    ∷ codes "[REDACTED:credential_assignment]"
    ∷ codes "[REDACTED:sensitive_string]"
    ∷ codes "[REDACTED:sensitive_number]"
    ∷ codes "[REDACTED:sensitive_bool]"
    ∷ codes "[REDACTED:sensitive_null]"
    ∷ []

In-any : (text : Text) (texts : List Text) → any (text_eq text) texts ≡ true → In text texts
In-any text [] h = ground arith
In-any text (t ∷ rest) h = elim (Bool-cases (text_eq text t)) [
  | inl e ↦ inl ((text_eq_iff text t).0 e)
  | inr e ↦ inr (In-any text rest (ground arith))
]

placeholder-In : (text : Text) → is_generated_placeholder text ≡ true → In text generated
unfolding is_generated_placeholder
placeholder-In text h = In-any text generated h

sensitive_string : In (codes "[REDACTED:sensitive_string]") generated
sensitive_string = inr (inr (inr (inr (inr (inr (inl refl))))))

sensitive_number : In (codes "[REDACTED:sensitive_number]") generated
sensitive_number = inr (inr (inr (inr (inr (inr (inr (inl refl)))))))

sensitive_bool : In (codes "[REDACTED:sensitive_bool]") generated
sensitive_bool = inr (inr (inr (inr (inr (inr (inr (inr (inl refl))))))))

sensitive_null : In (codes "[REDACTED:sensitive_null]") generated
sensitive_null = inr (inr (inr (inr (inr (inr (inr (inr (inr (inl refl)))))))))

mutual
  -- Every scalar of the value is one of these texts.
  pub Hidden : Value → Type 0
  Hidden (Value.string text) = In text generated
  Hidden (Value.number n) = ⊥
  Hidden (Value.bool b) = ⊥
  Hidden Value.null = ⊥
  Hidden (Value.array values) = HiddenItems values
  Hidden (Value.object map) = HiddenFields map

  pub HiddenItems : Items → Type 0
  HiddenItems Items.nil = Unit
  HiddenItems (Items.cons v rest) = Hidden v × HiddenItems rest

  pub HiddenFields : Fields → Type 0
  HiddenFields Fields.end = Unit
  HiddenFields (Fields.field key v rest) = Hidden v × HiddenFields rest

mutual
  unfolding Hidden HiddenItems HiddenFields redact_sensitive_value redact_sensitive_items
      redact_sensitive_fields

  redact_sensitive_value-Hidden : (v : Value) → Hidden (redact_sensitive_value v).0
  redact_sensitive_value-Hidden (Value.string text) =
      elim (Bool-cases (is_generated_placeholder text)) [
        | inl e ↦ rw e (placeholder-In text e)
        | inr e ↦ rw e sensitive_string
      ]
  redact_sensitive_value-Hidden (Value.number n) = sensitive_number
  redact_sensitive_value-Hidden (Value.bool b) = sensitive_bool
  redact_sensitive_value-Hidden Value.null = sensitive_null
  redact_sensitive_value-Hidden (Value.array values) = redact_sensitive_items-HiddenItems values
  redact_sensitive_value-Hidden (Value.object map) = redact_sensitive_fields-HiddenFields map

  redact_sensitive_items-HiddenItems : (i : Items) → HiddenItems (redact_sensitive_items i).0
  redact_sensitive_items-HiddenItems Items.nil = tt
  redact_sensitive_items-HiddenItems (Items.cons v rest) =
      (redact_sensitive_value-Hidden v, redact_sensitive_items-HiddenItems rest)

  redact_sensitive_fields-HiddenFields : (f : Fields) → HiddenFields (redact_sensitive_fields f).0
  redact_sensitive_fields-HiddenFields Fields.end = tt
  redact_sensitive_fields-HiddenFields (Fields.field key v rest) =
      (redact_sensitive_value-Hidden v, redact_sensitive_fields-HiddenFields rest)

mutual
  unfolding Hidden

  -- Wherever an object inside the value has a sensitive key, the value under the key is hidden.
  pub Guarded : Value → Type 0
  Guarded (Value.string text) = Unit
  Guarded (Value.number n) = Unit
  Guarded (Value.bool b) = Unit
  Guarded Value.null = Unit
  Guarded (Value.array values) = GuardedItems values
  Guarded (Value.object map) = GuardedFields map

  pub GuardedItems : Items → Type 0
  GuardedItems Items.nil = Unit
  GuardedItems (Items.cons v rest) = Guarded v × GuardedItems rest

  pub GuardedFields : Fields → Type 0
  GuardedFields Fields.end = Unit
  GuardedFields (Fields.field key v rest) =
      (if sensitive_key key then Hidden v else Guarded v) × GuardedFields rest

-- The same for an attribute.
abbrev pub GuardedAttribute : Text × Value → Type 0
GuardedAttribute a = if sensitive_key (a.0) then Hidden (a.1) else Guarded (a.1)

module _ (patterns : List Pattern) where
  mutual
    unfolding Guarded GuardedItems GuardedFields redact_value redact_items redact_fields

    redact_value-Guarded : (v : Value) → Guarded (redact_value patterns v).0
    redact_value-Guarded (Value.string text) = tt
    redact_value-Guarded (Value.number n) = tt
    redact_value-Guarded (Value.bool b) = tt
    redact_value-Guarded Value.null = tt
    redact_value-Guarded (Value.array values) = redact_items-GuardedItems values
    redact_value-Guarded (Value.object map) = redact_fields-GuardedFields map

    redact_items-GuardedItems : (i : Items) → GuardedItems (redact_items patterns i).0
    redact_items-GuardedItems Items.nil = tt
    redact_items-GuardedItems (Items.cons v rest) =
        (redact_value-Guarded v, redact_items-GuardedItems rest)

    redact_fields-GuardedFields : (f : Fields) → GuardedFields (redact_fields patterns f).0
    redact_fields-GuardedFields Fields.end = tt
    redact_fields-GuardedFields (Fields.field key v rest) = (
      elim (Bool-cases (sensitive_key key)) [
        | inl e ↦ rw e (redact_sensitive_value-Hidden v)
        | inr e ↦ rw e (redact_value-Guarded v)
      ],
      redact_fields-GuardedFields rest,
    )

  -- In the redacted attributes, and in every object at any depth inside them, all scalars under a
  -- sensitive key are one of the ten fixed texts that stand for a hidden value, whatever the patterns
  -- match.
  pub redact_attributes-Guarded :
      (attributes : List (Text × Value))
      → All GuardedAttribute (redact_attributes patterns attributes).0
  unfolding redact_attributes
  redact_attributes-Guarded [] = tt
  redact_attributes-Guarded ((key, v) ∷ rest) = (
    elim (Bool-cases (sensitive_key key)) [
      | inl e ↦ rw e (redact_sensitive_value-Hidden v)
      | inr e ↦ rw e (redact_value-Guarded v)
    ],
    redact_attributes-Guarded rest,
  )
