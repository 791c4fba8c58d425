-- ===== src/Redaction/Tests.antt =====
-- A password in a nested object, with one pattern that matches nothing.
use super_mem.Base.{Text, codes, [], ◌∷◌, List, ◌≡◌, refl, All}
use super_mem.Types.{Value, Items, Fields}
use super_mem.Redaction.{Pattern, redact_attributes}
use super_mem.Redaction.Hiding.{GuardedAttribute, redact_attributes-Guarded}

abbrev patterns : List Pattern
patterns = (codes "openai_key", λ replacement text. (text, 0)) ∷ []

abbrev attributes : List (Text × Value)
attributes =
    (
      codes "a",
      Value.object (
          Fields.field (codes "Api-Key") (Value.array (Items.cons Value.null Items.nil))
            Fields.end),
    )
    ∷ []

hidden_null :
    (redact_attributes patterns attributes).0
    ≡ (
      codes "a",
      Value.object (
          Fields.field
            (codes "Api-Key")
            (Value.array (Items.cons (Value.string (codes "[REDACTED:sensitive_null]")) Items.nil))
            Fields.end),
    )
      ∷ []
unfolding redact_attributes
hidden_null = refl

redact_attributes-Guarded_example : All GuardedAttribute (redact_attributes patterns attributes).0
redact_attributes-Guarded_example = redact_attributes-Guarded patterns attributes
