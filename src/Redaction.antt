-- ===== src/Redaction.antt =====
-- The redaction of secrets: crates/super-mem-core/src/redaction.rs. A pattern is its kind and its
-- `replace_all`: for a replacement and a text it gives the new text and the number of matches.
pub mod Hiding
mod Tests
use super_mem.Base.{
  ℕ, ◌+◌, Text, codes, Bool, true, false, not, ◌||◌, List, [], ◌∷◌, ◌++◌, text_eq, any, filter,
  ◌==◌, ◌&&◌, if◌then◌else◌,
}
use super_mem.Types.{Value, Items, Fields}
use super_mem.Store.Words.{to_ascii_lowercase}

pub record Redaction : Type 0 where
  pub text : Text
  pub count : ℕ
  pub kinds : List Text

abbrev pub Pattern : Type 0
Pattern = Text × (Text → Text → Text × ℕ)

-- What a loop over the later patterns gives, after the matches of one.
abbrev after_match : Text → ℕ → Redaction → Redaction
after_match kind count r = record { text = r.text; count = count + r.count; kinds = kind ∷ r.kinds }

unfoldable pub redact : List Pattern → Text → Redaction
redact [] input = record { text = input; count = 0; kinds = [] }
redact ((kind, replace_all) ∷ rest) input =
    let replaced = replace_all (codes "[REDACTED:" ++ (kind ++ codes "]")) input in
    let missed = redact rest input in
    let matched = redact rest replaced.0 in
    if replaced.1 == 0 then missed else after_match kind replaced.1 matched

abbrev pub placeholders : List Text
placeholders =
    codes "[REDACTED:private_key]"
    ∷ codes "[REDACTED:openai_key]"
    ∷ codes "[REDACTED:github_token]"
    ∷ codes "[REDACTED:aws_access_key]"
    ∷ codes "[REDACTED:bearer_token]"
    ∷ codes "[REDACTED:credential_assignment]"
    ∷ codes "[REDACTED:sensitive_string]"
    ∷ codes "[REDACTED:sensitive_number]"
    ∷ codes "[REDACTED:sensitive_bool]"
    ∷ codes "[REDACTED:sensitive_null]"
    ∷ []

unfoldable pub is_generated_placeholder : Text → Bool
is_generated_placeholder value = any (text_eq value) placeholders

-- `starts_with` and `contains`.
unfoldable pub starts_with : Text → Text → Bool
starts_with s [] = true
starts_with [] (d ∷ t) = false
starts_with (c ∷ s) (d ∷ t) = c == d && starts_with s t

unfoldable pub contains : Text → Text → Bool
unfolding starts_with
contains [] needle = starts_with [] needle
contains (c ∷ s) needle = starts_with (c ∷ s) needle || contains s needle

abbrev pub needles : List Text
needles =
    codes "password"
    ∷ codes "passwd"
    ∷ codes "secret"
    ∷ codes "apikey"
    ∷ codes "token"
    ∷ codes "credential"
    ∷ []

unfoldable pub sensitive_key : Text → Bool
unfolding to_ascii_lowercase contains
sensitive_key key =
    any (contains (filter (λ c. not (c == 0x2d || c == 0x5f)) (to_ascii_lowercase key))) needles

unfoldable mutual
  unfolding is_generated_placeholder

  -- `Redactor::redact_sensitive_value`, with the number of values that it changed.
  pub redact_sensitive_value : Value → Value × ℕ
  redact_sensitive_value (Value.string text) =
      if is_generated_placeholder text
      then (Value.string text, 0)
      else (Value.string (codes "[REDACTED:sensitive_string]"), 1)
  redact_sensitive_value (Value.number n) = (Value.string (codes "[REDACTED:sensitive_number]"), 1)
  redact_sensitive_value (Value.bool b) = (Value.string (codes "[REDACTED:sensitive_bool]"), 1)
  redact_sensitive_value Value.null = (Value.string (codes "[REDACTED:sensitive_null]"), 1)
  redact_sensitive_value (Value.array values) =
      let r = redact_sensitive_items values in (Value.array (r.0), r.1)
  redact_sensitive_value (Value.object map) =
      let r = redact_sensitive_fields map in (Value.object (r.0), r.1)

  pub redact_sensitive_items : Items → Items × ℕ
  redact_sensitive_items Items.nil = (Items.nil, 0)
  redact_sensitive_items (Items.cons v rest) =
      let r = redact_sensitive_value v in
      let s = redact_sensitive_items rest in (Items.cons (r.0) (s.0), r.1 + s.1)

  pub redact_sensitive_fields : Fields → Fields × ℕ
  redact_sensitive_fields Fields.end = (Fields.end, 0)
  redact_sensitive_fields (Fields.field key v rest) =
      let r = redact_sensitive_value v in
      let s = redact_sensitive_fields rest in (Fields.field key (r.0) (s.0), r.1 + s.1)

module _ (patterns : List Pattern) where
  unfoldable mutual
    unfolding redact sensitive_key redact_sensitive_value

    -- `Redactor::redact_value`.
    pub redact_value : Value → Value × ℕ
    redact_value (Value.string text) =
        (Value.string ((redact patterns text).text), (redact patterns text).count)
    redact_value (Value.array values) = let r = redact_items values in (Value.array (r.0), r.1)
    redact_value (Value.object map) = let r = redact_fields map in (Value.object (r.0), r.1)
    redact_value Value.null = (Value.null, 0)
    redact_value (Value.bool b) = (Value.bool b, 0)
    redact_value (Value.number n) = (Value.number n, 0)

    pub redact_items : Items → Items × ℕ
    redact_items Items.nil = (Items.nil, 0)
    redact_items (Items.cons v rest) =
        let r = redact_value v in let s = redact_items rest in (Items.cons (r.0) (s.0), r.1 + s.1)

    pub redact_fields : Fields → Fields × ℕ
    redact_fields Fields.end = (Fields.end, 0)
    redact_fields (Fields.field key v rest) =
        let plain = redact_value v in
        let r = if sensitive_key key then redact_sensitive_value v else plain in
        let s = redact_fields rest in (Fields.field key (r.0) (s.0), r.1 + s.1)

  unfoldable pub redact_attributes : List (Text × Value) → List (Text × Value) × ℕ
  unfolding redact_value sensitive_key redact_sensitive_value
  redact_attributes [] = ([], 0)
  redact_attributes ((key, v) ∷ rest) =
      let r = if sensitive_key key then redact_sensitive_value v else redact_value v in
      let s = redact_attributes rest in ((key, r.0) ∷ s.0, r.1 + s.1)
