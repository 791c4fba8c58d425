-- ===== src/Context/Tokens.antt =====
-- Token estimates and truncation: `estimate_tokens` and `truncate_to_tokens` of
-- crates/super-mem-core/src/engine.rs.
use super_mem.Base.{
  ℕ, ◌+◌, ◌-◌, ◌*◌, ◌/◌, ◌≤◌, ◌≡◌, inl, inr, Text, Bool, ◌||◌, Option, none, some, [], ◌∷◌, ◌++◌,
  max, min, usize_max, leb, ◌==◌, length, take, length-append, length-take, All, All-append,
  All-take, Bool-cases, saturating_mul, arith, if◌then◌else◌,
}
use super_mem.Utf8.{byte_length, is_ascii, byte_prefix, rfind}
use super_mem.Utf8.Laws.{
  byte_length_ascii, length-byte_prefix, All-byte_prefix, length-le-byte_length,
  byte_length-byte_prefix,
}

-- `n.div_ceil(3)`.
abbrev pub div_ceil3 : ℕ → ℕ
div_ceil3 n = (n + 2) / 3

unfoldable pub estimate_tokens : Text → ℕ
estimate_tokens text =
    let characters = if is_ascii text then byte_length text else length text in
    max (div_ceil3 characters) 1

-- The character `…`.
abbrev pub ellipsis : ℕ
ellipsis = 0x2026

-- `['.', '\n', ';']`.
abbrev pub ends_clause : ℕ → Bool
ends_clause c = c == b'.' || (c == 10 || c == b';')

-- The lines that both branches of `truncate_to_tokens` share: cut at the last end of a clause, if
-- it stands in the second half, and mark the cut.
unfoldable pub shorten : Text → Option ℕ → Text
shorten truncated none = truncated
shorten truncated (some boundary) =
    if leb (byte_length truncated / 2) boundary
    then byte_prefix (boundary + 1) truncated
    else truncated

unfoldable pub cut_at_clause : Text → Text
unfolding shorten
cut_at_clause truncated = shorten truncated (rfind ends_clause truncated) ++ ellipsis ∷ []

unfoldable pub truncate_to_tokens : Text → ℕ → Text
truncate_to_tokens text tokens =
    let max_chars = saturating_mul tokens 3 in
    if is_ascii text
    then (if leb (byte_length text) max_chars
        then text
        else cut_at_clause (byte_prefix (max_chars - 1) text))
    else if leb (length text) max_chars
    then text
    else cut_at_clause (take (max_chars - 1) text)

-- The estimate counts characters, whatever the encoding.
pub estimate_tokens_lem : (t : Text) → estimate_tokens t ≡ max (div_ceil3 (length t)) 1
unfolding estimate_tokens
estimate_tokens_lem t = ground (arith, byte_length_ascii t)

length-shorten : (t : Text) (o : Option ℕ) → length (shorten t o) ≤ length t
unfolding shorten
length-shorten t none = omega arith
length-shorten t (some boundary) = ground (arith, length-byte_prefix (boundary + 1) t)

length-cut_at_clause : (t : Text) → length (cut_at_clause t) ≤ length t + 1
unfolding cut_at_clause
length-cut_at_clause t = omega (
  arith,
  length-append (shorten t (rfind ends_clause t)) (ellipsis ∷ []),
  length-shorten t (rfind ends_clause t),
)

-- The number of characters stays within three to a token.
length-truncate_to_tokens : (t : Text) (n : ℕ) → 1 ≤ n → length (truncate_to_tokens t n) ≤ n * 3
unfolding truncate_to_tokens
length-truncate_to_tokens t n h = ground (
  arith,
  length-cut_at_clause (byte_prefix (min (n * 3) usize_max - 1) t),
  length-cut_at_clause (take (min (n * 3) usize_max - 1) t),
  length-le-byte_length (byte_prefix (min (n * 3) usize_max - 1) t),
  byte_length-byte_prefix (min (n * 3) usize_max - 1) t,
  length-take (min (n * 3) usize_max - 1) t,
  length-le-byte_length t,
)

-- For a budget of at least one token, the estimate of a truncated text is within the budget.
pub truncate_to_tokens-fits :
    (t : Text) (n : ℕ) → 1 ≤ n → estimate_tokens (truncate_to_tokens t n) ≤ n
truncate_to_tokens-fits t n h =
    omega (arith, estimate_tokens_lem (truncate_to_tokens t n), length-truncate_to_tokens t n h)

module _ (P : ℕ → Type 0) where
  All-shorten : (t : Text) (o : Option ℕ) → All P t → All P (shorten t o)
  unfolding shorten
  All-shorten t none h = h
  All-shorten t (some boundary) h = elim (Bool-cases (leb (byte_length t / 2) boundary)) [
    | inl e ↦ rw e (All-byte_prefix P (boundary + 1) t h)
    | inr e ↦ rw e h
  ]

  All-cut_at_clause : (t : Text) → P ellipsis → All P t → All P (cut_at_clause t)
  unfolding cut_at_clause
  All-cut_at_clause t e h =
      All-append P (shorten t (rfind ends_clause t)) (ellipsis ∷ [])
        (All-shorten t (rfind ends_clause t) h) (e, tt)

  -- What holds of every character of a text, and of the ellipsis, holds of the truncated text.
  pub All-truncate_to_tokens :
      (t : Text) (n : ℕ) → P ellipsis → All P t → All P (truncate_to_tokens t n)
  unfolding truncate_to_tokens
  All-truncate_to_tokens t n e h = elim (Bool-cases (is_ascii t)) [
    | inl a ↦ rw a (elim (Bool-cases (leb (byte_length t) (saturating_mul n 3))) [
      | inl b ↦ rw b h
      | inr b ↦ rw b (
          All-cut_at_clause (byte_prefix (saturating_mul n 3 - 1) t) e
            (All-byte_prefix P (saturating_mul n 3 - 1) t h))
    ])
    | inr a ↦ rw a (elim (Bool-cases (leb (length t) (saturating_mul n 3))) [
      | inl b ↦ rw b h
      | inr b ↦ rw b (
          All-cut_at_clause (take (saturating_mul n 3 - 1) t) e
            (All-take P (saturating_mul n 3 - 1) t h))
    ])
  ]
