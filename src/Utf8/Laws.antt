-- ===== src/Utf8/Laws.antt =====
-- Lengths and prefixes.
use super_mem.Base.{
  ℕ, ◌-◌, ◌≤◌, ◌≡◌, refl, ap, inl, inr, Text, true, [], ◌∷◌, ◌++◌, leb, length, All, Bool-cases,
  arith,
}
use super_mem.Utf8.{utf8_len, byte_length, is_ascii, byte_prefix}

pub utf8_len_pos : (c : ℕ) → 1 ≤ utf8_len c
unfolding utf8_len
utf8_len_pos c = ground arith

pub length-le-byte_length : (t : Text) → length t ≤ byte_length t
unfolding byte_length
length-le-byte_length [] = omega arith
length-le-byte_length (c ∷ t) = omega (arith, utf8_len_pos c, length-le-byte_length t)

-- An ASCII text has one byte to a character.
pub byte_length_ascii : (t : Text) → is_ascii t ≡ true → byte_length t ≡ length t
unfolding byte_length is_ascii utf8_len
byte_length_ascii [] h = refl
byte_length_ascii (c ∷ t) h = ground (arith, byte_length_ascii t)

pub byte_length-byte_prefix : (n : ℕ) (t : Text) → byte_length (byte_prefix n t) ≤ n
unfolding byte_length byte_prefix
byte_length-byte_prefix n [] = omega arith
byte_length-byte_prefix n (c ∷ t) = ground (arith, byte_length-byte_prefix (n - utf8_len c) t)

pub length-byte_prefix : (n : ℕ) (t : Text) → length (byte_prefix n t) ≤ length t
unfolding byte_prefix
length-byte_prefix n [] = omega arith
length-byte_prefix n (c ∷ t) = ground (arith, length-byte_prefix (n - utf8_len c) t)

-- The first part of a text.
pub record IsPrefixOf (p t : Text) : Type 0 where
  pub rest : Text
  pub parts : t ≡ p ++ rest

pub byte_prefix-IsPrefixOf : (n : ℕ) (t : Text) → IsPrefixOf (byte_prefix n t) t
unfolding byte_prefix
byte_prefix-IsPrefixOf n [] = record { rest = []; parts = refl }
byte_prefix-IsPrefixOf n (c ∷ t) = elim (Bool-cases (leb (utf8_len c) n)) [
  | inl e ↦ rw e (record {
    rest = (byte_prefix-IsPrefixOf (n - utf8_len c) t).rest;
    parts = ap (λ u. c ∷ u) (byte_prefix-IsPrefixOf (n - utf8_len c) t).parts;
  })
  | inr e ↦ rw e (record { rest = c ∷ t; parts = refl })
]

pub All-byte_prefix : (P : ℕ → Type 0) (n : ℕ) (t : Text) → All P t → All P (byte_prefix n t)
unfolding byte_prefix
All-byte_prefix P n [] h = tt
All-byte_prefix P n (c ∷ t) h = elim (Bool-cases (leb (utf8_len c) n)) [
  | inl e ↦ rw e (h.0, All-byte_prefix P (n - utf8_len c) t h.1)
  | inr e ↦ rw e tt
]
