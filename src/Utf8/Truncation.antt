-- ===== src/Utf8/Truncation.antt =====
-- `truncate_utf8_bytes` keeps the longest prefix that fits.
use super_mem.Base.{
  ℕ, zero, suc, ◌+◌, ◌-◌, ◌≤◌, ◌≡◌, ◌∙◌, refl, ap, sym, inl, inr, Text, true, false, [], ◌∷◌, ◌++◌,
  leb, Bool-cases, arith,
}
use super_mem.Utf8.{
  utf8_len, byte_length, is_char_boundary, byte_prefix, last_boundary, truncate_utf8_bytes,
}
use super_mem.Utf8.Laws.{utf8_len_pos, IsPrefixOf, byte_prefix-IsPrefixOf}

boundary_zero : (t : Text) → is_char_boundary t 0 ≡ true
unfolding is_char_boundary
boundary_zero [] = refl
boundary_zero (c ∷ t) = refl

pub last_boundary_le : (t : Text) (n : ℕ) → last_boundary t n ≤ n
unfolding last_boundary
last_boundary_le t zero = omega arith
last_boundary_le t (suc n) = ground (arith, last_boundary_le t n)

below :
    (t : Text) (n m : ℕ)
    → n ≤ suc m
    → is_char_boundary t n ≡ true
    → is_char_boundary t (suc m) ≡ false
    → n ≤ m
below t n m h b e = ground arith

-- No boundary up to the limit lies above the one that the loop stops at.
last_boundary_above :
    (t : Text) (n m : ℕ) → n ≤ m → is_char_boundary t n ≡ true → n ≤ last_boundary t m
unfolding last_boundary
last_boundary_above t n zero h b = omega arith
last_boundary_above t n (suc m) h b = elim (Bool-cases (is_char_boundary t (suc m))) [
  | inl e ↦ rw e h
  | inr e ↦ rw e (last_boundary_above t n m (below t n m h b e) b)
]

last_boundary-is_char_boundary : (t : Text) (n : ℕ) → is_char_boundary t (last_boundary t n) ≡ true
unfolding last_boundary
last_boundary-is_char_boundary t zero = boundary_zero t
last_boundary-is_char_boundary t (suc n) = elim (Bool-cases (is_char_boundary t (suc n))) [
  | inl e ↦ rw (e, e) refl
  | inr e ↦ rw e (last_boundary-is_char_boundary t n)
]

byte_length-byte_prefix-boundary :
    (t : Text) (n : ℕ) → is_char_boundary t n ≡ true → byte_length (byte_prefix n t) ≡ n
unfolding is_char_boundary byte_prefix byte_length
byte_length-byte_prefix-boundary [] zero b = refl
byte_length-byte_prefix-boundary [] (suc n) b = ground arith
byte_length-byte_prefix-boundary (c ∷ t) zero b = ground (arith, utf8_len_pos c)
byte_length-byte_prefix-boundary (c ∷ t) (suc n) b =
    ground (arith, byte_length-byte_prefix-boundary t (suc n - utf8_len c))

boundary_step :
    (c : ℕ) (t : Text) (n : ℕ)
    → utf8_len c ≤ n
    → is_char_boundary (c ∷ t) n ≡ is_char_boundary t (n - utf8_len c)
unfolding is_char_boundary
boundary_step c t zero h = ground (arith, utf8_len_pos c)
boundary_step c t (suc n) h = ground arith

boundary_prefix : (p rest : Text) → is_char_boundary (p ++ rest) (byte_length p) ≡ true
unfolding byte_length
boundary_prefix [] rest = boundary_zero rest
boundary_prefix (c ∷ p) rest =
    let same : utf8_len c + byte_length p - utf8_len c ≡ byte_length p = omega arith in
    boundary_step c (p ++ rest) (utf8_len c + byte_length p) (omega arith)
    ∙ ap (is_char_boundary (p ++ rest)) same
    ∙ boundary_prefix p rest

pub byte_length-append : (s t : Text) → byte_length (s ++ t) ≡ byte_length s + byte_length t
unfolding byte_length
byte_length-append [] t = omega arith
byte_length-append (c ∷ s) t = omega (arith, byte_length-append s t)

prefix_le : (value p : Text) → IsPrefixOf p value → byte_length p ≤ byte_length value
prefix_le value p h = let e = ap byte_length h.parts ∙ byte_length-append p h.rest in omega arith

append_nil : (t : Text) → t ++ [] ≡ t
append_nil [] = refl
append_nil (c ∷ t) = ap (λ u. c ∷ u) (append_nil t)

pub boundary_end : (t : Text) → is_char_boundary t (byte_length t) ≡ true
boundary_end t =
    ap (λ u. is_char_boundary u (byte_length t)) (sym (append_nil t)) ∙ boundary_prefix t []

-- The result is a prefix of the text of at most `maximum` bytes, and no longer prefix of the text has
-- at most `maximum` bytes.
pub truncate_utf8_bytes-longest :
    (value : Text) (maximum : ℕ) (p : Text)
    → IsPrefixOf p value
    → byte_length p ≤ maximum
    → (byte_length (truncate_utf8_bytes value maximum) ≤ maximum)
      × IsPrefixOf (truncate_utf8_bytes value maximum) value
      × (byte_length p ≤ byte_length (truncate_utf8_bytes value maximum))
unfolding truncate_utf8_bytes
truncate_utf8_bytes-longest value maximum p h small =
    let last = last_boundary value maximum in
    let whole =
      byte_length-byte_prefix-boundary value last (last_boundary-is_char_boundary value maximum) in
    let boundary : is_char_boundary value (byte_length p) ≡ true =
      ap (λ v. is_char_boundary v (byte_length p)) h.parts ∙ boundary_prefix p h.rest in
    elim (Bool-cases (leb (byte_length value) maximum)) [
      | inl e ↦
          rw e (
            ground arith,
            record { rest = []; parts = sym (append_nil value) },
            prefix_le value p h,
          )
      | inr e ↦ rw e (
        omega (arith, whole, last_boundary_le value maximum),
        byte_prefix-IsPrefixOf last value,
        omega (arith, whole, last_boundary_above value (byte_length p) maximum small boundary),
      )
    ]
