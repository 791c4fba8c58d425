-- ===== src/Capture/Bounds.antt =====
-- The bound on a capped capture, and what it keeps.
use super_mem.Base.{
  ℕ, zero, suc, ◌+◌, ◌-◌, ◌/◌, ◌≤◌, ◌<◌, ◌≡◌, ◌∙◌, ◌⊎◌, ap, refl, inl, inr, Text, true, [], ◌∷◌,
  ◌++◌, leb, Bool-cases, arith,
}
use super_mem.Utf8.{utf8_len, byte_length, is_char_boundary, byte_prefix, last_boundary}
use super_mem.Utf8.Laws.{utf8_len_pos, byte_length-byte_prefix, IsPrefixOf, byte_prefix-IsPrefixOf}
use super_mem.Utf8.Truncation.{last_boundary_le, byte_length-append, boundary_end}
use super_mem.Capture.{drop_bytes, next_boundary, cap_at}

-- The last part of a text.
pub record IsSuffixOf (s t : Text) : Type 0 where
  pub front : Text
  pub parts : t ≡ front ++ s

drop_bytes-IsSuffixOf : (n : ℕ) (t : Text) → IsSuffixOf (drop_bytes n t) t
unfolding drop_bytes
drop_bytes-IsSuffixOf zero t = record { front = []; parts = refl }
drop_bytes-IsSuffixOf (suc n) [] = record { front = []; parts = refl }
drop_bytes-IsSuffixOf (suc n) (c ∷ t) =
    let r = drop_bytes-IsSuffixOf (suc n - utf8_len c) t in
    record { front = c ∷ r.front; parts = ap (λ u. c ∷ u) r.parts }

byte_length-drop_bytes : (n : ℕ) (t : Text) → byte_length (drop_bytes n t) ≤ byte_length t - n
unfolding drop_bytes byte_length
byte_length-drop_bytes zero t = omega arith
byte_length-drop_bytes (suc n) [] = omega arith
byte_length-drop_bytes (suc n) (c ∷ t) =
    omega (arith, byte_length-drop_bytes (suc n - utf8_len c) t, utf8_len_pos c)

next_boundary_ge : (fuel : ℕ) (value : Text) (start : ℕ) → start ≤ next_boundary fuel value start
unfolding next_boundary
next_boundary_ge zero value start = omega arith
next_boundary_ge (suc fuel) value start = ground (arith, next_boundary_ge fuel value (suc start))

-- The fuel is enough: the loop stops at a boundary.
next_boundary-is_char_boundary :
    (fuel : ℕ) (value : Text) (start : ℕ)
    → start + fuel ≡ byte_length value
    → is_char_boundary value (next_boundary fuel value start) ≡ true
unfolding next_boundary
next_boundary-is_char_boundary zero value start h =
    let e : start ≡ byte_length value = omega arith in
    ap (is_char_boundary value) e ∙ boundary_end value
next_boundary-is_char_boundary (suc fuel) value start h =
    elim (Bool-cases (is_char_boundary value start)) [
      | inl e ↦ rw (e, e) refl
      | inr e ↦ rw e (next_boundary-is_char_boundary fuel value (suc start) (omega arith))
    ]

-- The sum of the three parts.
parts_fit :
    (maximum marker head_end tail_start value head tail : ℕ)
    → marker ≤ maximum
    → maximum < value
    → head_end ≤ (maximum - marker) / 2
    → head ≤ head_end
    → value - (maximum - marker - head_end) ≤ tail_start
    → tail ≤ value - tail_start
    → head + (marker + tail) ≤ maximum
parts_fit maximum marker head_end tail_start value head tail a b c d e f = omega arith

fits :
    (maximum : ℕ) (marker value : Text)
    → byte_length marker ≤ maximum
    → maximum < byte_length value
    → byte_length (
        byte_prefix (last_boundary value ((maximum - byte_length marker) / 2)) value
        ++ (marker
            ++ drop_bytes
                (next_boundary
                  (maximum
                    - byte_length marker
                    - last_boundary value ((maximum - byte_length marker) / 2))
                  value
                  (byte_length value
                    - (maximum
                        - byte_length marker
                        - last_boundary value ((maximum - byte_length marker) / 2))))
                value))
      ≤ maximum
fits maximum marker value small long =
    let budget = maximum - byte_length marker in
    let head_end = last_boundary value (budget / 2) in
    let first = byte_length value - (budget - head_end) in
    let start = next_boundary (budget - head_end) value first in
    let head = byte_prefix head_end value in
    let tail = drop_bytes start value in
    let sum =
      parts_fit maximum (byte_length marker) head_end start (byte_length value) (byte_length head)
        (byte_length tail) small long (last_boundary_le value (budget / 2))
        (byte_length-byte_prefix head_end value) (next_boundary_ge (budget - head_end) value first)
        (byte_length-drop_bytes start value) in
    omega (arith, sum, byte_length-append head (marker ++ tail), byte_length-append marker tail)

-- Where the marker is within the maximum, the capped text has at most `maximum` bytes; and it is the text
-- itself, or a prefix of it, the marker, and a suffix of it that begins at a character.
pub cap_at-bounded :
    (maximum : ℕ) (marker value : Text)
    → byte_length marker ≤ maximum
    → (byte_length (cap_at maximum marker value) ≤ maximum)
      × ((cap_at maximum marker value ≡ value)
          ⊎ ((head : Text) × (start : ℕ) × IsPrefixOf head value
              × (is_char_boundary value start ≡ true)
              × IsSuffixOf (drop_bytes start value) value
              × (cap_at maximum marker value ≡ head ++ (marker ++ drop_bytes start value))))
unfolding cap_at
cap_at-bounded maximum marker value small =
    let budget = maximum - byte_length marker in
    let head_end = last_boundary value (budget / 2) in
    let first = byte_length value - (budget - head_end) in
    let start = next_boundary (budget - head_end) value first in
    let low = last_boundary_le value (budget / 2) in
    elim (Bool-cases (leb (byte_length value) maximum)) [
      | inl e ↦ rw e (ground arith, inl refl)
      | inr e ↦ rw e (
        fits maximum marker value small (ground arith),
        inr (
          byte_prefix head_end value,
          start,
          byte_prefix-IsPrefixOf head_end value,
          next_boundary-is_char_boundary (budget - head_end) value first (ground arith),
          drop_bytes-IsSuffixOf start value,
          refl,
        ),
      )
    ]
