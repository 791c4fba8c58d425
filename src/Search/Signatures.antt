-- ===== src/Search/Signatures.antt =====
-- The shortlist by signatures and the ranking by cosines.
use super_mem.Base.{
  ℕ, zero, suc, ◌+◌, ◌/◌, ◌%◌, ◌^◌, Bool, not, ◌&&◌, ◌||◌, List, [], ◌∷◌, any, ltb, leb, ◌==◌,
  length, sort_by,
}
use super_mem.Ranking.Floats.{total_key}
use super_mem.Store.Outcome.{Outcome, ok, invalid_input, ◌>>◌, guard}
use super_mem.Search.Encoding.{xor_bits}

-- `VECTOR_SIGNATURE_BYTES` is 16.
abbrev pub vector_signature_bytes : ℕ
vector_signature_bytes = 16

unfoldable pub validate_signature_width : List ℕ → Outcome (Unit {0})
validate_signature_width signature =
    guard (length signature == vector_signature_bytes) invalid_input

-- `count_ones`.
unfoldable pub count_ones : ℕ → ℕ → ℕ
count_ones zero x = 0
count_ones (suc bits) x = let rest = count_ones bits (x / 2) in x % 2 + rest

-- The sum over the zipped bytes.
unfoldable pub differing_bits : List ℕ → List ℕ → ℕ
unfolding count_ones xor_bits
differing_bits [] right = 0
differing_bits (l ∷ left) [] = 0
differing_bits (l ∷ left) (r ∷ right) = count_ones 8 (xor_bits 8 l r) + differing_bits left right

unfoldable pub hamming_distance : List ℕ → List ℕ → Outcome ℕ
unfolding differing_bits
hamming_distance left right = do
  guard (length left == length right) invalid_input
  guard (leb (length left) vector_signature_bytes) invalid_input
  ok (differing_bits left right)

-- The exponent of an f64 is not full.
abbrev pub is_finite_f64 : ℕ → Bool
is_finite_f64 bits = not (bits / 2 ^ 52 % 2048 == 2047)

-- The closure of `sort_by` does not give `Greater`.
unfoldable pub cosine_not_after : ℕ × ℕ → ℕ × ℕ → Bool
cosine_not_after (i, s) (j, t) =
    ltb (total_key t) (total_key s) || (total_key s == total_key t && leb i j)

unfoldable pub rank_by_cosine : List (ℕ × ℕ) → Outcome (List (ℕ × ℕ))
unfolding cosine_not_after sort_by
rank_by_cosine scores = do
  guard (not (any (λ p. not (is_finite_f64 (p.1))) scores)) invalid_input
  ok (sort_by cosine_not_after scores)
