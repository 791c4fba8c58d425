-- ===== src/Search/Distance.antt =====
-- The distance of two signatures, and the order of a ranking.
use mathlib.Core.List.{Perm}
use mathlib.Core.Path.{subst}
use super_mem.Base.{
  ℕ, zero, suc, ◌*◌, ◌/◌, ◌≤◌, ◌≡◌, refl, ap, true, not, List, [], ◌∷◌, arith, any, leb, ◌==◌,
  length, sort_by, sort_by-Sorted, sort_by-perm, Pairwise, Pairwise-weaken, Falls, by_key-Falls,
  by_key-total, by_key-transitive,
}
use super_mem.Ranking.Floats.{total_key}
use super_mem.Store.Outcome.{ok, invalid_input, guard_steps, ok-injective}
use super_mem.Search.Encoding.{xor_bits}
use super_mem.Search.Signatures.{
  count_ones, differing_bits, hamming_distance, is_finite_f64, cosine_not_after, rank_by_cosine,
}

xor_bits_comm : (bits a b : ℕ) → xor_bits bits a b ≡ xor_bits bits b a
unfolding xor_bits
xor_bits_comm zero a b = refl
xor_bits_comm (suc bits) a b = omega (arith, xor_bits_comm bits (a / 2) (b / 2))

xor_bits_self : (bits a : ℕ) → xor_bits bits a a ≡ 0
unfolding xor_bits
xor_bits_self zero a = refl
xor_bits_self (suc bits) a = omega (arith, xor_bits_self bits (a / 2))

count_ones-le : (bits x : ℕ) → count_ones bits x ≤ bits
unfolding count_ones
count_ones-le zero x = omega arith
count_ones-le (suc bits) x = omega (arith, count_ones-le bits (x / 2))

count_ones_zero : (bits : ℕ) → count_ones bits 0 ≡ 0
unfolding count_ones
count_ones_zero zero = refl
count_ones_zero (suc bits) = omega (arith, count_ones_zero bits)

differing_bits_comm : (l r : List ℕ) → differing_bits l r ≡ differing_bits r l
unfolding differing_bits
differing_bits_comm [] [] = refl
differing_bits_comm [] (b ∷ r) = refl
differing_bits_comm (a ∷ l) [] = refl
differing_bits_comm (a ∷ l) (b ∷ r) = rw (xor_bits_comm 8 a b, differing_bits_comm l r) refl

differing_bits_self : (l : List ℕ) → differing_bits l l ≡ 0
unfolding differing_bits
differing_bits_self [] = refl
differing_bits_self (a ∷ l) = rw (xor_bits_self 8 a, count_ones_zero 8, differing_bits_self l) refl

differing_bits-le : (l r : List ℕ) → differing_bits l r ≤ length l * 8
unfolding differing_bits
differing_bits-le [] r = omega arith
differing_bits-le (a ∷ l) [] = omega arith
differing_bits-le (a ∷ l) (b ∷ r) =
    omega (arith, count_ones-le 8 (xor_bits 8 a b), differing_bits-le l r)

-- Where two signatures have a distance, it is at most 128, it is the same in both directions, and the first has the
-- distance 0 to itself.
pub hamming_distance_lem :
    (left right : List ℕ) (n : ℕ)
    → hamming_distance left right ≡ ok n
    → (n ≤ 128) × (hamming_distance right left ≡ ok n) × (hamming_distance left left ≡ ok 0)
unfolding hamming_distance
hamming_distance_lem left right n h =
    let (same, s1) = guard_steps (length left == length right) invalid_input _ h in
    let (fits, s2) = guard_steps (leb (length left) 16) invalid_input _ s1 in
    let value : differing_bits left right ≡ n = ok-injective s2 in
    let other : (length right == length left) ≡ true = ground arith in
    let right_fits : leb (length right) 16 ≡ true = ground arith in
    let self : (length left == length left) ≡ true = ground arith in
    (
      ground (arith, differing_bits-le left right),
      rw (other, right_fits, differing_bits_comm right left) (ap ok value),
      rw (self, fits) (ap ok (differing_bits_self left)),
    )

-- The score of a pair as a key, and its identity.
abbrev pub score_key : ℕ × ℕ → ℕ × ℕ
score_key (i, s) = (total_key s, i)

-- A ranking has all the pairs that were given, as often; and of two pairs in it the earlier has the higher
-- score in the total order of floats, or the same score and an identity that is not above.
pub rank_by_cosine-falling :
    (scores ranked : List (ℕ × ℕ))
    → rank_by_cosine scores ≡ ok ranked
    → Perm ranked scores × Pairwise (λ a b. Falls (score_key a) (score_key b)) ranked
unfolding rank_by_cosine cosine_not_after
rank_by_cosine-falling scores ranked h =
    let (finite, s1) =
      guard_steps (not (any (λ p. not (is_finite_f64 (p.1))) scores)) invalid_input _ h in
    let same : sort_by cosine_not_after scores ≡ ranked = ok-injective s1 in
    subst (λ r. Perm r scores × Pairwise (λ a b. Falls (score_key a) (score_key b)) r) same
      (
        sort_by-perm cosine_not_after scores,
        Pairwise-weaken (λ a b. cosine_not_after a b ≡ true)
            (λ a b. Falls (score_key a) (score_key b)) (sort_by cosine_not_after scores)
            (λ a b. by_key-Falls (score_key a) (score_key b))
            (sort_by-Sorted cosine_not_after (λ a b. by_key-total (score_key a) (score_key b))
              (λ a b c. by_key-transitive (score_key a) (score_key b) (score_key c)) scores),
      )
