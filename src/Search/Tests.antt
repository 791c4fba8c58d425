-- ===== src/Search/Tests.antt =====
-- Runs of the encoding, and its theorem at a vector of two components.
use mathlib.Core.List.{Perm}
use super_mem.Base.{
  Pairwise, Falls, ◌≤◌, ℕ, ◌+◌, ◌-◌, ◌*◌, ◌≡◌, refl, false, List, [], ◌∷◌, map, arith,
}
use super_mem.Store.Outcome.{ok, err, invalid_input}
use super_mem.Search.Encoding.{
  Doubles, EncodedVector, canonical, encode_f32_vector, decode_f32_vector,
}
use super_mem.Search.Signatures.{hamming_distance, rank_by_cosine}
use super_mem.Search.Distance.{hamming_distance_lem, score_key, rank_by_cosine-falling}
use super_mem.Search.Roundtrip.{decode-encode}

-- Whole numbers in place of floats: 1 for every component but zero.
abbrev whole : Doubles
whole = record {
  widen = λ a. a;
  add = λ a b. a + b;
  sub = λ a b. a - b;
  mul = λ a b. a * b;
  sqrt = λ a. a;
  is_negative = λ a. false;
}

-- The bits of 1.0 and of -0.0.
abbrev vector : List ℕ
vector = 0x3f800000 ∷ 0x80000000 ∷ []

abbrev encoded : EncodedVector
encoded = record {
  float_le = 0 ∷ 0 ∷ 128 ∷ 63 ∷ 0 ∷ 0 ∷ 0 ∷ 0 ∷ [];
  signature = 0 ∷ 0 ∷ 0 ∷ 0 ∷ 0 ∷ 0 ∷ 0 ∷ 0 ∷ 0 ∷ 0 ∷ 0 ∷ 0 ∷ 0 ∷ 0 ∷ 0 ∷ 0 ∷ [];
  norm = 0x3f800000 * 0x3f800000;
}

encoded_run : encode_f32_vector whole vector 2 ≡ ok encoded
unfolding encode_f32_vector
encoded_run = refl

infinite : encode_f32_vector whole (0x7f800000 ∷ []) 1 ≡ err invalid_input
unfolding encode_f32_vector
infinite = refl

decode-encode_example :
    decode_f32_vector whole (0 ∷ 0 ∷ 128 ∷ 63 ∷ 0 ∷ 0 ∷ 0 ∷ 0 ∷ []) 2
    ≡ ok (record { values = map canonical vector; norm = 0x3f800000 * 0x3f800000 })
decode-encode_example =
    decode-encode whole vector 2 encoded (omega arith, (omega arith, tt)) encoded_run

near : hamming_distance (5 ∷ 255 ∷ []) (4 ∷ 15 ∷ []) ≡ ok 5
unfolding hamming_distance
near = refl

hamming_distance_lem_example :
    (5 ≤ 128)
    × (hamming_distance (4 ∷ 15 ∷ []) (5 ∷ 255 ∷ []) ≡ ok 5)
    × (hamming_distance (5 ∷ 255 ∷ []) (5 ∷ 255 ∷ []) ≡ ok 0)
hamming_distance_lem_example = hamming_distance_lem (5 ∷ 255 ∷ []) (4 ∷ 15 ∷ []) 5 near

-- The bits of 0.0, 1.0 and 1.0.
abbrev scores : List (ℕ × ℕ)
scores = (3, 0) ∷ (9, 0x3ff0000000000000) ∷ (7, 0x3ff0000000000000) ∷ []

abbrev ranking : List (ℕ × ℕ)
ranking = (7, 0x3ff0000000000000) ∷ (9, 0x3ff0000000000000) ∷ (3, 0) ∷ []

ranked_run : rank_by_cosine scores ≡ ok ranking
unfolding rank_by_cosine
ranked_run = refl

rank_by_cosine-falling_example :
    Perm ranking scores × Pairwise (λ a b. Falls (score_key a) (score_key b)) ranking
rank_by_cosine-falling_example = rank_by_cosine-falling scores ranking ranked_run
