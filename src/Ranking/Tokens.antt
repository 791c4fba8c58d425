-- ===== src/Ranking/Tokens.antt =====
-- `token_set` and `jaccard`. A set of tokens is the list of its members.
use super_mem.Base.{
  ℕ, ◌+◌, ◌-◌, max, Text, Bool, ◌&&◌, ◌||◌, List, [], ◌∷◌, ◌++◌, ltb, ◌==◌, text_eq, length,
  is_empty, any, filter, map, if◌then◌else◌,
}
use super_mem.Utf8.{byte_length}
use super_mem.Store.Words.{to_ascii_lowercase}
use super_mem.Ranking.Floats.{Floats, Unicode}

unfoldable pub has_token : List Text → Text → Bool
has_token tokens token = any (text_eq token) tokens

-- `collect` into a `HashSet`.
unfoldable pub to_set : List Text → List Text
unfolding has_token
to_set [] = []
to_set (t ∷ rest) = let set = to_set rest in if has_token set t then set else t ∷ set

-- `char::is_alphanumeric` or an underscore.
unfoldable pub is_word : Unicode → ℕ → Bool
is_word U c = U.is_alphanumeric c || c == 0x5f

-- `str::split` at the other characters; the first argument is the part that was begun.
unfoldable pub split_words : Unicode → Text → Text → List Text
unfolding is_word
split_words U part [] = part ∷ []
split_words U part (c ∷ s) =
    let word = split_words U (part ++ (c ∷ [])) s in
    let next = split_words U [] s in if is_word U c then word else part ∷ next

unfoldable pub token_set : Unicode → Text → List Text
unfolding to_set split_words to_ascii_lowercase
token_set U text =
    to_set (map to_ascii_lowercase (filter (λ t. ltb 1 (byte_length t)) (split_words U [] text)))

unfoldable pub jaccard : Floats → List Text → List Text → ℕ
unfolding has_token
jaccard F left right =
    let shared = length (filter (has_token right) left) in
    let joined = length left + length right - shared in
    if is_empty left && is_empty right
    then 0
    else F.div (F.of_usize shared) (F.of_usize (max joined 1))
