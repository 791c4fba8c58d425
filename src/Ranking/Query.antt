-- ===== src/Ranking/Query.antt =====
-- The full-text queries that are made of what a user asks: `fts_terms`, `safe_fts_query` and
-- `safe_fts_strict_query`.
use super_mem.Base.{
  ℕ, Text, codes, Bool, ◌&&◌, ◌||◌, not, Option, none, some, List, [], ◌∷◌, ◌++◌, leb, ◌==◌,
  text_eq, length, is_empty, take, map, if◌then◌else◌,
}
use super_mem.Utf8.{byte_length}
use super_mem.Ranking.Floats.{Unicode}
use super_mem.Ranking.Tokens.{has_token, is_word}

unfoldable pub is_operator : Text → Bool
is_operator term =
    text_eq term (codes "and")
    || (text_eq term (codes "or") || (text_eq term (codes "not") || text_eq term (codes "near")))

-- `push_term` leaves `current` empty; this is the new `terms`.
unfoldable pub push_term : List Text → Text → List Text
unfolding is_operator has_token
push_term terms current =
    if leb 2 (byte_length current) && (not (is_operator current) && not (has_token terms current))
    then terms ++ current ∷ []
    else terms

-- The body of the loop, on `terms` and `current`.
unfoldable pub read_character : Unicode → List Text × Text → ℕ → List Text × Text
unfolding push_term is_word
read_character U (terms, current) c =
    let longer = current ++ U.to_lowercase c in
    if is_word U c
    then (if leb 64 (byte_length longer) then (push_term terms longer, []) else (terms, longer))
    else (push_term terms current, [])

unfoldable pub read_terms : Unicode → ℕ → List Text × Text → Text → List Text × Text
unfolding read_character
read_terms U maximum state [] = state
read_terms U maximum state (c ∷ s) =
    let next = read_character U state c in
    let rest = read_terms U maximum next s in if leb maximum (length (next.0)) then next else rest

-- `term.replace('"', "\"\"")`.
unfoldable pub double_quotes : Text → Text
double_quotes [] = []
double_quotes (c ∷ s) = let rest = double_quotes s in if c == 34 then 34 ∷ 34 ∷ rest else c ∷ rest

-- The `format!` of a term.
unfoldable pub quote_term : Text → Text
unfolding double_quotes
quote_term term = 34 ∷ double_quotes term ++ 34 ∷ []

-- The terms before they are quoted.
unfoldable pub bare_terms : Unicode → Text → ℕ → List Text
unfolding read_terms push_term
bare_terms U query maximum =
    let state = read_terms U maximum ([], []) query in take maximum (push_term (state.0) (state.1))

unfoldable pub fts_terms : Unicode → Text → ℕ → Option (List Text)
unfolding bare_terms quote_term
fts_terms U query maximum =
    let terms = bare_terms U query maximum in
    if is_empty terms then none else some (map quote_term terms)

-- `join`.
unfoldable pub join_with : Text → List Text → Text
join_with separator [] = []
join_with separator (t ∷ ts) = elim ts [
  | [] ↦ t
  | u ∷ us ↦ t ++ (separator ++ join_with separator ts)
]

abbrev pub or_word : Text
or_word = codes " OR "

abbrev pub and_word : Text
and_word = codes " AND "

unfoldable pub safe_fts_query : Unicode → Text → Option Text
unfolding fts_terms join_with
safe_fts_query U query = elim (fts_terms U query 24) [
  | none ↦ none
  | some terms ↦ some (join_with or_word terms)
]

unfoldable pub safe_fts_strict_query : Unicode → Text → Option Text
unfolding fts_terms join_with
safe_fts_strict_query U query = elim (fts_terms U query 8) [
  | none ↦ none
  | some terms ↦ some (join_with and_word terms)
]
