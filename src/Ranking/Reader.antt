-- ===== src/Ranking/Reader.antt =====
-- What FTS5 reads in the queries that are made for it.
use super_mem.Base.{
  ℕ, zero, suc, ◌≡◌, ◌≤◌, refl, Text, codes, Bool, true, false, Option, none, some, List, [], ◌∷◌,
  ◌++◌, arith, length, is_empty, map, ◌==◌, Bool-cases, inl, inr, if◌then◌else◌, All,
}
use mathlib.Core.Path.{subst}
use mathlib.Core.List.{append_assoc}
use super_mem.Ranking.Floats.{Unicode}
use super_mem.Ranking.Query.{
  double_quotes, quote_term, join_with, bare_terms, fts_terms, safe_fts_query,
  safe_fts_strict_query, or_word, and_word,
}
use super_mem.Ranking.Bounds.{IsTerm, Different, bare_terms-Good}

-- The rest of a string of FTS5 after its first quote: two quotes are one, and a single one ends the string.
-- The flag says that a quote was just read.
abbrev pub read_string : Bool → Text → Option (Text × Text)
read_string true [] = some ([], [])
read_string false [] = none
read_string true (c ∷ s) = elim (c == 34) [
  | true ↦ elim (read_string false s) [ none ↦ none | some (t, rest) ↦ some (34 ∷ t, rest) ]
  | false ↦ some ([], c ∷ s)
]
read_string false (c ∷ s) = elim (c == 34) [
  | true ↦ read_string true s
  | false ↦ elim (read_string false s) [ none ↦ none | some (t, rest) ↦ some (c ∷ t, rest) ]
]

abbrev pub strip_prefix : Text → Text → Option Text
strip_prefix [] s = some s
strip_prefix (c ∷ p) [] = none
strip_prefix (c ∷ p) (d ∷ s) = if c == d then strip_prefix p s else none

-- The terms of a query of strings with one operator between them; nothing else is accepted.
abbrev pub read_query : ℕ → Text → Text → Option (List Text)
read_query zero operator s = none
read_query (suc fuel) operator [] = none
read_query (suc fuel) operator (c ∷ s) = elim (c == 34) [
  | false ↦ none
  | true ↦ elim (read_string false s) [
    | none ↦ none
    | some (t, []) ↦ some (t ∷ [])
    | some (t, d ∷ rest) ↦ elim (strip_prefix operator (d ∷ rest)) [
      | none ↦ none
      | some later ↦ elim (read_query fuel operator later) [ none ↦ none | some ts ↦ some (t ∷ ts) ]
    ]
  ]
]

strip_prefix-append : (p s : Text) → strip_prefix p (p ++ s) ≡ some s
strip_prefix-append [] s = refl
strip_prefix-append (c ∷ p) s = ground (arith, strip_prefix-append p s)

-- A doubled text is read back, up to the quote that follows it.
read_string-double_quotes :
    (t rest : Text)
    → read_string true rest ≡ some ([], rest)
    → read_string false (double_quotes t ++ 34 ∷ rest) ≡ some (t, rest)
unfolding double_quotes
read_string-double_quotes [] rest h = h
read_string-double_quotes (c ∷ t) rest h = elim (Bool-cases (c == 34)) [
  | inl e ↦ ground (arith, read_string-double_quotes t rest h)
  | inr e ↦ ground (arith, read_string-double_quotes t rest h)
]

read_query_step :
    (fuel : ℕ) (operator s t : Text) (d : ℕ) (rest later : Text) (ts : List Text)
    → read_string false s ≡ some (t, d ∷ rest)
    → strip_prefix operator (d ∷ rest) ≡ some later
    → read_query fuel operator later ≡ some ts
    → read_query (suc fuel) operator (34 ∷ s) ≡ some (t ∷ ts)
read_query_step fuel operator s t d rest later ts string operator_read more =
    rw (string, operator_read, more, read_query) refl

pub read_query-join_with :
    (space : ℕ) (word : Text) (t : Text) (ts : List Text) (fuel : ℕ)
    → (space == 34) ≡ false
    → length ts ≤ fuel
    → read_query (suc fuel) (space ∷ word) (join_with (space ∷ word) (map quote_term (t ∷ ts)))
      ≡ some (t ∷ ts)
unfolding join_with quote_term
read_query-join_with space word t [] fuel h enough =
    rw (read_string-double_quotes t [] refl, read_query) refl
read_query-join_with space word t (u ∷ us) zero h enough = absurd (omega arith)
read_query-join_with space word t (u ∷ us) (suc fuel) h enough =
    let later = join_with (space ∷ word) (map quote_term (u ∷ us)) in
    read_query_step (suc fuel) (space ∷ word)
      ((double_quotes t ++ (34 ∷ [])) ++ ((space ∷ word) ++ later)) t space (word ++ later) later
      (u ∷ us)
      (rw (append_assoc (double_quotes t) (34 ∷ []) ((space ∷ word) ++ later))
        (read_string-double_quotes t ((space ∷ word) ++ later) (ground arith)))
      (strip_prefix-append (space ∷ word) later)
      (read_query-join_with space word u us fuel h (omega arith))

-- With an operator that begins with a space, a query of at least one term is read back as its terms.
pub joined-read :
    (word : Text) (terms : List Text)
    → is_empty terms ≡ false
    → read_query (length terms) (32 ∷ word) (join_with (32 ∷ word) (map quote_term terms))
      ≡ some terms
joined-read word [] h = ground arith
joined-read word (t ∷ ts) h = read_query-join_with 32 word t ts (length ts) refl (omega arith)

-- Both queries, for a maximum and an operator.
joined_terms :
    (U : Unicode) (query : Text) (maximum : ℕ) (word text : Text)
    → (elim (fts_terms U query maximum) [
      | none ↦ none
      | some terms ↦ some (join_with (32 ∷ word) terms)
    ])
      ≡ some text
    → let terms = bare_terms U query maximum in
      (read_query (length terms) (32 ∷ word) text ≡ some terms)
      × All IsTerm terms
      × Different terms
      × (1 ≤ length terms)
      × (length terms ≤ maximum)
unfolding fts_terms
joined_terms U query maximum word text h =
    let terms = bare_terms U query maximum in
    let (words, different, most) = bare_terms-Good U query maximum in
    let (some_term, same) = inverted terms h in
    (
      subst (λ t. read_query (length terms) (32 ∷ word) t ≡ some terms) same
          (joined-read word terms some_term),
      words,
      different,
      nonempty terms some_term,
      most,
    )
  where
    inverted :
        (terms : List Text)
        → (elim (if is_empty terms then none else some (map quote_term terms)) [
          | none ↦ none
          | some terms ↦ some (join_with (32 ∷ word) terms)
        ])
          ≡ some text
        → (is_empty terms ≡ false) × (join_with (32 ∷ word) (map quote_term terms) ≡ text)
    inverted [] h = ground arith
    inverted (t ∷ ts) h = ground arith

    nonempty : (terms : List Text) → is_empty terms ≡ false → 1 ≤ length terms
    nonempty [] h = ground arith
    nonempty (t ∷ ts) h = omega arith

-- The query is a disjunction of at most 24 strings, and these are the terms: different words of at least two bytes,
-- none an operator of FTS5. Nothing that a user writes has another meaning in the query.
pub safe_fts_query-read :
    (U : Unicode) (query text : Text)
    → safe_fts_query U query ≡ some text
    → let terms = bare_terms U query 24 in
      (read_query (length terms) or_word text ≡ some terms)
      × All IsTerm terms
      × Different terms
      × (1 ≤ length terms)
      × (length terms ≤ 24)
unfolding safe_fts_query
safe_fts_query-read U query text h = joined_terms U query 24 (codes "OR ") text h

-- The strict query is a conjunction of at most 8 strings, and these are the terms: different words of at least two
-- bytes, none an operator of FTS5.
pub safe_fts_strict_query-read :
    (U : Unicode) (query text : Text)
    → safe_fts_strict_query U query ≡ some text
    → let terms = bare_terms U query 8 in
      (read_query (length terms) and_word text ≡ some terms)
      × All IsTerm terms
      × Different terms
      × (1 ≤ length terms)
      × (length terms ≤ 8)
unfolding safe_fts_strict_query
safe_fts_strict_query-read U query text h = joined_terms U query 8 (codes "AND ") text h
