-- ===== src/Ranking/Bounds.antt =====
-- The terms of a full-text query: how many and which.
use super_mem.Base.{
  ℕ, zero, suc, refl, ◌≤◌, ◌≡◌, Text, false, not, ◌&&◌, List, [], ◌∷◌, ◌++◌, arith, leb, length,
  length-take, take, Bool-cases, inl, inr, text_eq, text_eq_iff, All, All-append, All-take,
}
use super_mem.Utf8.{byte_length}
use super_mem.Ranking.Floats.{Unicode}
use super_mem.Ranking.Tokens.{has_token, is_word}
use super_mem.Ranking.Query.{is_operator, push_term, read_character, read_terms, bare_terms}

-- A word that FTS5 may be asked for: at least two bytes, and no operator.
abbrev pub IsTerm : Text → Type 0
IsTerm term = (2 ≤ byte_length term) × (is_operator term ≡ false)

-- No term occurs twice.
abbrev pub Different : List Text → Type 0
Different [] = Unit
Different (t ∷ ts) = (has_token ts t ≡ false) × Different ts

has_token-append :
    (ts : List Text) (t x : Text)
    → has_token ts t ≡ false
    → text_eq t x ≡ false
    → has_token (ts ++ x ∷ []) t ≡ false
unfolding has_token
has_token-append [] t x h e = ground arith
has_token-append (u ∷ ts) t x h e = ground (arith, has_token-append ts t x)

text_eq-sym : (s t : Text) → text_eq s t ≡ false → text_eq t s ≡ false
text_eq-sym s t h = ground (arith, text_eq_iff s t, text_eq_iff t s)

Different-append :
    (ts : List Text) (x : Text) → Different ts → has_token ts x ≡ false → Different (ts ++ x ∷ [])
unfolding has_token
Different-append [] x d h = ground arith
Different-append (t ∷ ts) x d h = (
  has_token-append ts t x d.0 (text_eq-sym x t (ground arith)),
  Different-append ts x d.1 (ground arith),
)

has_token-take :
    (n : ℕ) (ts : List Text) (t : Text) → has_token ts t ≡ false → has_token (take n ts) t ≡ false
unfolding has_token
has_token-take zero ts t h = refl
has_token-take (suc n) [] t h = refl
has_token-take (suc n) (u ∷ ts) t h = ground (arith, has_token-take n ts t)

Different-take : (n : ℕ) (ts : List Text) → Different ts → Different (take n ts)
Different-take zero ts d = tt
Different-take (suc n) [] d = tt
Different-take (suc n) (t ∷ ts) d = (has_token-take n ts t d.0, Different-take n ts d.1)

abbrev Good : List Text → Type 0
Good ts = All IsTerm ts × Different ts

push_term-Good : (ts : List Text) (current : Text) → Good ts → Good (push_term ts current)
unfolding push_term
push_term-Good ts current g =
    elim (Bool-cases
      (leb 2 (byte_length current) && (not (is_operator current) && not (has_token ts current)))) [
        | inl e ↦ rw e (
          All-append IsTerm ts (current ∷ []) g.0 ((ground arith, ground arith), tt),
          Different-append ts current g.1 (ground arith),
        )
        | inr e ↦ rw e g
      ]

read_character-Good :
    (U : Unicode) (state : List Text × Text) (c : ℕ)
    → Good (state.0)
    → Good ((read_character U state c).0)
unfolding read_character
read_character-Good U (terms, current) c g = elim (Bool-cases (is_word U c)) [
  | inl e ↦
      let longer = current ++ U.to_lowercase c in
      elim (Bool-cases (leb 64 (byte_length longer))) [
        | inl f ↦ rw (e, f) (push_term-Good terms longer g)
        | inr f ↦ rw (e, f) g
      ]
  | inr e ↦ rw e (push_term-Good terms current g)
]

read_terms-Good :
    (U : Unicode) (maximum : ℕ) (state : List Text × Text) (s : Text)
    → Good (state.0)
    → Good ((read_terms U maximum state s).0)
unfolding read_terms
read_terms-Good U maximum state [] g = g
read_terms-Good U maximum state (c ∷ s) g =
    let next = read_character U state c in
    let next-Good = read_character-Good U state c g in
    elim (Bool-cases (leb maximum (length (next.0)))) [
      | inl e ↦ rw e next-Good
      | inr e ↦ rw e (read_terms-Good U maximum next s next-Good)
    ]

pub bare_terms-Good :
    (U : Unicode) (query : Text) (maximum : ℕ)
    → All IsTerm (bare_terms U query maximum)
      × Different (bare_terms U query maximum)
      × (length (bare_terms U query maximum) ≤ maximum)
unfolding bare_terms
bare_terms-Good U query maximum =
    let state = read_terms U maximum ([], []) query in
    let terms = push_term (state.0) (state.1) in
    let good =
      push_term-Good (state.0) (state.1) (read_terms-Good U maximum ([], []) query (tt, tt)) in
    (
      All-take IsTerm maximum terms good.0,
      Different-take maximum terms good.1,
      omega (arith, length-take maximum terms),
    )
