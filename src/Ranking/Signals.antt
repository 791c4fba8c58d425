-- ===== src/Ranking/Signals.antt =====
-- A candidate keeps, for every signal, the best of the ranks at which the searches recorded it.
use super_mem.Base.{
  ℕ, ◌≡◌, ◌↔◌, ◌≤◌, refl, sym, ◌∙◌, min, List, [], ◌∷◌, map, In, inl, inr, arith, ◌==◌, ==_iff,
  false, Bool-cases, usize_max, if◌then◌else◌, ap, ◌≢◌,
}
use mathlib.Core.Path.{fun_ext, subst}
use super_mem.Types.{RetrievalSignal}
use super_mem.Ranking.Candidates.{
  all_signals, signal_order, Candidate, no_ranks, record_rank, ranked, ranked_signals,
}

-- The calls of `record` on one candidate, in their order.
abbrev pub record_all : Candidate → List (RetrievalSignal × ℕ) → Candidate
record_all candidate [] = candidate
record_all candidate ((signal, rank) ∷ rest) = record_all (record_rank candidate signal rank) rest

-- The least rank that is recorded for the signal; the largest `usize` where there is none.
abbrev pub best : List (RetrievalSignal × ℕ) → RetrievalSignal → ℕ
best [] signal = usize_max
best ((s, rank) ∷ rest) signal =
    let later = best rest signal in
    if signal_order s == signal_order signal then min rank later else later

best-le :
    (recorded : List (RetrievalSignal × ℕ)) (s : RetrievalSignal) → best recorded s ≤ usize_max
best-le [] s = omega arith
best-le ((t, rank) ∷ rest) s = ground (arith, best-le rest s)

-- The ranks after one more record, as a function of the signal.
abbrev recorded_at : RetrievalSignal → ℕ → (RetrievalSignal → ℕ) → RetrievalSignal → ℕ
recorded_at s rank f signal =
    if signal_order s == signal_order signal then min (f signal) rank else f signal

record_rank-map :
    (f : RetrievalSignal → ℕ) (s : RetrievalSignal) (rank : ℕ)
    → (record_rank (record { ranks = map f all_signals }) s rank).ranks
      ≡ map (recorded_at s rank f) all_signals
unfolding record_rank signal_order
record_rank-map f RetrievalSignal.exact rank = refl
record_rank-map f RetrievalSignal.error_fingerprint rank = refl
record_rank-map f RetrievalSignal.artifact_verified rank = refl
record_rank-map f RetrievalSignal.dense_vector rank = refl
record_rank-map f RetrievalSignal.lexical_strict rank = refl
record_rank-map f RetrievalSignal.lexical rank = refl
record_rank-map f RetrievalSignal.code_alias_strict rank = refl
record_rank-map f RetrievalSignal.code_alias rank = refl
record_rank-map f RetrievalSignal.semantic_expansion rank = refl
record_rank-map f RetrievalSignal.sparse rank = refl
record_rank-map f RetrievalSignal.entity rank = refl
record_rank-map f RetrievalSignal.recency rank = refl

-- The ranks are those before, or the best of the recorded ones where that is better.
record_all-map :
    (f : RetrievalSignal → ℕ) (recorded : List (RetrievalSignal × ℕ))
    → ((s : RetrievalSignal) → f s ≤ usize_max)
    → record_all (record { ranks = map f all_signals }) recorded
      ≡ record { ranks = map (λ s. min (f s) (best recorded s)) all_signals }
record_all-map f [] bounded = ap (λ g. record { ranks = map g all_signals }) (fun_ext below)
  where
    below : (s : RetrievalSignal) → f s ≡ min (f s) usize_max
    below s = omega (arith, bounded s)
record_all-map f ((t, rank) ∷ rest) bounded =
    ap (λ c. record_all c rest) (ap one_more (record_rank-map f t rank))
    ∙ record_all-map (recorded_at t rank f) rest below
    ∙ ap (λ g. record { ranks = map g all_signals }) (fun_ext same)
  where
    one_more : List ℕ → Candidate
    one_more ranks = record { ranks = ranks }

    below : (s : RetrievalSignal) → recorded_at t rank f s ≤ usize_max
    below s = ground (arith, bounded s)

    same :
        (s : RetrievalSignal)
        → min (recorded_at t rank f s) (best rest s) ≡ min (f s) (best ((t, rank) ∷ rest) s)
    same s = ground arith

-- What `ranked` keeps of the values of a function.
In-ranked :
    (f : RetrievalSignal → ℕ) (signals : List RetrievalSignal) (s : RetrievalSignal) (rank : ℕ)
    → In (s, rank) (ranked signals (map f signals))
      ↔ (In s signals × (f s ≡ rank) × (rank ≢ usize_max))
unfolding ranked
In-ranked f [] s rank = ((λ i. elim i [ ]), (λ h. h.0))
In-ranked f (t ∷ signals) s rank =
    let (there, back) = In-ranked f signals s rank in
    elim (Bool-cases (f t == usize_max)) [
      | inl e ↦ rw e (
        (λ i. let (a, b, c) = there i in (inr a, b, c)),
        (λ h. elim (h.0) [
          | inl same ↦ absurd (h.2 (sym h.1 ∙ ap f same ∙ (==_iff (f t) usize_max).0 e))
          | inr i ↦ back (i, h.1, h.2)
        ]),
      )
      | inr e ↦ rw e (
        (λ i. elim i [
          | inl same ↦ (
            inl (ap (λ p. p.0) same),
            ap f (ap (λ p. p.0) same) ∙ sym (ap (λ p. p.1) same),
            λ h. limited (ap (λ p. p.1) same) h e,
          )
          | inr j ↦ let (a, b, c) = there j in (inr a, b, c)
        ]),
        (λ h. elim (h.0) [
          | inl same ↦ inl (pair same (sym h.1 ∙ ap f same))
          | inr i ↦ inr (back (i, h.1, h.2))
        ]),
      )
    ]
  where
    limited : {r m : ℕ} → rank ≡ r → rank ≡ m → (r == m) ≡ false → ⊥
    limited h k e = ground arith

    pair :
        {a c : RetrievalSignal} {b d : ℕ}
        → a ≡ c
        → b ≡ d
        → ◌≡◌ {A = RetrievalSignal × ℕ} (a, b) (c, d)
    pair h k = λ i. (h i, k i)

In-all_signals : (s : RetrievalSignal) → In s all_signals
In-all_signals RetrievalSignal.exact = ground arith
In-all_signals RetrievalSignal.error_fingerprint = ground arith
In-all_signals RetrievalSignal.artifact_verified = ground arith
In-all_signals RetrievalSignal.dense_vector = ground arith
In-all_signals RetrievalSignal.lexical_strict = ground arith
In-all_signals RetrievalSignal.lexical = ground arith
In-all_signals RetrievalSignal.code_alias_strict = ground arith
In-all_signals RetrievalSignal.code_alias = ground arith
In-all_signals RetrievalSignal.semantic_expansion = ground arith
In-all_signals RetrievalSignal.sparse = ground arith
In-all_signals RetrievalSignal.entity = ground arith
In-all_signals RetrievalSignal.recency = ground arith

-- After any sequence of recordings, the signals of a candidate are those that were recorded with a
-- rank below the largest `usize`, each with the least of its ranks. So the order of the recordings does not matter.
pub ranked_signals-best :
    (recorded : List (RetrievalSignal × ℕ)) (s : RetrievalSignal) (rank : ℕ)
    → In (s, rank) (ranked_signals (record_all no_ranks recorded))
      ↔ ((best recorded s ≡ rank) × (rank ≢ usize_max))
unfolding ranked_signals
ranked_signals-best recorded s rank =
    subst
      (λ c.
        In (s, rank) (ranked all_signals (c.ranks))
        ↔ ((best recorded s ≡ rank) × (rank ≢ usize_max)))
      (sym (record_all-map (λ t. usize_max) recorded (λ t. omega arith)))
      (
        (λ i. let (a, b, c) = fits.0 i in (smaller ∙ b, c)),
        (λ h. fits.1 (In-all_signals s, sym smaller ∙ h.0, h.1)),
      )
  where
    smaller : best recorded s ≡ min usize_max (best recorded s)
    smaller = omega (arith, best-le recorded s)

    fits :
        In (s, rank) (ranked all_signals (map (λ t. min usize_max (best recorded t)) all_signals))
        ↔ (In s all_signals × (min usize_max (best recorded s) ≡ rank) × (rank ≢ usize_max))
    fits = In-ranked (λ t. min usize_max (best recorded t)) all_signals s rank
