-- ===== src/Ranking/Equivalence.antt =====
-- `select_mmr` selects what its quadratic reference selects.
use mathlib.Core.List.Perm
use mathlib.Core.List.{
  Perm, Mem, mem-cons, mem-cons_self, mem-cons_of_mem, Mem-prop, not-mem-nil, Nodup, Nodup-cons,
  Nodup-nil,
}
use mathlib.Core.Logic.Or
use mathlib.Core.Path.{subst}
use super_mem.Base.{
  ℕ, zero, suc, ◌+◌, ◌≤◌, ◌<◌, ◌≡◌, ◌≢◌, ◌∙◌, refl, sym, ap, List, [], ◌∷◌, ◌++◌, length, get_or,
  set, arith, inl, inr, Bool-cases, ◌==◌, leb, ◌||◌, map, length-map,
}
use super_mem.Types.{RecallHit}
use super_mem.Ranking.Floats.{Floats, Unicode, neg_infinity}
use super_mem.Ranking.Order.{sort_hits}
use super_mem.Ranking.Mmr.{
  Pool, similarity, best_position, choose, raise, swap_remove, mmr_loop, indices, pool_of, hits_at,
  select_mmr,
}
use super_mem.Ranking.Reference.{redundancy_of, reference_loop, reference_select_mmr}
use super_mem.Ranking.Vectors.{length-set, get_or-set_self, get_or-set_ne, swap_remove-perm}

mem_rest : (c x : ℕ) (rest : List ℕ) → Mem c (x ∷ rest) → x ≢ c → Mem c rest
mem_rest c x rest m apart = Or.elim Mem-prop (mem-cons.0 m) (λ e. absurd (apart (sym e))) (λ r. r)

module _ (F : Floats) (p : Pool) where
  -- One more selection is one more maximum.
  redundancy_of-append :
      (highest c : ℕ) (selected : List ℕ) (s : ℕ)
      → redundancy_of F p highest c (selected ++ (s ∷ []))
        ≡ F.f64_max (redundancy_of F p highest c selected) (similarity F p c s)
  unfolding redundancy_of
  redundancy_of-append highest c [] s = refl
  redundancy_of-append highest c (x ∷ selected) s =
      redundancy_of-append (F.f64_max highest (similarity F p c x)) c selected s

  pub length-raise :
      (s : ℕ) (left redundancy : List ℕ) → length (raise F p s left redundancy) ≡ length redundancy
  unfolding raise
  length-raise s [] redundancy = refl
  length-raise s (c ∷ rest) redundancy = length-raise s rest _ ∙ length-set redundancy c _

  raise_other :
      (s c : ℕ) (left redundancy : List ℕ)
      → (Mem c left → ⊥)
      → get_or (raise F p s left redundancy) c 0 ≡ get_or redundancy c 0
  unfolding raise
  raise_other s c [] redundancy n = refl
  raise_other s c (x ∷ rest) redundancy n =
      raise_other s c rest _ (λ m. n (mem-cons_of_mem x m))
      ∙ get_or-set_ne redundancy x c _ 0 (λ e. n (rw e (mem-cons_self)))

  raise_lem :
      (s c : ℕ) (left redundancy : List ℕ)
      → Nodup left
      → Mem c left
      → c < length redundancy
      → get_or (raise F p s left redundancy) c 0
        ≡ F.f64_max (get_or redundancy c 0) (similarity F p c s)
  unfolding raise
  raise_lem s c [] redundancy d m h = absurd (not-mem-nil m)
  raise_lem s c (x ∷ rest) redundancy d m h = elim (Bool-cases (x == c)) [
    | inl e ↦
        let same : x ≡ c = ground arith in
        let at_x : Mem x rest → ⊥ = (Nodup-cons.0 d).0 in
        subst
          (λ y.
            get_or
              (raise F p s rest
                (set redundancy x (F.f64_max (get_or redundancy x 0) (similarity F p x s))))
              y 0
            ≡ F.f64_max (get_or redundancy y 0) (similarity F p y s))
          same
          (raise_other s x rest _ at_x ∙ get_or-set_self redundancy x _ 0 (omega (arith, same)))
    | inr e ↦
        let apart : x ≢ c = λ same. ground (arith, same) in
        raise_lem s c rest _ (Nodup-cons.0 d).1 (mem_rest c x rest m apart) (
          omega (
            arith,
            length-set redundancy x (F.f64_max (get_or redundancy x 0) (similarity F p x s)),
          ))
        ∙ ap (λ r. F.f64_max r (similarity F p c s)) (get_or-set_ne redundancy x c _ 0 apart)
  ]

  -- The choice reads the redundancies of the available candidates only.
  best_position_ext :
      (r r' : ℕ → ℕ) (available : List ℕ) (position : ℕ) (rest : List ℕ) (best score : ℕ)
      → ((c : ℕ) → Mem c rest → r c ≡ r' c)
      → best_position F p r available position rest best score
        ≡ best_position F p r' available position rest best score
  unfolding best_position
  best_position_ext r r' available position [] best score h = refl
  best_position_ext r r' available position (c ∷ rest) best score h = rw (h c mem-cons_self) (
      best_position_ext r r' available (suc position) rest _ _ (λ c' m. h c' (mem-cons_of_mem c m)))

  choose_ext :
      (r r' : ℕ → ℕ) (available : List ℕ)
      → ((c : ℕ) → Mem c available → r c ≡ r' c)
      → choose F p r available ≡ choose F p r' available
  unfolding choose
  choose_ext r r' available h = best_position_ext r r' available 0 available 0 _ h

  best_position_lt :
      (r : ℕ → ℕ) (available : List ℕ) (position : ℕ) (rest : List ℕ) (best score n : ℕ)
      → position + length rest ≡ n
      → best < n
      → best_position F p r available position rest best score < n
  unfolding best_position
  best_position_lt r available position [] best score n h b = b
  best_position_lt r available position (c ∷ rest) best score n h b =
      best_position_lt r available (suc position) rest _ _ n (omega (arith, h)) (ground arith)

  pub choose_lt : (r : ℕ → ℕ) (a : ℕ) (rest : List ℕ) → choose F p r (a ∷ rest) < length (a ∷ rest)
  unfolding choose
  choose_lt r a rest =
      best_position_lt r (a ∷ rest) 0 (a ∷ rest) 0 neg_infinity (length (a ∷ rest)) (omega arith)
        (omega arith)

  -- The loops agree while every available candidate has its redundancy in the vector.
  loops_agree :
      (limit : ℕ) (selected available redundancy : List ℕ)
      → Nodup available
      → ((c : ℕ) → Mem c available → c < length redundancy)
      → ((c : ℕ) → Mem c available → get_or redundancy c 0 ≡ redundancy_of F p 0 c selected)
      → mmr_loop F p limit selected available redundancy
        ≡ reference_loop F p limit selected available
  unfolding mmr_loop reference_loop
  loops_agree zero selected available redundancy d b h = refl
  loops_agree (suc limit) selected [] redundancy d b h = refl
  loops_agree (suc limit) selected (a ∷ rest) redundancy d b h =
      let r = λ (c : ℕ). get_or redundancy c 0 in
      let r' = λ (c : ℕ). redundancy_of F p 0 c selected in
      let i = choose F p r (a ∷ rest) in
      let s = get_or (a ∷ rest) i 0 in
      let left = swap_remove i (a ∷ rest) in
      let perm : Perm (s ∷ left) (a ∷ rest) = swap_remove-perm a rest i (choose_lt r a rest) in
      let nodup = Nodup-cons.0 (Perm.nodup (Perm.symm perm) d) in
      let inside : (c : ℕ) → Mem c left → Mem c (a ∷ rest) =
        λ c m. Perm.subset perm c (mem-cons_of_mem s m) in
      let same : i ≡ choose F p r' (a ∷ rest) = choose_ext r r' (a ∷ rest) h in
      subst
        (λ j.
          mmr_loop F p limit (selected ++ (s ∷ [])) left (raise F p s left redundancy)
          ≡ reference_loop F p limit (selected ++ (get_or (a ∷ rest) j 0 ∷ []))
              (swap_remove j (a ∷ rest)))
        same
        (loops_agree limit (selected ++ (s ∷ [])) left (raise F p s left redundancy) nodup.1
          (λ c m. rw (length-raise s left redundancy) (b c (inside c m)))
          (λ c m.
            raise_lem s c left redundancy nodup.1 m (b c (inside c m))
            ∙ ap (λ x. F.f64_max x (similarity F p c s)) (h c (inside c m))
            ∙ sym (redundancy_of-append 0 c selected s)))

mem-indices : (c start count : ℕ) → Mem c (indices start count) → (start ≤ c) × (c < start + count)
unfolding indices
mem-indices c start zero m = absurd (not-mem-nil m)
mem-indices c start (suc count) m = elim (Bool-cases (start == c)) [
  | inl e ↦ ground arith
  | inr e ↦
      let h =
        mem-indices c (suc start) count
          (mem_rest c start (indices (suc start) count) m (λ same. ground (arith, same))) in
      (omega (arith, h.0), omega (arith, h.1))
]

pub Nodup-indices : (start count : ℕ) → Nodup (indices start count)
unfolding indices
Nodup-indices start zero = Nodup-nil
Nodup-indices start (suc count) = Nodup-cons.1 (
  (λ m. absurd (omega (arith, (mem-indices start (suc start) count m).0))),
  Nodup-indices (suc start) count,
)

abbrev pub zero_of : RecallHit → ℕ
zero_of h = 0

zeros : (hits : List RecallHit) (c : ℕ) → get_or (map zero_of hits) c 0 ≡ 0
zeros [] c = refl
zeros (h ∷ hits) zero = refl
zeros (h ∷ hits) (suc c) = zeros hits c

-- For every arithmetic of floats and every limit, `select_mmr`, which keeps the largest similarity of each
-- candidate to the selected hits up to date, returns the same hits in the same order as the
-- reference, which computes it anew in each round.
pub select_mmr-reference_select_mmr :
    (F : Floats) (U : Unicode) (hits : List RecallHit) (limit lambda : ℕ)
    → select_mmr F U hits limit lambda ≡ reference_select_mmr F U hits limit lambda
unfolding select_mmr reference_select_mmr redundancy_of
select_mmr-reference_select_mmr F U hits limit lambda =
    elim (Bool-cases (leb (length hits) 1 || limit == 0)) [
      | inl e ↦ rw e
      | inr e ↦
          let sorted = sort_hits hits in
          let p = pool_of F U sorted lambda in
          let same =
            loops_agree F p limit [] (indices 0 (length sorted)) (map zero_of sorted)
              (Nodup-indices 0 (length sorted))
              (λ c m.
                omega (arith, (mem-indices c 0 (length sorted) m).1, length-map zero_of sorted))
              (λ c m. zeros sorted c) in
          rw e (ap (hits_at sorted) same)
    ]
