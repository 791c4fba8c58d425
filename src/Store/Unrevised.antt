-- ===== src/Store/Unrevised.antt =====
-- What changes of live rows, and the lifecycle of links, do to memory_heads.
use super_mem.Base.{
  ℕ, Bool, true, false, List, [], ◌∷◌, ◌++◌, ◌≡◌, ◌∙◌, ap, ◌==◌, refl, arith, Bool-cases, inl, inr,
  ◌&&◌, In, All,
}
use super_mem.Types.{LinkInput, MemoryState}
use super_mem.Store.Tables.{HeadRow}
use super_mem.Store.Heads.{is_live, is_active, update_heads, with_state}
use super_mem.Store.Lifecycle.{
  supersede, contest, supersedes, contests, apply_links, apply_link_lifecycle,
}
use super_mem.Store.Rows.{
  Evolves, Distinct, Evolves-refl, Evolves-trans, Evolves-update_heads, Distinct-update_heads,
}

-- The memory keeps its identifier; a superseded or retracted memory keeps its whole row.
abbrev pub Unrevised : HeadRow → HeadRow → Type 0
Unrevised h h' = (h'.memory_id ≡ h.memory_id) × (is_live h.state ≡ false → h' ≡ h)

abbrev pub Kept : List HeadRow → List HeadRow → Type 0
Kept xs ys = Evolves Unrevised xs ys × Distinct ys

pub Unrevised-refl : (h : HeadRow) → Unrevised h h
Unrevised-refl h = (refl, λ e. refl)

pub Unrevised-trans : (a b c : HeadRow) → Unrevised a b → Unrevised b c → Unrevised a c
Unrevised-trans a b c r s = (s.0 ∙ r.0, λ e. s.1 (ap (λ h. is_live h.state) (r.1 e) ∙ e) ∙ r.1 e)

pub Kept-trans : (xs ys zs : List HeadRow) → Kept xs ys → Kept ys zs → Kept xs zs
Kept-trans xs ys zs e f = (Evolves-trans Unrevised Unrevised-trans xs ys zs e.0 f.0, f.1)

may_change :
    (chosen : HeadRow → Bool) (change : HeadRow → HeadRow)
    → ((h : HeadRow) → (change h).memory_id ≡ h.memory_id)
    → (xs : List HeadRow) → All (λ h. chosen h ≡ true → is_live h.state ≡ true) xs
    → All (λ h. chosen h ≡ true → Unrevised h (change h)) xs
may_change chosen change same [] a = tt
may_change chosen change same (x ∷ xs) a =
    (λ c. (same x, λ dead. ground (arith, a.0 c)), may_change chosen change same xs a.1)

-- An UPDATE of live rows.
pub Kept-update :
    (chosen : HeadRow → Bool) (change : HeadRow → HeadRow) (xs : List HeadRow)
    → ((h : HeadRow) → (change h).memory_id ≡ h.memory_id)
    → All (λ h. chosen h ≡ true → is_live h.state ≡ true) xs
    → Distinct xs
    → Kept xs (update_heads chosen change xs)
Kept-update chosen change xs same a d = (
  Evolves-update_heads Unrevised Unrevised-refl chosen change xs
      (may_change chosen change same xs a),
  Distinct-update_heads chosen change same xs d,
)

All-live :
    (id : ℕ) (test : MemoryState → Bool)
    → ((state : MemoryState) → test state ≡ true → is_live state ≡ true)
    → (xs : List HeadRow)
    → All (λ h. (h.memory_id == id && test h.state) ≡ true → is_live h.state ≡ true) xs
All-live id test implies [] = tt
All-live id test implies (x ∷ xs) =
    (λ c. implies x.state (ground arith), All-live id test implies xs)

active-live : (state : MemoryState) → is_active state ≡ true → is_live state ≡ true
active-live MemoryState.active e = refl
active-live MemoryState.contested e = refl
active-live MemoryState.superseded e = e
active-live MemoryState.retracted e = e

Kept-supersede :
    (id sequence now : ℕ) (xs : List HeadRow) → Distinct xs → Kept xs (supersede id sequence now xs)
unfolding supersede with_state
Kept-supersede id sequence now xs d =
    Kept-update _ _ xs (λ h. refl) (All-live id is_live (λ s e. e) xs) d

Kept-contest :
    (id sequence now : ℕ) (xs : List HeadRow) → Distinct xs → Kept xs (contest id sequence now xs)
unfolding contest with_state
Kept-contest id sequence now xs d =
    Kept-update _ _ xs (λ h. refl) (All-live id is_active active-live xs) d

Kept-apply_links :
    (sequence now : ℕ) (contested : Bool) (links : List LinkInput) (xs : List HeadRow)
    → Distinct xs
    → Kept xs (apply_links sequence now contested links xs).1
unfolding apply_links
Kept-apply_links sequence now contested [] xs d = (Evolves-refl Unrevised Unrevised-refl xs, d)
Kept-apply_links sequence now contested (link ∷ rest) xs d = elim (Bool-cases (supersedes link)) [
  | inl e ↦
      let k = Kept-supersede link.target sequence now xs d in
      rw e (Kept-trans xs _ _ k (Kept-apply_links sequence now contested rest _ k.1))
  | inr e ↦ elim (Bool-cases (contests link)) [
    | inl f ↦
        let k = Kept-contest link.target sequence now xs d in
        rw (e, f) (Kept-trans xs _ _ k (Kept-apply_links sequence now true rest _ k.1))
    | inr f ↦ rw (e, f) (Kept-apply_links sequence now contested rest xs d)
  ]
]

pub Kept-apply_link_lifecycle :
    (source : ℕ) (links : List LinkInput) (sequence now : ℕ) (xs : List HeadRow)
    → Distinct xs
    → Kept xs (apply_link_lifecycle source links sequence now xs)
unfolding apply_link_lifecycle
Kept-apply_link_lifecycle source links sequence now xs d =
    let k = Kept-apply_links sequence now false links xs d in
    elim (Bool-cases ((apply_links sequence now false links xs).0)) [
      | inl e ↦ rw e (Kept-trans xs _ _ k (Kept-contest source sequence now _ k.1))
      | inr e ↦ rw e k
    ]

abbrev pub Live : HeadRow → Type 0
Live h = is_live h.state ≡ true

pub In-last : (h : HeadRow) (xs : List HeadRow) → In h (xs ++ (h ∷ []))
In-last h [] = inl refl
In-last h (x ∷ xs) = inr (In-last h xs)

pub All-chosen :
    (id : ℕ) (xs : List HeadRow)
    → All (λ h. h.memory_id ≡ id → Live h) xs
    → All (λ h. (h.memory_id == id) ≡ true → Live h) xs
All-chosen id [] a = tt
All-chosen id (x ∷ xs) a = (λ c. a.0 (ground arith), All-chosen id xs a.1)
