-- ===== src/Context/Search.antt =====
-- What the binary search of `compile_context` finds.
use mathlib.Core.Path.{subst}
use super_mem.Base.{
  ℕ, zero, suc, ◌+◌, ◌-◌, ◌/◌, ◌≤◌, ◌<◌, ◌≡◌, refl, sym, ◌⊎◌, inl, inr, Text, Bool, true, false,
  ◌&&◌, not, Option, none, some, max, leb, ◌==◌, is_empty, saturating_add, usize_max, Bool-cases,
  arith,
}
use super_mem.Types.{RecallHit}
use super_mem.Context.Tokens.{estimate_tokens, truncate_to_tokens}
use super_mem.Context.Assemble.{fragment, search_body, select_body}

module _ (show_id : ℕ → Text) (hit : RecallHit) (item_budget : ℕ) where
  -- The body that a round of the search tries, and the estimate of its fragment.
  abbrev pub candidate : ℕ → Text
  candidate m = truncate_to_tokens hit.memory.body m

  abbrev pub candidate_tokens : ℕ → ℕ
  candidate_tokens m = estimate_tokens (fragment show_id hit (candidate m))

  -- The candidate has a body, and its fragment is within the budget.
  abbrev pub fits : ℕ → Bool
  fits m = not (is_empty (candidate m)) && leb (candidate_tokens m) item_budget

  -- The result is the candidate of some size that fits, and that is the largest size tried or has
  -- a next size that does not fit; or there is no result, and the smallest candidate does not fit.
  abbrev pub IsEdge : ℕ → Option (Text × ℕ) → Type 0
  IsEdge high none = fits 1 ≡ false
  IsEdge high (some found) =
      (m : ℕ) × (1 ≤ m)
      × (m ≤ high)
      × (found ≡ (candidate m, candidate_tokens m))
      × (fits m ≡ true)
      × ((m ≡ high) ⊎ (fits (m + 1) ≡ false))

  -- What the rounds before have found: all below `low` is settled by `selected`.
  abbrev Lower : ℕ → Option (Text × ℕ) → Type 0
  Lower low none = low ≡ 1
  Lower low (some found) =
      (1 < low)
      × (found ≡ (candidate (low - 1), candidate_tokens (low - 1)))
      × (fits (low - 1) ≡ true)

  finish :
      (top low high : ℕ) (selected : Option (Text × ℕ))
      → 1 ≤ top
      → high < low
      → low ≤ high + 1
      → high ≤ top
      → Lower low selected
      → (high ≡ top) ⊎ (fits (high + 1) ≡ false)
      → IsEdge top selected
  finish top low high none t lt le ht l (inl e) = absurd (omega arith)
  finish top low high none t lt le ht l (inr f) =
      let one : high + 1 ≡ 1 = omega arith in subst (λ k. fits k ≡ false) one f
  finish top low high (some found) t lt le ht l u =
      let last : low - 1 ≡ high = omega arith in
      (high, omega arith, ht, rw (← last) l.1, rw (← last) l.2, u)

  Lower-found :
      (m low : ℕ)
      → low ≡ m + 1
      → 1 ≤ m
      → fits m ≡ true
      → Lower low (some (candidate m, candidate_tokens m))
  Lower-found m low e h f =
      let last : low - 1 ≡ m = omega arith in (omega arith, rw last refl, rw last f)

  search_body-IsEdge :
      (top fuel low high : ℕ) (selected : Option (Text × ℕ))
      → 1 ≤ top
      → top < usize_max
      → high + 1 - low ≤ fuel
      → 1 ≤ low
      → low ≤ high + 1
      → high ≤ top
      → Lower low selected
      → (high ≡ top) ⊎ (fits (high + 1) ≡ false)
      → IsEdge top (search_body show_id fuel hit item_budget low high selected)
  unfolding search_body
  search_body-IsEdge top zero low high selected t tm fu l1 le ht l u =
      finish top low high selected t (omega arith) le ht l u
  search_body-IsEdge top (suc fuel) low high selected t tm fu l1 le ht l u =
      elim (Bool-cases (leb low high)) [
        | inr out ↦ rw out (finish top low high selected t (ground arith) le ht l u)
        | inl go ↦ rw go (
            let m : ℕ = low + (high - low) / 2 in
            let in_range : (low ≤ m) × (m ≤ high) = ground arith in
            elim (Bool-cases (fits m)) [
              | inl f ↦ rw f (
                  search_body-IsEdge top fuel (saturating_add m 1) high
                    (some (candidate m, candidate_tokens m)) t tm (omega arith) (omega arith)
                    (omega arith) ht
                    (Lower-found m (saturating_add m 1) (omega arith) (omega arith) f) u)
              | inr f ↦ rw f (
                  let pos : (m == 0) ≡ false = ground arith in
                  rw pos (
                    search_body-IsEdge top fuel low (m - 1) selected t tm (omega arith) l1
                      (omega arith) (omega arith) l
                      (let next : m - 1 + 1 ≡ m = omega arith in
                        inr (subst (λ k. fits k ≡ false) (sym next) f))))
            ])
      ]

  -- Whatever the budget below `usize::MAX`, the search ends at an edge: with nothing, and then the candidate of the
  -- size 1 does not fit; or with the candidate of a size from 1 to the budget that fits, and then that
  -- size is the budget (at least 1) or the candidate of the next size does not fit.
  pub select_body-IsEdge :
      item_budget < usize_max → IsEdge (max item_budget 1) (select_body show_id hit item_budget)
  unfolding select_body
  select_body-IsEdge h =
      search_body-IsEdge (max item_budget 1) (max item_budget 1) 1 (max item_budget 1) none
        (omega arith) (omega arith) (omega arith) (omega arith) (omega arith) (omega arith) refl
        (inl refl)

  -- A selected body fits: its estimate is that of its fragment, within the budget.
  pub select_body-fits :
      (body : Text) (tokens : ℕ)
      → item_budget < usize_max
      → select_body show_id hit item_budget ≡ some (body, tokens)
      → (tokens ≡ estimate_tokens (fragment show_id hit body)) × (tokens ≤ item_budget)
  select_body-fits body tokens h e =
      let (m, low, high, found, good, next) =
        subst (IsEdge (max item_budget 1)) e (select_body-IsEdge h) in
      (ground arith, ground arith)

  -- A selected body is a truncation of the hit's body.
  pub select_body-truncates :
      (body : Text) (tokens : ℕ)
      → item_budget < usize_max
      → select_body show_id hit item_budget ≡ some (body, tokens)
      → (m : ℕ) × (body ≡ candidate m)
  select_body-truncates body tokens h e =
      let (m, low, high, found, good, next) =
        subst (IsEdge (max item_budget 1)) e (select_body-IsEdge h) in
      (m, ground arith)
