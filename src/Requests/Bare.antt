-- ===== src/Requests/Bare.antt =====
-- What `normalize_remote` leaves of an address with a scheme has no @ before its first slash, no
-- question mark and no hash.
use mathlib.Core.Path.{subst}
use mathlib.Core.List.{append_assoc, append-nil}
use super_mem.Base.{
  ◌-◌, ℕ, ◌+◌, ◌≡◌, refl, sym, ◌∙◌, ap, Text, codes, Bool, true, false, ◌&&◌, ◌||◌, none, some,
  List, [], ◌∷◌, ◌++◌, arith, leb, ◌==◌, text_eq, is_empty, length, drop, take-append-drop, All,
  All-append, Bool-cases, inl, inr, if◌then◌else◌,
}
use super_mem.Store.Words.{trim, to_ascii_lowercase, split_at, last_or}
use super_mem.Requests.Paths.{forward_slashes, is_slash}
use super_mem.Requests.Remote.{
  split_once, before, from, host_of, drop_slashes, drop_git, normalize_url, locate,
  normalize_remote,
}

abbrev pub NoAt : ℕ → Type 0
NoAt c = (c == 64) ≡ false

-- A question mark or a hash begins the query or the fragment of an address.
abbrev pub ends_address : ℕ → Bool
ends_address c = c == 63 || c == 35

abbrev pub NoQuery : ℕ → Type 0
NoQuery c = ends_address c ≡ false

module _ (P : ℕ → Type 0) where
  All-before : (ends : ℕ → Bool) (s : Text) → All P s → All P (before ends s)
  unfolding before
  All-before ends [] h = tt
  All-before ends (c ∷ s) h = elim (Bool-cases (ends c)) [
    | inl e ↦ rw e tt
    | inr e ↦ rw e (h.0, All-before ends s h.1)
  ]

  All-from : (ends : ℕ → Bool) (s : Text) → All P s → All P (from ends s)
  unfolding from
  All-from ends [] h = tt
  All-from ends (c ∷ s) h = elim (Bool-cases (ends c)) [
    | inl e ↦ rw e h
    | inr e ↦ rw e (All-from ends s h.1)
  ]

  All-prefix : (xs ys : Text) → All P (xs ++ ys) → All P xs
  All-prefix [] ys h = tt
  All-prefix (x ∷ xs) ys h = (h.0, All-prefix xs ys h.1)

  -- What stands before the end in a prefix stands before the end in the whole.
  before-prefix :
      (ends : ℕ → Bool) (xs ys : Text) → All P (before ends (xs ++ ys)) → All P (before ends xs)
  unfolding before
  before-prefix ends [] ys h = tt
  before-prefix ends (x ∷ xs) ys h = elim (Bool-cases (ends x)) [
    | inl e ↦ rw e tt
    | inr e ↦
        let g = subst (λ b. All P (if b then [] else x ∷ before ends (xs ++ ys))) e h in
        rw e (g.0, before-prefix ends xs ys g.1)
  ]

  -- The path begins with the character that ends the host.
  before-from :
      (ends : ℕ → Bool) (host s : Text) → All P host → All P (before ends (host ++ from ends s))
  unfolding before from
  before-from ends [] [] h = tt
  before-from ends [] (c ∷ s) h = elim (Bool-cases (ends c)) [
    | inl e ↦ rw (e, e) tt
    | inr e ↦ rw e (before-from ends [] s tt)
  ]
  before-from ends (x ∷ host) s h = elim (Bool-cases (ends x)) [
    | inl e ↦ rw e tt
    | inr e ↦ rw e (h.0, before-from ends host s h.1)
  ]

  -- The characters of every part of a split, given those that do not separate.
  All-split_at :
      (sep : ℕ → Bool) (part s : Text)
      → All P part
      → All (λ c. sep c ≡ false → P c) s
      → All (All P) (split_at sep part s)
  unfolding split_at
  All-split_at sep part [] p h = (p, tt)
  All-split_at sep part (c ∷ s) p h = elim (Bool-cases (sep c)) [
    | inl e ↦ rw e (p, All-split_at sep [] s tt h.1)
    | inr e ↦
        rw e (All-split_at sep (part ++ c ∷ []) s (All-append P part (c ∷ []) p (h.0 e, tt)) h.1)
  ]

  All-last_or : (ts : List Text) (t : Text) → All P t → All (All P) ts → All P (last_or ts t)
  unfolding last_or
  All-last_or [] t h k = h
  All-last_or (u ∷ us) t h k = All-last_or us u k.0 k.1

  All-lowercase :
      ((c : ℕ) → P c → P (if leb 65 c && leb c 90 then c + 32 else c))
      → (s : Text) → All P s
      → All P (to_ascii_lowercase s)
  unfolding to_ascii_lowercase
  All-lowercase f [] h = tt
  All-lowercase f (c ∷ s) h = (f c h.0, All-lowercase f s h.1)

drop_slashes-prefix : (s : Text) → (rest : Text) × (drop_slashes s ++ rest ≡ s)
unfolding drop_slashes
drop_slashes-prefix [] = ([], refl)
drop_slashes-prefix (c ∷ s) =
    let (rest, same) = drop_slashes-prefix s in shorter (drop_slashes s) rest same
  where
    shorter :
        (t rest : Text)
        → t ++ rest ≡ s
        → (more : Text) × ((elim t [ [] ↦ if is_slash c then [] else c ∷ [] | d ∷ u ↦ c ∷ d ∷ u ])
              ++ more
            ≡ c ∷ s)
    shorter [] rest same = elim (Bool-cases (is_slash c)) [
      | inl e ↦ (c ∷ s, rw e refl)
      | inr e ↦ (s, rw e refl)
    ]
    shorter (d ∷ u) rest same = (rest, ap (◌∷◌ c) same)

drop_git-prefix : (s : Text) → (rest : Text) × (drop_git s ++ rest ≡ s)
unfolding drop_git
drop_git-prefix s =
    elim (Bool-cases
      (leb 4 (length s) && text_eq (drop (length s - 4) (to_ascii_lowercase s)) (codes ".git"))) [
        | inl e ↦ rw e (drop (length s - 4) s, take-append-drop (length s - 4) s)
        | inr e ↦ rw e ([], append-nil s)
      ]

host_of-NoAt : (authority : Text) → All NoAt (host_of authority)
unfolding host_of
host_of-NoAt authority =
    All-lowercase NoAt (λ c h. ground arith) (last_or (split_at (λ c. c == 64) [] authority) [])
      (All-last_or NoAt (split_at (λ c. c == 64) [] authority) [] tt
        (All-split_at NoAt (λ c. c == 64) [] authority tt (all_of authority)))
  where
    all_of : (s : Text) → All (λ c. (c == 64) ≡ false → NoAt c) s
    all_of [] = tt
    all_of (c ∷ s) = ((λ e. e), all_of s)

host_of-NoQuery : (authority : Text) → All NoQuery authority → All NoQuery (host_of authority)
unfolding host_of
host_of-NoQuery authority h =
    All-lowercase NoQuery (λ c h. ground arith) (last_or (split_at (λ c. c == 64) [] authority) [])
      (All-last_or NoQuery (split_at (λ c. c == 64) [] authority) [] tt
        (All-split_at NoQuery (λ c. c == 64) [] authority tt (all_of authority h)))
  where
    all_of : (s : Text) → All NoQuery s → All (λ c. (c == 64) ≡ false → NoQuery c) s
    all_of [] h = tt
    all_of (c ∷ s) h = ((λ e. h.0), all_of s h.1)

-- What is left of an address is a prefix of its host and path.
trimmed-prefix : (s : Text) → (rest : Text) × (drop_git (drop_slashes s) ++ rest ≡ s)
trimmed-prefix s =
    let (slashes, whole) = drop_slashes-prefix s in
    let (git, part) = drop_git-prefix (drop_slashes s) in
    (
      git ++ slashes,
      sym (append_assoc (drop_git (drop_slashes s)) git slashes)
          ∙ ap (λ t. t ++ slashes) part
          ∙ whole,
    )

All-before_end : (s : Text) → All NoQuery (before ends_address s)
unfolding before
All-before_end [] = tt
All-before_end (c ∷ s) = elim (Bool-cases (ends_address c)) [
  | inl e ↦ rw e tt
  | inr e ↦ rw e (e, All-before_end s)
]

abbrev pub IsBare : Text → Type 0
IsBare address = All NoAt (before is_slash address) × All NoQuery address

normalize_url-IsBare :
    (prefix rest : Text)
    → text_eq (to_ascii_lowercase prefix) (codes "file") ≡ false
    → IsBare (normalize_url prefix rest)
unfolding normalize_url
normalize_url-IsBare prefix rest h =
    let clean = before ends_address rest in
    let host = host_of (before is_slash clean) in
    rw h (
      before-from NoAt is_slash host clean (host_of-NoAt (before is_slash clean)),
      All-append NoQuery host (from is_slash clean)
          (host_of-NoQuery (before is_slash clean)
            (All-before NoQuery is_slash clean (All-before_end rest)))
          (All-from NoQuery is_slash clean (All-before_end rest)),
    )

pub normalize_remote-IsBare :
    (remote prefix rest result : Text)
    → split_once (codes "://") (forward_slashes (trim remote)) ≡ some (prefix, rest)
    → text_eq (to_ascii_lowercase prefix) (codes "file") ≡ false
    → normalize_remote remote ≡ some result
    → (drop_git (drop_slashes (normalize_url prefix rest)) ≡ result) × IsBare result
unfolding normalize_remote locate
normalize_remote-IsBare remote prefix rest result e f h =
    let value = forward_slashes (trim remote) in
    let same : drop_git (drop_slashes (normalize_url prefix rest)) ≡ result =
      chosen (is_empty value) (drop_git (drop_slashes (normalize_url prefix rest))) (
        subst
          (λ o.
            (if is_empty value then none else some (drop_git (drop_slashes (locate value o))))
            ≡ some result)
          e h) in
    let (more, whole) = trimmed-prefix (normalize_url prefix rest) in
    let (user, query) = subst IsBare (sym whole) (normalize_url-IsBare prefix rest f) in
    (
      same,
      subst IsBare same (
        before-prefix NoAt is_slash (drop_git (drop_slashes (normalize_url prefix rest))) more user,
        All-prefix NoQuery (drop_git (drop_slashes (normalize_url prefix rest))) more query,
      ),
    )
  where
    chosen : (b : Bool) (t : Text) → (if b then none else some t) ≡ some result → t ≡ result
    chosen true t h = ground arith
    chosen false t h = ap (λ o. elim o [ none ↦ t | some u ↦ u ]) h
