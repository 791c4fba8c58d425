-- ===== src/Requests/Relative.antt =====
-- A path that is accepted names something below the root of the repository.
use mathlib.Core.Path.{subst}
use mathlib.Core.List.{append_assoc, append-nil}
use super_mem.Base.{
  ℕ, ◌≡◌, refl, sym, ◌∙◌, ap, Text, codes, Bool, false, not, ◌&&◌, ◌||◌, List, [], ◌∷◌, ◌++◌, arith,
  ◌==◌, text_eq, is_empty, All, All-append, Bool-cases, inl, inr,
}
use super_mem.Store.Outcome.{
  Outcome, ok, invalid_input, ok_steps, ok-injective, guard_steps, ◌>>=◌, ◌>>◌, guard,
}
use super_mem.Store.Words.{trim, split_at}
use super_mem.Requests.Paths.{
  forward_slashes, is_drive, is_slash, read_components, join_path, starts_with_slash,
  normalize_artifact_path_checked,
}

-- A character that separates nothing.
abbrev InName : ℕ → Type 0
InName c = (is_slash c ≡ false) × ((c == 92) ≡ false)

-- The name of a file or of a folder.
abbrev pub IsName : Text → Type 0
IsName name =
    (is_empty name ≡ false)
    × (text_eq name (codes ".") ≡ false)
    × (text_eq name (codes "..") ≡ false)
    × All InName name

abbrev pub begins_with_drive : List Text → Bool
begins_with_drive [] = false
begins_with_drive (name ∷ names) = is_drive name

-- Names only, at least one, and the first is no drive.
abbrev pub IsRelative : List Text → Type 0
IsRelative names = (is_empty names ≡ false) × All IsName names × (begins_with_drive names ≡ false)

All-forward_slashes : (s : Text) → All (λ c. (c == 92) ≡ false) (forward_slashes s)
unfolding forward_slashes
All-forward_slashes [] = tt
All-forward_slashes (c ∷ s) = (ground arith, All-forward_slashes s)

All-split_at :
    (part s : Text)
    → All InName part
    → All (λ c. (c == 92) ≡ false) s
    → All (All InName) (split_at is_slash part s)
unfolding split_at
All-split_at part [] p h = (p, tt)
All-split_at part (c ∷ s) p h = elim (Bool-cases (is_slash c)) [
  | inl e ↦ rw e (p, All-split_at [] s tt h.1)
  | inr e ↦
      rw e (All-split_at (part ++ c ∷ []) s (All-append InName part (c ∷ []) p ((e, h.0), tt)) h.1)
]

-- The loop keeps names only.
read_components-names :
    (names components result : List Text)
    → All IsName names
    → begins_with_drive names ≡ false
    → All (All InName) components
    → read_components names components ≡ ok result
    → All IsName result × (begins_with_drive result ≡ false)
unfolding read_components
read_components-names names [] result n d h r = (
  subst (All IsName) (ok-injective r) n,
  subst (λ u. begins_with_drive u ≡ false) (ok-injective r) d,
)
read_components-names names (c ∷ rest) result n d h r =
    elim (Bool-cases (is_empty c || text_eq c (codes "."))) [
      | inl e ↦ read_components-names names rest result n d h.1 (ground arith)
      | inr e ↦ elim (Bool-cases (text_eq c (codes ".."))) [
        | inl f ↦ absurd (ground arith)
        | inr f ↦ elim (Bool-cases (is_empty names && is_drive c)) [
          | inl g ↦ absurd (ground arith)
          | inr g ↦
              read_components-names (names ++ c ∷ []) rest result
                (All-append IsName names (c ∷ []) n ((ground arith, ground arith, f, h.0), tt))
                (first names g d) h.1 (ground arith)
        ]
      ]
    ]
  where
    first :
        (names : List Text)
        → (is_empty names && is_drive c) ≡ false
        → begins_with_drive names ≡ false
        → begins_with_drive (names ++ c ∷ []) ≡ false
    first [] g d = g
    first (m ∷ ms) g d = d

split_at-clean :
    (part t rest : Text)
    → All InName t
    → split_at is_slash part (t ++ (47 ∷ rest)) ≡ (part ++ t) ∷ split_at is_slash [] rest
unfolding split_at
split_at-clean part [] rest h = ap (λ u. u ∷ split_at is_slash [] rest) (sym (append-nil part))
split_at-clean part (c ∷ t) rest h = rw (h.0.0) (
    subst
      (λ u. split_at is_slash (part ++ c ∷ []) (t ++ (47 ∷ rest)) ≡ u ∷ split_at is_slash [] rest)
      (append_assoc part (c ∷ []) t) (split_at-clean (part ++ c ∷ []) t rest h.1))

split_at-last : (part t : Text) → All InName t → split_at is_slash part t ≡ (part ++ t) ∷ []
unfolding split_at
split_at-last part [] h = ap (λ u. u ∷ []) (sym (append-nil part))
split_at-last part (c ∷ t) h = rw (h.0.0) (
    subst (λ u. split_at is_slash (part ++ c ∷ []) t ≡ u ∷ []) (append_assoc part (c ∷ []) t)
      (split_at-last (part ++ c ∷ []) t h.1))

split_at-join_path :
    (names : List Text)
    → is_empty names ≡ false
    → All IsName names
    → split_at is_slash [] (join_path names) ≡ names
unfolding join_path
split_at-join_path [] e h = ground arith
split_at-join_path (t ∷ []) e h = split_at-last [] t h.0.3
split_at-join_path (t ∷ u ∷ us) e h =
    split_at-clean [] t (join_path (u ∷ us)) h.0.3
    ∙ ap (◌∷◌ t) (split_at-join_path (u ∷ us) refl h.1)

accepted :
    (portable result : Text)
    → All (λ c. (c == 92) ≡ false) portable
    → (do
      guard (not (is_empty portable || starts_with_slash portable)) invalid_input
      components ← read_components [] (split_at is_slash [] portable)
      guard (not (is_empty components)) invalid_input
      ok (join_path components))
      ≡ ok result
    → IsRelative (split_at is_slash [] result)
accepted portable result plain h =
    let (fine, steps) =
      guard_steps (not (is_empty portable || starts_with_slash portable)) invalid_input
        (read_components [] (split_at is_slash [] portable) >>= named) h in
    let (names, last, read) =
      ok_steps named (read_components [] (split_at is_slash [] portable)) steps in
    let (some_name, joined) =
      guard_steps (not (is_empty names)) invalid_input (ok (join_path names)) last in
    let (good, drive) =
      read_components-names [] (split_at is_slash [] portable) names tt refl
        (All-split_at [] portable tt plain) read in
    let some_names : is_empty names ≡ false = ground arith in
    let back : split_at is_slash [] result ≡ names =
      subst (λ r. split_at is_slash [] r ≡ names) (ok-injective joined)
        (split_at-join_path names some_names good) in
    subst IsRelative (sym back) (some_names, good, drive)
  where
    named : List Text → Outcome Text
    named components = guard (not (is_empty components)) invalid_input >> ok (join_path components)

-- Where a path is accepted, the result splits at its slashes into one or more names: none is empty, `.` or
-- `..`, none contains a backslash, and the first is no drive. So it stays below the root.
pub normalize_artifact_path_checked-IsRelative :
    (path result : Text)
    → normalize_artifact_path_checked path ≡ ok result
    → IsRelative (split_at is_slash [] result)
unfolding normalize_artifact_path_checked
normalize_artifact_path_checked-IsRelative path result h =
    accepted (forward_slashes (trim path)) result (All-forward_slashes (trim path)) h
