-- ===== src/Store/Words.antt =====
-- `str::to_ascii_lowercase`, `str::trim`, and `join(" ")`.
use super_mem.Base.{ℕ, ◌+◌, Text, Bool, ◌&&◌, ◌||◌, List, [], ◌∷◌, ◌++◌, leb, ◌==◌, if◌then◌else◌}

unfoldable pub to_ascii_lowercase : Text → Text
to_ascii_lowercase [] = []
to_ascii_lowercase (c ∷ s) = (if leb 65 c && leb c 90 then c + 32 else c) ∷ to_ascii_lowercase s

-- `char::is_whitespace`: the code points with the property White_Space.
unfoldable pub is_whitespace : ℕ → Bool
is_whitespace c =
    leb 9 c && leb c 13
    || (c == 32
        || (c == 133
            || (c == 160
                || (c == 5760
                    || (leb 8192 c && leb c 8202
                        || (c == 8232
                            || (c == 8233 || (c == 8239 || (c == 8287 || c == 12288)))))))))

unfoldable pub trim_start : Text → Text
unfolding is_whitespace
trim_start [] = []
trim_start (c ∷ s) = let rest = trim_start s in if is_whitespace c then rest else c ∷ s

unfoldable pub trim_end : Text → Text
unfolding is_whitespace
trim_end [] = []
trim_end (c ∷ s) = elim (trim_end s) [
  | [] ↦ if is_whitespace c then [] else c ∷ []
  | d ∷ t ↦ c ∷ d ∷ t
]

unfoldable pub trim : Text → Text
unfolding trim_start trim_end
trim s = trim_end (trim_start s)

unfoldable pub join_words : List Text → Text
join_words [] = []
join_words (w ∷ ws) = elim ws [ [] ↦ w | v ∷ vs ↦ w ++ (32 ∷ join_words ws) ]

-- `str::split` at the characters that `separates` tells; the first argument is the part that was begun.
unfoldable pub split_at : (ℕ → Bool) → Text → Text → List Text
split_at separates part [] = part ∷ []
split_at separates part (c ∷ s) =
    let word = split_at separates (part ++ c ∷ []) s in
    let next = split_at separates [] s in if separates c then part ∷ next else word

unfoldable pub last_or : List Text → Text → Text
last_or [] t = t
last_or (u ∷ us) t = last_or us u
