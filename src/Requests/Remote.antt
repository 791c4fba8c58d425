-- ===== src/Requests/Remote.antt =====
-- `normalize_remote`: the address of a repository without what it needs to log in.
use super_mem.Base.{
  ℕ, ◌-◌, Text, codes, Bool, not, ◌&&◌, ◌||◌, Option, none, some, [], ◌∷◌, ◌++◌, ltb, leb, ◌==◌,
  text_eq, length, is_empty, any, take, drop, if◌then◌else◌,
}
use super_mem.Utf8.{byte_length}
use super_mem.Redaction.{starts_with}
use super_mem.Store.Words.{trim, to_ascii_lowercase, split_at, last_or}
use super_mem.Requests.Paths.{forward_slashes, is_slash}

-- `split_once`, for a pattern that is not empty.
unfoldable pub split_once : Text → Text → Option (Text × Text)
unfolding starts_with
split_once pattern [] = none
split_once pattern (c ∷ s) =
    let later = split_once pattern s in
    if starts_with (c ∷ s) pattern
    then some ([], drop (length pattern) (c ∷ s))
    else elim later [ none ↦ none | some (before, after) ↦ some (c ∷ before, after) ]

-- What stands before the first character that `ends` tells, and the rest from it on.
unfoldable pub before : (ℕ → Bool) → Text → Text
before ends [] = []
before ends (c ∷ s) = let rest = before ends s in if ends c then [] else c ∷ rest

unfoldable pub from : (ℕ → Bool) → Text → Text
from ends [] = []
from ends (c ∷ s) = let rest = from ends s in if ends c then c ∷ s else rest

-- `rsplit('@').next()`, in lower case.
unfoldable pub host_of : Text → Text
unfolding split_at last_or to_ascii_lowercase
host_of authority = to_ascii_lowercase (last_or (split_at (λ c. c == 64) [] authority) [])

-- The loop that pops the slashes at the end.
unfoldable pub drop_slashes : Text → Text
drop_slashes [] = []
drop_slashes (c ∷ s) = elim (drop_slashes s) [
  | [] ↦ if is_slash c then [] else c ∷ []
  | d ∷ t ↦ c ∷ d ∷ t
]

-- The `truncate` of `.git`; its four bytes are four characters.
unfoldable pub drop_git : Text → Text
unfolding to_ascii_lowercase
drop_git value =
    if leb 4 (length value)
      && text_eq (drop (length value - 4) (to_ascii_lowercase value)) (codes ".git")
    then take (length value - 4) value
    else value

-- The branch of an address with a scheme.
unfoldable pub normalize_url : Text → Text → Text
unfolding before from host_of to_ascii_lowercase
normalize_url prefix rest =
    let without_fragment = before (λ c. c == 63 || c == 35) rest in
    let host = host_of (before is_slash without_fragment) in
    let path = from is_slash without_fragment in
    if text_eq (to_ascii_lowercase prefix) (codes "file")
    then codes "file://" ++ (host ++ path)
    else host ++ path

-- The branch of `git@host:owner/repo.git`. The third test of the source follows from the first.
unfoldable pub normalize_scp : Text → Text → Text → Text
unfolding host_of byte_length
normalize_scp value authority path =
    if ltb 1 (byte_length authority) && not (any (λ c. c == 47 || c == 92) authority)
    then host_of authority ++ (47 ∷ path)
    else value

-- The address by the part before `://` and the rest, where there are such.
unfoldable pub locate : Text → Option (Text × Text) → Text
unfolding normalize_url normalize_scp split_once
locate value (some (prefix, rest)) = normalize_url prefix rest
locate value none = elim (split_once (codes ":") value) [
  | none ↦ value
  | some (authority, path) ↦ normalize_scp value authority path
]

unfoldable pub normalize_remote : Text → Option Text
unfolding forward_slashes trim split_once locate drop_slashes drop_git
normalize_remote remote =
    let value = forward_slashes (trim remote) in
    if is_empty value
    then none
    else some (drop_git (drop_slashes (locate value (split_once (codes "://") value))))
