-- ===== src/Checkpoints/Words.antt =====
-- The methods of strings that the checkpoints use.
use super_mem.Base.{Text, ◌||◌, not, List, [], ◌==◌, is_empty, filter}
use super_mem.Store.Words.{is_whitespace, split_at, last_or}

unfoldable pub split_whitespace : Text → List Text
unfolding split_at is_whitespace
split_whitespace s = filter (λ t. not (is_empty t)) (split_at is_whitespace [] s)

-- `rsplit(['/', '\\']).next()`.
unfoldable pub file_name : Text → Text
unfolding split_at last_or
file_name token = last_or (split_at (λ c. c == 47 || c == 92) [] token) []
