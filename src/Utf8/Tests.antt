-- ===== src/Utf8/Tests.antt =====
-- The truncation of a text with a character of two bytes.
use super_mem.Base.{◌≤◌, refl, Text, [], ◌∷◌, arith}
use super_mem.Utf8.{byte_length, utf8_len, truncate_utf8_bytes}
use super_mem.Utf8.Laws.{IsPrefixOf}
use super_mem.Utf8.Truncation.{truncate_utf8_bytes-longest}

abbrev text : Text
text = 0x61 ∷ 0xe9 ∷ 0x62 ∷ []

small : byte_length (0x61 ∷ []) ≤ 2
unfolding byte_length utf8_len
small = omega arith

truncate_utf8_bytes-longest_example :
    (byte_length (truncate_utf8_bytes text 2) ≤ 2)
    × IsPrefixOf (truncate_utf8_bytes text 2) text
    × (byte_length (0x61 ∷ []) ≤ byte_length (truncate_utf8_bytes text 2))
truncate_utf8_bytes-longest_example =
    truncate_utf8_bytes-longest text 2 (0x61 ∷ [])
      (record { rest = 0xe9 ∷ 0x62 ∷ []; parts = refl }) small
