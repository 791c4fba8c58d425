-- ===== src/Capture/Tests.antt =====
-- A capture that is capped.
use super_mem.Base.{ℕ, ◌≤◌, ◌≡◌, ◌⊎◌, ◌++◌, Text, codes, true, arith}
use super_mem.Utf8.{byte_length, utf8_len, is_char_boundary}
use super_mem.Utf8.Laws.{IsPrefixOf}
use super_mem.Capture.{cap_at, drop_bytes}
use super_mem.Capture.Bounds.{IsSuffixOf, cap_at-bounded}

abbrev value : Text
value = codes "abcdéfghij"

abbrev marker : Text
marker = codes ".."

small : byte_length marker ≤ 6
unfolding byte_length utf8_len
small = omega arith

cap_at-bounded_example :
    (byte_length (cap_at 6 marker value) ≤ 6)
    × ((cap_at 6 marker value ≡ value)
        ⊎ ((head : Text) × (start : ℕ) × IsPrefixOf head value
            × (is_char_boundary value start ≡ true)
            × IsSuffixOf (drop_bytes start value) value
            × (cap_at 6 marker value ≡ head ++ (marker ++ drop_bytes start value))))
cap_at-bounded_example = cap_at-bounded 6 marker value small
