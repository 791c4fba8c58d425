-- ===== src/Capture.antt =====
-- `cap_automatic_capture` of crates/super-mem-cli/src/hook.rs: the middle of a long capture is left
-- out.
pub mod Bounds
mod Tests
use super_mem.Base.{
  ℕ, zero, suc, ◌+◌, ◌-◌, ◌*◌, ◌/◌, ◌++◌, Text, codes, [], ◌∷◌, leb, if◌then◌else◌,
}
use super_mem.Utf8.{utf8_len, byte_length, is_char_boundary, byte_prefix, last_boundary}

-- `&text[n..]`, where `n` is a boundary.
unfoldable pub drop_bytes : ℕ → Text → Text
drop_bytes zero t = t
drop_bytes (suc n) [] = []
drop_bytes (suc n) (c ∷ t) = drop_bytes (suc n - utf8_len c) t

-- The loop that raises `tail_start`. The fuel is the distance to the end, which is a boundary.
unfoldable pub next_boundary : ℕ → Text → ℕ → ℕ
next_boundary zero value start = start
next_boundary (suc fuel) value start =
    let higher = next_boundary fuel value (suc start) in
    if is_char_boundary value start then start else higher

unfoldable pub cap_at : ℕ → Text → Text → Text
cap_at maximum marker value =
    let content_budget = maximum - byte_length marker in
    let head_end = last_boundary value (content_budget / 2) in
    let tail_budget = content_budget - head_end in
    let tail_start = next_boundary tail_budget value (byte_length value - tail_budget) in
    if leb (byte_length value) maximum
    then value
    else byte_prefix head_end value ++ (marker ++ drop_bytes tail_start value)

-- `CAPTURE_TRUNCATION_MARKER`.
abbrev pub capture_truncation_marker : Text
capture_truncation_marker = codes "\n… [super-mem automatic capture truncated; middle omitted] …\n"

unfoldable pub cap_automatic_capture : Text → Text
unfolding cap_at
cap_automatic_capture value = cap_at (64 * 1024) capture_truncation_marker value
