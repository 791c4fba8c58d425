-- ===== src/Utf8.antt =====
-- Strings as UTF-8 bytes: what the program takes from `str`, and `truncate_utf8_bytes` of
-- crates/super-mem-core/src/engine.rs.
pub mod Laws
pub mod Truncation
mod Tests
use super_mem.Base.{
  ℕ, zero, suc, ◌+◌, ◌-◌, ◌/◌, ◌%◌, ◌++◌, Text, Bool, true, false, ◌&&◌, Option, none, some, List,
  [], ◌∷◌, ltb, leb, ◌==◌, all, if◌then◌else◌,
}

-- The number of bytes of one code point.
unfoldable pub utf8_len : ℕ → ℕ
utf8_len c = if ltb c 0x80 then 1 else if ltb c 0x800 then 2 else if ltb c 0x10000 then 3 else 4

-- `str::len`.
unfoldable pub byte_length : Text → ℕ
byte_length [] = 0
byte_length (c ∷ t) = utf8_len c + byte_length t

-- `str::is_ascii`.
unfoldable pub is_ascii : Text → Bool
is_ascii t = all (λ c. ltb c 0x80) t

-- `str::is_char_boundary`.
unfoldable pub is_char_boundary : Text → ℕ → Bool
is_char_boundary t zero = true
is_char_boundary [] (suc i) = false
is_char_boundary (c ∷ t) (suc i) =
    let rest = is_char_boundary t (suc i - utf8_len c) in
    if leb (utf8_len c) (suc i) then rest else false

-- The characters that lie whole within the first `n` bytes: `&text[..n]` and `String::truncate(n)`
-- where `n` is a boundary.
unfoldable pub byte_prefix : ℕ → Text → Text
byte_prefix n [] = []
byte_prefix n (c ∷ t) = if leb (utf8_len c) n then c ∷ byte_prefix (n - utf8_len c) t else []

-- `str::rfind`: the byte position of the last character that passes the test.
unfoldable pub rfind : (ℕ → Bool) → Text → Option ℕ
rfind p [] = none
rfind p (c ∷ t) = elim (rfind p t) [
  | some i ↦ some (utf8_len c + i)
  | none ↦ if p c then some 0 else none
]

-- The loop of `truncate_utf8_bytes`, by recursion on `end`.
unfoldable pub last_boundary : Text → ℕ → ℕ
last_boundary value zero = zero
last_boundary value (suc end) =
    let lower = last_boundary value end in
    if is_char_boundary value (suc end) then suc end else lower

unfoldable pub truncate_utf8_bytes : Text → ℕ → Text
truncate_utf8_bytes value maximum =
    if leb (byte_length value) maximum
    then value
    else byte_prefix (last_boundary value maximum) value

-- `str::as_bytes`: the UTF-8 bytes. A code point is below 0x110000.
unfoldable pub encode_char : ℕ → List ℕ
encode_char c =
    if ltb c 0x80
    then c ∷ []
    else if ltb c 0x800
    then (0xc0 + c / 64) ∷ (0x80 + c % 64) ∷ []
    else if ltb c 0x10000
    then (0xe0 + c / 4096) ∷ (0x80 + c / 64 % 64) ∷ (0x80 + c % 64) ∷ []
    else (0xf0 + c / 262144) ∷ (0x80 + c / 4096 % 64) ∷ (0x80 + c / 64 % 64) ∷ (0x80 + c % 64) ∷ []

unfoldable pub as_bytes : Text → List ℕ
unfolding encode_char
as_bytes [] = []
as_bytes (c ∷ t) = encode_char c ++ as_bytes t
