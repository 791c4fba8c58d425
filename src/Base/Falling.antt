-- ===== src/Base/Falling.antt =====
-- The order by a falling key, and equal keys by a rising identifier.
use Prim.Native.Nat.{ℕ, ◌≤◌, ◌<◌}
use mathlib.Core.Path.{◌≡◌}
use mathlib.Core.Logic.{◌⊎◌}
use mathlib.Core.Bool.{Bool, true, false, ◌&&◌, ◌||◌}
use native.Mathlib.Omega.{arith}
use super_mem.Base.Tests.{ltb, leb, ◌==◌}

-- The first pair has the higher key, or the same key and no higher identifier.
abbrev pub Falls : ℕ × ℕ → ℕ × ℕ → Type 0
Falls (k, i) (l, j) = (l < k) ⊎ ((k ≡ l) × (i ≤ j))

-- The same as a test.
abbrev pub by_key : ℕ × ℕ → ℕ × ℕ → Bool
by_key (k, i) (l, j) = ltb l k || (k == l && leb i j)

pub by_key-Falls : (a b : ℕ × ℕ) → by_key a b ≡ true → Falls a b
by_key-Falls (k, i) (l, j) h = ground arith

pub by_key-total : (a b : ℕ × ℕ) → by_key a b ≡ false → by_key b a ≡ true
by_key-total (k, i) (l, j) h = ground arith

pub by_key-transitive : (a b c : ℕ × ℕ) → by_key a b ≡ true → by_key b c ≡ true → by_key a c ≡ true
by_key-transitive (k, i) (l, j) (m, n) h g = ground arith
