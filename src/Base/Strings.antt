-- ===== src/Base/Strings.antt =====
-- A Rust `String` is the list of its code points.
use Prim.Native.Nat.{ℕ}
use Prim.Native.Char.{code}
use Prim.Native.String.{String}
use mathlib.Core.Path.{◌≡◌, refl}
use mathlib.Core.Logic.{◌↔◌}
use mathlib.Core.Bool.{Bool, true, false, ◌&&◌, ◌||◌}
use mathlib.Core.List.{List, [], ◌∷◌}
use mathlib.Core.Option.{Option, none, some}
use native.Mathlib.Omega.{arith}
use super_mem.Base.Tests.{◌==◌, ltb}

abbrev pub Text : Type 0
Text = List ℕ

-- A string literal.
abbrev pub codes : String → Text
codes String.[] = []
codes (String.◌∷◌ c s) = code c ∷ codes s

-- `==` of strings.
unfoldable pub text_eq : Text → Text → Bool
text_eq [] [] = true
text_eq [] (d ∷ t) = false
text_eq (c ∷ s) [] = false
text_eq (c ∷ s) (d ∷ t) = c == d && text_eq s t

pub text_eq_iff : (s t : Text) → (text_eq s t ≡ true) ↔ (s ≡ t)
unfolding text_eq
text_eq_iff [] [] = ground arith
text_eq_iff [] (d ∷ t) = ground arith
text_eq_iff (c ∷ s) [] = ground arith
text_eq_iff (c ∷ s) (d ∷ t) = ground (arith, text_eq_iff s t)

-- `==` of optional strings.
unfoldable pub option_eq : Option Text → Option Text → Bool
option_eq none none = true
option_eq none (some t) = false
option_eq (some s) none = false
option_eq (some s) (some t) = text_eq s t

pub option_eq_iff : (a b : Option Text) → (option_eq a b ≡ true) ↔ (a ≡ b)
unfolding option_eq
option_eq_iff none none = ground arith
option_eq_iff none (some t) = ground arith
option_eq_iff (some s) none = ground arith
option_eq_iff (some s) (some t) = ground (arith, text_eq_iff s t)

-- The order of strings, which is that of their code points.
unfoldable pub text_ltb : Text → Text → Bool
text_ltb [] [] = false
text_ltb [] (d ∷ t) = true
text_ltb (c ∷ s) [] = false
text_ltb (c ∷ s) (d ∷ t) = let later = text_ltb s t in ltb c d || (c == d && later)

pub text_ltb-transitive :
    (r s t : Text) → text_ltb r s ≡ true → text_ltb s t ≡ true → text_ltb r t ≡ true
unfolding text_ltb
text_ltb-transitive [] [] t h k = ground arith
text_ltb-transitive [] (c ∷ s) [] h k = ground arith
text_ltb-transitive [] (c ∷ s) (d ∷ t) h k = refl
text_ltb-transitive (b ∷ r) [] t h k = ground arith
text_ltb-transitive (b ∷ r) (c ∷ s) [] h k = ground arith
text_ltb-transitive (b ∷ r) (c ∷ s) (d ∷ t) h k = ground (arith, text_ltb-transitive r s t)

pub text_ltb_irreflexive : (s : Text) → text_ltb s s ≡ false
unfolding text_ltb
text_ltb_irreflexive [] = refl
text_ltb_irreflexive (c ∷ s) = ground (arith, text_ltb_irreflexive s)

pub text_ltb_connected : (s t : Text) → text_ltb s t ≡ false → text_ltb t s ≡ false → s ≡ t
unfolding text_ltb
text_ltb_connected [] [] h k = refl
text_ltb_connected [] (d ∷ t) h k = ground arith
text_ltb_connected (c ∷ s) [] h k = ground arith
text_ltb_connected (c ∷ s) (d ∷ t) h k = ground (arith, text_ltb_connected s t)
