-- ===== src/Context/Plain.antt =====
-- Texts with no angle bracket, and the parts of a rendering that are such.
use super_mem.Base.{
  ℕ, zero, suc, ◌+◌, ◌/◌, ◌%◌, ◌≡◌, ◌≢◌, Text, codes, false, List, [], ◌∷◌, ◌++◌, ltb, any, All,
  All-append, inl, inr, Bool-cases, arith,
}
use super_mem.Types.{MemoryKind, Applicability, applicability_as_str}
use super_mem.Context.Render.{
  replace_each, escape_char, is_markup, escape_rendered_data, line_to_space, replace_crlf, cr_to_lf,
  indent_line, show_digits, show_nat, render_title, render_body, section_header, render_warning,
  render_warnings,
}
use super_mem.Context.Assemble.{section_for}

-- Not an angle bracket.
abbrev pub IsPlain : ℕ → Type 0
IsPlain c = (c ≢ b'<') × (c ≢ b'>')

All-replace_each :
    (P Q : ℕ → Type 0) (f : ℕ → Text)
    → ((c : ℕ) → P c → All Q (f c))
    → (t : Text) → All P t
    → All Q (replace_each f t)
unfolding replace_each
All-replace_each P Q f h [] a = tt
All-replace_each P Q f h (c ∷ t) a =
    All-append Q (f c) (replace_each f t) (h c a.0) (All-replace_each P Q f h t a.1)

abbrev Anything : ℕ → Type 0
Anything c = Unit

All-Anything : (t : Text) → All Anything t
All-Anything [] = tt
All-Anything (c ∷ t) = (tt, All-Anything t)

escape_char-IsPlain : (c : ℕ) → All IsPlain (escape_char c)
escape_char-IsPlain c = ground arith

not_markup : (t : Text) → any is_markup t ≡ false → All IsPlain t
not_markup [] h = tt
not_markup (c ∷ t) h = ground (arith, not_markup t)

-- An escaped text has no angle bracket, whatever the text.
pub escape_rendered_data-IsPlain : (t : Text) → All IsPlain (escape_rendered_data t)
unfolding escape_rendered_data
escape_rendered_data-IsPlain t = elim (Bool-cases (any is_markup t)) [
  | inl e ↦ rw e (
      All-replace_each Anything IsPlain escape_char (λ c _. escape_char-IsPlain c) t
        (All-Anything t))
  | inr e ↦ rw e (not_markup t e)
]

replace_crlf-IsPlain : (t : Text) → All IsPlain t → All IsPlain (replace_crlf t)
unfolding replace_crlf
replace_crlf-IsPlain [] h = tt
replace_crlf-IsPlain (c ∷ []) h = h
replace_crlf-IsPlain (c ∷ d ∷ t) h =
    ground (arith, replace_crlf-IsPlain t, replace_crlf-IsPlain (d ∷ t))

line_to_space-IsPlain : (c : ℕ) → IsPlain c → All IsPlain (line_to_space c)
line_to_space-IsPlain c h = ground arith

cr_to_lf-IsPlain : (c : ℕ) → IsPlain c → All IsPlain (cr_to_lf c)
cr_to_lf-IsPlain c h = ground arith

indent_line-IsPlain : (c : ℕ) → IsPlain c → All IsPlain (indent_line c)
indent_line-IsPlain c h = ground arith

pub render_title-IsPlain : (t : Text) → All IsPlain (render_title t)
unfolding render_title
render_title-IsPlain t =
    All-replace_each IsPlain IsPlain line_to_space line_to_space-IsPlain (escape_rendered_data t)
      (escape_rendered_data-IsPlain t)

pub render_body-IsPlain : (t : Text) → All IsPlain (render_body t)
unfolding render_body
render_body-IsPlain t =
    All-replace_each IsPlain IsPlain indent_line indent_line-IsPlain
      (replace_each cr_to_lf (replace_crlf (escape_rendered_data t)))
      (All-replace_each IsPlain IsPlain cr_to_lf cr_to_lf-IsPlain
        (replace_crlf (escape_rendered_data t))
        (replace_crlf-IsPlain (escape_rendered_data t) (escape_rendered_data-IsPlain t)))

show_digits-IsPlain :
    (fuel n : ℕ) (acc : Text) → All IsPlain acc → All IsPlain (show_digits fuel n acc)
unfolding show_digits
show_digits-IsPlain zero n acc h = h
show_digits-IsPlain (suc fuel) n acc h =
    let digit : IsPlain (b'0' + n % 10) = omega arith in
    elim (Bool-cases (ltb n 10)) [
      | inl e ↦ rw e (digit, h)
      | inr e ↦ rw e (show_digits-IsPlain fuel (n / 10) ((b'0' + n % 10) ∷ acc) (digit, h))
    ]

pub show_nat-IsPlain : (n : ℕ) → All IsPlain (show_nat n)
unfolding show_nat
show_nat-IsPlain n = show_digits-IsPlain (suc n) n [] tt

pub applicability-IsPlain : (a : Applicability) → All IsPlain (applicability_as_str a)
unfolding applicability_as_str
applicability-IsPlain Applicability.exact = omega arith
applicability-IsPlain _ = omega arith

pub append-IsPlain : (s t : Text) → All IsPlain s → All IsPlain t → All IsPlain (s ++ t)
append-IsPlain = All-append IsPlain

render_warning-IsPlain : (w : Text) → All IsPlain (render_warning w)
unfolding render_warning
render_warning-IsPlain w =
    append-IsPlain (codes "- ") (escape_rendered_data w ++ codes "\n") (omega arith) (
      append-IsPlain (escape_rendered_data w) (codes "\n") (escape_rendered_data-IsPlain w)
        (omega arith))

pub render_warnings-IsPlain : (ws : List Text) → All IsPlain (render_warnings ws)
unfolding render_warnings
render_warnings-IsPlain [] = tt
render_warnings-IsPlain (w ∷ ws) =
    append-IsPlain (render_warning w) (render_warnings ws) (render_warning-IsPlain w)
      (render_warnings-IsPlain ws)

pub section_for-IsPlain : (k : MemoryKind) → All IsPlain (section_for k).1
unfolding section_for
section_for-IsPlain MemoryKind.fact = omega arith
section_for-IsPlain _ = omega arith

pub section_header-IsPlain : (name : Text) → All IsPlain name → All IsPlain (section_header name)
unfolding section_header
section_header-IsPlain name h =
    append-IsPlain (codes "\n[") (name ++ codes "]\n") (omega arith)
      (append-IsPlain name (codes "]\n") h (omega arith))
