-- ===== src/Applicability/Framing.antt =====
-- What the hashers are fed is an unambiguous encoding.
use mathlib.Core.List.{append_assoc, append-nil}
use super_mem.Base.{
  ℕ, ◌+◌, ◌*◌, ◌/◌, ◌%◌, ◌^◌, ◌≤◌, ◌≡◌, refl, sym, ap, ◌∙◌, Text, codes, Option, none, some, List,
  [], ◌∷◌, ◌++◌, usize_max, arith,
}
use super_mem.Utf8.{byte_length, as_bytes, encode_char, utf8_len}
use super_mem.Utf8.Laws.{utf8_len_pos}
use super_mem.Applicability.Digests.{
  to_le_bytes, length_framed, symbol_bytes, identity_input, content_input,
}

-- A character is read back from the front of its encoding.
encode_char-injective :
    (c d : ℕ) (s t : List ℕ) → encode_char c ++ s ≡ encode_char d ++ t → (c ≡ d) × (s ≡ t)
unfolding encode_char
encode_char-injective c d s t e = (ground arith, ground arith)

as_bytes-injective :
    (a b : Text) (s t : List ℕ)
    → byte_length a ≡ byte_length b
    → as_bytes a ++ s ≡ as_bytes b ++ t
    → (a ≡ b) × (s ≡ t)
unfolding as_bytes byte_length
as_bytes-injective [] [] s t l e = (refl, e)
as_bytes-injective [] (d ∷ b) s t l e = absurd (omega (arith, utf8_len_pos d))
as_bytes-injective (c ∷ a) [] s t l e = absurd (omega (arith, utf8_len_pos c))
as_bytes-injective (c ∷ a) (d ∷ b) s t l e =
    let (p, q) = encode_char-injective c d (as_bytes a ++ s) (as_bytes b ++ t) (
      sym (append_assoc (encode_char c) (as_bytes a) s)
      ∙ (e ∙ append_assoc (encode_char d) (as_bytes b) t)) in
    let same = ap utf8_len p in let (r, u) = as_bytes-injective a b s t (omega arith) q in (cc, u)

-- A number is the value of its eight bytes.
le_value :
    (n : ℕ)
    → n ≤ usize_max
    → n
      ≡ n % 256
        + 2 ^ 8 * (n / 2 ^ 8 % 256)
        + 2 ^ 16 * (n / 2 ^ 16 % 256)
        + 2 ^ 24 * (n / 2 ^ 24 % 256)
        + 2 ^ 32 * (n / 2 ^ 32 % 256)
        + 2 ^ 40 * (n / 2 ^ 40 % 256)
        + 2 ^ 48 * (n / 2 ^ 48 % 256)
        + 2 ^ 56 * (n / 2 ^ 56 % 256)
le_value n h = omega arith

cons_parts : (a b : ℕ) (s t : List ℕ) → ◌≡◌ {A = List ℕ} (a ∷ s) (b ∷ t) → (a ≡ b) × (s ≡ t)
cons_parts a b s t e = (cc, cc)

to_le_bytes-injective :
    (n m : ℕ) (s t : List ℕ)
    → n ≤ usize_max
    → m ≤ usize_max
    → to_le_bytes n ++ s ≡ to_le_bytes m ++ t
    → (n ≡ m) × (s ≡ t)
unfolding to_le_bytes
to_le_bytes-injective n m s t hn hm e =
    let (a, e) = cons_parts _ _ _ _ e in
    let (b, e) = cons_parts _ _ _ _ e in
    let (c, e) = cons_parts _ _ _ _ e in
    let (d, e) = cons_parts _ _ _ _ e in
    let (f, e) = cons_parts _ _ _ _ e in
    let (g, e) = cons_parts _ _ _ _ e in
    let (h, e) = cons_parts _ _ _ _ e in
    let (i, e) = cons_parts _ _ _ _ e in (cc (le_value n hn, le_value m hm), e)

length_framed-injective :
    (a b : Text) (s t : List ℕ)
    → byte_length a ≤ usize_max
    → byte_length b ≤ usize_max
    → length_framed a ++ s ≡ length_framed b ++ t
    → (a ≡ b) × (s ≡ t)
unfolding length_framed
length_framed-injective a b s t ha hb e =
    let (same, rest) =
      to_le_bytes-injective (byte_length a) (byte_length b) (as_bytes a ++ s) (as_bytes b ++ t) ha
        hb
        (sym (append_assoc (to_le_bytes (byte_length a)) (as_bytes a) s)
          ∙ (e ∙ append_assoc (to_le_bytes (byte_length b)) (as_bytes b) t)) in
    as_bytes-injective a b s t same rest

-- The text of an optional symbol fits a `usize`.
abbrev pub SymbolFits : Option Text → Type 0
SymbolFits none = Unit
SymbolFits (some t) = byte_length t ≤ usize_max

symbol_bytes-injective :
    (a b : Option Text) → SymbolFits a → SymbolFits b → symbol_bytes a ≡ symbol_bytes b → a ≡ b
unfolding symbol_bytes
symbol_bytes-injective none none ha hb e = refl
symbol_bytes-injective none (some t) ha hb e = cc
symbol_bytes-injective (some s) none ha hb e = cc
symbol_bytes-injective (some s) (some t) ha hb e =
    let (tag, rest) = cons_parts _ _ _ _ e in
    ap some
      (length_framed-injective s t [] [] ha hb
        (append-nil (length_framed s) ∙ (rest ∙ sym (append-nil (length_framed t))))).0

-- Texts that fit a `usize` and give the hasher of identities the same bytes are the same
-- repository, path and symbol.
pub identity_input-injective :
    (repo path : Text) (symbol : Option Text) (repo' path' : Text) (symbol' : Option Text)
    → (byte_length repo ≤ usize_max) × (byte_length path ≤ usize_max) × SymbolFits symbol
    → (byte_length repo' ≤ usize_max) × (byte_length path' ≤ usize_max) × SymbolFits symbol'
    → identity_input repo path symbol ≡ identity_input repo' path' symbol'
    → (repo ≡ repo') × (path ≡ path') × (symbol ≡ symbol')
unfolding identity_input
identity_input-injective repo path symbol repo' path' symbol' h h' e =
    let domain = codes "super-mem:artifact-identity:v1" in
    let (p, e) =
      length_framed-injective domain domain _ _ (unfold byte_length utf8_len in omega arith)
        (unfold byte_length utf8_len in omega arith) e in
    let (q, e) = length_framed-injective repo repo' _ _ h.0 h'.0 e in
    let (r, e) = length_framed-injective path path' _ _ h.1 h'.1 e in
    (q, r, symbol_bytes-injective symbol symbol' h.2 h'.2 e)

pub content_input-injective :
    (a b : Text)
    → byte_length a ≤ usize_max
    → byte_length b ≤ usize_max
    → content_input a ≡ content_input b
    → a ≡ b
unfolding content_input
content_input-injective a b ha hb e =
    let domain = codes "super-mem:artifact-content:v1" in
    let (p, e) =
      length_framed-injective domain domain _ _ (unfold byte_length utf8_len in omega arith)
        (unfold byte_length utf8_len in omega arith) e in
    (length_framed-injective a b [] [] ha hb
      (append-nil (length_framed a) ∙ (e ∙ sym (append-nil (length_framed b))))).0
