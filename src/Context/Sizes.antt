-- ===== src/Context/Sizes.antt =====
-- The characters of a rendering, by its parts.
use super_mem.Base.{
  ℕ, ◌+◌, ◌≤◌, ◌≡◌, inl, inr, Text, ◌&&◌, not, List, [], ◌∷◌, ◌++◌, ltb, ◌==◌, is_empty, length,
  length-append, if◌then◌else◌, Bool-cases, arith,
}
use super_mem.Types.{ContextItem}
use super_mem.Context.Tokens.{estimate_tokens, estimate_tokens_lem, div_ceil3}
use super_mem.Context.Render.{
  section_header, render_warning, render_warnings, warnings_header, render_item, render_items,
  render_sections, render_context,
}
use super_mem.Context.Assemble.{Group, contains_key, push_item, into_sections, sum_warning_tokens}

-- The estimate of a text covers its characters, three to a token.
pub tokens_cover : (t : Text) → div_ceil3 (length t) ≤ estimate_tokens t
tokens_cover t = omega (arith, estimate_tokens_lem t)

pub warnings_cover :
    (ws : List Text) → div_ceil3 (length (render_warnings ws)) ≤ sum_warning_tokens ws
unfolding render_warnings sum_warning_tokens
warnings_cover [] = omega arith
warnings_cover (w ∷ ws) = omega (
  arith,
  length-append (render_warning w) (render_warnings ws),
  tokens_cover (render_warning w),
  warnings_cover ws,
)

length-render_warnings :
    (ws vs : List Text)
    → length (render_warnings (ws ++ vs))
      ≡ length (render_warnings ws) + length (render_warnings vs)
unfolding render_warnings
length-render_warnings [] vs = omega arith
length-render_warnings (w ∷ ws) vs = omega (
  arith,
  length-append (render_warning w) (render_warnings (ws ++ vs)),
  length-append (render_warning w) (render_warnings ws),
  length-render_warnings ws vs,
)

-- The characters of the two parts of a rendering.
unfoldable pub warnings_size : List Text → ℕ
warnings_size ws = if is_empty ws then 0 else length warnings_header + length (render_warnings ws)

pub warnings_size-append :
    (ws vs : List Text)
    → warnings_size (ws ++ vs)
      ≡ warnings_size ws
        + (if not (is_empty vs) && is_empty ws then length warnings_header else 0)
        + length (render_warnings vs)
unfolding warnings_size render_warnings
warnings_size-append [] [] = omega arith
warnings_size-append [] (v ∷ vs) = omega arith
warnings_size-append (w ∷ ws) [] = omega (arith, length-render_warnings (w ∷ ws) [])
warnings_size-append (w ∷ ws) (v ∷ vs) = omega (arith, length-render_warnings (w ∷ ws) (v ∷ vs))

module _ (show_id : ℕ → Text) where
  length-render_items :
      (items : List ContextItem) (item : ContextItem)
      → length (render_items show_id (items ++ item ∷ []))
        ≡ length (render_items show_id items) + length (render_item show_id item)
  unfolding render_items
  length-render_items [] item = omega (arith, length-append (render_item show_id item) [])
  length-render_items (i ∷ items) item = omega (
    arith,
    length-append (render_item show_id i) (render_items show_id (items ++ item ∷ [])),
    length-append (render_item show_id i) (render_items show_id items),
    length-render_items items item,
  )

  abbrev pub sections_size : List Group → ℕ
  sections_size gs = length (render_sections show_id (into_sections gs))

  pub section_size :
      (g : Group) (gs : List Group)
      → sections_size (g ∷ gs)
        ≡ length (section_header g.name) + length (render_items show_id g.items) + sections_size gs
  unfolding render_sections into_sections
  section_size g gs = omega (
    arith,
    length-append (section_header g.name)
        (render_items show_id g.items ++ render_sections show_id (into_sections gs)),
    length-append (render_items show_id g.items) (render_sections show_id (into_sections gs)),
  )

  size_of_one :
      (item : ContextItem)
      → length (render_items show_id (item ∷ [])) ≡ length (render_item show_id item)
  unfolding render_items
  size_of_one item = omega (arith, length-append (render_item show_id item) [])

  -- A new item adds its own characters, and a header if its section is new.
  pub push_item_size :
      (p : ℕ) (section : Text) (item : ContextItem) (gs : List Group)
      → sections_size (push_item p section item gs)
        ≡ sections_size gs
          + (if contains_key p gs then 0 else length (section_header section))
          + length (render_item show_id item)
  unfolding push_item contains_key
  push_item_size p section item [] = omega (
    arith,
    section_size (record { priority = p; name = section; items = item ∷ [] }) [],
    size_of_one item,
  )
  push_item_size p section item (g ∷ gs) = elim (Bool-cases (p == g.priority)) [
    | inl e ↦ rw e (
        omega (
          arith,
          section_size (record g { items = g.items ++ item ∷ [] }) gs,
          section_size g gs,
          length-render_items g.items item,
        ))
    | inr e ↦ rw e (elim (Bool-cases (ltb p g.priority)) [
      | inl f ↦ rw f (
          omega (
            arith,
            section_size (record { priority = p; name = section; items = item ∷ [] }) (g ∷ gs),
            size_of_one item,
          ))
      | inr f ↦ rw f (
          omega (
            arith,
            section_size g (push_item p section item gs),
            section_size g gs,
            push_item_size p section item gs,
          ))
    ])
  ]

  pub rendered_size :
      (gs : List Group) (ws : List Text)
      → length (render_context show_id (into_sections gs) ws) ≡ sections_size gs + warnings_size ws
  unfolding render_context warnings_size
  rendered_size gs [] = omega (arith, length-append (render_sections show_id (into_sections gs)) [])
  rendered_size gs (w ∷ ws) = omega (
    arith,
    length-append (render_sections show_id (into_sections gs))
        (warnings_header ++ render_warnings (w ∷ ws)),
    length-append warnings_header (render_warnings (w ∷ ws)),
  )
