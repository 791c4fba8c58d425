-- ===== src/Context/Safety.antt =====
-- Memory content cannot write an angle bracket into a rendered pack.
use super_mem.Base.{
  ℕ, ◌-◌, ◌&&◌, Text, codes, Option, none, some, List, [], ◌∷◌, ltb, ◌==◌, is_empty, All, inl, inr,
  Bool-cases, Option-cases, arith,
}
use super_mem.Types.{RecallHit, ContextItem}
use super_mem.Context.Render.{
  section_header, render_warnings, warnings_header, render_context_item, render_item, render_items,
  render_sections, render_context,
}
use super_mem.Context.Assemble.{
  Group, Assembly, nothing_yet, push_item, into_sections, to_item, accept, consider, select_body,
  item_budget, assemble, pack, compile_context, envelope_reserve,
}
use super_mem.Context.Plain.{
  IsPlain, append-IsPlain, render_title-IsPlain, render_body-IsPlain, show_nat-IsPlain,
  applicability-IsPlain, render_warnings-IsPlain, section_for-IsPlain, section_header-IsPlain,
}

-- The names of the sections are plain.
abbrev PlainNames : List Group → Type 0
PlainNames gs = All (λ (g : Group). All IsPlain g.name) gs

push_item-PlainNames :
    (p : ℕ) (section : Text) (item : ContextItem) (gs : List Group)
    → All IsPlain section
    → PlainNames gs
    → PlainNames (push_item p section item gs)
unfolding push_item
push_item-PlainNames p section item [] h n = (h, tt)
push_item-PlainNames p section item (g ∷ gs) h n = elim (Bool-cases (p == g.priority)) [
  | inl e ↦ rw e n
  | inr e ↦ rw e (elim (Bool-cases (ltb p g.priority)) [
    | inl f ↦ rw f (h, n)
    | inr f ↦ rw f (n.0, push_item-PlainNames p section item gs h n.1)
  ])
]

module _ (show_id : ℕ → Text) (id_plain : (id : ℕ) → All IsPlain (show_id id)) where
  render_item-IsPlain : (item : ContextItem) → All IsPlain (render_item show_id item)
  unfolding render_item render_context_item
  render_item-IsPlain item = append-IsPlain (codes "- ") _ (omega arith) (
      append-IsPlain _ _ (render_title-IsPlain item.title) (
        append-IsPlain (codes ": ") _ (omega arith) (
          append-IsPlain _ _ (render_body-IsPlain item.body) (
            append-IsPlain (codes " [memory:") _ (omega arith) (
              append-IsPlain _ _ (id_plain item.memory_id) (
                append-IsPlain (codes " rev:") _ (omega arith) (
                  append-IsPlain _ _ (show_nat-IsPlain item.revision) (
                    append-IsPlain (codes "; ") _ (omega arith) (
                      append-IsPlain _ (codes "]\n") (applicability-IsPlain item.applicability)
                        (omega arith))))))))))

  render_items-IsPlain : (items : List ContextItem) → All IsPlain (render_items show_id items)
  unfolding render_items
  render_items-IsPlain [] = tt
  render_items-IsPlain (item ∷ items) =
      append-IsPlain (render_item show_id item) (render_items show_id items)
        (render_item-IsPlain item) (render_items-IsPlain items)

  render_sections-IsPlain :
      (gs : List Group) → PlainNames gs → All IsPlain (render_sections show_id (into_sections gs))
  unfolding render_sections into_sections
  render_sections-IsPlain [] n = tt
  render_sections-IsPlain (g ∷ gs) n =
      append-IsPlain (section_header g.name) _ (section_header-IsPlain g.name n.0) (
        append-IsPlain (render_items show_id g.items) _ (render_items-IsPlain g.items)
          (render_sections-IsPlain gs n.1))

  render_context-IsPlain :
      (gs : List Group) (ws : List Text)
      → PlainNames gs
      → All IsPlain (render_context show_id (into_sections gs) ws)
  unfolding render_context warnings_header
  render_context-IsPlain gs [] n =
      append-IsPlain (render_sections show_id (into_sections gs)) [] (render_sections-IsPlain gs n)
        tt
  render_context-IsPlain gs (w ∷ ws) n = append-IsPlain _ _ (render_sections-IsPlain gs n) (
      append-IsPlain (codes "\n[warnings]\n") (render_warnings (w ∷ ws)) (omega arith)
        (render_warnings-IsPlain (w ∷ ws)))

  accept-PlainNames :
      (hit : RecallHit) (a : Assembly) (found : Option (Text × ℕ))
      → PlainNames a.grouped
      → PlainNames (accept show_id hit a found).grouped
  unfolding accept
  accept-PlainNames hit a none n = n
  accept-PlainNames hit a (some (body, tokens)) n =
      push_item-PlainNames _ _ (to_item hit body tokens) a.grouped
        (section_for-IsPlain hit.memory.kind) n

  consider-PlainNames :
      (b : ℕ) (a : Assembly) (hit : RecallHit)
      → PlainNames a.grouped
      → PlainNames (consider show_id b a hit).grouped
  unfolding consider
  consider-PlainNames b a hit n = elim (Option-cases (item_budget show_id b a hit)) [
    | inl e ↦ rw (e, consider) n
    | inr (budget, e) ↦
        rw (e, consider) (accept-PlainNames hit a (select_body show_id hit budget) n)
  ]

  assemble-PlainNames :
      (b : ℕ) (a : Assembly) (hits : List RecallHit)
      → PlainNames a.grouped
      → PlainNames (assemble show_id b a hits).grouped
  unfolding assemble
  assemble-PlainNames b a [] n = n
  assemble-PlainNames b a (hit ∷ hits) n =
      assemble-PlainNames b (consider show_id b a hit) hits (consider-PlainNames b a hit n)

  -- Where the display of an identifier has no angle bracket, the rendered text of a pack has none,
  -- whatever the titles, bodies and budgets: no memory can close the envelope around it.
  pub compile_context-IsPlain :
      (query_id database_seq token_budget : ℕ) (hits : List RecallHit)
      → All IsPlain (compile_context show_id query_id database_seq token_budget hits).rendered
  unfolding compile_context pack
  compile_context-IsPlain query_id database_seq token_budget hits =
      let b = token_budget - envelope_reserve token_budget in
      let a = assemble show_id b nothing_yet hits in
      let plain =
        render_context-IsPlain a.grouped a.warnings (assemble-PlainNames b nothing_yet hits tt) in
      elim (Bool-cases (is_empty (into_sections a.grouped) && is_empty a.warnings)) [
        | inl e ↦ rw e tt
        | inr e ↦ rw e plain
      ]
