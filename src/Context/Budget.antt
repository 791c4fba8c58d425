-- ===== src/Context/Budget.antt =====
-- The pack stays within its token budget, with the envelope that the adapters add.
use super_mem.Base.{
  ℕ, ◌+◌, ◌-◌, ◌≤◌, ◌<◌, ◌≡◌, refl, inl, inr, Text, codes, true, false, ◌&&◌, not, some, List, [],
  ◌∷◌, min, is_empty, length, length-append, usize_max, if◌then◌else◌, Bool-cases, Option-cases,
  arith,
}
use super_mem.Types.{RecallHit}
use super_mem.Context.Tokens.{estimate_tokens, estimate_tokens_lem, div_ceil3}
use super_mem.Context.Render.{
  section_header, warnings_header, render_item, render_sections, render_context, context_envelope,
  is_blank,
}
use super_mem.Context.Assemble.{
  Group, Assembly, nothing_yet, contains_key, into_sections, sum_warning_tokens, envelope_reserve,
  section_tokens, warning_header_tokens, fixed_tokens, to_item, section_for, hit_warnings, fragment,
  select_body, accept, item_budget, consider, assemble, pack, compile_context,
}
use super_mem.Context.Search.{select_body-fits}
use super_mem.Context.Sizes.{
  tokens_cover, warnings_cover, warnings_size, warnings_size-append, sections_size, section_size,
  push_item_size, rendered_size,
}

module _ (show_id : ℕ → Text) where
  -- The tokens counted cover what would be rendered, and are within the budget.
  record WithinBudget (render_budget : ℕ) (a : Assembly) : Type 0 where
    covered :
        div_ceil3 (sections_size show_id a.grouped + warnings_size a.warnings) ≤ a.rendered_tokens
    bounded : a.rendered_tokens ≤ render_budget

  pub item_budget_split :
      (render_budget : ℕ) (a : Assembly) (hit : RecallHit) (b : ℕ)
      → item_budget show_id render_budget a hit ≡ some b
      → a.rendered_tokens
          + fixed_tokens a
              (section_for hit.memory.kind).0
              (section_for hit.memory.kind).1
              (hit_warnings show_id hit)
          + b
        ≡ render_budget
  unfolding item_budget
  item_budget_split render_budget a hit b e = ground arith

  fixed_exact :
      (a : Assembly) (p : ℕ) (section : Text) (ws : List Text)
      → fixed_tokens a p section ws < usize_max
      → fixed_tokens a p section ws
        ≡ section_tokens a p section + warning_header_tokens a ws + sum_warning_tokens ws
  unfolding fixed_tokens
  fixed_exact a p section ws h = omega arith

  header_cover :
      (a : Assembly) (p : ℕ) (section : Text)
      → div_ceil3 (if contains_key p a.grouped then 0 else length (section_header section))
        ≤ section_tokens a p section
  unfolding section_tokens
  header_cover a p section = ground (arith, tokens_cover (section_header section))

  warning_header_cover :
      (a : Assembly) (ws : List Text)
      → div_ceil3 (if not (is_empty ws) && is_empty a.warnings then length warnings_header else 0)
        ≤ warning_header_tokens a ws
  unfolding warning_header_tokens
  warning_header_cover a ws = ground (arith, tokens_cover warnings_header)

  render_item-to_item :
      (hit : RecallHit) (body : Text) (tokens : ℕ)
      → length (render_item show_id (to_item hit body tokens)) ≡ length (fragment show_id hit body)
  unfolding render_item to_item fragment
  render_item-to_item hit body tokens = refl

  accept-WithinBudget :
      (render_budget : ℕ) (a : Assembly) (hit : RecallHit) (b : ℕ) (body : Text) (tokens : ℕ)
      → render_budget < usize_max
      → WithinBudget render_budget a
      → item_budget show_id render_budget a hit ≡ some b
      → tokens ≡ estimate_tokens (fragment show_id hit body)
      → tokens ≤ b
      → WithinBudget render_budget (accept show_id hit a (some (body, tokens)))
  unfolding accept
  accept-WithinBudget render_budget a hit b body tokens small inv split est fit =
      let (p, section) = section_for hit.memory.kind in
      let ws = hit_warnings show_id hit in
      let total = item_budget_split render_budget a hit b split in
      let exact = fixed_exact a p section ws (omega arith) in
      record {
        covered = omega (
          arith,
          inv.covered,
          push_item_size show_id p section (to_item hit body tokens) a.grouped,
          warnings_size-append a.warnings ws,
          header_cover a p section,
          warning_header_cover a ws,
          warnings_cover ws,
          render_item-to_item hit body tokens,
          tokens_cover (fragment show_id hit body),
        );
        bounded = omega arith;
      }

  consider-WithinBudget :
      (render_budget : ℕ) (a : Assembly) (hit : RecallHit)
      → render_budget < usize_max
      → WithinBudget render_budget a
      → WithinBudget render_budget (consider show_id render_budget a hit)
  unfolding consider
  consider-WithinBudget render_budget a hit small inv =
      elim (Option-cases (item_budget show_id render_budget a hit)) [
        | inl e ↦ rw (e, consider) inv
        | inr (b, e) ↦
            rw (e, consider)
              (elim (Option-cases (select_body show_id hit b)) [
                | inl f ↦ rw f (unfold accept in inv)
                | inr ((body, tokens), f) ↦ rw f (
                    let small_b : b < usize_max =
                      omega (arith, item_budget_split render_budget a hit b e) in
                    let (est, fit) = select_body-fits show_id hit b body tokens small_b f in
                    accept-WithinBudget render_budget a hit b body tokens small inv e est fit)
              ])
      ]

  assemble-WithinBudget :
      (render_budget : ℕ) (a : Assembly) (hits : List RecallHit)
      → render_budget < usize_max
      → WithinBudget render_budget a
      → WithinBudget render_budget (assemble show_id render_budget a hits)
  unfolding assemble
  assemble-WithinBudget render_budget a [] small inv = inv
  assemble-WithinBudget render_budget a (hit ∷ hits) small inv =
      assemble-WithinBudget render_budget (consider show_id render_budget a hit) hits small
        (consider-WithinBudget render_budget a hit small inv)

  rendered_pos :
      (gs : List Group) (ws : List Text)
      → (is_empty (into_sections gs) && is_empty ws) ≡ false
      → 1 ≤ sections_size show_id gs + warnings_size ws
  unfolding into_sections warnings_size warnings_header section_header
  rendered_pos [] [] h = cc
  rendered_pos [] (w ∷ ws) h = omega arith
  rendered_pos (g ∷ gs) ws h = omega (arith, section_size show_id g gs)

  abbrev rendering : Assembly → Text
  rendering a = render_context show_id (into_sections a.grouped) a.warnings

  rendering_tokens :
      (b : ℕ) (a : Assembly)
      → WithinBudget b a
      → (is_empty (into_sections a.grouped) && is_empty a.warnings) ≡ false
      → (1 ≤ div_ceil3 (length (rendering a))) × (div_ceil3 (length (rendering a)) ≤ b)
  rendering_tokens b a inv e = omega (
    arith,
    inv.covered,
    inv.bounded,
    rendered_size show_id a.grouped a.warnings,
    rendered_pos a.grouped a.warnings e,
  )

  pack-bounded :
      (query_id database_seq token_budget : ℕ) (a : Assembly)
      → WithinBudget (token_budget - envelope_reserve token_budget) a
      → (pack show_id query_id database_seq token_budget a).estimated_tokens ≤ token_budget
  unfolding pack envelope_reserve
  pack-bounded query_id database_seq token_budget a inv =
      elim (Bool-cases (is_empty (into_sections a.grouped) && is_empty a.warnings)) [
        | inl e ↦ rw e (omega arith)
        | inr e ↦ rw e (
            omega (
              arith,
              rendering_tokens (token_budget - min 37 token_budget) a inv e,
              estimate_tokens_lem (rendering a),
            ))
      ]

  length-context_envelope :
      (t : Text) → is_blank t ≡ false → length (context_envelope t) ≡ length t + 109
  unfolding context_envelope
  length-context_envelope t h =
      rw h (omega (arith, length-append t (codes "\n</super-mem-context>")))

  envelope_blank : (t : Text) → is_blank t ≡ true → estimate_tokens (context_envelope t) ≡ 1
  unfolding context_envelope
  envelope_blank t h = rw h (omega (arith, estimate_tokens_lem []))

  envelope-bounded :
      (query_id database_seq token_budget : ℕ) (a : Assembly)
      → 1 ≤ token_budget
      → WithinBudget (token_budget - envelope_reserve token_budget) a
      → estimate_tokens
          (context_envelope (pack show_id query_id database_seq token_budget a).rendered)
        ≤ token_budget
  unfolding pack envelope_reserve
  envelope-bounded query_id database_seq token_budget a pos inv =
      elim (Bool-cases (is_empty (into_sections a.grouped) && is_empty a.warnings)) [
        | inl e ↦ rw (e, envelope_blank [] refl) pos
        | inr e ↦ rw e (elim (Bool-cases (is_blank (rendering a))) [
          | inl blank ↦ rw (envelope_blank (rendering a) blank) pos
          | inr text ↦ omega (
            arith,
            rendering_tokens (token_budget - min 37 token_budget) a inv e,
            length-context_envelope (rendering a) text,
            estimate_tokens_lem (context_envelope (rendering a)),
          )
        ])
      ]

  -- For every list of hits and every non-zero budget of a `usize`: the estimate that the pack
  -- reports is within the budget, and so is the estimate of the rendered text in the envelope that
  -- the adapters put around it.
  pub compile_context-bounded :
      (query_id database_seq token_budget : ℕ) (hits : List RecallHit)
      → 1 ≤ token_budget
      → token_budget ≤ usize_max
      → let p = compile_context show_id query_id database_seq token_budget hits in
        (p.estimated_tokens ≤ token_budget)
        × (estimate_tokens (context_envelope p.rendered) ≤ token_budget)
  unfolding compile_context
  compile_context-bounded query_id database_seq token_budget hits pos fits =
      let b = token_budget - envelope_reserve token_budget in
      let small : b < usize_max = unfold envelope_reserve in omega arith in
      let start : WithinBudget b nothing_yet =
        unfold render_sections into_sections warnings_size in
        record { covered = omega arith; bounded = omega arith } in
      let inv = assemble-WithinBudget b nothing_yet hits small start in
      let a = assemble show_id b nothing_yet hits in
      (
        pack-bounded query_id database_seq token_budget a inv,
        envelope-bounded query_id database_seq token_budget a pos inv,
      )
